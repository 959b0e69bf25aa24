-- ===== src/Package/Modules/Alias.antt =====
-- Which imports the callback finds: the loop keeps a module under its normalized path, and under
-- another path only when an entry leads to the module again.
use blueboat.Prelude.{
  ℕ, Bytes, true, false, List, Option, none, some, some_inj, eqb, Bool-cases, ◌≡◌, ◌↔◌, refl, sym,
  ◌∙◌, subst, inl, inr, eqb_refl,
}
use blueboat.Prelude.Table.{Table, lookup, insert, lookup-insert}
use blueboat.Package.{VfsNode, transform_rel_path, normalize_path}
use blueboat.Package.Modules.{finished, LoadState, aliased, visit, module_resolve_callback}
use blueboat.Package.Modules.Round.{IsVisit, visit_inv}

some_ne_none {ℓ} : {A : Type ℓ} {x : A} → some x ≡ none → ⊥
some_ne_none h = cc

-- The entry leads by a path that is not the module's own, to a module that is not loaded, and the
-- path is no key of the map.
abbrev pub IsFirstByAlias : {M : Type 0} → Table M → Bytes → Bytes → Type 0
IsFirstByAlias m path np = (lookup np m ≡ none) × (eqb np path ≡ false) × (lookup path m ≡ none)

new_iff :
    {M : Type 0} (path np : Bytes) (m : Table M) (x : M)
    → lookup np m ≡ none
    → (lookup path (insert np x m) ≡ none) ↔ IsFirstByAlias m path np
new_iff path np m x new = elim (Bool-cases (eqb np path)) [
  | inl same ↦ (
    λ h. absurd (some_ne_none {x = x} (sym (lookup-insert np path x m ∙ rw same refl) ∙ h)),
    λ h. absurd (true_ne_false (sym same ∙ h.1)),
  )
  | inr other ↦ (
    λ h. (new, other, sym (lookup-insert np path x m ∙ rw other refl) ∙ h),
    λ h. lookup-insert np path x m ∙ rw other (h.2),
  )
]
  where
    true_ne_false : true ≡ false → ⊥
    true_ne_false h = cc

module _ {M : Type 0} (compile : Bytes → Bytes → ℕ → Option M) (requests : M → List Bytes) where
  -- After a round, the callback fails on the import that the round was for exactly when the round
  -- loaded a module for the first time, by a path that is not its normalized path and that was no
  -- key before.
  callback_fails_iff :
      (root : VfsNode) (e : Bytes × Bytes) (st st' : LoadState M) (np : Bytes)
      → normalize_path root (transform_rel_path e.0 e.1) ≡ some np
      → visit compile requests root e st ≡ finished st'
      → (module_resolve_callback st'.modules e.0 e.1 ≡ none)
        ↔ IsFirstByAlias st.modules (transform_rel_path e.0 e.1) np
  unfolding module_resolve_callback
  callback_fails_iff root e st st' np n v =
      let (t, good, how) = visit_inv compile requests root e st st' v in
      let at : t ≡ np = some_inj (sym good ∙ n) in
      by_round (subst (IsVisit compile requests root e st st') at how)
    where
      path : Bytes
      path = transform_rel_path e.0 e.1

      by_round :
          IsVisit compile requests root e st st' np
          → (lookup path st'.modules ≡ none) ↔ IsFirstByAlias st.modules path np
      by_round (inl (x, known, same)) = (
        λ h. absurd (some_ne_none (sym (found x same) ∙ h)),
        λ h. absurd (some_ne_none (sym known ∙ h.0)),
      )
        where
          found :
              (x : M) → aliased compile requests path st x ≡ st' → lookup path st'.modules ≡ some x
          found x same =
              subst (λ s. lookup path s.modules ≡ some x) same
                (lookup-insert path path x st.modules ∙ rw (eqb_refl path) refl)
      by_round (inr (x, new, l, same)) =
          subst (λ s. (lookup path s.modules ≡ none) ↔ IsFirstByAlias st.modules path np) same
            (new_iff path np st.modules x new)
