-- ===== src/Package/Modules/Round.antt =====
-- How a round of the loop ends, read backwards.
use blueboat.Prelude.{ℕ, Bytes, List, Option, none, some, Option-cases, ◌≡◌, refl, ◌⊎◌, inl, inr}
use blueboat.Prelude.Table.{lookup}
use blueboat.Package.{VfsNode, transform_rel_path, normalize_path}
use blueboat.Package.Modules.{
  Outcome, finished, gives_none, panics, after, LoadState, load_single_module, loaded, aliased,
  enter, visit,
}

module _ {M : Type 0} (compile : Bytes → Bytes → ℕ → Option M) (requests : M → List Bytes) where
  after_finished {ℓ κ} :
      {A : Type ℓ} {B : Type κ} (o : Outcome A) (f : A → Outcome B) (b : B)
      → after o f ≡ finished b
      → (a : A) × (o ≡ finished a) × (f a ≡ finished b)
  after_finished (finished a) f b h = (a, refl, h)
  after_finished gives_none f b h = cc
  after_finished panics f b h = cc

  finished_inj : {a b : LoadState M} → finished a ≡ finished b → a ≡ b
  finished_inj h = cc

  -- How a round that goes on has ended.
  abbrev pub IsVisit : VfsNode → Bytes × Bytes → LoadState M → LoadState M → Bytes → Type 0
  IsVisit root e st st' np =
      ((x : M) × (lookup np st.modules ≡ some x)
        × (aliased compile requests (transform_rel_path e.0 e.1) st x ≡ st'))
      ⊎ ((x : M) × (lookup np st.modules ≡ none)
          × (load_single_module compile requests root np st.script_id ≡ finished x)
          × (loaded compile requests np st x ≡ st'))

  enter_inv :
      (root : VfsNode) (e : Bytes × Bytes) (st st' : LoadState M) (np : Bytes)
      → enter compile requests root (transform_rel_path e.0 e.1) np st (lookup np st.modules)
        ≡ finished st'
      → IsVisit root e st st' np
  enter_inv root e st st' np h = elim (Option-cases (lookup np st.modules)) [
    | inr (x, known) ↦ inl (x, known, finished_inj (rw known at h))
    | inl new ↦
        let (x, l, ends) =
          after_finished (load_single_module compile requests root np st.script_id)
            (λ x. finished (loaded compile requests np st x)) st' (rw new at h) in
        inr (x, new, l, finished_inj ends)
  ]

  pub visit_inv :
      (root : VfsNode) (e : Bytes × Bytes) (st st' : LoadState M)
      → visit compile requests root e st ≡ finished st'
      → (np : Bytes) × (normalize_path root (transform_rel_path e.0 e.1) ≡ some np)
        × IsVisit root e st st' np
  unfolding visit
  visit_inv root e st st' h =
      elim (Option-cases (normalize_path root (transform_rel_path e.0 e.1))) [
        | inl bad ↦ absurd (panics_ne (rw bad at h))
        | inr (np, good) ↦ (np, good, enter_inv root e st st' np (rw good at h))
      ]
    where
      panics_ne : panics ≡ finished st' → ⊥
      panics_ne h = cc
