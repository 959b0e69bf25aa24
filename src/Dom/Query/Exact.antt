-- ===== src/Dom/Query/Exact.antt =====
-- src/api/text/dom/query.rs: the nodes that the callback is called with.
use blueboat.Prelude.{
  ℕ, zero, suc, Bool, true, false, List, [], ◌∷◌, Option, none, some, if◌then◌else◌, ◌≡◌, ◌↔◌, ◌⊎◌,
  inl, inr, refl, sym, ap, ◌∙◌, subst, Any, arith, some_inj,
}
use blueboat.Registry.{put_new}
use blueboat.Dom.{FilterExpr, eval, Node, World, dom_tag, returned}
use blueboat.Dom.Tree.{In}
use blueboat.Dom.Query.{
  run_ops, Callback, recurses, next_of, called, entered, rest_of, for_each, below, walk,
}

-- The nodes that a search from a node finds, by paths: it goes on below a node that the filter passes
-- over, and below one that it takes where the callback's answer is `true`.
pub data Found (nodes : ℕ → Node) (expr : FilterExpr) (keep : ℕ → Bool) : ℕ → ℕ → Type 0 where
  here : (n : ℕ) → eval expr (nodes n).data_of ≡ true → Found nodes expr keep n n
  inner :
      (n c m : ℕ)
      → In c (nodes n).children
      → (eval expr (nodes n).data_of ≡ true → keep n ≡ true)
      → Found nodes expr keep c m
      → Found nodes expr keep n m

module _ (nodes : ℕ → Node) (expr : FilterExpr) (root : ℕ) (callback : Callback) (keep : ℕ → Bool)
    (answers : (k n : ℕ) (vs : List ℕ) (w : World)
      → w.visited ≡ n ∷ vs
      → callback k w ≡ ([], returned (some (keep n)))) where
  -- What a part of the search leaves: the nodes, and the calls that it has added.
  abbrev Adds : World → (ℕ → Type 0) → Option (Bool × World) → Type 0
  Adds w P o =
      (b : Bool) (w' : World)
      → o ≡ some (b, w')
      → (b ≡ true) × (w'.nodes ≡ nodes) × ((m : ℕ) → In m w'.visited ↔ (In m w.visited ⊎ P m))

  nothing_added : (w : World) → w.nodes ≡ nodes → Adds w (λ m. ⊥) (some (true, w))
  nothing_added w at b w' e =
      let h = some_inj e in
      (
        ap (λ x. x.0) (sym h),
        ap (λ x. x.1.nodes) (sym h) ∙ at,
        λ m. rw (ap (λ x. x.1) (sym h)) (ground arith),
      )

  more_added :
      (w : World) (P Q R : ℕ → Type 0) (o : Option (Bool × World))
      → ((m : ℕ) → (P m ⊎ Q m) ↔ R m)
      → (w₁ : World) → ((m : ℕ) → In m w₁.visited ↔ (In m w.visited ⊎ P m))
      → Adds w₁ Q o
      → Adds w R o
  more_added w P Q R o r w₁ h a b w' e =
      let (t, same, q) = a b w' e in (t, same, λ m. ground (arith, r m, h m, q m))

  rest_of-Adds :
      (w : World) (P Q R : ℕ → Type 0) (o : Option (Bool × World))
      (k : World → Option (Bool × World))
      → ((m : ℕ) → (P m ⊎ Q m) ↔ R m)
      → Adds w P o
      → ((w₁ : World) → w₁.nodes ≡ nodes → Adds w₁ Q (k w₁))
      → Adds w R (rest_of o k)
  rest_of-Adds w P Q R none k r a h b w' e = cc
  rest_of-Adds w P Q R (some (true, w₁)) k r a h b w' e =
      let (t, same, p) = a true w₁ refl in more_added w P Q R (k w₁) r w₁ p (h w₁ same) b w' e
  rest_of-Adds w P Q R (some (false, w₁)) k r a h b w' e =
      let (t, same, p) = a false w₁ refl in absurd (cc t)

  for_each-Adds :
      (g : ℕ → World → Option (Bool × World)) (P : ℕ → ℕ → Type 0)
      → ((c : ℕ) (w : World) → w.nodes ≡ nodes → Adds w (P c) (g c w))
      → (cs : List ℕ) (w : World) → w.nodes ≡ nodes
      → Adds w (λ m. Any (λ c. P c m) cs) (for_each g cs w)
  unfolding for_each
  for_each-Adds g P h [] w at = nothing_added w at
  for_each-Adds g P h (c ∷ cs) w at =
      rest_of-Adds w (P c) (λ m. Any (λ d. P d m) cs) (λ m. Any (λ d. P d m) (c ∷ cs)) (g c w)
        (for_each g cs) (λ m. ((λ x. x), λ x. x)) (h c w at) (for_each-Adds g P h cs)

  abbrev FoundAt : ℕ → ℕ → Type 0
  FoundAt n m = Found nodes expr keep n m

  some_of : (P : ℕ → Type 0) (cs : List ℕ) → Any P cs → (c : ℕ) × In c cs × P c
  some_of P [] a = elim a [ ]
  some_of P (x ∷ xs) (inl p) = (x, inl refl, p)
  some_of P (x ∷ xs) (inr q) = let (c, i, p) = some_of P xs q in (c, inr i, p)

  placed : (P : ℕ → Type 0) (c : ℕ) (cs : List ℕ) → In c cs → P c → Any P cs
  placed P c [] i p = elim i [ ]
  placed P c (x ∷ xs) (inl e) p = inl (subst P (sym e) p)
  placed P c (x ∷ xs) (inr i) p = inr (placed P c xs i p)

  -- The children of a node that is not passed over.
  open_lem :
      (n : ℕ)
      → (eval expr (nodes n).data_of ≡ true → keep n ≡ true)
      → (m : ℕ)
      → ((((n ≡ m) × (eval expr (nodes n).data_of ≡ true))
            ⊎ Any (λ c. FoundAt c m) (nodes n).children)
          ↔ FoundAt n m)
  open_lem n goes m = (into, out m)
    where
      into :
          ((n ≡ m) × (eval expr (nodes n).data_of ≡ true))
            ⊎ Any (λ c. FoundAt c m) (nodes n).children
          → FoundAt n m
      into (inl (e, b)) = subst (FoundAt n) e (here n b)
      into (inr a) =
          let (c, i, f) = some_of (λ c. FoundAt c m) (nodes n).children a in inner n c m i goes f

      out :
          (m : ℕ)
          → FoundAt n m
          → ((n ≡ m) × (eval expr (nodes n).data_of ≡ true))
            ⊎ Any (λ c. FoundAt c m) (nodes n).children
      out _ (here _ b) = inl (refl, b)
      out m (inner _ c _ i g f) = inr (placed (λ c. FoundAt c m) c (nodes n).children i f)

  -- A node that the callback does not go below.
  closed_lem :
      (n : ℕ)
      → eval expr (nodes n).data_of ≡ true
      → keep n ≡ false
      → (m : ℕ) → ((n ≡ m) ⊎ ⊥) ↔ FoundAt n m
  closed_lem n b k m = (into, out m)
    where
      into : (n ≡ m) ⊎ ⊥ → FoundAt n m
      into (inl e) = subst (FoundAt n) e (here n b)
      into (inr e) = elim e [ ]

      out : (m : ℕ) → FoundAt n m → (n ≡ m) ⊎ ⊥
      out _ (here _ _) = inl refl
      out m (inner _ c _ i g f) = let e = g b in cc (e, k)

  abbrev noted : ℕ → World → World
  noted n w = record w {
    registry =
        (put_new (record { tag = dom_tag; object = record { root = root; node = n } })
          w.registry).1;
    visited = n ∷ w.visited;
  }

  called_lem :
      (n : ℕ) (w : World)
      → called root callback n w ≡ (next_of (returned (some (keep n))), noted n w)
  unfolding run_ops
  called_lem n w =
      let sym =
        (put_new (record { tag = dom_tag; object = record { root = root; node = n } })
          w.registry).0 in
      rw (answers sym n w.visited (noted n w) refl) refl

  entered_lem :
      (n : ℕ) (w : World)
      → w.nodes ≡ nodes
      → (b : Bool) → eval expr (nodes n).data_of ≡ b
      → entered expr root callback n w
        ≡ (if b then (next_of (returned (some (keep n))), noted n w) else (recurses, w))
  entered_lem n w at b e =
      ap (λ x. if x then called root callback n w else (recurses, w))
        (ap (λ f. eval expr (f n).data_of) at ∙ e)
      ∙ ap (λ y. if b then y else (recurses, w)) (called_lem n w)

  children_Adds :
      (g : ℕ → World → Option (Bool × World)) (n : ℕ)
      → ((c : ℕ) (w : World) → w.nodes ≡ nodes → Adds w (FoundAt c) (g c w))
      → (w : World) → w.nodes ≡ nodes
      → Adds w (λ m. Any (λ c. FoundAt c m) (nodes n).children) (below g n (recurses, w))
  children_Adds g n h w at =
      subst
        (λ f. Adds w (λ m. Any (λ c. FoundAt c m) (nodes n).children) (for_each g (f n).children w))
        (sym at) (for_each-Adds g FoundAt h (nodes n).children w at)

  below-Adds :
      (g : ℕ → World → Option (Bool × World)) (n : ℕ)
      → ((c : ℕ) (w : World) → w.nodes ≡ nodes → Adds w (FoundAt c) (g c w))
      → (w : World) → w.nodes ≡ nodes
      → (b k : Bool) → eval expr (nodes n).data_of ≡ b
      → keep n ≡ k
      → Adds w
          (FoundAt n)
          (below g n (if b then (next_of (returned (some k)), noted n w) else (recurses, w)))
  below-Adds g n h w at false k e ek =
      more_added w (λ m. ⊥) (λ m. Any (λ c. FoundAt c m) (nodes n).children) (FoundAt n) _
        (λ m. ground (arith, e, open_lem n (λ t. cc (t, e)) m)) w (λ m. ground arith)
        (children_Adds g n h w at)
  below-Adds g n h w at true true e ek =
      more_added w (λ m. n ≡ m) (λ m. Any (λ c. FoundAt c m) (nodes n).children) (FoundAt n) _
        (λ m. ground (arith, e, open_lem n (λ t. ek) m)) (noted n w) (λ m. ground arith)
        (children_Adds g n h (noted n w) at)
  below-Adds g n h w at true false e ek =
      more_added w (λ m. n ≡ m) (λ m. ⊥) (FoundAt n) _ (closed_lem n e ek) (noted n w)
        (λ m. ground arith) (nothing_added (noted n w) at)

  -- A search whose callback answers for each node, and changes no node, is not given up and leaves the
  -- nodes as they are. Where it ends within the depth, the callback has been called with exactly the
  -- nodes that satisfy the filter, on a path on which it has answered `true` for each node that
  -- satisfies it too.
  pub walk_exact :
      (d n : ℕ) (w : World)
      → w.nodes ≡ nodes
      → (b : Bool) (w' : World) → walk expr root callback d n w ≡ some (b, w')
      → (b ≡ true)
        × (w'.nodes ≡ nodes)
        × ((m : ℕ) → In m w'.visited ↔ (In m w.visited ⊎ Found nodes expr keep n m))
  unfolding walk
  walk_exact zero n w at b w' e = cc
  walk_exact (suc d) n w at b w' e =
      below-Adds (walk expr root callback d) n (walk_exact d) w at (eval expr (nodes n).data_of)
        (keep n) refl refl b w'
        (ap (below (walk expr root callback d) n)
            (sym (entered_lem n w at (eval expr (nodes n).data_of) refl))
          ∙ e)
