-- ===== src/Dom/Tree.antt =====
-- src/api/text/dom/repr.rs: documents stay trees, and what removing a node leaves.
use blueboat.Prelude.{
  ℕ, true, false, List, [], ◌∷◌, Option, none, some, ◌≡◌, ◌≢◌, ◌↔◌, subst, sym, ◌<◌, refl, Any,
  arith, inl, inr, Bool-cases,
}
use blueboat.Dom.{NodeData, set_data, World, remove_first, remove_node, detach, cut_from, set_node}

abbrev pub In : ℕ → List ℕ → Type 0
In k xs = Any (λ c. c ≡ k) xs

abbrev pub NoRepeat : List ℕ → Type 0
NoRepeat [] = Unit {0}
NoRepeat (x ∷ xs) = (In x xs → ⊥) × NoRepeat xs

-- `height` falls along the edges, so there is no cycle; the children of a node that is not freed are
-- distinct and have it as their parent.
pub record IsTree (height : ℕ → ℕ) (w : World) : Type 0 where
  pub falls : (p c : ℕ) → In c (w.nodes p).children → height c < height p
  pub distinct : (p : ℕ) → NoRepeat (w.nodes p).children
  pub linked :
      (p c : ℕ) → w.freed p ≡ false → In c (w.nodes p).children → (w.nodes c).parent ≡ some p
  pub listed :
      (p c : ℕ) → w.freed p ≡ false → (w.nodes c).parent ≡ some p → In c (w.nodes p).children

In-remove_first : (n c : ℕ) (xs : List ℕ) → In c (remove_first n xs).1 → In c xs
unfolding remove_first
In-remove_first n c [] i = i
In-remove_first n c (x ∷ xs) i = ground (arith, In-remove_first n c xs)

NoRepeat-remove_first : (n : ℕ) (xs : List ℕ) → NoRepeat xs → NoRepeat (remove_first n xs).1
unfolding remove_first
NoRepeat-remove_first n [] d = tt
NoRepeat-remove_first n (x ∷ xs) d =
    ground (arith, NoRepeat-remove_first n xs d.1, In-remove_first n x xs)

In-remove_first_same : (n : ℕ) (xs : List ℕ) → NoRepeat xs → In n (remove_first n xs).1 → ⊥
unfolding remove_first
In-remove_first_same n [] d i = i
In-remove_first_same n (x ∷ xs) d i = ground (arith, In-remove_first_same n xs d.1)

In_of_remove_first : (n : ℕ) (xs : List ℕ) → (remove_first n xs).0 ≡ true → In n xs
unfolding remove_first
In_of_remove_first n [] h = cc
In_of_remove_first n (x ∷ xs) h = ground (arith, In_of_remove_first n xs)

remove_first_of_In : (n : ℕ) (xs : List ℕ) → In n xs → (remove_first n xs).0 ≡ true
unfolding remove_first
remove_first_of_In n [] i = elim i [ ]
remove_first_of_In n (x ∷ xs) i = ground (arith, remove_first_of_In n xs)

In_other : (n c : ℕ) (xs : List ℕ) → c ≢ n → In c xs → In c (remove_first n xs).1
unfolding remove_first
In_other n c [] h i = elim i [ ]
In_other n c (x ∷ xs) h i = ground (arith, In_other n c xs h)

-- The node after `parent.take()`.
abbrev unlink : ℕ → World → World
unlink n w = set_node n (record (w.nodes n) { parent = none }) w

module _ {height : ℕ → ℕ} where
  pub set_data-IsTree :
      (n : ℕ) (w : World) (d : NodeData) → IsTree height w → IsTree height (set_data n w d)
  set_data-IsTree n w d t = record {
    falls = λ p c i. ground (arith, t.falls p c);
    distinct = λ p. ground (arith, t.distinct p);
    linked = λ p c f i. ground (arith, t.linked p c);
    listed = λ p c f i. ground (arith, t.listed p c);
  }

  cut_from-IsTree :
      (n p : ℕ) (w : World)
      → (w.nodes n).parent ≡ some p
      → w.freed p ≡ false
      → IsTree height w
      → IsTree height (cut_from n p (unlink n w)).1
  cut_from-IsTree n p w at up t = record {
    falls = λ q c i. ground (arith, t.falls q c, In-remove_first n c (w.nodes p).children);
    distinct = λ q.
        ground (arith, t.distinct q, NoRepeat-remove_first n (w.nodes p).children (t.distinct p));
    linked = λ q c f i. ground (
      arith,
      t.linked q c,
      t.linked q n,
      In-remove_first n c (w.nodes p).children,
      In-remove_first_same n (w.nodes p).children (t.distinct p),
    );
    listed = λ q c f i. ground (arith, t.listed q c, In_other n c (w.nodes p).children);
  }

  unlink-IsTree :
      (n p : ℕ) (w : World)
      → (w.nodes n).parent ≡ some p
      → w.freed p ≡ true
      → IsTree height w
      → IsTree height (unlink n w)
  unlink-IsTree n p w at up t = record {
    falls = λ q c i. ground (arith, t.falls q c);
    distinct = λ q. ground (arith, t.distinct q);
    linked = λ q c f i. ground (arith, t.linked q c);
    listed = λ q c f i. ground (arith, t.listed q c);
  }

  detach-IsTree :
      (n : ℕ) (o : Option ℕ) (w : World)
      → (w.nodes n).parent ≡ o
      → IsTree height w
      → IsTree height (detach n o w).1
  detach-IsTree n none w at t = t
  detach-IsTree n (some p) w at t = elim (Bool-cases (w.freed p)) [
    | inl gone ↦ subst (IsTree height) (sym (left gone)) (unlink-IsTree n p w at gone t)
    | inr here ↦ subst (IsTree height) (sym (cut here)) (cut_from-IsTree n p w at here t)
  ]
    where
      left : w.freed p ≡ true → (detach n (some p) w).1 ≡ unlink n w
      left gone = rw gone refl

      cut : w.freed p ≡ false → (detach n (some p) w).1 ≡ (cut_from n p (unlink n w)).1
      cut here = rw here refl

  pub remove_node-IsTree : (n : ℕ) (w : World) → IsTree height w → IsTree height (remove_node n w).1
  unfolding remove_node
  remove_node-IsTree n w t = detach-IsTree n (w.nodes n).parent w refl t

  detach_lem :
      (n : ℕ) (o : Option ℕ) (w : World)
      → (w.nodes n).parent ≡ o
      → IsTree height w
      → (((detach n o w).1.nodes n).parent ≡ none)
        × ((p : ℕ) → w.freed p ≡ false → In n ((detach n o w).1.nodes p).children → ⊥)
        × (((detach n o w).0 ≡ true) ↔ ((p : ℕ) × (o ≡ some p) × (w.freed p ≡ false)))
  detach_lem n none w at t =
      (at, (λ p f i. cc (at, t.linked p n f i)), ((λ h. absurd (not_true h)), λ (p, e, f). cc))
    where
      not_true : false ≡ true → ⊥
      not_true h = cc
  detach_lem n (some p) w at t = (
    ground arith,
    (λ q f i.
        ground (arith, t.linked q n, In-remove_first_same n (w.nodes p).children (t.distinct p))),
    (
      (λ h. (p, refl, ground arith)),
      λ (q, e, f). ground (arith, remove_first_of_In n (w.nodes p).children, t.listed p n),
    ),
  )

  -- Removing a node from a document keeps it a tree. Afterwards the node has no parent and is no child
  -- of a node that is there, and the application is told `true` exactly when it had a parent that is
  -- not freed.
  pub remove_node_lem :
      (n : ℕ) (w : World)
      → IsTree height w
      → let (removed, w') = remove_node n w in
        IsTree height w'
        × ((w'.nodes n).parent ≡ none)
        × ((p : ℕ) → w.freed p ≡ false → In n (w'.nodes p).children → ⊥)
        × ((removed ≡ true) ↔ ((p : ℕ) × ((w.nodes n).parent ≡ some p) × (w.freed p ≡ false)))
  unfolding remove_node
  remove_node_lem n w t =
      let (a, b, c) = detach_lem n (w.nodes n).parent w refl t in
      (remove_node-IsTree n w t, a, b, c)
