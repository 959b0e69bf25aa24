-- ===== src/Package/Archive.antt =====
-- Reading an archive: what an insert and the trim do to the files of the tree.
use blueboat.Prelude.{
  append-nil, subst, join, b_slash, Any, Bytes, Bool, true, false, ◌&&◌, List, [], ◌∷◌, ◌++◌,
  append_assoc, Option, none, some, some_inj, eqb, eqb_iff, eq_of_eqb, eqb_refl, if◌then◌else◌,
  and_then, Bool-cases, inl, inr, ◌≡◌, refl, sym, ◌∙◌, ap, arith,
}
use blueboat.Package.{
  collect_all, collect_entries, VfsNode, Entries, internal, leaf, no_entries, entry, child, put,
  entered, put_back, insert_segs, trim, node_at, file_at,
}

child-put :
    (s t : Bytes) (c : VfsNode) (m : Entries)
    → child t (put s c m) ≡ (if eqb s t then some c else child t m)
unfolding child put
child-put s t c no_entries = refl
child-put s t c (entry k n m) =
    ground (arith, eqb_iff k s, eqb_iff k t, eqb_iff s t, child-put s t c m)

abbrev pub file_in : List Bytes → VfsNode → Option Bytes
file_in q n = file_at (node_at q n)

none_ne_some : {x : Bytes} → none ≡ some x → ⊥
none_ne_some h = cc

-- There is nothing yet at a path.
abbrev pub is_free : Option VfsNode → Bool
is_free none = true
is_free (some n) = false

node_at-put :
    (s : Bytes) (c : VfsNode) (m : Entries) (t : Bytes) (q : List Bytes)
    → node_at (t ∷ q) (internal (put s c m))
      ≡ (if eqb s t then node_at q c else node_at (t ∷ q) (internal m))
unfolding node_at
node_at-put s c m t q = elim (Bool-cases (eqb s t)) [
  | inl e ↦ rw (child-put s t c m, e) refl
  | inr e ↦ rw (child-put s t c m, e) refl
]

put_back-some :
    (s : Bytes) (m : Entries) (c? : Option VfsNode) (n : VfsNode)
    → put_back s m c? ≡ some n
    → (c : VfsNode) × (c? ≡ some c) × (n ≡ internal (put s c m))
put_back-some s m none n h = cc
put_back-some s m (some c) n h = (c, refl, sym (some_inj h))

abbrev pub eq_segs : List Bytes → List Bytes → Bool
eq_segs [] [] = true
eq_segs [] (t ∷ ts) = false
eq_segs (s ∷ ss) [] = false
eq_segs (s ∷ ss) (t ∷ ts) = eqb s t && eq_segs ss ts

-- The node that an insert goes on with has, at the rest of the path and at other paths, what was
-- there.
entered_lem :
    (o : Option VfsNode) (ss : List Bytes) (buf : Bytes) (q : List Bytes)
    → (if eq_segs ss q && is_free (node_at ss (entered o ss buf))
        then some buf
        else file_in q (entered o ss buf))
      ≡ (if eq_segs ss q && is_free (and_then o (λ c. node_at ss c))
          then some buf
          else file_at (and_then o (λ c. node_at q c)))
unfolding node_at
entered_lem (some c) ss buf q = refl
entered_lem none [] buf [] = refl
entered_lem none [] buf (t ∷ q) = refl
entered_lem none (u ∷ us) buf [] = refl
entered_lem none (u ∷ us) buf (t ∷ q) = unfold child in refl

-- An insert that succeeds puts the content at its path where nothing was there, and changes no other
-- file; what was there stays.
pub insert_segs-file_in :
    (p : List Bytes) (buf : Bytes) (n n' : VfsNode) (q : List Bytes)
    → insert_segs p buf n ≡ some n'
    → file_in q n' ≡ (if eq_segs p q && is_free (node_at p n) then some buf else file_in q n)
unfolding insert_segs node_at
insert_segs-file_in [] buf n n' q h = rw (sym (some_inj h)) (ground arith)
insert_segs-file_in (s ∷ ss) buf (leaf x) n' q h = cc
insert_segs-file_in (s ∷ ss) buf (internal m) n' [] h =
    let (c, e, k) = put_back-some s m _ n' h in rw k refl
insert_segs-file_in (s ∷ ss) buf (internal m) n' (t ∷ q) h =
    let (c, e, k) = put_back-some s m _ n' h in
    let rest = insert_segs-file_in ss buf (entered (child s m) ss buf) c q e in
    elim (Bool-cases (eqb s t)) [
      | inl same ↦
          rw (k, sym (eq_of_eqb s t same), child-put s s c m, eqb_refl s, rest)
            (entered_lem (child s m) ss buf q)
      | inr other ↦ rw (k, child-put s t c m, other) refl
    ]

-- A directory's files under a path of directories.
abbrev pub IsUnder : List Bytes → List Bytes → Type 0
IsUnder ps q = (r : List Bytes) × (q ≡ ps ++ r)

node_at-one :
    (k : Bytes) (c : VfsNode) (q : List Bytes)
    → node_at (k ∷ q) (internal (entry k c no_entries)) ≡ node_at q c
unfolding node_at child
node_at-one k c q = rw (eqb_refl k) refl

IsUnder-one :
    (k : Bytes) (m : Entries) (ps : List Bytes)
    → ((q : List Bytes) (x : Bytes) → file_in q (internal m) ≡ some x → IsUnder ps q)
    → (q : List Bytes) (x : Bytes) → file_in q (internal (entry k (internal m) no_entries)) ≡ some x
    → IsUnder (k ∷ ps) q
unfolding node_at child
IsUnder-one k m ps under [] x h = cc
IsUnder-one k m ps under (t ∷ q) x h = elim (Bool-cases (eqb k t)) [
  | inl e ↦ let (r, same) = under q x (rw e at h) in (r, cc (eq_of_eqb k t e, same))
  | inr e ↦ absurd (none_ne_some (rw e at h))
]

-- The trim drops directories that hold one directory alone: it shortens every file's path by the same
-- segments, and loses no file.
trim-file_in :
    (n : VfsNode)
    → (ps : List Bytes) × ((q : List Bytes) → file_in q (trim n) ≡ file_in (ps ++ q) n)
      × ((q : List Bytes) (x : Bytes) → file_in q n ≡ some x → IsUnder ps q)
unfolding trim
trim-file_in (leaf x) = ([], λ q. refl, λ q x h. (q, refl))
trim-file_in (internal no_entries) = ([], λ q. refl, λ q x h. (q, refl))
trim-file_in (internal (entry k (leaf x) m)) = ([], λ q. refl, λ q x h. (q, refl))
trim-file_in (internal (entry k (internal m) no_entries)) =
    let (ps, same, under) = trim-file_in (internal m) in
    (
      k ∷ ps,
      λ q. same q ∙ rw (node_at-one k (internal m) (ps ++ q)) refl,
      λ q x h. IsUnder-one k m ps under q x h,
    )
trim-file_in (internal (entry k (internal m) (entry j n r))) = ([], λ q. refl, λ q x h. (q, refl))

Any-append-left :
    (P : Bytes × Bytes → Type 0) (xs ys : List (Bytes × Bytes)) → Any P xs → Any P (xs ++ ys)
Any-append-left P [] ys h = absurd h
Any-append-left P (x ∷ xs) ys (inl h) = inl h
Any-append-left P (x ∷ xs) ys (inr h) = inr (Any-append-left P xs ys h)

Any-append-right :
    (P : Bytes × Bytes → Type 0) (xs ys : List (Bytes × Bytes)) → Any P ys → Any P (xs ++ ys)
Any-append-right P [] ys h = h
Any-append-right P (x ∷ xs) ys h = inr (Any-append-right P xs ys h)

-- What the collection lists for a file: its joined path and its content.
abbrev pub IsListed : Bytes → Bytes → List (Bytes × Bytes) → Type 0
IsListed path x files = Any (λ e. e ≡ (path, x)) files

path_eq :
    (k t : Bytes) (path q : List Bytes) → eqb k t ≡ true → (path ++ k ∷ []) ++ q ≡ path ++ t ∷ q
path_eq k t path q e = append_assoc path (k ∷ []) q ∙ ap (λ z. path ++ z ∷ q) (eq_of_eqb k t e)

mutual
  unfolding collect_all collect_entries node_at child

  collect_all-file_at :
      (n : VfsNode) (path q : List Bytes) (x : Bytes)
      → file_in q n ≡ some x
      → IsListed (join b_slash (path ++ q)) x (collect_all n path)
  collect_all-file_at (leaf y) path [] x h =
      inl (rw (append-nil path) (ap (λ z. (join b_slash path, z)) (some_inj h)))
  collect_all-file_at (leaf y) path (t ∷ q) x h = absurd (none_ne_some h)
  collect_all-file_at (internal m) path [] x h = absurd (none_ne_some h)
  collect_all-file_at (internal m) path (t ∷ q) x h = collect_entries-child m path t q x h

  collect_entries-child :
      (m : Entries) (path : List Bytes) (t : Bytes) (q : List Bytes) (x : Bytes)
      → file_at (and_then (child t m) (λ c. node_at q c)) ≡ some x
      → IsListed (join b_slash (path ++ t ∷ q)) x (collect_entries m path)
  collect_entries-child no_entries path t q x h = absurd (none_ne_some h)
  collect_entries-child (entry k n m) path t q x h = elim (Bool-cases (eqb k t)) [
    | inl same ↦ Any-append-left _ (collect_all n (path ++ k ∷ [])) _ (
        subst (λ z. IsListed (join b_slash z) x (collect_all n (path ++ k ∷ [])))
          (path_eq k t path q same) (collect_all-file_at n (path ++ k ∷ []) q x (rw same at h)))
    | inr other ↦
        Any-append-right _ (collect_all n (path ++ k ∷ [])) _
          (collect_entries-child m path t q x (rw other at h))
  ]

-- Every file of a tree is collected, with its content and under its path.
pub collect_all-file_in :
    (n : VfsNode) (path q : List Bytes) (x : Bytes)
    → file_in q n ≡ some x
    → IsListed (join b_slash (path ++ q)) x (collect_all n path)
collect_all-file_in n path q x h = collect_all-file_at n path q x h
