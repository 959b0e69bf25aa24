-- ===== src/ReliableChannel/Callbacks.antt =====
-- The invariant of a channel through the changes of the map of the callbacks.
use blueboat.Prelude.{
  ℕ, ◌+◌, ◌≤◌, true, false, List, [], ◌∷◌, none, some, some_inj, ◌==◌, ==_refl, All, Bool-cases,
  inl, inr, subst, ◌≡◌, refl, sym, ◌∙◌, ap, arith,
}
use blueboat.ReliableChannel.{RchState, callback, unregister, registered_call, delivered_to}
use blueboat.ReliableChannel.Calls.{
  hit, count, All-map, IsPick, pick-All, pick-count, callback-unregister, callback-register,
}
use blueboat.ReliableChannel.Steps.{listed, in_flight, IsWaiting, IsNew, IsAnswer, Tracks}

-- What holds of elements holds after a change at an id that none of them has.
All-absent :
    {A : Type 0} (P Q : ℕ × A → Type 0) (id : ℕ)
    → ((e : ℕ × A) → (id == e.0) ≡ false → P e → Q e)
    → (xs : List (ℕ × A)) → count id xs ≡ 0
    → All P xs
    → All Q xs
All-absent P Q id f [] c h = tt
All-absent P Q id f (x ∷ xs) c h =
    (f x (ground arith) h.0, All-absent P Q id f xs (omega arith) h.1)

eq_of_== : (a b : ℕ) → (a == b) ≡ true → a ≡ b
eq_of_== a b h = ground arith

hit_same : (a : ℕ) → hit a a ≡ 1
hit_same a = ground arith

none_ne_some : {A : Type 0} {a : A} → none ≡ some a → ⊥
none_ne_some h = cc

module _ {Req Rsp World : Type 0} (handle : World → Req → Rsp) where
  kept :
      (id j : ℕ) (q : Req) (cb : List (ℕ × Req)) (a : Req)
      → callback id cb ≡ none
      → callback j cb ≡ some a
      → callback j ((id, q) ∷ unregister id cb) ≡ some a
  kept id j q cb a new h = elim (Bool-cases (id == j)) [
    | inl e ↦ absurd (none_ne_some (sym new ∙ (ap (λ k. callback k cb) (eq_of_== id j e) ∙ h)))
    | inr e ↦ callback-register id j q cb ∙ rw e h
  ]

  -- A call that is reserved has an id below the counter, and the others have other ids.
  reserved_id_used :
      (n : ℕ) (s : RchState Req Rsp) (e : ℕ × Req) (others : List (ℕ × Req))
      → IsPick s.reserved e others
      → Tracks handle n s
      → (count (e.0) others ≡ 0) × ((id : ℕ) → s.next_id ≤ id → (e.0 == id) ≡ false)
  reserved_id_used n s e others p t = (
    omega (arith, t.unique (e.0), pick-count (e.0) p, hit_same (e.0)),
    λ id h. elim (Bool-cases (e.0 == id)) [
      | inr other ↦ other
      | inl same ↦
          let at = eq_of_== (e.0) id same in
          absurd
            (omega (arith, (t.unused (e.0) (omega arith)).0, pick-count (e.0) p, hit_same (e.0)))
    ],
  )

  pub register-Tracks :
      (n : ℕ) (s : RchState Req Rsp) (e : ℕ × Req) (others : List (ℕ × Req))
      → IsPick s.reserved e others
      → Tracks handle n s
      → Tracks handle n (registered_call handle s (e, others))
  register-Tracks n s e others p t =
      let cb' = (e.0, e.1) ∷ unregister (e.0) s.cb in
      let (apart, below) = reserved_id_used n s e others p t in
      let (new, rest) = pick-All (IsNew handle s.cb) p t.new in
      record {
        counted = t.counted;
        unique = λ id. omega (arith, t.unique id, pick-count id p);
        unused = λ id h. (
          omega (arith, (t.unused id h).0, pick-count id p),
          callback-register (e.0) id (e.1) s.cb ∙ rw (below id h) (t.unused id h).1,
        );
        new =
            All-absent (IsNew handle s.cb) (IsNew handle cb') (e.0)
              (λ x d h. callback-register (e.0) (x.0) (e.1) s.cb ∙ rw d h) others apart rest;
        registered_wait = (
          callback-register (e.0) (e.0) (e.1) s.cb ∙ rw (==_refl (e.0)) refl,
          All-map (IsWaiting handle s.cb) (IsWaiting handle cb')
              (λ x h. kept (e.0) (x.0) (e.1) s.cb (x.1) new h) s.registered t.registered_wait,
        );
        requests_wait =
            All-map (IsWaiting handle s.cb) (IsWaiting handle cb')
              (λ x h. kept (e.0) (x.0) (e.1) s.cb (x.1) new h) s.requests t.requests_wait;
        received_waits =
            All-map (IsWaiting handle s.cb) (IsWaiting handle cb')
              (λ x h. kept (e.0) (x.0) (e.1) s.cb (x.1) new h) (listed s.received) t.received_waits;
        running_wait =
            All-map (IsWaiting handle s.cb) (IsWaiting handle cb')
              (λ x h. kept (e.0) (x.0) (e.1) s.cb (x.1) new h) s.running t.running_wait;
        answers =
            All-map (IsAnswer handle s.cb) (IsAnswer handle cb')
              (λ x h. let (q, c, w, same) = h in (q, kept (e.0) (x.0) (e.1) s.cb q new c, w, same))
              s.responses t.answers;
        done = t.done;
        permits = t.permits;
      }

  still_new :
      (id j : ℕ) (cb : List (ℕ × Req)) → callback j cb ≡ none → callback j (unregister id cb) ≡ none
  still_new id j cb h = elim (Bool-cases (id == j)) [
    | inl e ↦ callback-unregister id j cb ∙ rw e refl
    | inr e ↦ callback-unregister id j cb ∙ rw e h
  ]

  still_there :
      (id j : ℕ) (cb : List (ℕ × Req)) (a : Req)
      → (id == j) ≡ false
      → callback j cb ≡ some a
      → callback j (unregister id cb) ≡ some a
  still_there id j cb a e h = callback-unregister id j cb ∙ rw e h

  All-wait :
      (id : ℕ) (cb : List (ℕ × Req)) (xs : List (ℕ × Req))
      → count id xs ≡ 0
      → All (IsWaiting handle cb) xs
      → All (IsWaiting handle (unregister id cb)) xs
  All-wait id cb =
      All-absent (IsWaiting handle cb) (IsWaiting handle (unregister id cb)) id
        (λ e d h. still_there id (e.0) cb (e.1) d h)

  pub deliver-Tracks :
      (n : ℕ) (s s' : RchState Req Rsp) (id : ℕ) (r : Rsp) (rest : List (ℕ × Rsp)) (q : Req)
      → s.responses ≡ (id, r) ∷ rest
      → callback id s.cb ≡ some q
      → delivered_to handle s id r rest (some q) ≡ some s'
      → Tracks handle n s
      → Tracks handle n s'
  deliver-Tracks n s s' id r rest q head there h t =
      let cb' = unregister id s.cb in
      let (first, others) = subst (All (IsAnswer handle s.cb)) head t.answers in
      let once : in_flight handle id s ≤ 1 = t.unique id in
      let here : count id s.responses ≡ hit id id + count id rest = ap (count id) head in
      let one = hit_same id in
      let others_apart : count id rest ≡ 0 = omega arith in
      subst (Tracks handle n) (some_inj h) (record {
        counted = t.counted;
        unique = λ j. omega (arith, t.unique j, ap (count j) head);
        unused = λ j k. (
          omega (arith, (t.unused j k).0, ap (count j) head),
          still_new id j s.cb (t.unused j k).1,
        );
        new =
            All-map (IsNew handle s.cb) (IsNew handle cb') (λ e. still_new id (e.0) s.cb) s.reserved
              t.new;
        registered_wait = All-wait id s.cb s.registered (omega arith) t.registered_wait;
        requests_wait = All-wait id s.cb s.requests (omega arith) t.requests_wait;
        received_waits = All-wait id s.cb (listed s.received) (omega arith) t.received_waits;
        running_wait = All-wait id s.cb s.running (omega arith) t.running_wait;
        answers =
            All-absent (IsAnswer handle s.cb) (IsAnswer handle cb') id
              (λ e d h. let (a, c, w, same) = h in (a, still_there id (e.0) s.cb a d c, w, same))
              rest others_apart others;
        done = (let (a, c, w, same) = first in (w, rw (some_inj (sym there ∙ c)) same), t.done);
        permits = t.permits;
      })
