-- ===== src/LogService/Target.antt =====
-- The Kafka target of the log service: which texts are one, and what is read from it.
use blueboat.Prelude.{
  ℕ, ◌+◌, ◌-◌, ◌*◌, ◌<◌, ◌^◌, ltb, Bytes, codes, Bool, true, false, ◌&&◌, [], ◌∷◌, ◌++◌, Option,
  none, some, some_inj, Bool-cases, inl, inr, ◌↔◌, ◌≡◌, refl, sym, ap, ◌∙◌, subst, arith,
  if◌then◌else◌, and_then, split_once, lead_of, ◌==◌,
}
use blueboat.Prelude.Split.{Lacks, split_once-append}
use blueboat.Prelude.Ascii.{digits_value}
use blueboat.Prelude.Result.{Result, ok, ok_or, >>=-ok, ok_inj, ◌>>=◌}
use blueboat.LogService.{
  is_topic_char, is_digit, is_no_newline, all_of, some_of, captured, after_topic, captures,
  LogServiceInner, opened, open_service,
}

lead_of-some :
    (x sep : ℕ) (xs a b : Bytes) (o : Option (Bytes × Bytes))
    → ((c d : Bytes) → o ≡ some (c, d) → xs ≡ c ++ sep ∷ d)
    → lead_of x o ≡ some (a, b)
    → x ∷ xs ≡ a ++ sep ∷ b
lead_of-some x sep xs a b none f h = cc
lead_of-some x sep xs a b (some (c, d)) f h = ap (λ t. x ∷ t) (f c d refl) ∙ split_eq (some_inj h)
  where
    split_eq : ◌≡◌ {A = Bytes × Bytes} (x ∷ c, d) (a, b) → (x ∷ c) ++ sep ∷ d ≡ a ++ sep ∷ b
    split_eq e = ap (λ (p : Bytes × Bytes). p.0 ++ sep ∷ p.1) e

eq_of_split_once : (sep : ℕ) (s a b : Bytes) → split_once sep s ≡ some (a, b) → s ≡ a ++ sep ∷ b
unfolding split_once
eq_of_split_once sep [] a b h = cc
eq_of_split_once sep (x ∷ xs) a b h = elim (Bool-cases (x == sep)) [
  | inl e ↦ here (some_inj (rw e at h)) (same x e)
  | inr e ↦
      lead_of-some x sep xs a b (split_once sep xs) (λ c d. eq_of_split_once sep xs c d) (rw e at h)
]
  where
    same : (x : ℕ) → (x == sep) ≡ true → x ≡ sep
    same x e = ground arith

    here : ◌≡◌ {A = Bytes × Bytes} ([], xs) (a, b) → x ≡ sep → x ∷ xs ≡ a ++ sep ∷ b
    here h e = ap (λ (c : ℕ). c ∷ xs) e ∙ ap (λ (p : Bytes × Bytes). p.0 ++ sep ∷ p.1) h

all_of-Lacks :
    (p : ℕ → Bool) (sep : ℕ) (s : Bytes)
    → ((c : ℕ) → p c ≡ true → (c == sep) ≡ false)
    → all_of p s ≡ true
    → Lacks sep s
all_of-Lacks p sep [] f h = tt
all_of-Lacks p sep (c ∷ cs) f h = (f c (ground arith), all_of-Lacks p sep cs f (ground arith))

topic_no_colon : (c : ℕ) → is_topic_char c ≡ true → (c == b':') ≡ false
topic_no_colon c h = ground arith

digit_no_at : (c : ℕ) → is_digit c ≡ true → (c == b'@') ≡ false
digit_no_at c h = ground arith

and_true : (a b : Bool) → (a && b) ≡ true → (a ≡ true) × (b ≡ true)
and_true a b h = ground arith

-- The groups of the matcher.
abbrev pub IsTarget : Bytes → Bytes → Bytes → Bytes → Type 0
IsTarget s topic partition servers =
    (s ≡ topic ++ b':' ∷ (partition ++ b'@' ∷ servers))
    × (some_of is_topic_char topic ≡ true)
    × (some_of is_digit partition ≡ true)
    × (some_of is_no_newline servers ≡ true)

if_pos {ℓ} : {A : Type ℓ} (b : Bool) (x y : A) → b ≡ true → (if b then x else y) ≡ x
if_pos b x y h = rw h refl

if_some {ℓ} :
    {A : Type ℓ} (b : Bool) (x : Option A) {a : A}
    → (if b then x else none) ≡ some a
    → (b ≡ true) × (x ≡ some a)
if_some true x h = (refl, h)
if_some false x h = cc

captured_of :
    (topic partition servers : Bytes)
    → some_of is_digit partition ≡ true
    → some_of is_no_newline servers ≡ true
    → captured topic (partition, servers) ≡ some (topic, partition, servers)
captured_of topic partition servers d v =
    if_pos (some_of is_digit partition && some_of is_no_newline servers)
      (some (topic, partition, servers)) none (both _ _ d v)
  where
    both : (a b : Bool) → a ≡ true → b ≡ true → (a && b) ≡ true
    both a b p q = ground arith

captures_of :
    (topic partition servers s : Bytes)
    → IsTarget s topic partition servers
    → captures s ≡ some (topic, partition, servers)
unfolding captures
captures_of topic partition servers s (e, t, d, v) =
    ap (λ u. and_then (split_once b':' u) after_topic) e
    ∙ (ap (λ o. and_then o after_topic)
          (split_once-append b':' topic (partition ++ b'@' ∷ servers)
            (all_of-Lacks is_topic_char b':' topic topic_no_colon (and_true _ _ t).1))
        ∙ (if_pos (some_of is_topic_char topic)
              (and_then (split_once b'@' (partition ++ b'@' ∷ servers)) (captured topic)) none t
            ∙ (ap (λ o. and_then o (captured topic))
                  (split_once-append b'@' partition servers
                    (all_of-Lacks is_digit b'@' partition digit_no_at (and_true _ _ d).1))
                ∙ captured_of topic partition servers d v)))

-- What a chain of options that ends well has gone through.
and_then-some {ℓ κ} :
    {A : Type ℓ} {B : Type κ} (o : Option A) (f : A → Option B) {b : B}
    → and_then o f ≡ some b
    → (a : A) × (o ≡ some a) × (f a ≡ some b)
and_then-some none f h = cc
and_then-some (some a) f h = (a, refl, h)

of_captures :
    (topic partition servers s : Bytes)
    → captures s ≡ some (topic, partition, servers)
    → IsTarget s topic partition servers
unfolding captures
of_captures topic partition servers s h =
    let (p, first, goes) = and_then-some (split_once b':' s) after_topic h in
    let (t, goes') =
      if_some (some_of is_topic_char (p.0)) (and_then (split_once b'@' (p.1)) (captured (p.0)))
        goes in
    let (q, second, goes'') = and_then-some (split_once b'@' (p.1)) (captured (p.0)) goes' in
    let (dv, same) =
      if_some (some_of is_digit (q.0) && some_of is_no_newline (q.1)) (some (p.0, q.0, q.1))
        goes'' in
    let (d, v) = and_true (some_of is_digit (q.0)) (some_of is_no_newline (q.1)) dv in
    subst (λ (c : Bytes × Bytes × Bytes). IsTarget s (c.0) (c.1) (c.2)) (some_inj same)
      (
        eq_of_split_once b':' s (p.0) (p.1) first
            ∙ ap (λ r. p.0 ++ b':' ∷ r) (eq_of_split_once b'@' (p.1) (q.0) (q.1) second),
        t,
        d,
        v,
      )

digits_value-lt :
    (bound acc : ℕ) (s : Bytes) {n : ℕ}
    → acc < bound
    → digits_value bound acc s ≡ some n
    → n < bound
unfolding digits_value
digits_value-lt bound acc [] lt h = ground arith
digits_value-lt bound acc (c ∷ cs) lt h =
    let (test, goes) = if_some _ (digits_value bound (acc * 10 + (c - b'0')) cs) h in
    digits_value-lt bound (acc * 10 + (c - b'0')) cs (below _ _ (and_true _ _ test).1) goes
  where
    below : (a b : ℕ) → ltb a b ≡ true → a < b
    below a b h = ground arith

ok_or-ok {ℓ} :
    {A : Type ℓ} (o : Option A) (message : Bytes) {a : A} → ok_or o message ≡ ok a → o ≡ some a
ok_or-ok none message h = cc
ok_or-ok (some a) message h = ap some (ok_inj h)

-- Opening the log service ends well exactly where the text is a topic of letters, digits, dots,
-- underscores and dashes, a colon, the digits of a partition below 2^31, an at sign, and servers with
-- no line break, none of the parts empty, and a client can be made for these servers; the service then
-- has the client, the topic, the partition, the host's name and the process id.
pub open_service_iff :
    {Producer : Type 0} (create : Bytes → Result Producer) (hostname : Bytes) (pid : ℕ) (s : Bytes)
    (svc : LogServiceInner Producer)
    → (open_service create hostname pid s ≡ ok svc) ↔ (
        (digits : Bytes) × (servers : Bytes) × IsTarget s svc.topic digits servers
        × (digits_value (2 ^ 31) 0 digits ≡ some svc.partition)
        × (svc.partition < 2 ^ 31)
        × (create servers ≡ ok svc.producer)
        × (svc.hostname ≡ hostname)
        × (svc.pid ≡ pid))
unfolding open_service
open_service_iff {Producer} create hostname pid s svc = (there, back)
  where
    Described : LogServiceInner Producer → Type 0
    Described svc =
        (digits : Bytes) × (servers : Bytes) × IsTarget s svc.topic digits servers
        × (digits_value (2 ^ 31) 0 digits ≡ some svc.partition)
        × (svc.partition < 2 ^ 31)
        × (create servers ≡ ok svc.producer)
        × (svc.hostname ≡ hostname)
        × (svc.pid ≡ pid)

    service : Bytes × Bytes × Bytes → ℕ → Producer → LogServiceInner Producer
    service c p producer = record {
      producer = producer;
      topic = c.0;
      partition = p;
      hostname = hostname;
      pid = pid;
    }

    there : open_service create hostname pid s ≡ ok svc → Described svc
    there h =
        let (c, at, goes) =
          >>=-ok (ok_or (captures s) (codes "invalid kafka config string"))
            (opened create hostname pid) h in
        let (p, value, goes') =
          >>=-ok
            (ok_or (digits_value (2 ^ 31) 0 (c.1)) (codes "number too large to fit in target type"))
            (λ p. create (c.2) >>= (λ producer. ok (service c p producer))) goes in
        let (producer, made, same) =
          >>=-ok (create (c.2)) (λ producer. ok (service c p producer)) goes' in
        let number = ok_or-ok (digits_value (2 ^ 31) 0 (c.1)) _ value in
        subst Described (ok_inj same) (
          c.1,
          c.2,
          of_captures (c.0) (c.1) (c.2) s (ok_or-ok (captures s) _ at),
          number,
          digits_value-lt (2 ^ 31) 0 (c.1) (omega arith) number,
          made,
          refl,
          refl,
        )

    back : Described svc → open_service create hostname pid s ≡ ok svc
    back (digits, servers, target, value, lt, made, host, id) =
        rw (captures_of svc.topic digits servers s target, value, made, sym host, sym id) refl
