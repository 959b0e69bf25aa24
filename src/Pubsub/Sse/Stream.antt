-- ===== src/Pubsub/Sse/Stream.antt =====
-- src/pubsub/sse.rs: `SseTask::run`, the stream of a topic's messages to one client. `hex` is
-- `hex::encode`, and `accepts` tells which chunks the connection takes.
use blueboat.Prelude.{
  Bytes, codes, Bool, true, false, List, [], ◌∷◌, ◌++◌, append_assoc, append-nil, map, Option, none,
  some, some_inj, ◌&&◌, if◌then◌else◌, All, Bool-cases, inl, inr, ◌≡◌, refl, sym, ap, ap₂, ◌∙◌,
  subst,
}
use blueboat.Prelude.Table.{Table}
use blueboat.Prelude.Result.{Result, ok, err}
use blueboat.Pubsub.Sse.{SseMessage, encode}

-- Which branch of `select!` ends a round: the pop with its answer, as a function of the sequence number
-- that it starts from; the heartbeat, and whether it is sent; or the end of the connection.
pub data SseRound : Type 0 where
  popped : (Bytes → Result (Table Bytes)) → SseRound
  heartbeat : (sent : Bool) → SseRound
  disconnected : SseRound

abbrev pub last_seq : Table Bytes → Option Bytes
last_seq [] = none
last_seq (m ∷ []) = some (m.0)
last_seq (m ∷ n ∷ ms) = last_seq (n ∷ ms)

module _ (hex : Bytes → Bytes) (accepts : Bytes → Bool) where
  abbrev accepted : Result Bytes → Bool
  accepted (ok chunk) = accepts chunk
  accepted (err e) = false

  unfoldable pub send_sse : SseMessage → Bool
  send_sse m = accepted (encode m)

  abbrev pub message_of : Bytes × Bytes → SseMessage
  message_of m = record { event = codes "message"; body = m.1; id = hex (m.0) }

  -- The loop over the popped messages: those that are sent, and whether they all are.
  unfoldable pub send_messages : Table Bytes → List SseMessage × Bool
  send_messages [] = ([], true)
  send_messages (m ∷ ms) =
      let rest = send_messages ms in
      if send_sse (message_of m) then (message_of m ∷ rest.0, rest.1) else ([], false)

  abbrev pub go_on : (Bytes → List SseMessage) → Option Bytes → List SseMessage
  go_on next none = []
  go_on next (some seq) = next seq

  abbrev pub after_pop : (Bytes → List SseMessage) → Bool → Result (Table Bytes) → List SseMessage
  after_pop next wait (err e) = []
  after_pop next wait (ok res) =
      let (sent, all_sent) = send_messages res in
      sent ++ (if all_sent && wait then go_on next (last_seq res) else [])

  -- The messages that are sent from a sequence number on.
  unfoldable pub stream_from : Bool → Bytes → List SseRound → List SseMessage
  stream_from wait seq [] = []
  stream_from wait seq (popped f ∷ rs) = after_pop (λ s. stream_from wait s rs) wait (f seq)
  stream_from wait seq (heartbeat sent ∷ rs) =
      let rest = stream_from wait seq rs in if sent then rest else []
  stream_from wait seq (disconnected ∷ rs) = []

  abbrev pub init_message : Bytes → SseMessage
  init_message seq = record { event = codes "init"; body = []; id = hex seq }

  -- `SseTask::run`.
  unfoldable pub run_stream : Bool → Bytes → List SseRound → List SseMessage
  run_stream wait seq rs =
      let rest = stream_from wait seq rs in
      if send_sse (init_message seq) then init_message seq ∷ rest else []

-- The messages behind one of those past a number are the messages past its own number, which can be
-- asked for too.
abbrev pub Resumes : (Bytes → Type 0) → (Bytes → Table Bytes) → Type 0
Resumes valid feed =
    (from : Bytes) (front back : Table Bytes) (m : Bytes × Bytes)
    → feed from ≡ front ++ m ∷ back
    → valid (m.0) × (feed (m.0) ≡ back)

-- A pop gives the first of the messages past the number.
abbrev pub IsPopOf : (Bytes → Type 0) → (Bytes → Table Bytes) → SseRound → Type 0
IsPopOf valid feed (popped f) =
    (from : Bytes) (res : Table Bytes)
    → valid from
    → f from ≡ ok res
    → (back : Table Bytes) × (feed from ≡ res ++ back)
IsPopOf valid feed (heartbeat sent) = Unit {0}
IsPopOf valid feed disconnected = Unit {0}

last_seq-some :
    (res : Table Bytes) (seq : Bytes)
    → last_seq res ≡ some seq
    → (front : Table Bytes) × (m : Bytes × Bytes) × (res ≡ front ++ m ∷ []) × (m.0 ≡ seq)
last_seq-some [] seq h = cc
last_seq-some (m ∷ []) seq h = ([], m, refl, some_inj h)
last_seq-some (m ∷ n ∷ ms) seq h =
    let (front, l, e, same) = last_seq-some (n ∷ ms) seq h in
    (m ∷ front, l, ap (λ t. m ∷ t) e, same)

module _ (hex : Bytes → Bytes) (accepts : Bytes → Bool) where
  -- The first messages of a feed, as frames.
  abbrev pub IsFirstOf : Table Bytes → List SseMessage → Type 0
  IsFirstOf feed sent =
      (front : Table Bytes) × (back : Table Bytes) × (feed ≡ front ++ back)
      × (sent ≡ map (message_of hex accepts) front)

  send_messages-IsFirstOf :
      (ms : Table Bytes)
      → IsFirstOf ms (send_messages hex accepts ms).0
        × ((send_messages hex accepts ms).1 ≡ true
            → (send_messages hex accepts ms).0 ≡ map (message_of hex accepts) ms)
  unfolding send_messages
  send_messages-IsFirstOf [] = (([], [], refl, refl), λ h. refl)
  send_messages-IsFirstOf (m ∷ ms) =
      elim (Bool-cases (send_sse hex accepts (message_of hex accepts m))) [
        | inl e ↦
            let ((front, back, split, sent), whole) = send_messages-IsFirstOf ms in
            rw e (
              (m ∷ front, back, ap (λ t. m ∷ t) split, ap (λ t. message_of hex accepts m ∷ t) sent),
              λ h. ap (λ t. message_of hex accepts m ∷ t) (whole h),
            )
        | inr e ↦ rw e (([], m ∷ ms, refl, refl), λ h. absurd (false_ne_true h))
      ]
    where
      false_ne_true : false ≡ true → ⊥
      false_ne_true h = cc

  map-append :
      (xs ys : Table Bytes)
      → map (message_of hex accepts) (xs ++ ys)
        ≡ map (message_of hex accepts) xs ++ map (message_of hex accepts) ys
  map-append [] ys = refl
  map-append (x ∷ xs) ys = ap (λ t. message_of hex accepts x ∷ t) (map-append xs ys)

  -- What has been sent of a pop, and nothing more.
  stopped :
      (feed res back : Table Bytes) (sent : List SseMessage)
      → feed ≡ res ++ back
      → IsFirstOf res sent
      → IsFirstOf feed (sent ++ [])
  stopped feed res back sent split (front, rest, e, same) = (
    front,
    rest ++ back,
    split ∙ ap (λ t. t ++ back) e ∙ append_assoc front rest back,
    append-nil sent ∙ same,
  )

  goes_on :
      (feed res back : Table Bytes) (sent more : List SseMessage)
      → feed ≡ res ++ back
      → sent ≡ map (message_of hex accepts) res
      → IsFirstOf back more
      → IsFirstOf feed (sent ++ more)
  goes_on feed res back sent more split same (front, rest, e, same') = (
    res ++ front,
    rest,
    split ∙ ap (λ t. res ++ t) e ∙ sym (append_assoc res front rest),
    ap₂ (λ a b. a ++ b) same same' ∙ sym (map-append res front),
  )

  sent_then :
      (feed res back : Table Bytes) (sent : List SseMessage) (all_sent wait : Bool)
      (next : Bytes → List SseMessage) (last : Option Bytes)
      → feed ≡ res ++ back
      → IsFirstOf res sent
      → (all_sent ≡ true → sent ≡ map (message_of hex accepts) res)
      → ((s : Bytes) → last ≡ some s → IsFirstOf back (next s))
      → IsFirstOf feed (sent ++ (if all_sent && wait then go_on hex accepts next last else []))
  sent_then feed res back sent false wait next last split first whole more =
      stopped feed res back sent split first
  sent_then feed res back sent true false next last split first whole more =
      stopped feed res back sent split first
  sent_then feed res back sent true true next none split first whole more =
      stopped feed res back sent split first
  sent_then feed res back sent true true next (some s) split first whole more =
      goes_on feed res back sent (next s) split (whole refl) (more s refl)

  -- The messages behind a pop are those past the number of its last one.
  resumed :
      (valid : Bytes → Type 0) (feed : Bytes → Table Bytes) (seq s : Bytes) (res back : Table Bytes)
      → Resumes valid feed
      → feed seq ≡ res ++ back
      → last_seq res ≡ some s
      → valid s × (feed s ≡ back)
  resumed valid feed seq s res back r split last =
      let (front, m, e, same) = last_seq-some res s last in
      subst (λ t. valid t × (feed t ≡ back)) same
        (r seq front back m (split ∙ ap (λ t. t ++ back) e ∙ append_assoc front (m ∷ []) back))

  after_pop-IsFirstOf :
      (valid : Bytes → Type 0) (feed : Bytes → Table Bytes) (wait : Bool) (seq : Bytes)
      (next : Bytes → List SseMessage) (a : Result (Table Bytes))
      → Resumes valid feed
      → ((res : Table Bytes) → a ≡ ok res → (back : Table Bytes) × (feed seq ≡ res ++ back))
      → ((s : Bytes) → valid s → IsFirstOf (feed s) (next s))
      → IsFirstOf (feed seq) (after_pop hex accepts next wait a)
  after_pop-IsFirstOf valid feed wait seq next (err e) r p n = ([], feed seq, refl, refl)
  after_pop-IsFirstOf valid feed wait seq next (ok res) r p n =
      let (back, split) = p res refl in
      let (first, whole) = send_messages-IsFirstOf res in
      sent_then (feed seq) res back (send_messages hex accepts res).0
        (send_messages hex accepts res).1 wait next (last_seq res) split first whole
        (λ s last.
          let (v, rest) = resumed valid feed seq s res back r split last in
          subst (λ t. IsFirstOf t (next s)) rest (n s v))

  -- Rounds whose pops give the first messages of a feed send the first messages of the feed.
  pub stream_from-IsFirstOf :
      (valid : Bytes → Type 0) (feed : Bytes → Table Bytes) (wait : Bool) (rs : List SseRound)
      (seq : Bytes)
      → valid seq
      → Resumes valid feed
      → All (IsPopOf valid feed) rs
      → IsFirstOf (feed seq) (stream_from hex accepts wait seq rs)
  unfolding stream_from
  stream_from-IsFirstOf valid feed wait [] seq v r p = ([], feed seq, refl, refl)
  stream_from-IsFirstOf valid feed wait (disconnected ∷ rs) seq v r p = ([], feed seq, refl, refl)
  stream_from-IsFirstOf valid feed wait (heartbeat true ∷ rs) seq v r p =
      stream_from-IsFirstOf valid feed wait rs seq v r p.1
  stream_from-IsFirstOf valid feed wait (heartbeat false ∷ rs) seq v r p =
      ([], feed seq, refl, refl)
  stream_from-IsFirstOf valid feed wait (popped f ∷ rs) seq v r p =
      after_pop-IsFirstOf valid feed wait seq (λ s. stream_from hex accepts wait s rs) (f seq) r
        (λ res h. p.0 seq res v h) (λ s vs. stream_from-IsFirstOf valid feed wait rs s vs r p.1)
