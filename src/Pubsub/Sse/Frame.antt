-- ===== src/Pubsub/Sse/Frame.antt =====
-- The frame of an event, and the batch sizes that a request may ask for.
use blueboat.Prelude.{
  append_assoc, ℕ, Bytes, codes, true, false, [], ◌∷◌, ◌++◌, some, split_at, ◌≡◌, ◌≢◌, refl, sym,
  ap, ◌∙◌, arith,
}
use blueboat.Prelude.Utf8.{is_utf8}
use blueboat.Prelude.Result.{ok, err}
use blueboat.Prelude.Split.{Lacks, split_at-append}
use blueboat.Pubsub.Sse.{newline, has_newline, parse_u32, batch_size, SseMessage, encode}

pub Lacks-newline : (xs : Bytes) → has_newline xs ≡ false → Lacks newline xs
unfolding has_newline
Lacks-newline [] h = tt
Lacks-newline (x ∷ xs) h = (ground arith, Lacks-newline xs (ground arith))

Lacks-append : (xs ys : Bytes) → Lacks newline xs → Lacks newline ys → Lacks newline (xs ++ ys)
Lacks-append [] ys h k = k
Lacks-append (x ∷ xs) ys h k = (h.0, Lacks-append xs ys h.1 k)

line :
    (label x rest : Bytes)
    → Lacks newline label
    → has_newline x ≡ false
    → split_at newline (label ++ (x ++ newline ∷ rest)) ≡ (label ++ x) ∷ split_at newline rest
line label x rest l h =
    ap (λ t. split_at newline t) (sym (append_assoc label x (newline ∷ rest)))
    ∙ split_at-append newline (label ++ x) rest (Lacks-append label x l (Lacks-newline x h))

frame_end : split_at newline (newline ∷ []) ≡ [] ∷ [] ∷ []
unfolding split_at
frame_end = refl

labels :
    (has_newline (codes "event: ") ≡ false)
    × (has_newline (codes "data: ") ≡ false)
    × (has_newline (codes "id: ") ≡ false)
unfolding has_newline
labels = (refl, refl, refl)

-- An event and an id of one line are framed exactly when the body is UTF-8 of one line, and the
-- lines of the frame are then the three fields and the two empty ones that end the event.
pub encode_lines :
    (m : SseMessage)
    → has_newline m.event ≡ false
    → has_newline m.id ≡ false
    → (is_utf8 m.body ≡ true
        → has_newline m.body ≡ false
        → (frame : Bytes) × (encode m ≡ ok frame)
          × (split_at newline frame
              ≡ (codes "event: " ++ m.event)
                ∷ (codes "data: " ++ m.body)
                ∷ (codes "id: " ++ m.id)
                ∷ []
                ∷ []
                ∷ []))
      × ((frame : Bytes)
          → encode m ≡ ok frame
          → (is_utf8 m.body ≡ true) × (has_newline m.body ≡ false))
unfolding encode
encode_lines m e i = (
  λ u n. (
    _,
    rw (u, n) refl,
    line (codes "event: ") m.event _ (Lacks-newline (codes "event: ") labels.0) e
        ∙ ap (λ t. (codes "event: " ++ m.event) ∷ t)
            (line (codes "data: ") m.body _ (Lacks-newline (codes "data: ") labels.1) n
              ∙ ap (λ t. (codes "data: " ++ m.body) ∷ t)
                  (line (codes "id: ") m.id _ (Lacks-newline (codes "id: ") labels.2) i
                    ∙ ap (λ t. (codes "id: " ++ m.id) ∷ t) (frame_end))),
  ),
  λ frame h. ground arith,
)

-- A size that is given with `no_wait` is accepted only if it is 1: the sizes from 2 up to the
-- maximum of 100 are answered `batch_size out of range`.
batch_size_given :
    (param : Bytes) (n : ℕ)
    → parse_u32 param ≡ some n
    → param ≢ []
    → (n ≡ 1 → batch_size false param ≡ ok 1)
      × (n ≢ 1 → batch_size false param ≡ err (codes "batch_size out of range"))
unfolding batch_size
batch_size_given [] n h ne = absurd (ne refl)
batch_size_given (c ∷ cs) n h ne = (λ e. rw h (ground arith), λ e. rw h (ground arith))
