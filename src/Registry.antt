-- ===== src/Registry.antt =====
-- src/registry.rs and src/api/host_object.rs: the objects of the host that an application holds by
-- symbols. V8 makes a new symbol at each call, here the next number; `Tag` is the type of an object.
use blueboat.Prelude.{
  ℕ, ◌<◌, codes, false, List, [], ◌∷◌, Option, none, some, ◌==◌, All, if◌then◌else◌, ◌≡◌, refl,
  arith, ◌+◌,
}
use blueboat.Prelude.Result.{Result, ok, err, ok_or, ◌>>=◌}

-- `Rc<dyn Any>`.
pub record AnyObject (Obj : Type 0) : Type 0 where
  pub tag : ℕ
  pub object : Obj

-- The symbols that V8 has given out, and the map.
pub record SymbolRegistry (Obj : Type 0) : Type 0 where
  pub next_symbol : ℕ
  pub symbols : List (ℕ × AnyObject Obj)

pub data JsArg : Type 0 where
  symbol : ℕ → JsArg
  other : JsArg

-- The operations of an application and of a context that is reset.
pub data RegistryEvent (Obj : Type 0) : Type 0 where
  puts : AnyObject Obj → RegistryEvent Obj
  removes : ℕ → RegistryEvent Obj
  clears : RegistryEvent Obj

module _ {Obj : Type 0} where
  abbrev pub lookup_symbol : ℕ → List (ℕ × AnyObject Obj) → Option (AnyObject Obj)
  lookup_symbol k [] = none
  lookup_symbol k ((j, x) ∷ r) = if j == k then some x else lookup_symbol k r

  abbrev pub without_symbol : ℕ → List (ℕ × AnyObject Obj) → List (ℕ × AnyObject Obj)
  without_symbol k [] = []
  without_symbol k ((j, x) ∷ r) =
      let rest = without_symbol k r in if j == k then rest else (j, x) ∷ rest

  unfoldable pub new : SymbolRegistry Obj
  new = record { next_symbol = 0; symbols = [] }

  unfoldable pub clear : SymbolRegistry Obj → SymbolRegistry Obj
  clear r = record r { symbols = [] }

  unfoldable pub put : ℕ → AnyObject Obj → SymbolRegistry Obj → SymbolRegistry Obj
  put k v r = record r { symbols = (k, v) ∷ without_symbol k r.symbols }

  unfoldable pub put_new : AnyObject Obj → SymbolRegistry Obj → ℕ × SymbolRegistry Obj
  unfolding put
  put_new v r = (r.next_symbol, put r.next_symbol v (record r { next_symbol = r.next_symbol + 1 }))

  abbrev pub downcast : ℕ → AnyObject Obj → Result Obj
  downcast tag x = if x.tag == tag then ok x.object else err (codes "symbol type mismatch")

  unfoldable pub get : ℕ → ℕ → SymbolRegistry Obj → Result Obj
  get tag k r = ok_or (lookup_symbol k r.symbols) (codes "symbol not registered") >>= downcast tag

  unfoldable pub cast_and_get : ℕ → JsArg → SymbolRegistry Obj → Result Obj
  unfolding get
  cast_and_get tag (symbol k) r = get tag k r
  cast_and_get tag other r = err (codes "data type mismatch")

  unfoldable pub remove : ℕ → SymbolRegistry Obj → SymbolRegistry Obj
  remove k r = record r { symbols = without_symbol k r.symbols }

  unfoldable pub api_host_object_remove : JsArg → SymbolRegistry Obj → Result (SymbolRegistry Obj)
  unfolding remove
  api_host_object_remove (symbol k) r = ok (remove k r)
  api_host_object_remove other r = err (codes "data type mismatch")

  lookup-without :
      (k j : ℕ) (xs : List (ℕ × AnyObject Obj))
      → lookup_symbol j (without_symbol k xs) ≡ (if k == j then none else lookup_symbol j xs)
  lookup-without k j [] = ground arith
  lookup-without k j ((i, x) ∷ xs) = ground (arith, lookup-without k j xs)

  abbrev pub step : RegistryEvent Obj → SymbolRegistry Obj → SymbolRegistry Obj
  step (puts v) r = (put_new v r).1
  step (removes k) r = remove k r
  step clears r = clear r

  abbrev pub run : List (RegistryEvent Obj) → SymbolRegistry Obj → SymbolRegistry Obj
  run [] r = r
  run (e ∷ es) r = run es (step e r)

  -- Whether an operation takes a symbol's object away.
  abbrev pub Spares : ℕ → RegistryEvent Obj → Type 0
  Spares k (puts v) = Unit {0}
  Spares k (removes j) = (j == k) ≡ false
  Spares k clears = ⊥

  step-kept :
      (k : ℕ) (v : AnyObject Obj) (e : RegistryEvent Obj) (r : SymbolRegistry Obj)
      → k < r.next_symbol
      → lookup_symbol k r.symbols ≡ some v
      → Spares k e
      → (k < (step e r).next_symbol) × (lookup_symbol k (step e r).symbols ≡ some v)
  unfolding put_new put remove
  step-kept k v (puts w) r lt at sp = ground (arith, lookup-without r.next_symbol k r.symbols)
  step-kept k v (removes j) r lt at sp = ground (arith, lookup-without j k r.symbols)
  step-kept k v clears r lt at sp = elim sp [ ]

  run-kept :
      (k : ℕ) (v : AnyObject Obj) (es : List (RegistryEvent Obj)) (r : SymbolRegistry Obj)
      → k < r.next_symbol
      → lookup_symbol k r.symbols ≡ some v
      → All (Spares k) es
      → lookup_symbol k (run es r).symbols ≡ some v
  run-kept k v [] r lt at sp = at
  run-kept k v (e ∷ es) r lt at sp =
      let (lt', at') = step-kept k v e r lt at sp.0 in run-kept k v es (step e r) lt' at' sp.1

  -- An object that is put under a new symbol is given, to a request with its own type, as long as neither
  -- its symbol is removed nor the registry cleared, whatever else is put or removed; a request with
  -- another type is refused.
  pub get-put_new :
      (tag : ℕ) (v : AnyObject Obj) (es : List (RegistryEvent Obj)) (r : SymbolRegistry Obj)
      → All (Spares (put_new v r).0) es
      → get tag (put_new v r).0 (run es (put_new v r).1)
        ≡ (if v.tag == tag then ok v.object else err (codes "symbol type mismatch"))
  unfolding put_new put get
  get-put_new tag v es r sp =
      rw (run-kept r.next_symbol v es (put_new v r).1 (omega arith) (ground arith) sp) refl
