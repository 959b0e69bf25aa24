-- ===== src/Dom/Query.antt =====
-- src/api/text/dom/query.rs: the search of a document, with a callback for each node that it finds.
pub mod Exact
pub mod Total
use blueboat.Prelude.{
  ℕ, zero, suc, Bool, true, false, List, [], ◌∷◌, Option, none, some, ◌==◌, if◌then◌else◌,
}
use blueboat.Prelude.Result.{Result, ok, err}
use blueboat.Registry.{AnyObject, JsArg, put_new, remove, cast_and_get}
use blueboat.Dom.{
  FilterExpr, eval, World, Dom, dom_tag, DomOp, updates, removes, forgets, frees, Called, threw,
  returned, api_dom_update, api_dom_remove,
}

abbrev pub kept_on_error : World → Result World → World
kept_on_error w (err e) = w
kept_on_error w (ok w') = w'

abbrev pub kept_removed : World → Result (Bool × World) → World
kept_removed w (err e) = w
kept_removed w (ok (b, w')) = w'

-- An operation that throws changes nothing.
unfoldable pub run_op : DomOp → World → World
unfolding api_dom_update api_dom_remove remove
run_op (updates a js) w = kept_on_error w (api_dom_update a js w)
run_op (removes a) w = kept_removed w (api_dom_remove a w)
run_op (forgets k) w = record w { registry = remove k w.registry }
run_op (frees n) w = record w { freed = λ j. if j == n then true else w.freed j }

unfoldable pub run_ops : List DomOp → World → World
unfolding run_op
run_ops [] w = w
run_ops (o ∷ os) w = run_ops os (run_op o w)

-- The callback, which may depend on all that was done before it is called with a symbol.
abbrev pub Callback : Type 0
Callback = ℕ → World → List DomOp × Called

-- What `walk` does after a node: it gives up, it passes over the children, or it goes into them.
pub data Next : Type 0 where
  gives_up : Next
  passes : Next
  recurses : Next

-- `has_caught`, and `recursive.map(..).unwrap_or(true)`.
abbrev pub next_of : Called → Next
next_of threw = gives_up
next_of (returned none) = recurses
next_of (returned (some true)) = recurses
next_of (returned (some false)) = passes

abbrev pub called : ℕ → Callback → ℕ → World → Next × World
called root callback n w =
    let (sym, r) =
      put_new (record { tag = dom_tag; object = record { root = root; node = n } }) w.registry in
    let w' = record w { registry = r; visited = n ∷ w.visited } in
    let (ops, c) = callback sym w' in (next_of c, run_ops ops w')

abbrev pub entered : FilterExpr → ℕ → Callback → ℕ → World → Next × World
entered expr root callback n w =
    if eval expr (w.nodes n).data_of then called root callback n w else (recurses, w)

abbrev pub rest_of : Option (Bool × World) → (World → Option (Bool × World)) → Option (Bool × World)
rest_of none k = none
rest_of (some (false, w)) k = some (false, w)
rest_of (some (true, w)) k = k w

-- `for child in &children`, over the children that were there before.
unfoldable pub for_each :
    (ℕ → World → Option (Bool × World)) → List ℕ → World → Option (Bool × World)
for_each g [] w = some (true, w)
for_each g (c ∷ cs) w = rest_of (g c w) (for_each g cs)

abbrev pub below : (ℕ → World → Option (Bool × World)) → ℕ → Next × World → Option (Bool × World)
below g n (gives_up, w) = some (false, w)
below g n (passes, w) = some (true, w)
below g n (recurses, w) = for_each g (w.nodes n).children w

-- `walk`, to a depth of nodes: `none` is a deeper document.
unfoldable pub walk : FilterExpr → ℕ → Callback → ℕ → ℕ → World → Option (Bool × World)
unfolding for_each run_ops put_new
walk expr root callback zero n w = none
walk expr root callback (suc d) n w =
    below (walk expr root callback d) n (entered expr root callback n w)

abbrev pub query_on :
    FilterExpr → Callback → ℕ → World → Result Dom → Result (Option (Bool × World))
query_on expr callback d w (err e) = err e
query_on expr callback d w (ok dom) = ok (walk expr dom.root callback d dom.node w)

-- `false` with the world is an exception of the callback, which is thrown again.
unfoldable pub api_dom_query_with_filter :
    JsArg → FilterExpr → Callback → ℕ → World → Result (Option (Bool × World))
unfolding walk
api_dom_query_with_filter a expr callback d w =
    query_on expr callback d w (cast_and_get dom_tag a w.registry)
