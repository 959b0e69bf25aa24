-- ===== src/Dom/Query/Total.antt =====
-- src/api/text/dom/query.rs: `walk` ends whatever the callback does to the document.
use blueboat.Prelude.{
  ℕ, zero, suc, Bool, true, false, List, [], ◌∷◌, Option, some, ◌==◌, if◌then◌else◌, ◌≡◌, ◌<◌, refl,
  arith, Bool-cases, inl, inr,
}
use blueboat.Prelude.Result.{Result, ok, err, ◌>>=◌}
use blueboat.Registry.{SymbolRegistry, remove, cast_and_get}
use blueboat.Dom.{
  FilterExpr, eval, World, Dom, dom_tag, DomOp, updates, removes, forgets, frees, api_dom_update,
  api_dom_remove, NodeData, JsNodeData, update, set_data, remove_node,
}
use blueboat.Dom.Tree.{In, IsTree, set_data-IsTree, remove_node-IsTree}
use blueboat.Dom.Query.{
  run_op, run_ops, Callback, Next, gives_up, passes, recurses, called, entered, rest_of, for_each,
  below, walk, kept_on_error, kept_removed,
}

-- A search that ends with a tree.
abbrev Ends : (ℕ → ℕ) → Option (Bool × World) → Type 0
Ends height o = (b : Bool) × (w' : World) × (o ≡ some (b, w')) × IsTree height w'

module _ {height : ℕ → ℕ} where
  data_kept :
      (n : ℕ) (w : World) (r : Result NodeData)
      → IsTree height w
      → IsTree height (kept_on_error w (r >>= (λ d. ok (set_data n w d))))
  data_kept n w (err e) t = t
  data_kept n w (ok d) t = set_data-IsTree n w d t

  update_kept :
      (js : JsNodeData) (w : World) (r : Result Dom)
      → IsTree height w
      → IsTree height (
          kept_on_error w (
            r >>= (λ dom.
              update js (w.nodes dom.node).data_of >>= (λ d. ok (set_data dom.node w d)))))
  update_kept js w (err e) t = t
  update_kept js w (ok dom) t = data_kept dom.node w (update js (w.nodes dom.node).data_of) t

  remove_kept :
      (w : World) (r : Result Dom)
      → IsTree height w
      → IsTree height (kept_removed w (r >>= (λ dom. ok (remove_node dom.node w))))
  remove_kept w (err e) t = t
  remove_kept w (ok dom) t = remove_node-IsTree dom.node w t

  -- Neither the registry nor the record of the calls matters.
  forgotten :
      (w : World) (r : SymbolRegistry Dom) (v : List ℕ)
      → IsTree height w
      → IsTree height (record w { registry = r; visited = v })
  forgotten w r v t = record {
    falls = t.falls;
    distinct = t.distinct;
    linked = t.linked;
    listed = t.listed;
  }

  frees_kept :
      (n : ℕ) (w : World)
      → IsTree height w
      → IsTree height (record w { freed = λ j. if j == n then true else w.freed j })
  frees_kept n w t = record {
    falls = t.falls;
    distinct = t.distinct;
    linked = λ p c f i. ground (arith, t.linked p c);
    listed = λ p c f i. ground (arith, t.listed p c);
  }

  run_op-IsTree : (o : DomOp) (w : World) → IsTree height w → IsTree height (run_op o w)
  unfolding run_op api_dom_update api_dom_remove
  run_op-IsTree (updates a js) w t = update_kept js w (cast_and_get dom_tag a w.registry) t
  run_op-IsTree (removes a) w t = remove_kept w (cast_and_get dom_tag a w.registry) t
  run_op-IsTree (forgets k) w t = forgotten w (remove k w.registry) w.visited t
  run_op-IsTree (frees n) w t = frees_kept n w t

  run_ops-IsTree : (os : List DomOp) (w : World) → IsTree height w → IsTree height (run_ops os w)
  unfolding run_ops
  run_ops-IsTree [] w t = t
  run_ops-IsTree (o ∷ os) w t = run_ops-IsTree os (run_op o w) (run_op-IsTree o w t)

  called-IsTree :
      (root : ℕ) (callback : Callback) (n : ℕ) (w : World)
      → IsTree height w
      → IsTree height (called root callback n w).1
  called-IsTree root callback n w t = run_ops-IsTree _ _ (forgotten w _ _ t)

  entered-IsTree :
      (expr : FilterExpr) (root : ℕ) (callback : Callback) (n : ℕ) (w : World)
      → IsTree height w
      → IsTree height (entered expr root callback n w).1
  entered-IsTree expr root callback n w t = elim (Bool-cases (eval expr (w.nodes n).data_of)) [
    | inl b ↦ rw b (called-IsTree root callback n w t)
    | inr b ↦ rw b t
  ]

  rest_of-Ends :
      (o : Option (Bool × World)) (k : World → Option (Bool × World))
      → Ends height o
      → ((w : World) → IsTree height w → Ends height (k w))
      → Ends height (rest_of o k)
  rest_of-Ends o k (false, w', e, t) h = (false, w', rw e refl, t)
  rest_of-Ends o k (true, w', e, t) h = rw e (h w' t)

  for_each-Ends :
      (g : ℕ → World → Option (Bool × World)) (cs : List ℕ)
      → ((c : ℕ) → In c cs → (w : World) → IsTree height w → Ends height (g c w))
      → (w : World) → IsTree height w
      → Ends height (for_each g cs w)
  unfolding for_each
  for_each-Ends g [] h w t = (true, w, refl, t)
  for_each-Ends g (c ∷ cs) h w t =
      rest_of-Ends (g c w) (for_each g cs) (h c (inl refl) w t)
        (for_each-Ends g cs (λ d i. h d (inr i)))

  below-Ends :
      (g : ℕ → World → Option (Bool × World)) (n : ℕ) (x : Next × World)
      → ((c : ℕ) → height c < height n → (w : World) → IsTree height w → Ends height (g c w))
      → IsTree height (x.1)
      → Ends height (below g n x)
  below-Ends g n (gives_up, w) h t = (false, w, refl, t)
  below-Ends g n (passes, w) h t = (true, w, refl, t)
  below-Ends g n (recurses, w) h t =
      for_each-Ends g (w.nodes n).children (λ c i. h c (t.falls n c i)) w t

  -- A search of a tree ends, within the depth of the node that it starts from, whatever the filter is
  -- and whatever the callback does: it may change and remove nodes of the document that is searched and
  -- of others, give symbols up, and throw. The documents are trees afterwards.
  pub walk_total :
      (expr : FilterExpr) (root : ℕ) (callback : Callback) (d n : ℕ) (w : World)
      → height n < d
      → IsTree height w
      → (b : Bool) × (w' : World) × (walk expr root callback d n w ≡ some (b, w'))
        × IsTree height w'
  unfolding walk
  walk_total expr root callback zero n w lt t = absurd (omega arith)
  walk_total expr root callback (suc d) n w lt t =
      below-Ends (walk expr root callback d) n (entered expr root callback n w)
        (λ c less v u. walk_total expr root callback d c v (omega arith) u)
        (entered-IsTree expr root callback n w t)
