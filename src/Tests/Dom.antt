-- ===== src/Tests/Dom.antt =====
-- A small document that is searched and changed.
use blueboat.Prelude.{
  ℕ, String, ◌-◌, ◌<◌, codes, Bool, true, false, List, [], ◌∷◌, Option, none, some, ◌==◌,
  if◌then◌else◌, ◌≡◌, ◌↔◌, ◌⊎◌, refl, arith,
}
use blueboat.Prelude.Result.{ok}
use blueboat.Registry.{new, symbol}
use blueboat.Dom.{
  NodeData, text, element, other, QualName, JsNodeData, js_element, Node, World, remove_node,
  update, node_from, DomOp, removes, Called, returned, FilterExpr, has_class, always,
}
use blueboat.Dom.Nodes.{Fits, node_from-update}
use blueboat.Dom.Tree.{In, IsTree, remove_node_lem}
use blueboat.Dom.Query.{Callback, walk, run_ops}
use blueboat.Dom.Query.Total.{walk_total}
use blueboat.Dom.Query.Exact.{Found, walk_exact}

abbrev named : String → QualName
named s = record { ns = []; local = codes s }

abbrev p_data : NodeData
p_data = element (named "p") (record { name = named "class"; value = codes "x a" } ∷ [])

-- A document with a `div` that holds a `p` and a text.
abbrev node_at : ℕ → Node
node_at n =
    if n == 0
    then record { data_of = other; parent = none; children = 1 ∷ [] }
    else if n == 1
    then record { data_of = element (named "div") []; parent = some 0; children = 2 ∷ 3 ∷ [] }
    else if n == 2
    then record { data_of = p_data; parent = some 1; children = [] }
    else if n == 3
    then record { data_of = text (codes "hi"); parent = some 1; children = [] }
    else record { data_of = other; parent = none; children = [] }

abbrev page : World
page = record { nodes = node_at; freed = λ n. false; registry = new; visited = [] }

abbrev page_height : ℕ → ℕ
page_height n = 10 - n

page-IsTree : IsTree page_height page
page-IsTree = record {
  falls = λ p c i. ground arith;
  distinct = λ p. ground arith;
  linked = λ p c f i. ground arith;
  listed = λ p c f i. ground arith;
}

node_from-update_example :
    (((d : NodeData) × (update (js_element (codes "p") []) p_data ≡ ok d))
      ↔ Fits (js_element (codes "p") []) p_data)
    × ((d : NodeData)
        → update (js_element (codes "p") []) p_data ≡ ok d
        → node_from d ≡ js_element (codes "p") [])
node_from-update_example = node_from-update (js_element (codes "p") []) p_data

remove_node_lem_example :
    let (removed, w') = remove_node 2 page in
    IsTree page_height w'
    × ((w'.nodes 2).parent ≡ none)
    × ((p : ℕ) → page.freed p ≡ false → In 2 (w'.nodes p).children → ⊥)
    × ((removed ≡ true) ↔ ((p : ℕ) × ((page.nodes 2).parent ≡ some p) × (page.freed p ≡ false)))
remove_node_lem_example = remove_node_lem 2 page page-IsTree

-- A callback that removes the node that it is called with.
abbrev remover : Callback
remover k w = (removes (symbol k) ∷ [], returned (some true))

walk_total_example :
    (b : Bool) × (w' : World) × (walk always 0 remover 11 0 page ≡ some (b, w'))
    × IsTree page_height w'
walk_total_example = walk_total always 0 remover 11 0 page ground_lt page-IsTree
  where
    ground_lt : page_height 0 < 11
    ground_lt = omega arith

abbrev reader : Callback
reader k w = ([], returned (some true))

abbrev end_world : World
end_world = record page {
  registry = record {
    next_symbol = 1;
    symbols = (0, record { tag = 0; object = record { root = 0; node = 2 } }) ∷ [];
  };
  visited = 2 ∷ [];
}

reader_run : walk (has_class (codes "a")) 0 reader 4 0 page ≡ some (true, end_world)
unfolding walk run_ops new blueboat.Dom.eval blueboat.Dom.any_class blueboat.Prelude.eqb
    blueboat.Prelude.split_at
reader_run = refl

walk_exact_example :
    (true ≡ true)
    × (end_world.nodes ≡ node_at)
    × ((m : ℕ)
        → In m end_world.visited
          ↔ (In m page.visited ⊎ Found node_at (has_class (codes "a")) (λ n. true) 0 m))
walk_exact_example =
    walk_exact node_at (has_class (codes "a")) 0 reader (λ n. true) (λ k n vs w h. refl) 4 0 page
      refl true end_world reader_run
