-- ===== src/Dom.antt =====
-- src/api/text/dom/: documents that an application reads, changes and searches. A document is a graph of
-- nodes that html5ever or xml5ever has parsed; an application holds nodes by the symbols of its
-- registry. An operation has given its borrows back when it ends, so that no `try_borrow` fails.
pub mod Nodes
pub mod Tree
pub mod Query
use blueboat.Prelude.{
  ℕ, zero, suc, Bytes, codes, Bool, true, false, ◌&&◌, ◌||◌, not, List, [], ◌∷◌, Option, none, some,
  ◌==◌, eqb, nonempty, split_at, if◌then◌else◌, map,
}
use blueboat.Prelude.Result.{Result, ok, err, ◌>>=◌}
use blueboat.Registry.{AnyObject, SymbolRegistry, JsArg, put_new, cast_and_get}

-- `markup5ever::QualName`, without the prefix, which nothing reads.
pub record QualName : Type 0 where
  pub ns : Bytes
  pub local : Bytes

pub record Attribute : Type 0 where
  pub name : QualName
  pub value : Bytes

-- `markup5ever_rcdom::NodeData`; `other` stands for documents, doctypes, comments and instructions.
pub data NodeData : Type 0 where
  text : (contents : Bytes) → NodeData
  element : (name : QualName) → (attrs : List Attribute) → NodeData
  other : NodeData

pub record JsElemAttr : Type 0 where
  pub name : Bytes
  pub value : Bytes

pub data JsNodeData : Type 0 where
  js_text : Bytes → JsNodeData
  js_element : Bytes → List JsElemAttr → JsNodeData
  js_other : JsNodeData

abbrev pub attr_from : Attribute → JsElemAttr
attr_from x = record { name = x.name.local; value = x.value }

unfoldable pub node_from : NodeData → JsNodeData
node_from (element name attrs) = js_element name.local (map attr_from attrs)
node_from (text contents) = js_text contents
node_from other = js_other

abbrev pub attr_of : JsElemAttr → Attribute
attr_of x = record { name = record { ns = []; local = x.name }; value = x.value }

-- `JsNodeData::update`: the node's new data.
unfoldable pub update : JsNodeData → NodeData → Result NodeData
update (js_text t) (text contents) = ok (text t)
update (js_element js_name js_attrs) (element name attrs) =
    if eqb name.local js_name
    then ok (element name (map attr_of js_attrs))
    else err (codes "cannot modify the name of an element")
update _ _ = err (codes "cannot apply the provided JsNodeData to NodeData")

pub data FilterExpr : Type 0 where
  and_expr : FilterExpr → FilterExpr → FilterExpr
  or_expr : FilterExpr → FilterExpr → FilterExpr
  tag : Bytes → FilterExpr
  has_class : Bytes → FilterExpr
  is_text : FilterExpr
  always : FilterExpr
  never : FilterExpr

-- One of the non-empty words between spaces.
unfoldable pub any_word : Bytes → List Bytes → Bool
any_word class_name [] = false
any_word class_name (x ∷ xs) =
    let rest = any_word class_name xs in if nonempty x then eqb x class_name || rest else rest

unfoldable pub any_class : Bytes → List Attribute → Bool
unfolding any_word
any_class class_name [] = false
any_class class_name (a ∷ r) =
    let rest = any_class class_name r in
    if eqb a.name.local (codes "class")
    then any_word class_name (split_at 32 a.value) || rest
    else rest

abbrev pub is_tag : Bytes → NodeData → Bool
is_tag t (element name attrs) = eqb name.local t
is_tag t _ = false

abbrev pub is_of_class : Bytes → NodeData → Bool
is_of_class c (element name attrs) = any_class c attrs
is_of_class c _ = false

abbrev pub is_text_node : NodeData → Bool
is_text_node (text contents) = true
is_text_node _ = false

-- `FilterExpr::eval`.
unfoldable pub eval : FilterExpr → NodeData → Bool
eval (and_expr left right) n = eval left n && eval right n
eval (or_expr left right) n = eval left n || eval right n
eval (tag t) n = is_tag t n
eval (has_class c) n = is_of_class c n
eval is_text n = is_text_node n
eval always n = true
eval never n = false

-- `Rc<Node>`s are numbers; a parent is a weak reference.
pub record Node : Type 0 where
  pub data_of : NodeData
  pub parent : Option ℕ
  pub children : List ℕ

pub record Dom : Type 0 where
  pub root : ℕ
  pub node : ℕ

-- The nodes, those whose last strong reference is gone, the registry, and the nodes that the callback
-- was called with, the last one first.
pub record World : Type 0 where
  pub nodes : ℕ → Node
  pub freed : ℕ → Bool
  pub registry : SymbolRegistry Dom
  pub visited : List ℕ

-- The type of a `Dom` among the objects of the registry.
abbrev pub dom_tag : ℕ
dom_tag = 0

abbrev pub set_node : ℕ → Node → World → World
set_node n x w = record w { nodes = λ j. if j == n then x else w.nodes j }

abbrev pub set_data : ℕ → World → NodeData → World
set_data n w d = set_node n (record (w.nodes n) { data_of = d }) w

unfoldable pub api_dom_get : JsArg → World → Result JsNodeData
api_dom_get a w =
    cast_and_get dom_tag a w.registry >>= (λ dom. ok (node_from (w.nodes dom.node).data_of))

unfoldable pub api_dom_update : JsArg → JsNodeData → World → Result World
api_dom_update a js w =
    cast_and_get dom_tag a w.registry
    >>= (λ dom. update js (w.nodes dom.node).data_of >>= (λ d. ok (set_data dom.node w d)))

-- `children.remove(i)` at the first child that is the node, and whether there is one.
unfoldable pub remove_first : ℕ → List ℕ → Bool × List ℕ
remove_first n [] = (false, [])
remove_first n (c ∷ cs) =
    let rest = remove_first n cs in if c == n then (true, cs) else (rest.0, c ∷ rest.1)

abbrev pub cut_from : ℕ → ℕ → World → Bool × World
cut_from n p w =
    let (removed, cs) = remove_first n (w.nodes p).children in
    (removed, set_node p (record (w.nodes p) { children = cs }) w)

-- `parent.take()`, and `upgrade()` of what it was.
abbrev pub detach : ℕ → Option ℕ → World → Bool × World
detach n none w = (false, w)
detach n (some p) w =
    let w' = set_node n (record (w.nodes n) { parent = none }) w in
    if w.freed p then (false, w') else cut_from n p w'

unfoldable pub remove_node : ℕ → World → Bool × World
unfolding remove_first
remove_node n w = detach n (w.nodes n).parent w

unfoldable pub api_dom_remove : JsArg → World → Result (Bool × World)
unfolding remove_node
api_dom_remove a w = cast_and_get dom_tag a w.registry >>= (λ dom. ok (remove_node dom.node w))

-- What the callback does before it returns: operations on documents, symbols that it gives up, and nodes
-- that are freed when nothing refers to them.
pub data DomOp : Type 0 where
  updates : JsArg → JsNodeData → DomOp
  removes : JsArg → DomOp
  forgets : ℕ → DomOp
  frees : ℕ → DomOp

-- How a call into V8 ends: an exception, or a value, if there is one.
pub data Called : Type 0 where
  threw : Called
  returned : Option Bool → Called
