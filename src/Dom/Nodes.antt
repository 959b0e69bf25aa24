-- ===== src/Dom/Nodes.antt =====
-- src/api/text/dom/repr.rs: what an application reads from a node after it has changed it.
use blueboat.Prelude.{
  Bytes, List, [], ◌∷◌, map, ◌≡◌, ◌↔◌, refl, sym, ap, eqb, if◌then◌else◌, true, false, Bool, codes,
  eq_of_eqb, eqb_refl,
}
use blueboat.Prelude.Result.{ok, err, ok_inj}
use blueboat.Dom.{
  NodeData, text, element, other, QualName, Attribute, JsElemAttr, JsNodeData, js_text, js_element,
  js_other, attr_from, attr_of, node_from, update,
}

-- The data that a node takes: a text for a text, an element for an element of the same name.
abbrev pub Fits : JsNodeData → NodeData → Type 0
Fits (js_text s) (text contents) = Unit {0}
Fits (js_element js_name js_attrs) (element name attrs) = name.local ≡ js_name
Fits _ _ = ⊥

attr_from-attr_of : (xs : List JsElemAttr) → map attr_from (map attr_of xs) ≡ xs
attr_from-attr_of [] = refl
attr_from-attr_of (x ∷ xs) = ap (λ t. x ∷ t) (attr_from-attr_of xs)

of_element :
    (b : Bool) (name : QualName) (xs : List Attribute) (m : Bytes) (d : NodeData)
    → (if b then ok (element name xs) else err m) ≡ ok d
    → (b ≡ true) × (d ≡ element name xs)
of_element true name xs m d h = (refl, sym (ok_inj h))
of_element false name xs m d h = cc

reads_back :
    (js_name : Bytes) (js_attrs : List JsElemAttr) (name : QualName) (new : NodeData)
    → name.local ≡ js_name
    → new ≡ element name (map attr_of js_attrs)
    → node_from new ≡ js_element js_name js_attrs
unfolding node_from
reads_back js_name js_attrs name new same e = rw (e, same, attr_from-attr_of js_attrs) refl

refused :
    (js : JsNodeData) (old : NodeData)
    → update js old ≡ err (codes "cannot apply the provided JsNodeData to NodeData")
    → (Fits js old → ⊥)
    → (((new : NodeData) × (update js old ≡ ok new)) ↔ Fits js old)
      × ((new : NodeData) → update js old ≡ ok new → node_from new ≡ js)
refused js old e no_fit = (((λ (new, h). cc (e, h)), λ u. absurd (no_fit u)), λ new h. cc (e, h))

-- An application can change a node exactly to data of its kind, and for an element of its name; it then
-- reads what it has written, attributes in their order.
pub node_from-update :
    (js : JsNodeData) (old : NodeData)
    → (((new : NodeData) × (update js old ≡ ok new)) ↔ Fits js old)
      × ((new : NodeData) → update js old ≡ ok new → node_from new ≡ js)
unfolding update node_from
node_from-update (js_text s) (text contents) =
    (((λ h. tt), λ u. (text s, refl)), λ new h. rw (← ok_inj h) refl)
node_from-update (js_element js_name js_attrs) (element name attrs) = (
  (
    (λ (new, h). eq_of_eqb name.local js_name (took new h).0),
    λ same. (element name (map attr_of js_attrs), rw (same, eqb_refl js_name) refl),
  ),
  λ new h.
      let (b, e) = took new h in
      reads_back js_name js_attrs name new (eq_of_eqb name.local js_name b) e,
)
  where
    took :
        (new : NodeData)
        → update (js_element js_name js_attrs) (element name attrs) ≡ ok new
        → (eqb name.local js_name ≡ true) × (new ≡ element name (map attr_of js_attrs))
    took new h = of_element (eqb name.local js_name) name (map attr_of js_attrs) _ new h
node_from-update (js_text s) (element name attrs) =
    refused (js_text s) (element name attrs) refl (λ u. u)
node_from-update (js_text s) other = refused (js_text s) other refl (λ u. u)
node_from-update (js_element n xs) (text t) = refused (js_element n xs) (text t) refl (λ u. u)
node_from-update (js_element n xs) other = refused (js_element n xs) other refl (λ u. u)
node_from-update js_other (text t) = refused js_other (text t) refl (λ u. u)
node_from-update js_other (element n xs) = refused js_other (element n xs) refl (λ u. u)
node_from-update js_other other = refused js_other other refl (λ u. u)
