-- ===== src/Monitoring/Journal.antt =====
-- The length of the log of the monitoring page.
use ocpp_server.Base.{
  ℕ, suc, ◌+◌, ◌-◌, ◌≤◌, ◌<◌, String, ◌≡◌, refl, ◌⊎◌, inl, inr, List, [], ◌∷◌, ◌++◌, arith, length,
  length-append,
}
use ocpp_server.Monitoring.State.{Node, element, white, children, append_node, drop_child}

unfoldable pub whites : List Node → ℕ
whites [] = 0
whites (element text ∷ nodes) = whites nodes
whites (white ∷ nodes) = suc (whites nodes)

abbrev pub add_each : List String → List Node → List Node
add_each [] nodes = nodes
add_each (text ∷ texts) nodes = add_each texts (append_node text nodes)

children-append :
    (nodes : List Node) (text : String)
    → children (nodes ++ element text ∷ []) ≡ suc (children nodes)
unfolding children
children-append [] text = refl
children-append (element t ∷ nodes) text = omega (arith, children-append nodes text)
children-append (white ∷ nodes) text = children-append nodes text

whites-append :
    (nodes : List Node) (text : String) → whites (nodes ++ element text ∷ []) ≡ whites nodes
unfolding whites
whites-append [] text = refl
whites-append (element t ∷ nodes) text = whites-append nodes text
whites-append (white ∷ nodes) text = omega (arith, whites-append nodes text)

-- Every node is an entry or a text.
counted : (nodes : List Node) → length nodes ≡ children nodes + whites nodes
unfolding children whites
counted [] = refl
counted (element t ∷ nodes) = omega (arith, counted nodes)
counted (white ∷ nodes) = omega (arith, counted nodes)

drop_child-whites : (nodes : List Node) → whites (drop_child nodes) ≤ whites nodes
unfolding whites
drop_child-whites [] = omega arith
drop_child-whites (element t ∷ nodes) = omega arith
drop_child-whites (white ∷ nodes) = omega arith

length-drop_child : (nodes : List Node) → length (drop_child nodes) ≡ length nodes - 1
length-drop_child [] = refl
length-drop_child (node ∷ nodes) = omega arith

append_node-cases :
    (text : String) (nodes : List Node)
    → ((50 < suc (children nodes))
        × (append_node text nodes ≡ drop_child (nodes ++ element text ∷ [])))
      ⊎ ((suc (children nodes) ≤ 50) × (append_node text nodes ≡ nodes ++ element text ∷ []))
unfolding append_node
append_node-cases text nodes = ground (arith, children-append nodes text)

-- The nodes stay within the bound, and so do the texts among them.
append_node_bounded :
    (bound : ℕ) (text : String) (nodes : List Node)
    → whites nodes ≤ bound
    → length nodes ≤ 50 + bound
    → (whites (append_node text nodes) ≤ bound) × (length (append_node text nodes) ≤ 50 + bound)
append_node_bounded bound text nodes few short =
    let nodes' : List Node = nodes ++ element text ∷ [] in
    elim (append_node-cases text nodes) [
      | inl (many, same) ↦ rw same (
        omega (arith, drop_child-whites nodes', whites-append nodes text),
        omega (arith, length-drop_child nodes', length-append nodes (element text ∷ [])),
      )
      | inr (fits, same) ↦ rw same (
        omega (arith, whites-append nodes text),
        omega (arith, counted nodes, length-append nodes (element text ∷ [])),
      )
    ]

each_bounded :
    (bound : ℕ) (texts : List String) (nodes : List Node)
    → whites nodes ≤ bound
    → length nodes ≤ 50 + bound
    → children (add_each texts nodes) ≤ 50 + bound
each_bounded bound [] nodes few short = omega (arith, counted nodes)
each_bounded bound (text ∷ texts) nodes few short =
    let next = append_node_bounded bound text nodes few short in
    each_bounded bound texts (append_node text nodes) next.0 next.1

-- However many entries are added, no more than 50 and the texts that the page began with.
pub add_each_bounded :
    (texts : List String) (nodes : List Node)
    → length nodes ≤ 50 + whites nodes
    → children (add_each texts nodes) ≤ 50 + whites nodes
add_each_bounded texts nodes short = each_bounded (whites nodes) texts nodes (omega arith) short
