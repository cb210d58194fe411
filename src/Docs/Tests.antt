-- ===== src/Docs/Tests.antt =====
-- Runs of `convertToId` and of `FindChildElement`.
use packio.Common.{true, false, some, [], ◌++◌, ◌≡◌, refl, arith}
use packio.Docs.Text.{codes, is_prefix, to_hex}
use packio.Docs.Ids.{convert_to_id, is_prefix-convert_to_id}
use packio.Docs.Dom.{
  Attributes, Nodes, element, end, child, no_id, no_href, no_action, unset, hidden,
  find_child_element,
}
use packio.Docs.Dom.Walk.{find_child_element-first_among}

is_prefix-convert_to_id_example :
    is_prefix (convert_to_id (codes "~se")) (convert_to_id (codes "~server") ++ codes "_12") ≡ true
is_prefix-convert_to_id_example =
    is_prefix-convert_to_id (codes "~se") (codes "~server") (codes "_12") (omega arith)

-- A text that is longer than the name may match the number behind it: "a(" and entry 28, named "a".
longer_than_the_name :
    is_prefix (convert_to_id (codes "a(")) (convert_to_id (codes "a") ++ codes "_28") ≡ true
unfolding convert_to_id to_hex
longer_than_the_name = refl

abbrev div : Attributes
div = record {
  node_name = "DIV";
  id = no_id;
  class_name = "SREntry";
  display = unset;
  href = no_href;
  opens_parent = false;
  key_action = no_action;
  inner_html = [];
}

abbrev folded : Attributes
folded = record div { class_name = "SRChildren"; display = hidden }

abbrev link : Attributes
link = record div { node_name = "A"; class_name = "SRChildren" }

abbrev kids : Nodes
kids =
    child (element link (child (element folded end) end))
      (child (element div (child (element link end) (child (element folded end) end))) end)

find_child_element-first_among_example : find_child_element (element div kids) ≡ some folded
find_child_element-first_among_example = find_child_element-first_among div kids
