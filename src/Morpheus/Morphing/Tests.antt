-- ===== src/Morpheus/Morphing/Tests.antt =====
-- A node that packages/morpheus/src/morpheus.js compares with its new version.
use hacienda.Prelude.{◌≡◌, true, false, [], ◌∷◌, Text, codes}
use hacienda.Morpheus.Morphing.{DomNode, before_node_morphed}
use hacienda.Morpheus.Morphing.Signatures.{before_node_morphed-swap}

abbrev shown_text : Text × Text
shown_text = (codes "@text", codes "a")

abbrev shown_class : Text × Text
shown_class = (codes ":class", codes "b")

abbrev old_node : DomNode
old_node = record {
  number = 1;
  is_element = true;
  is_permanent = false;
  attributes = shown_text ∷ shown_class ∷ [];
}

before_node_morphed-swap_example :
    before_node_morphed old_node (record {
      number = 2;
      is_element = true;
      is_permanent = false;
      attributes = shown_text ∷ shown_class ∷ [];
    })
    ≡ before_node_morphed old_node (record {
      number = 2;
      is_element = true;
      is_permanent = false;
      attributes = shown_class ∷ shown_text ∷ [];
    })
before_node_morphed-swap_example =
    before_node_morphed-swap old_node 2 true false shown_text shown_class [] []
