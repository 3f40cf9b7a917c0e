-- ===== src/Edit/Zipper.antt =====
-- Places in a document that server/edit-config.c changes: a node with its siblings, and its ancestors
-- with theirs. Parent pointers lead to the ancestors as they are at the time.
pub mod Search
use of_config.Base.{String, Text, Option, List, [], ◌∷◌, ◌++◌}
use of_config.Xml.{Node, Forest, nil, cons, element, text, other, nodes, Loc, Doc}
use of_config.Edit.Matching.{
  Match, differ, same, invalid, crash, no_fuel, matching_elements, Found, absent, crashed, found,
}

abbrev pub forest : List Node → Forest
forest [] = nil
forest (n ∷ l) = cons n (forest l)

-- An ancestor, without its children, among its siblings.
pub record Frame : Type 0 where
  pub before : List Node
  pub name : String
  pub ns : Option Text
  pub op : Option Text
  pub after : List Node

pub record Zipper : Type 0 where
  pub before : List Node
  pub node : Node
  pub after : List Node
  pub ups : List Frame

abbrev pub wrap : Frame → List Node → Node
wrap f kids = element f.name f.ns f.op (forest kids)

abbrev pub level : Frame → List Node → List Node
level f kids = f.before ++ wrap f kids ∷ f.after

-- `node->parent` and further up, when these are the children of the innermost one.
abbrev pub parents_of : List Frame → List Node → List Node
parents_of [] kids = []
parents_of (f ∷ ups) kids = wrap f kids ∷ parents_of ups (level f kids)

abbrev pub plug : List Frame → List Node → Doc
plug [] kids = kids
plug (f ∷ ups) kids = plug ups (level f kids)

abbrev pub siblings : Zipper → List Node
siblings z = z.before ++ z.node ∷ z.after

abbrev pub loc : Zipper → Loc
loc z = record { node = z.node; parents = parents_of z.ups (siblings z) }

abbrev pub doc_of : Zipper → Doc
doc_of z = plug z.ups (siblings z)

-- The document with other nodes in this place: none after `xmlUnlinkNode` and `xmlFreeNode`.
abbrev pub replaced : Zipper → List Node → Doc
replaced z l = plug z.ups (z.before ++ (l ++ z.after))

-- `edit->parent` where that is no document
abbrev pub up_of : Frame → List Frame → List Node → Zipper
up_of f ups kids = record { before = f.before; node = wrap f kids; after = f.after; ups = ups }

-- `find_element_equiv` with the place in the document.
pub data Place : Type 0 where
  nowhere broken : Place
  at : Zipper → Place

abbrev pub found_of : Place → Found
found_of nowhere = absent
found_of broken = Found.crashed
found_of (at z) = found (loc z)

abbrev pub place_if : Match → Zipper → Place → Place
place_if differ z rest = rest
place_if same z rest = at z
place_if invalid z rest = at z
place_if crash z rest = broken
place_if no_fuel z rest = broken

unfoldable pub first_place : Node → List Frame → List Node → List Node → Place
first_place edit ups before [] = nowhere
first_place edit ups before (n ∷ rest) =
    let z : Zipper = record { before = before; node = n; after = rest; ups = ups } in
    place_if (matching_elements edit (loc z)) z (first_place edit ups (before ++ n ∷ []) rest)

abbrev pub frame_of : Zipper → String → Option Text → Option Text → Frame
frame_of z x ns op = record { before = z.before; name = x; ns = ns; op = op; after = z.after }

abbrev pub inside : Node → Zipper → Node → Place
inside edit z (element x ns op f) = first_place edit (frame_of z x ns op ∷ z.ups) [] (nodes f)
inside edit z (text t) = nowhere
inside edit z (other x t) = nowhere

abbrev pub below_place : Node → Place → Place
below_place edit nowhere = nowhere
below_place edit broken = broken
below_place edit (at z) = inside edit z z.node

unfoldable pub place_in : Doc → Node → List Node → Place
place_in doc edit [] = first_place edit [] [] doc
place_in doc edit (p ∷ up) = below_place edit (place_in doc p up)

unfoldable pub place_of : Doc → Loc → Place
place_of doc edit = place_in doc edit.node edit.parents
