-- ===== src/Edit/Zipper/Search.antt =====
-- The search with places finds what `find_element_equiv` of server/edit-config.c finds, in the
-- document that was searched.
use of_config.Base.{List, [], ◌∷◌, ◌++◌, ◌≡◌, refl, ap, ◌∙◌, append_assoc, some, subst}
use of_config.Xml.{Node, Forest, nil, cons, element, text, other, nodes, children, Loc, Doc}
use of_config.Edit.Matching.{
  Match, differ, same, invalid, crash, no_fuel, matching_elements, found_if, first_match, below,
  find_in, find_element_equiv,
}
use of_config.Edit.Zipper.{
  forest, Frame, Zipper, parents_of, plug, siblings, loc, doc_of, Place, nowhere, broken, at,
  found_of, place_if, first_place, frame_of, inside, below_place, place_in, place_of,
}

pub forest-nodes : (f : Forest) → forest (nodes f) ≡ f
forest-nodes nil = refl
forest-nodes (cons n f) = ap (cons n) (forest-nodes f)

pub nodes-forest : (l : List Node) → nodes (forest l) ≡ l
nodes-forest [] = refl
nodes-forest (n ∷ l) = ap (λ r. n ∷ r) (nodes-forest l)

found_of-place_if :
    (m : Match) (z : Zipper) (r : Place)
    → found_of (place_if m z r) ≡ found_if m (loc z) (found_of r)
found_of-place_if differ z r = refl
found_of-place_if same z r = refl
found_of-place_if invalid z r = refl
found_of-place_if crash z r = refl
found_of-place_if no_fuel z r = refl

found_of-first_place :
    (edit : Node) (ups : List Frame) (before rest : List Node)
    → found_of (first_place edit ups before rest)
      ≡ first_match edit (parents_of ups (before ++ rest)) rest
unfolding first_place first_match
found_of-first_place edit ups before [] = refl
found_of-first_place edit ups before (n ∷ rest) =
    let z : Zipper = record { before = before; node = n; after = rest; ups = ups } in
    let again : found_of (first_place edit ups (before ++ n ∷ []) rest)
        ≡ first_match edit (parents_of ups (before ++ n ∷ rest)) rest =
      rw (← append_assoc before (n ∷ []) rest)
        (found_of-first_place edit ups (before ++ n ∷ []) rest) in
    found_of-place_if (matching_elements edit (loc z)) z _
    ∙ ap (found_if (matching_elements edit (loc z)) (loc z)) again

found_of-inside :
    (edit : Node) (z : Zipper) (n : Node)
    → n ≡ z.node
    → found_of (inside edit z n) ≡ first_match edit (n ∷ (loc z).parents) (children n)
unfolding first_match
found_of-inside edit z (element x ns op f) e =
    let whole : element x ns op (forest (nodes f)) ≡ element x ns op f =
      ap (element x ns op) (forest-nodes f) in
    let up : parents_of z.ups (z.before ++ element x ns op (forest (nodes f)) ∷ z.after)
        ≡ parents_of z.ups (siblings z) =
      ap (λ n. parents_of z.ups (z.before ++ n ∷ z.after)) (whole ∙ e) in
    found_of-first_place edit (frame_of z x ns op ∷ z.ups) [] (nodes f)
    ∙ ap (λ ps. first_match edit ps (nodes f))
        (ap (λ n. n ∷ parents_of z.ups (z.before ++ element x ns op (forest (nodes f)) ∷ z.after))
            whole
          ∙ ap (λ ps. element x ns op f ∷ ps) up)
found_of-inside edit z (text t) e = refl
found_of-inside edit z (other x t) e = refl

found_of-below_place :
    (edit : Node) (p : Place) → found_of (below_place edit p) ≡ below edit (found_of p)
found_of-below_place edit nowhere = refl
found_of-below_place edit broken = refl
found_of-below_place edit (at z) = found_of-inside edit z z.node refl

found_of-place_in :
    (doc : Doc) (edit : Node) (up : List Node)
    → found_of (place_in doc edit up) ≡ find_in doc edit up
unfolding place_in find_in
found_of-place_in doc edit [] = found_of-first_place edit [] [] doc
found_of-place_in doc edit (p ∷ up) =
    found_of-below_place edit (place_in doc p up) ∙ ap (below edit) (found_of-place_in doc p up)

-- The place is in this document.
abbrev pub IsIn : Doc → Place → Type 0
IsIn doc nowhere = Unit
IsIn doc broken = Unit
IsIn doc (at z) = doc_of z ≡ doc

IsIn-place_if :
    (doc : Doc) (m : Match) (z : Zipper) (r : Place)
    → doc_of z ≡ doc
    → IsIn doc r
    → IsIn doc (place_if m z r)
IsIn-place_if doc differ z r h k = k
IsIn-place_if doc same z r h k = h
IsIn-place_if doc invalid z r h k = h
IsIn-place_if doc crash z r h k = tt
IsIn-place_if doc no_fuel z r h k = tt

IsIn-first_place :
    (edit : Node) (ups : List Frame) (before rest : List Node)
    → IsIn (plug ups (before ++ rest)) (first_place edit ups before rest)
unfolding first_place
IsIn-first_place edit ups before [] = tt
IsIn-first_place edit ups before (n ∷ rest) =
    let z : Zipper = record { before = before; node = n; after = rest; ups = ups } in
    let later : IsIn (plug ups (before ++ n ∷ rest))
        (first_place edit ups (before ++ n ∷ []) rest) =
      rw (← append_assoc before (n ∷ []) rest)
        (IsIn-first_place edit ups (before ++ n ∷ []) rest) in
    IsIn-place_if (plug ups (before ++ n ∷ rest)) (matching_elements edit (loc z)) z _ refl later

IsIn-inside : (edit : Node) (z : Zipper) (n : Node) → n ≡ z.node → IsIn (doc_of z) (inside edit z n)
IsIn-inside edit z (element x ns op f) e =
    let whole : element x ns op (forest (nodes f)) ≡ z.node =
      ap (element x ns op) (forest-nodes f) ∙ e in
    subst (λ n. IsIn (plug z.ups (z.before ++ n ∷ z.after)) (inside edit z (element x ns op f)))
      whole (IsIn-first_place edit (frame_of z x ns op ∷ z.ups) [] (nodes f))
IsIn-inside edit z (text t) e = tt
IsIn-inside edit z (other x t) e = tt

IsIn-below_place :
    (doc : Doc) (edit : Node) (p : Place) → IsIn doc p → IsIn doc (below_place edit p)
IsIn-below_place doc edit nowhere h = tt
IsIn-below_place doc edit broken h = tt
IsIn-below_place doc edit (at z) h =
    subst (λ d. IsIn d (inside edit z z.node)) h (IsIn-inside edit z z.node refl)

IsIn-place_in : (doc : Doc) (edit : Node) (up : List Node) → IsIn doc (place_in doc edit up)
unfolding place_in
IsIn-place_in doc edit [] = IsIn-first_place edit [] [] doc
IsIn-place_in doc edit (p ∷ up) =
    IsIn-below_place doc edit (place_in doc p up) (IsIn-place_in doc p up)

-- The search with places answers as `find_element_equiv`, and a place that it finds is one of the
-- document that was searched.
pub place_of-find_element_equiv :
    (doc : Doc) (edit : Loc)
    → (found_of (place_of doc edit) ≡ find_element_equiv (some doc) edit)
      × IsIn doc (place_of doc edit)
unfolding place_of find_element_equiv
place_of-find_element_equiv doc edit =
    (found_of-place_in doc edit.node edit.parents, IsIn-place_in doc edit.node edit.parents)
