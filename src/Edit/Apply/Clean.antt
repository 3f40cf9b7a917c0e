-- ===== src/Edit/Apply/Clean.antt =====
-- What `edit_create`, `edit_replace` and `edit_merge` of server/edit-config.c leave of the edit's node
-- when they work on a document: nothing, and they never fail.
use of_config.Base.{
  Bool, true, false, List, [], ◌∷◌, ◌++◌, ◌≡◌, inl, inr, refl, if◌then◌else◌, Bool-cases,
}
use of_config.Error.{Result, ok, fail, fault}
use of_config.Xml.{Node, Forest, nil, cons, element, text, other, nodes, Doc}
use of_config.Edit.Matching.{is_key}
use of_config.Edit.Zipper.{
  Frame, Zipper, frame_of, siblings, loc, Place, nowhere, broken, at, place_of, up_of,
}
use of_config.Edit.Apply.{
  Left, Live, Work, add_below, create_in_doc, created_below, or_created, edit_create_r, edit_create,
  edit_delete, replace_at, edit_replace, begins_with_text, merged, merge_rest, found_to_merge,
  edit_merge, merge_children, without_op,
}

-- The run ends well or follows a NULL pointer.
abbrev pub NoFail : {A : Type 0} → Result A → Type 0
NoFail (ok a) = Unit
NoFail (fail e) = ⊥
NoFail fault = Unit

NoFail-or_created : (p : Place) (r : Result Zipper) → NoFail r → NoFail (or_created p r)
NoFail-or_created nowhere r h = h
NoFail-or_created broken r h = tt
NoFail-or_created (at z) r h = tt

NoFail-created_below : (r : Result Zipper) (n : Node) → NoFail r → NoFail (created_below r n)
NoFail-created_below (ok z) n h = tt
NoFail-created_below (fail e) n h = h
NoFail-created_below fault n h = tt

NoFail-edit_create_r :
    (orig : Doc) (edit : Zipper) (ups : List Frame) → NoFail (edit_create_r orig edit ups)
unfolding edit_create_r
NoFail-edit_create_r orig edit [] = NoFail-or_created (place_of orig (loc edit)) _ tt
NoFail-edit_create_r orig edit (f ∷ ups) =
    NoFail-or_created (place_of orig (loc edit)) _ (
      NoFail-created_below _ edit.node
        (NoFail-edit_create_r orig (up_of f ups (siblings edit)) ups))

module _ {W : Type 0} where
  -- The same, with nothing left of the node.
  abbrev pub Clean : Left × Work W → Type 0
  Clean ((ok u, l), w) = l ≡ []
  Clean ((fail e, l), w) = ⊥
  Clean ((fault, l), w) = Unit

  module _ (live : Live W) where
    Clean-add_below :
        (r : Result Zipper) (n : Node) (w : Work W) → NoFail r → Clean (add_below live false r n w)
    Clean-add_below (ok z) n w h = refl
    Clean-add_below (fail e) n w h = h
    Clean-add_below fault n w h = tt

    Clean-create_in_doc :
        (edit : Zipper) (ups : List Frame) (w : Work W)
        → Clean (create_in_doc live false edit ups w)
    Clean-create_in_doc edit [] w = refl
    Clean-create_in_doc edit (f ∷ ups) w =
        Clean-add_below _ edit.node w
          (NoFail-edit_create_r w.orig (up_of f ups (siblings edit)) ups)

    pub Clean-edit_create : (edit : Zipper) (w : Work W) → Clean (edit_create live false edit w)
    unfolding edit_create
    Clean-edit_create edit w =
        Clean-create_in_doc (record edit { node = without_op edit.node }) edit.ups w

    Clean-replace_at :
        (p : Place) (edit : Zipper) (w : Work W) → Clean (replace_at live false p edit w)
    unfolding edit_delete
    Clean-replace_at nowhere edit w = Clean-edit_create edit w
    Clean-replace_at broken edit w = tt
    Clean-replace_at (at z) edit w = Clean-edit_create edit _

    pub Clean-edit_replace : (edit : Zipper) (w : Work W) → Clean (edit_replace live false edit w)
    unfolding edit_replace
    Clean-edit_replace edit w = Clean-replace_at (place_of w.orig (loc edit)) edit w

    Clean-found_to_merge :
        (p : Place) (edit : Zipper) (w : Work W) (deeper : Left × Work W)
        → is_key (loc edit) ≡ false
        → Clean deeper
        → Clean (found_to_merge live false p edit w deeper)
    Clean-found_to_merge nowhere edit w deeper k h = Clean-edit_create edit w
    Clean-found_to_merge broken edit w deeper k h = tt
    Clean-found_to_merge (at z) edit w deeper k h = rw k h

    Clean-if : (b : Bool) (p q : Left × Work W) → Clean p → Clean q → Clean (if b then p else q)
    Clean-if true p q h k = h
    Clean-if false p q h k = k

    Clean-merged : (f : Frame) (p : Left × Work W) → NoFail p.0.0 → Clean (merged live false f p)
    Clean-merged f ((ok u, l), w) h = refl
    Clean-merged f ((fail e, l), w) h = h
    Clean-merged f ((fault, l), w) h = tt

    NoFail-merge_rest :
        (kept rest : List Node) (p : Left × Work W) (k : List Node → Work W → Left × Work W)
        → Clean p
        → ((l : List Node) (w : Work W) → NoFail (k l w).0.0)
        → NoFail (merge_rest live false kept rest p k).0.0
    NoFail-merge_rest kept rest ((ok u, l), w) k c h = h (kept ++ l) w
    NoFail-merge_rest kept rest ((fail e, l), w) k c h = c
    NoFail-merge_rest kept rest ((fault, l), w) k c h = tt

    mutual
      unfolding edit_merge

      -- a node that is no key
      pub Clean-edit_merge :
          (ups : List Frame) (before : List Node) (n : Node) (after : List Node) (w : Work W)
          → is_key (loc (record { before = before; node = n; after = after; ups = ups })) ≡ false
          → Clean (edit_merge live false ups before n after w)
      Clean-edit_merge ups before (element x ns op f) after w k =
          let edit : Zipper = record {
            before = before;
            node = element x ns op f;
            after = after;
            ups = ups;
          } in
          let here = frame_of edit x ns op in
          Clean-found_to_merge (place_of w.orig (loc edit)) edit w _ k (
            Clean-if (begins_with_text live false f) _ _ (Clean-edit_replace edit w)
              (Clean-merged here _ (NoFail-merge_children (here ∷ ups) [] f w)))
      Clean-edit_merge ups before (text t) after w k =
          let edit : Zipper = record { before = before; node = text t; after = after; ups = ups } in
          Clean-found_to_merge (place_of w.orig (loc edit)) edit w ((ok tt, []), w) k refl
      Clean-edit_merge ups before (other x t) after w k =
          let edit : Zipper = record {
            before = before;
            node = other x t;
            after = after;
            ups = ups;
          } in
          Clean-found_to_merge (place_of w.orig (loc edit)) edit w ((ok tt, []), w) k refl

      NoFail-merge_children :
          (ups : List Frame) (kept : List Node) (f : Forest) (w : Work W)
          → NoFail (merge_children live false ups kept f w).0.0
      NoFail-merge_children ups kept nil w = tt
      NoFail-merge_children ups kept (cons c f) w =
          let here : Zipper = record { before = kept; node = c; after = nodes f; ups = ups } in
          elim (Bool-cases (is_key (loc here))) [
            | inl e ↦ rw (merge_children, e) (NoFail-merge_children ups (kept ++ c ∷ []) f w)
            | inr e ↦
                rw (merge_children, e)
                  (NoFail-merge_rest kept (nodes f) (edit_merge live false ups kept c (nodes f) w) _
                    (Clean-edit_merge ups kept c (nodes f) w e)
                    (λ l w'. NoFail-merge_children ups l f w'))
          ]
