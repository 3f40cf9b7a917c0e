-- ===== src/Edit/Apply.antt =====
-- Applying an edit to the configuration: `edit_delete`, `edit_remove`, `edit_replace`,
-- `edit_create_r`, `edit_create` and `edit_merge` of server/edit-config.c. What they do to the database
-- of a running datastore is the interface `Live`; the other datastores are documents only.
pub mod Removal
pub mod Clean
use of_config.Base.{
  ℕ, zero, suc, Bool, false, Option, none, some, List, [], ◌∷◌, ◌++◌, if◌then◌else◌,
}
use of_config.Error.{Result, ok, fail, fault}
use of_config.Xml.{Node, Forest, nil, cons, element, text, other, nodes, is_text, Loc, Doc}
use of_config.Edit.Matching.{is_key}
use of_config.Edit.Zipper.{
  forest, Frame, Zipper, wrap, siblings, loc, replaced, up_of, frame_of, Place, nowhere, broken, at,
  place_of,
}

-- The outcome for a node of a document: the result, and what is left of the node in its place.
abbrev pub Left : Type 0
Left = Result (Unit {0}) × List Node

-- `edit_delete` and `edit_create` with `running` set, and `txn_del_all`, on the database's state W.
pub record Live (W : Type 0) : Type 0 where
  pub on_delete : Zipper → W → Left × W
  pub on_create : Zipper → W → Left × W
  pub del_all : W → Result (Unit {0}) × W

-- The configuration document, and the database.
pub record Work (W : Type 0) : Type 0 where
  pub orig : Doc
  pub world : W

-- The attribute `operation` is taken off.
abbrev pub without_op : Node → Node
without_op (element x ns op f) = element x ns none f
without_op (text t) = text t
without_op (other x t) = other x t

-- `xmlAddChild` at the end of the children: adjacent texts become one.
abbrev pub append_child : List Node → Node → List Node
append_child [] n = n ∷ []
append_child (text s ∷ []) (text t) = text (s ++ t) ∷ []
append_child (c ∷ kids) n = c ∷ append_child kids n

-- `xmlDocSetRootElement`: in place of the first element, or else at the end.
abbrev pub set_root : Doc → Node → Doc
set_root [] n = n ∷ []
set_root (element x ns op f ∷ rest) n = n ∷ rest
set_root (text t ∷ rest) n = text t ∷ set_root rest n
set_root (other x t ∷ rest) n = other x t ∷ set_root rest n

-- `xmlCopyNode(edit, 0)` with the namespace that is set afterwards
abbrev pub shallow : Node → Node
shallow (element x ns op f) = element x ns none nil
shallow (text t) = text t
shallow (other x t) = other x t

-- A node that `xmlDocSetRootElement` has put in the document.
abbrev pub shift_right : Node → Zipper → Zipper
shift_right n z = record z { before = n ∷ z.before }

abbrev pub root_place : Doc → Node → Zipper
root_place [] n = record { before = []; node = n; after = []; ups = [] }
root_place (element x ns op f ∷ rest) n = record { before = []; node = n; after = rest; ups = [] }
root_place (text t ∷ rest) n = shift_right (text t) (root_place rest n)
root_place (other x t ∷ rest) n = shift_right (other x t) (root_place rest n)

-- The element's own children, with a new last one.
abbrev pub with_child : Zipper → Node → Node → List Node
with_child z (element x ns op f) n = element x ns op (forest (append_child (nodes f) n)) ∷ []
with_child z (text t) n = text t ∷ []
with_child z (other x t) n = other x t ∷ []

-- The place of a new last child, which is an element.
abbrev pub last_place : Zipper → Node → Node → Zipper
last_place z (element x ns op f) n = record {
  before = nodes f;
  node = n;
  after = [];
  ups = frame_of z x ns op ∷ z.ups;
}
last_place z (text t) n = z
last_place z (other x t) n = z

-- The place of the edit's equivalent, which is created where there is none, with its ancestors.
abbrev pub created_below : Result Zipper → Node → Result Zipper
created_below (ok z) n = ok (last_place z z.node (shallow n))
created_below (fail e) n = fail e
created_below fault n = fault

abbrev pub or_created : Place → Result Zipper → Result Zipper
or_created nowhere made = made
or_created broken made = fault
or_created (at z) made = ok z

unfoldable pub edit_create_r : Doc → Zipper → List Frame → Result Zipper
edit_create_r orig edit [] =
    or_created (place_of orig (loc edit)) (ok (root_place orig (shallow edit.node)))
edit_create_r orig edit (f ∷ ups) =
    or_created (place_of orig (loc edit))
      (created_below (edit_create_r orig (up_of f ups (siblings edit)) ups) edit.node)

module _ {W : Type 0} (live : Live W) (running : Bool) where
  abbrev pub put_back : Zipper → Left × W → Result (Unit {0}) × Work W
  put_back z ((r, l), w) = (r, record { orig = replaced z l; world = w })

  -- on a node of the configuration
  unfoldable pub edit_delete : Zipper → Work W → Result (Unit {0}) × Work W
  edit_delete z w =
      if running
      then put_back z (live.on_delete z w.world)
      else (ok tt, record w { orig = replaced z [] })

  -- `none`: the rounds do not suffice
  unfoldable pub edit_remove : ℕ → Loc → Work W → Option (Result (Unit {0}) × Work W)
  edit_remove zero edit w = none
  edit_remove (suc fuel) edit w = elim (place_of w.orig edit) [
    | nowhere ↦ some (ok tt, w)
    | broken ↦ some (fault, w)
    | at z ↦ elim (edit_delete z w).0 [
      | ok done ↦ edit_remove fuel edit (edit_delete z w).1
      | fail e ↦ some (fail e, (edit_delete z w).1)
      | fault ↦ some (fault, (edit_delete z w).1)
    ]
  ]

  abbrev pub add_below : Result Zipper → Node → Work W → Left × Work W
  add_below (ok z) n w = ((ok tt, []), record w { orig = replaced z (with_child z z.node n) })
  add_below (fail e) n w = ((fail e, n ∷ []), w)
  add_below fault n w = ((fault, n ∷ []), w)

  -- the part for documents; `edit` has lost its operation
  abbrev pub create_in_doc : Zipper → List Frame → Work W → Left × Work W
  create_in_doc edit [] w = ((ok tt, []), record w { orig = set_root w.orig edit.node })
  create_in_doc edit (f ∷ ups) w =
      add_below (edit_create_r w.orig (up_of f ups (siblings edit)) ups) edit.node w

  abbrev pub keep_orig : Doc → Left × W → Left × Work W
  keep_orig d (l, w) = (l, record { orig = d; world = w })

  unfoldable pub edit_create : Zipper → Work W → Left × Work W
  edit_create edit w =
      let stripped = record edit { node = without_op edit.node } in
      if running
      then keep_orig w.orig (live.on_create stripped w.world)
      else create_in_doc stripped stripped.ups w

  abbrev pub create_after : Zipper → Result (Unit {0}) × Work W → Left × Work W
  create_after edit (ok done, w) = edit_create edit w
  create_after edit (fail e, w) = ((fail e, edit.node ∷ []), w)
  create_after edit (fault, w) = ((fault, edit.node ∷ []), w)

  abbrev pub replace_at : Place → Zipper → Work W → Left × Work W
  replace_at nowhere edit w = edit_create edit w
  replace_at broken edit w = ((fault, edit.node ∷ []), w)
  replace_at (at z) edit w = create_after edit (edit_delete z w)

  unfoldable pub edit_replace : Zipper → Work W → Left × Work W
  edit_replace edit w = replace_at (place_of w.orig (loc edit)) edit w

  -- with no node to put in
  unfoldable pub edit_replace_by_nothing : Work W → Result (Unit {0}) × Work W
  edit_replace_by_nothing w = elim w.orig [
    | [] ↦ let done = live.del_all w.world in (done.0, record w { world = done.1 })
    | n ∷ rest ↦ edit_delete (record { before = []; node = n; after = rest; ups = [] }) w
  ]

  abbrev pub begins_with_text : Forest → Bool
  begins_with_text nil = false
  begins_with_text (cons n f) = is_text n

  -- the last step: the node goes where its children could be merged
  abbrev pub merged : Frame → Left × Work W → Left × Work W
  merged f ((ok done, kids), w) = ((ok tt, []), w)
  merged f ((fail e, kids), w) = ((fail e, wrap f kids ∷ []), w)
  merged f ((fault, kids), w) = ((fault, wrap f kids ∷ []), w)

  abbrev pub merge_rest :
      List Node → List Node → Left × Work W → (List Node → Work W → Left × Work W) → Left × Work W
  merge_rest kept rest ((ok done, l), w) k = k (kept ++ l) w
  merge_rest kept rest ((fail e, l), w) k = ((fail e, kept ++ l ++ rest), w)
  merge_rest kept rest ((fault, l), w) k = ((fault, kept ++ l ++ rest), w)

  abbrev pub found_to_merge : Place → Zipper → Work W → Left × Work W → Left × Work W
  found_to_merge nowhere edit w deeper = edit_create edit w
  found_to_merge broken edit w deeper = ((fault, edit.node ∷ []), w)
  found_to_merge (at z) edit w deeper =
      if is_key (loc edit) then ((ok tt, edit.node ∷ []), w) else deeper

  unfoldable mutual
    pub edit_merge : List Frame → List Node → Node → List Node → Work W → Left × Work W
    edit_merge ups before (element x ns op f) after w =
        let edit : Zipper = record {
          before = before;
          node = element x ns op f;
          after = after;
          ups = ups;
        } in
        let here = frame_of edit x ns op in
        let deeper = merged here (merge_children (here ∷ ups) [] f w) in
        found_to_merge (place_of w.orig (loc edit)) edit w
          (if begins_with_text f then edit_replace edit w else deeper)
    edit_merge ups before (text t) after w =
        let edit : Zipper = record { before = before; node = text t; after = after; ups = ups } in
        found_to_merge (place_of w.orig (loc edit)) edit w ((ok tt, []), w)
    edit_merge ups before (other x t) after w =
        let edit : Zipper = record {
          before = before;
          node = other x t;
          after = after;
          ups = ups;
        } in
        found_to_merge (place_of w.orig (loc edit)) edit w ((ok tt, []), w)

    pub merge_children : List Frame → List Node → Forest → Work W → Left × Work W
    merge_children ups kept nil w = ((ok tt, kept), w)
    merge_children ups kept (cons c f) w =
        let here : Zipper = record { before = kept; node = c; after = nodes f; ups = ups } in
        if is_key (loc here)
        then merge_children ups (kept ++ c ∷ []) f w
        else merge_rest kept (nodes f) (edit_merge ups kept c (nodes f) w)
            (λ kept' w'. merge_children ups kept' f w')
