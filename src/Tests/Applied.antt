-- ===== src/Tests/Applied.antt =====
-- The theorems about applying an edit on concrete documents, with a world in which the calls that are
-- not modelled do nothing.
use of_config.Base.{none, [], ◌∷◌, ◌≡◌, refl, false, true, All, arith, isspace}
use of_config.Error.{Result, ok}
use of_config.Xml.{Doc}
use of_config.Edit.Operation.{DefOp}
use of_config.Edit.Matching.{find_element_equiv, matching_elements}
use of_config.Edit.Zipper.{Zipper, Frame, loc, at, found_of, place_of}
use of_config.Edit.Apply.{Work, Live, edit_remove}
use of_config.Edit.Apply.Removal.{Ended, edit_remove-Ended}
use of_config.Edit.Live.{World, Outside, get_key, above}
use of_config.Edit.Live.Delete.{delete_live}
use of_config.Edit.Live.Create.{create_live}
use of_config.Edit.Live.Root.{ovsdb_live, delete_live-unlinks}
use of_config.Edit.Operations.{edit_operations, first_of}
use of_config.Edit.Matching.{is_key}
use of_config.Edit.Operations.Roots.{Roots}
use of_config.Edit.Operations.Steps.{Answered}
use of_config.Edit.Operations.Ends.{Applied, edit_operations-Answered}
use of_config.Edit.Operations.Stuck.{default_replace-stuck}
use of_config.Tests.Sample.{capable_switch, resources, edit_resources, edit_loc, el, forest}
use of_config.Tests.Idl.{sample_idl}
use of_config.Tests.Rows.{start}

abbrev pub Nothing : Type 0
Nothing = Unit {0}

abbrev done : World Nothing → Result (Unit {0}) × World Nothing
done w = (ok tt, w)

abbrev outside : Outside Nothing
outside = record {
  is_blank = λ n. false;
  node_content = λ n. [];
  dev_is_system = λ x. false;
  txn_del_all = done;
  txn_add_port = λ n. done;
  add_port_advert = λ k n. done;
  del_port_advert = λ k n. done;
  of_mod_port_cfg = λ k x v. done;
  add_owned_certificate = λ n. done;
  add_external_certificate = λ n. done;
  del_owned_certificate = λ n. done;
  del_external_certificate = λ n. done;
  mod_own_cert_certificate = λ k n. done;
  txn_mod_own_cert_key_type = λ k n. done;
  txn_mod_own_cert_key_data = λ k n. done;
  mod_ext_cert_certificate = λ k n. done;
}

abbrev live : Live (World Nothing)
live = ovsdb_live outside ⦃idl = sample_idl⦄

abbrev world : World Nothing
world = record { ovs = start; switch_id = none; rest = tt }

abbrev work : Work (World Nothing)
work = record { orig = capable_switch ∷ []; world = world }

edit_remove-Ended_example : Ended live edit_loc world (edit_remove live false 20 edit_loc work)
edit_remove-Ended_example = edit_remove-Ended live 20 edit_loc work (omega arith)

-- Resources below the switch, with a port that has nothing but its name.
abbrev switch_frame : Frame
switch_frame = record { before = []; name = "capable-switch"; ns = none; op = none; after = [] }

abbrev at_resources : Zipper
at_resources = record {
  before = [];
  node = el "resources" (el "rack" [] ∷ []);
  after = [];
  ups = switch_frame ∷ [];
}

deleted : (delete_live outside ⦃idl = sample_idl⦄ at_resources world).0.0 ≡ ok tt
unfolding delete_live of_config.Edit.Live.walk of_config.Edit.Live.Delete.delete_action
    of_config.Edit.Live.Delete.delete_resource
deleted = refl

created : (create_live outside ⦃idl = sample_idl⦄ at_resources world).0.0 ≡ ok tt
unfolding create_live of_config.Edit.Live.walk of_config.Edit.Live.Create.create_action
    of_config.Edit.Live.Create.create_resource
created = refl

delete_live-unlinks_example : (delete_live outside ⦃idl = sample_idl⦄ at_resources world).0.1 ≡ []
delete_live-unlinks_example =
    delete_live-unlinks outside ⦃idl = sample_idl⦄ at_resources switch_frame [] world refl deleted

abbrev root : Zipper
root = first_of capable_switch []

searched : place_of (capable_switch ∷ []) (loc root) ≡ at root
unfolding place_of of_config.Edit.Zipper.place_in of_config.Edit.Zipper.first_place
    matching_elements of_config.Edit.Matching.match_deep of_config.Edit.Matching.match_nodes
    of_config.Edit.Matching.nscmp of_config.Edit.Matching.list_key of_config.Xml.go2node
    of_config.Base.text_eq of_config.Edit.Whitespace.clrwspace isspace
    of_config.Edit.Whitespace.trim_end
searched = refl

no_id : get_key (λ n. false) (above capable_switch) "id" ≡ ok none
unfolding get_key
no_id = refl

default_replace-stuck_example :
    edit_operations live true 20 DefOp.replace
      (record { work = work; edit = capable_switch ∷ []; error = none })
    ≡ none
default_replace-stuck_example =
    default_replace-stuck outside ⦃idl = sample_idl⦄ "capable-switch" none (forest (resources ∷ []))
      [] root "capable-switch" none none (forest (resources ∷ [])) (λ w. w) (λ w. refl) no_id refl
      refl 20 (record { work = work; edit = capable_switch ∷ []; error = none }) refl searched

abbrev edit_doc : Doc
edit_doc = el "capable-switch" (edit_resources ∷ []) ∷ []

top_is_no_key : Roots 1 edit_doc
unfolding is_key
top_is_no_key = (refl, tt)

edit_operations-Answered_example : Answered (Applied live DefOp.merge) (
    edit_operations live false 20 DefOp.merge
      (record { work = work; edit = edit_doc; error = none }))
edit_operations-Answered_example =
    edit_operations-Answered live 20 1 DefOp.merge
      (record { work = work; edit = edit_doc; error = none }) (omega arith) top_is_no_key
      (omega arith)
