-- ===== src/Tests/Edit.antt =====
-- The theorems about server/edit-config.c on concrete documents.
use of_config.Base.{
  Bool, false, true, arith, codes, none, some, [], ◌∷◌, ◌≡◌, ◌≢◌, ◌↔◌, refl, inl, inr, eq_iff, All,
  isspace,
}
use of_config.Error.{ok}
use of_config.Xml.{Node}
use of_config.Edit.Operation.{
  DefOp, EditOp, check_edit_ops_hierarchy, get_operation, read_operation,
}
use of_config.Edit.Operation.Hierarchy.{check_edit_ops_hierarchy_iff, Compatible}
use of_config.Edit.Compact.{compact_edit_operations, compact_edit_operations_r}
use of_config.Edit.Compact.Effective.{effective_doc-compact, effective_doc}
use of_config.Edit.Compact.Total.{compact_edit_operations-Decided, Decided, KnownOperations}
use of_config.Edit.Compact.Minimal.{compact_edit_operations-IsMinimal, IsMinimal}
use of_config.Edit.Matching.{matching_elements, found, find_element_equiv, first_match}
use of_config.Edit.Matching.Fuel.{Ended, matching_elements_total}
use of_config.Edit.Matching.Find.{find_element_equiv_iff, IsEquiv}
use of_config.Edit.Matching.EmptyKey.{empty_key-found}
use of_config.Edit.Keys.{check_keys, root_element}
use of_config.Edit.Keys.Complete.{check_keys_iff, RootKeyed}
use of_config.Edit.Whitespace.{clrwspace}
use of_config.Edit.Whitespace.Padding.{IsWordByte, clrwspace_of_padded_word}
use of_config.Tests.Sample.{
  as_op, capable_switch, edit_loc, port2, port2_loc, twice, once, forest, el, switch_id,
}

find_element_equiv_iff_example :
    (find_element_equiv (some (capable_switch ∷ [])) edit_loc ≡ found port2_loc)
    ↔ IsEquiv (capable_switch ∷ []) edit_loc.node edit_loc.parents port2_loc
find_element_equiv_iff_example = find_element_equiv_iff (capable_switch ∷ []) edit_loc port2_loc

found_port : find_element_equiv (some (capable_switch ∷ [])) edit_loc ≡ found port2_loc
unfolding find_element_equiv of_config.Edit.Matching.find_in first_match matching_elements
    of_config.Edit.Matching.match_deep of_config.Edit.Matching.match_nodes
    of_config.Edit.Matching.nscmp of_config.Edit.Matching.list_key of_config.Xml.go2node
    of_config.Base.text_eq clrwspace isspace of_config.Edit.Whitespace.trim_end
found_port = refl

compacted : compact_edit_operations as_op twice DefOp.merge ≡ ok once
unfolding compact_edit_operations compact_edit_operations_r get_operation read_operation
    of_config.Base.text_eq
compacted = refl

effective_doc-compact_example :
    effective_doc as_op once EditOp.merge ≡ effective_doc as_op twice EditOp.merge
effective_doc-compact_example = effective_doc-compact as_op refl twice DefOp.merge once compacted

compact_edit_operations-Decided_example :
    Decided (All KnownOperations twice) (compact_edit_operations as_op twice DefOp.merge)
compact_edit_operations-Decided_example = compact_edit_operations-Decided as_op twice DefOp.merge

compact_edit_operations-IsMinimal_example : All (λ n. IsMinimal as_op n EditOp.merge) once
compact_edit_operations-IsMinimal_example =
    compact_edit_operations-IsMinimal as_op refl twice DefOp.merge once compacted

check_edit_ops_hierarchy_iff_example :
    (check_edit_ops_hierarchy as_op edit_loc DefOp.merge ≡ ok tt) ↔ Compatible edit_loc DefOp.merge
check_edit_ops_hierarchy_iff_example = check_edit_ops_hierarchy_iff as_op refl edit_loc DefOp.merge

matching_elements_total_example : Ended port2_loc (matching_elements port2 port2_loc)
matching_elements_total_example = matching_elements_total port2 port2_loc

check_keys_iff_example :
    (check_keys (some (capable_switch ∷ [])) ≡ ok tt)
    ↔ RootKeyed (root_element (capable_switch ∷ []))
check_keys_iff_example = check_keys_iff (capable_switch ∷ [])

abbrev keyless_switch : Node
keyless_switch = el "switch" []

empty_key-found_example :
    first_match
      (el "switch" (el "id" [] ∷ []))
      []
      (el "resources" [] ∷ keyless_switch ∷ el "switch" (switch_id ∷ []) ∷ [])
    ≡ found (record { node = el "switch" (switch_id ∷ []); parents = [] })
unfolding of_config.Edit.Matching.nscmp of_config.Xml.go2node
empty_key-found_example =
    let other : "resources" ≢ "switch" =
      λ e. let bad : ◌≡◌ {A = Bool} false true = (eq_iff "resources" "switch").1 e in cc in
    empty_key-found "switch" none none none none (forest (el "id" [] ∷ []))
      (forest (switch_id ∷ [])) [] (el "resources" [] ∷ keyless_switch ∷ []) [] (el "id" [])
      switch_id (inl refl) (inl other, (inr (inr (refl, refl)), tt)) refl refl refl refl

ab_bytes : All IsWordByte (codes "ab")
unfolding isspace
ab_bytes = ((omega arith, refl), ((omega arith, refl), tt))

clrwspace_of_padded_word_example : clrwspace (codes " ab") ≡ codes "abb"
unfolding isspace
clrwspace_of_padded_word_example =
    clrwspace_of_padded_word b' ' b'a' (codes "b") (omega arith) refl ab_bytes
