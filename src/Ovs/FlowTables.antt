-- ===== src/Ovs/FlowTables.antt =====
-- Flow tables of server/ovs-data.c and their references from bridges.
pub mod Link
use mathlib.Core.Option
use of_config.Base.{
  ◌-◌, ◌==◌, String, Text, Bool, Option, none, some, List, [], ◌∷◌, ◌++◌, ℤ, pos, length, find?,
  text_eq, sscanf_i64, if◌then◌else◌,
}
use of_config.Error.{Result, ok, fail, fault, NcErr, bad_element_msg, failed_msg}
use of_config.Error
use of_config.Xml.{Node, name, named, children, is_element, child_content}
use of_config.Ovs.Db.{Uuid, Smap, smap_replace, smap_remove, Bridge, FlowTable, Db, flow_table_at}
use of_config.Ovs.Idl.{bridge_flow_tables, flow_table_name, flow_table_external_ids, flow_table}
use of_config.Ovs.Interface.{Idl}
use of_config.Ovs.Txn.{
  Txn, ◌>>=◌, ◌>>◌, pure, raise, crash, gets, deref, or_raise, lift, invalid_input, set, insert,
  delete,
}
use of_config.Ovs.Arrays.{rebuild}
use of_config.Ovs.Ports.{find_bridge, no_switch}
use of_config.Ovs.QueueRefs.{has_text, resource_id}

abbrev pub has_table_id : Text → FlowTable → Bool
has_table_id table_id ft = has_text table_id (ft.external_ids "table_id")

unfoldable pub find_flowtable : Option Text → Db → Option FlowTable
find_flowtable none d = none
find_flowtable (some table_id) d = find? (has_table_id table_id) d.flow_tables

-- What `txn_add_flow_table` reads from the children of the element.
pub record FlowTableNode : Type 0 where
  pub tid_s : Option Text
  pub rid : Option Text
  pub name : Option Text

abbrev pub wrong_table_id : NcErr
wrong_table_id = bad_element_msg "table_id" "Invalid value."

abbrev pub missing_table_id : NcErr
missing_table_id = bad_element_msg "flow-table" "The list element misses key."

abbrev pub is_number : Option ℤ → Result (Unit {0})
is_number none = fail (some wrong_table_id)
is_number (some tid) = ok tt

-- `sscanf` follows the pointer.
abbrev pub check_tid : Option Text → Result (Unit {0})
check_tid none = fault
check_tid (some t) = is_number (sscanf_i64 t)

abbrev pub read_child : FlowTableNode → Node → Result FlowTableNode
read_child f n =
    if named n "table-id"
    then Error.◌>>◌ (check_tid (child_content n)) (ok (record f { tid_s = child_content n }))
    else if named n "resource-id"
    then ok (record f { rid = child_content n })
    else if named n "name"
    then ok (record f { name = child_content n })
    else ok f

unfoldable pub read_flow_table : FlowTableNode → List Node → Result FlowTableNode
read_flow_table f [] = ok f
read_flow_table f (n ∷ rest) =
    Error.◌>>=◌ (if is_element n then read_child f n else ok f) λ f'. read_flow_table f' rest

abbrev pub no_fields : FlowTableNode
no_fields = record { tid_s = none; rid = none; name = none }

abbrev pub replace_if : Smap → String → Option Text → Smap
replace_if m k none = m
replace_if m k (some v) = smap_replace m k v

-- The key under which a bridge keeps a table: 0 where the id spells no number.
abbrev pub key_or_zero : Option ℤ → ℤ
key_or_zero none = pos 0
key_or_zero (some tid) = tid

abbrev pub no_table_id : NcErr
no_table_id = failed_msg "Flow-table with no table-id found in OVSDB"

abbrev pub ref_has_table_id : Text → Option FlowTable → Result Bool
ref_has_table_id table_id none = fault
ref_has_table_id table_id (some ft) = elim (ft.external_ids "table_id") [
  | none ↦ fail (some no_table_id)
  | some t ↦ ok (text_eq table_id t)
]

-- The test of one reference of the bridge.
unfoldable pub is_table : Db → Text → ℤ × Uuid → Result Bool
is_table d table_id (key, u) = ref_has_table_id table_id (flow_table_at u d)

abbrev pub missing_table : NcErr
missing_table = bad_element_msg "table-id" "Flow table does not exist in OVSDB"

module _ ⦃idl : Idl⦄ where
  abbrev pub name_if : Uuid → Option Text → Txn (Unit {0})
  name_if u none = pure tt
  name_if u (some x) = set (flow_table_name u x)

  abbrev pub create_flow_table : FlowTableNode → Option Text → Txn (Unit {0})
  create_flow_table f none = raise missing_table_id
  create_flow_table f (some tid_s) = do
    u ← insert flow_table
    fresh ← gets (flow_table_at u)
    ft ← deref fresh
    set (
        flow_table_external_ids u
          (replace_if (smap_replace ft.external_ids "table_id" tid_s) resource_id f.rid))
    name_if u f.name

  unfoldable pub txn_add_flow_table : Option Node → Txn (Unit {0})
  txn_add_flow_table none = raise invalid_input
  txn_add_flow_table (some node) = do
    f ← lift (read_flow_table no_fields (children node))
    create_flow_table f f.tid_s

  -- `xmlNodeGetContent(node)` is a parameter.
  unfoldable pub txn_mod_flowtable_name : (Node → Text) → Option Text → Option Node → Txn (Unit {0})
  txn_mod_flowtable_name get_content none new = raise invalid_input
  txn_mod_flowtable_name get_content (some table_id) new = do
    found ← gets (find_flowtable (some table_id))
    ft ← or_raise found missing_table
    set (flow_table_name ft.uuid (elim new [ none ↦ [] | some n ↦ get_content n ]))

  abbrev pub set_resid : FlowTable → Option Node → Txn (Unit {0})
  set_resid ft none =
      set (flow_table_external_ids ft.uuid (smap_remove ft.external_ids resource_id))
  set_resid ft (some n) = do
    value ← deref (child_content n)
    set (flow_table_external_ids ft.uuid (smap_replace ft.external_ids resource_id value))

  unfoldable pub txn_mod_flowtable_resid : Option Text → Option Node → Txn (Unit {0})
  txn_mod_flowtable_resid none new = raise invalid_input
  txn_mod_flowtable_resid (some table_id) new = do
    found ← gets (find_flowtable (some table_id))
    ft ← or_raise found missing_table
    set_resid ft new

  unfoldable pub txn_del_flow_table : Option Text → Txn (Unit {0})
  txn_del_flow_table none = raise invalid_input
  txn_del_flow_table (some table_id) = do
    found ← gets (find_flowtable (some table_id))
    ft ← or_raise found (bad_element_msg "table_id" "Flow-table does not exist in OVSDB")
    delete flow_table ft.uuid

  -- as for the ports: the new array has one member less
  abbrev pub store_tables : Bridge → Option (List (ℤ × Uuid)) → Txn (Unit {0})
  store_tables b none = pure tt
  store_tables b (some fts) =
      if length fts == length b.flow_tables - 1 then set (bridge_flow_tables b.uuid fts) else crash

  abbrev pub remove_table : Bridge → Text → List (ℤ × Uuid) → Txn (Unit {0})
  remove_table b table_id [] = pure tt
  remove_table b table_id (r ∷ []) = do
    d ← gets (λ d. d)
    hit ← lift (is_table d table_id r)
    if hit then set (bridge_flow_tables b.uuid []) else pure tt
  remove_table b table_id (r ∷ s ∷ rs) = do
    d ← gets (λ d. d)
    kept ← lift (rebuild (is_table d table_id) (length (s ∷ rs)) (r ∷ s ∷ rs))
    store_tables b kept

  unfoldable pub txn_del_bridge_flowtable : Option Text → Option Text → Txn (Unit {0})
  txn_del_bridge_flowtable none table_id = raise invalid_input
  txn_del_bridge_flowtable (some br_name) none = raise invalid_input
  txn_del_bridge_flowtable (some br_name) (some table_id) = do
    found ← gets (find_bridge br_name)
    b ← or_raise found no_switch
    remove_table b table_id b.flow_tables

  abbrev pub append_table : Bridge → FlowTable → Text → Txn (Unit {0})
  append_table b ft tid_s =
      set (
        bridge_flow_tables b.uuid (b.flow_tables ++ (key_or_zero (sscanf_i64 tid_s), ft.uuid) ∷ []))

  -- The bridge and the table are rows, never NULL.
  unfoldable pub txn_bridge_insert_flowtable : Bridge → FlowTable → Txn (Unit {0})
  txn_bridge_insert_flowtable b ft = do
    tid_s ←
        or_raise (ft.external_ids "table_id")
          (failed_msg "Invalid flow table record, internal error")
    append_table b ft tid_s

  abbrev pub link_table : Option FlowTable → Option Bridge → Text → Txn (Unit {0})
  link_table none b table_id = raise (bad_element_msg "flow-table" "Invalid flow-table leafref")
  link_table (some ft) none table_id =
      raise (bad_element_msg "id" "Logical switch does not exist in OVSDB")
  link_table (some ft) (some b) table_id = append_table b ft table_id

  unfoldable pub txn_add_bridge_flowtable : Option Text → Option Text → Txn (Unit {0})
  txn_add_bridge_flowtable none table_id = raise invalid_input
  txn_add_bridge_flowtable (some br_name) none = raise invalid_input
  txn_add_bridge_flowtable (some br_name) (some table_id) = do
    b ← gets (find_bridge br_name)
    ft ← gets (find_flowtable (some table_id))
    link_table ft b table_id
