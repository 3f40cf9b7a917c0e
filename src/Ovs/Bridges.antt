-- ===== src/Ovs/Bridges.antt =====
-- Bridges of server/ovs-data.c: their rows, their references from the table Open_vSwitch, and the
-- settings that the switch's element carries.
pub mod Datapath
pub mod Remove
use mathlib.Core.Option
use of_config.Base.{
  ℕ, zero, suc, ◌-◌, ◌%◌, ◌==◌, Text, codes, Bool, true, false, not, ◌&&◌, ◌||◌, Option, none, some,
  List, [], ◌∷◌, ◌++◌, length, find?, text_eq, xml_str_equal, if◌then◌else◌,
}
use of_config.Error.{Result, ok, fault, NcErr, bad_element_msg}
use of_config.Error
use of_config.Xml.{Node, name, named, children, is_element, child_content}
use of_config.Ovs.Db.{
  Uuid, Smap, smap_replace, smap_remove, Bridge, Port, OpenVswitch, Db, bridge_at,
}
use of_config.Ovs.Idl.{
  bridge_name, bridge_fail_mode, bridge_other_config, open_vswitch_bridges, bridge, open_vswitch,
}
use of_config.Ovs.Interface.{Idl}
use of_config.Ovs.Txn.{
  Txn, ◌>>=◌, ◌>>◌, pure, raise, crash, gets, deref, or_raise, lift, invalid_input, set, insert,
  delete,
}
use of_config.Ovs.Arrays.{rebuild}
use of_config.Ovs.Ports.{find_bridge, find_port, txn_bridge_insert_port}
use of_config.Ovs.FlowTables.{find_flowtable, txn_bridge_insert_flowtable}
use of_config.Ovs.Controllers.{no_bridge, own_content, txn_add_contr}

-- `while (j < len && value[j] == ':') j++`
abbrev pub skip_colons : Text → Text
skip_colons [] = []
skip_colons (c ∷ s) = let rest = skip_colons s in if c == b':' then rest else c ∷ s

abbrev pub cons_ok : ℕ → Result Text → Result Text
cons_ok c r = Error.◌>>=◌ r λ s. ok (c ∷ s)

-- The loop that fills `dp`, with the members that are left before the last. The last one has to
-- receive the NUL of `value`; a NUL that comes earlier sends the loop beyond the end of `value`.
unfoldable pub fill_dp : ℕ → Text → Result Text
fill_dp zero value = elim (skip_colons value) [ [] ↦ ok [] | c ∷ s ↦ fault ]
fill_dp (suc n) value = elim (skip_colons value) [ [] ↦ fault | c ∷ s ↦ cons_ok c (fill_dp n s) ]

-- `get_bridges_config`: the loop from position j on, with n positions left. A NUL may only be read
-- at the end.
unfoldable pub print_dpid : ℕ → ℕ → Text → Result Text
print_dpid zero j s = ok []
print_dpid (suc n) j s = if j % 3 == 0 then cons_ok b':' (print_dpid n (suc j) s) else elim s [
  | [] ↦ if n == 0 then ok [] else fault
  | c ∷ rest ↦ cons_ok c (print_dpid n (suc j) rest)
]

unfoldable pub format_dpid : Text → Result Text
format_dpid s = print_dpid 23 1 s

abbrev pub is_bridge_named : Text → Option Bridge → Result Bool
is_bridge_named x none = fault
is_bridge_named x (some b) = ok (text_eq x b.name)

unfoldable pub names_bridge : Db → Text → Uuid → Result Bool
names_bridge d x u = is_bridge_named x (bridge_at u d)

abbrev pub names_bridge_surely : Db → Text → Uuid → Bool
names_bridge_surely d x u = elim (bridge_at u d) [ none ↦ false | some b ↦ text_eq x b.name ]

abbrev pub switch_not_found : NcErr
switch_not_found = bad_element_msg "name" "switch to remove not found"

-- `OVSREC_OPEN_VSWITCH` first row
abbrev pub first_row : List OpenVswitch → Option OpenVswitch
first_row [] = none
first_row (o ∷ os) = some o

abbrev pub open_vswitch_at : Uuid → Db → Option OpenVswitch
open_vswitch_at u d = find? (λ o. o.uuid == u) d.open_vswitch

-- The first child element `id` of a switch.
abbrev pub bridge_id : List Node → Option Text
bridge_id ns = elim (find? (λ n. is_element n && named n "id") ns) [
  | none ↦ none
  | some n ↦ child_content n
]

abbrev pub fail_mode : Option Text → Text
fail_mode value =
    if xml_str_equal value (some (codes "failStandaloneMode"))
    then codes "standalone"
    else codes "secure"

module _ ⦃idl : Idl⦄ where
  abbrev pub datapath_config : Bridge → Option Text → Txn Smap
  datapath_config b none = pure (smap_remove b.other_config "datapath-id")
  datapath_config b (some value) =
      if length value == 23
      then (do dp ← lift (fill_dp 16 value); pure (smap_replace b.other_config "datapath-id" dp))
      else raise (bad_element_msg "datapath-id" "Invalid value to set")

  unfoldable pub txn_mod_bridge_datapath : Option Text → Option Text → Txn (Unit {0})
  txn_mod_bridge_datapath none value = raise invalid_input
  txn_mod_bridge_datapath (some br_name) value = do
    found ← gets (find_bridge br_name)
    b ← or_raise found no_bridge
    config ← datapath_config b value
    set (bridge_other_config b.uuid config)

  unfoldable pub txn_mod_bridge_failmode : Option Text → Option Text → Txn (Unit {0})
  txn_mod_bridge_failmode none value = raise invalid_input
  txn_mod_bridge_failmode (some br_name) value = do
    found ← gets (find_bridge br_name)
    b ← or_raise found no_bridge
    set (bridge_fail_mode b.uuid (fail_mode value))

  unfoldable pub txn_ovs_insert_bridge : OpenVswitch → Uuid → Txn (Unit {0})
  txn_ovs_insert_bridge ovs u = set (open_vswitch_bridges ovs.uuid (ovs.bridges ++ u ∷ []))

  -- The first row of the table, which is inserted where there is none.
  abbrev pub first_or_insert : Option OpenVswitch → Txn OpenVswitch
  first_or_insert (some ovs) = pure ovs
  first_or_insert none = do u ← insert open_vswitch; fresh ← gets (open_vswitch_at u); deref fresh

  abbrev pub get_ovs : Txn OpenVswitch
  get_ovs = do d ← gets (λ d. d); first_or_insert (first_row d.open_vswitch)

  -- With one reference less the bridge is the one that was left out; with fewer, the rest of the new
  -- array was not written; without any reference the loop does not run.
  abbrev pub unlink_bridge : OpenVswitch → Option Uuid → Option (List Uuid) → Txn (Unit {0})
  unlink_bridge ovs hit none = raise switch_not_found
  unlink_bridge ovs none (some kept) = pure tt
  unlink_bridge ovs (some u) (some kept) =
      if length kept == length ovs.bridges - 1
      then (do set (open_vswitch_bridges ovs.uuid kept); delete bridge u)
      else crash

  unfoldable pub txn_del_bridge : Option Text → Txn (Unit {0})
  txn_del_bridge none = raise invalid_input
  txn_del_bridge (some br_name) = do
    ovs ← get_ovs
    d ← gets (λ d. d)
    kept ← lift (rebuild (names_bridge d br_name) (length ovs.bridges - 1) ovs.bridges)
    unlink_bridge ovs (find? (names_bridge_surely d br_name) ovs.bridges) kept

  -- The bridge's row as it is now.
  abbrev pub current : Uuid → Txn Bridge
  current u = do now ← gets (bridge_at u); deref now

  abbrev pub find_port_if : Option Text → Db → Option Port
  find_port_if none d = none
  find_port_if (some x) d = find_port x d

  abbrev pub add_resource : Uuid → Node → Txn (Unit {0})
  add_resource u leaf =
      if named leaf "port"
      then (do
        found ← gets (find_port_if (child_content leaf))
        p ← or_raise found (bad_element_msg "port" "Invalid port leafref in switch.")
        b ← current u
        txn_bridge_insert_port b p)
      else if named leaf "flow-table"
      then (do
        found ← gets (find_flowtable (child_content leaf))
        ft ← or_raise found (bad_element_msg "flow-table" "Invalid flow-table leafref in switch.")
        b ← current u
        txn_bridge_insert_flowtable b ft)
      else pure tt

  unfoldable pub add_resources : Uuid → List Node → Txn (Unit {0})
  add_resources u [] = pure tt
  add_resources u (leaf ∷ rest) = add_resource u leaf >> add_resources u rest

  unfoldable pub add_controllers : Uuid → List Node → Txn (Unit {0})
  add_controllers u [] = pure tt
  add_controllers u (leaf ∷ rest) = do
    b ← current u
    txn_add_contr (some leaf) (some b.name)
    add_controllers u rest

  -- One child of the switch; the answer is whether it set the fail mode.
  abbrev pub add_setting : Uuid → Node → Txn Bool
  add_setting u n =
      if named n "datapath-id"
      then (do b ← current u; txn_mod_bridge_datapath (some b.name) (child_content n); pure false)
      else if named n "resources"
      then (do add_resources u (children n); pure false)
      else if named n "controllers"
      then (do add_controllers u (children n); pure false)
      else if named n "lost-connection-behavior"
      then (do
        b ← current u
        value ← lift (own_content n)
        txn_mod_bridge_failmode (some b.name) value
        pure true)
      else pure false

  unfoldable pub add_settings : Uuid → Bool → List Node → Txn Bool
  add_settings u flag [] = pure flag
  add_settings u flag (n ∷ rest) = do
    hit ← if is_element n then add_setting u n else pure false
    add_settings u (flag || hit) rest

  abbrev pub default_failmode : Uuid → Bool → Txn (Unit {0})
  default_failmode u true = pure tt
  default_failmode u false = do b ← current u; txn_mod_bridge_failmode (some b.name) none

  -- A name that is NULL cannot be stored.
  abbrev pub create_bridge : Option Text → List Node → Txn (Unit {0})
  create_bridge id ns = do
    ovs ← get_ovs
    u ← insert bridge
    txn_ovs_insert_bridge ovs u
    x ← deref id
    set (bridge_name u x)
    flag ← add_settings u false ns
    default_failmode u flag

  abbrev pub find_named_bridge : Option Text → Db → Option Bridge
  find_named_bridge none d = none
  find_named_bridge (some x) d = find_bridge x d

  abbrev pub unless_exists : Option Bridge → Txn (Unit {0}) → Txn (Unit {0})
  unless_exists (some b) k = raise (bad_element_msg "id" "Bridge already exists in OVSDB")
  unless_exists none k = k

  unfoldable pub txn_add_bridge : Option Node → Txn (Unit {0})
  txn_add_bridge none = raise invalid_input
  txn_add_bridge (some node) = do
    existing ← gets (find_named_bridge (bridge_id (children node)))
    unless_exists existing (create_bridge (bridge_id (children node)) (children node))
