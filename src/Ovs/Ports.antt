-- ===== src/Ovs/Ports.antt =====
-- Ports of server/ovs-data.c: their references from bridges, and the port and interface rows.
pub mod Remove
pub mod Add
use of_config.Base.{
  ◌-◌, ◌==◌, Text, Bool, Option, none, some, List, [], ◌∷◌, ◌++◌, ℤ, length, find?, text_eq, strtol,
  if◌then◌else◌,
}
use of_config.Error.{Result, ok, fault, NcErr, bad_element_msg}
use of_config.Ovs.Db.{Uuid, Bridge, Port, Interface, Db, port_at}
use of_config.Ovs.Idl.{bridge_ports, interface_ofport_request, port, interface}
use of_config.Ovs.Interface.{Idl}
use of_config.Ovs.Txn.{
  Txn, ◌>>=◌, ◌>>◌, pure, raise, crash, gets, or_raise, lift, invalid_input, set, delete,
}
use of_config.Ovs.Arrays.{rebuild}

-- the OVSREC_BRIDGE_FOR_EACH, OVSREC_PORT_FOR_EACH and OVSREC_INTERFACE_FOR_EACH loops by name
unfoldable pub find_bridge : Text → Db → Option Bridge
find_bridge x d = find? (λ b. text_eq x b.name) d.bridges

unfoldable pub find_port : Text → Db → Option Port
find_port x d = find? (λ p. text_eq x p.name) d.ports

unfoldable pub find_interface : Text → Db → Option Interface
find_interface x d = find? (λ i. text_eq x i.name) d.interfaces

abbrev pub no_switch : NcErr
no_switch = bad_element_msg "id" "Logical-switch does not exist in OVSDB"

-- `xmlStrEqual(port_name, bridge->ports[i]->name)`
abbrev pub has_name : Text → Option Port → Result Bool
has_name x none = fault
has_name x (some p) = ok (text_eq x p.name)

unfoldable pub names_port : Db → Text → Uuid → Result Bool
names_port d x u = has_name x (port_at u d)

module _ ⦃idl : Idl⦄ where
  -- the new array has one member less; a member that was not copied is not initialised
  abbrev pub store_ports : Bridge → Option (List Uuid) → Txn (Unit {0})
  store_ports b none = pure tt
  store_ports b (some ps) =
      if length ps == length b.ports - 1 then set (bridge_ports b.uuid ps) else crash

  abbrev pub remove_port : Bridge → Text → List Uuid → Txn (Unit {0})
  remove_port b x [] = pure tt
  remove_port b x (u ∷ []) = do
    d ← gets (λ d. d)
    hit ← lift (names_port d x u)
    if hit then set (bridge_ports b.uuid []) else pure tt
  remove_port b x (u ∷ v ∷ us) = do
    d ← gets (λ d. d)
    kept ← lift (rebuild (names_port d x) (length (v ∷ us)) (u ∷ v ∷ us))
    store_ports b kept

  unfoldable pub txn_del_bridge_port : Option Text → Option Text → Txn (Unit {0})
  txn_del_bridge_port none port_name = raise invalid_input
  txn_del_bridge_port (some br_name) none = raise invalid_input
  txn_del_bridge_port (some br_name) (some port_name) = do
    found ← gets (find_bridge br_name)
    b ← or_raise found no_switch
    remove_port b port_name b.ports

  unfoldable pub txn_bridge_insert_port : Bridge → Port → Txn (Unit {0})
  txn_bridge_insert_port b p = set (bridge_ports b.uuid (b.ports ++ p.uuid ∷ []))

  abbrev pub link_port : Option Port → Option Bridge → Txn (Unit {0})
  link_port none b = raise (bad_element_msg "port" "Invalid port leafref")
  link_port (some p) none = raise (bad_element_msg "id" "Logical switch does not exist in OVSDB")
  link_port (some p) (some b) = set (bridge_ports b.uuid (b.ports ++ p.uuid ∷ []))

  unfoldable pub txn_add_bridge_port : Option Text → Option Text → Txn (Unit {0})
  txn_add_bridge_port none port_name = raise invalid_input
  txn_add_bridge_port (some br_name) none = raise invalid_input
  txn_add_bridge_port (some br_name) (some port_name) = do
    b ← gets (find_bridge br_name)
    p ← gets (find_port port_name)
    link_port p b

  abbrev pub no_port : NcErr
  no_port = bad_element_msg "name" "Port does not exist in OVSDB"

  unfoldable pub txn_del_port : Option Text → Txn (Unit {0})
  txn_del_port none = raise invalid_input
  txn_del_port (some port_name) = do
    p ← gets (find_port port_name)
    i ← gets (find_interface port_name)
    i ← or_raise i no_port
    p ← or_raise p no_port
    delete port p.uuid
    delete interface i.uuid

  abbrev pub requested : Option Text → Option ℤ
  requested none = none
  requested (some t) = some (strtol t)

  unfoldable pub txn_mod_port_reqnumber : Option Text → Option Text → Txn (Unit {0})
  txn_mod_port_reqnumber none value = raise invalid_input
  txn_mod_port_reqnumber (some port_name) value = do
    i ← gets (find_interface port_name)
    i ← or_raise i no_port
    set (interface_ofport_request i.uuid (requested value))
