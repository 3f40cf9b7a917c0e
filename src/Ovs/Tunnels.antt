-- ===== src/Ovs/Tunnels.antt =====
-- Tunnels of ports in server/ovs-data.c. Whether a device is the kernel's, which `dev_is_system` asks
-- the kernel, is a parameter.
pub mod Options
pub mod Added
use of_config.Base.{
  String, Text, codes, Bool, ◌||◌, Option, none, some, List, [], ◌∷◌, str_eq, if◌then◌else◌,
}
use of_config.Error.{
  Result, ok, fault, nc_err_new, bad_elem, data_missing, bad_element, bad_element_msg,
}
use of_config.Error
use of_config.Xml.{Node, name, named, children, is_element, child_content}
use of_config.Ovs.Db.{Smap, smap_replace, smap_remove, Interface, Db}
use of_config.Ovs.Idl.{interface_type, interface_options, interface_external_ids}
use of_config.Ovs.Interface.{Idl}
use of_config.Ovs.Txn.{Txn, ◌>>=◌, ◌>>◌, raise, gets, or_raise, lift, invalid_input, set}
use of_config.Ovs.Ports.{find_interface}

-- `smap_add_once` of OVS: a key that is there keeps its value, and a value that is NULL cannot be
-- copied.
abbrev pub add_absent : Smap → String → Option Text → Result Smap
add_absent m k none = fault
add_absent m k (some v) = ok (smap_replace m k v)

abbrev pub smap_add_once : Smap → String → Option Text → Result Smap
smap_add_once m k v = elim (m k) [ none ↦ add_absent m k v | some old ↦ ok m ]

-- The option that an element of a tunnel sets.
unfoldable pub tunnel_option : String → Option String
tunnel_option x =
    if str_eq x "local-endpoint-ipv4-adress"
    then some "local_ip"
    else if str_eq x "remote-endpoint-ipv4-adress"
    then some "remote_ip"
    else if str_eq x "key" || str_eq x "vni"
    then some "key"
    else none

abbrev pub add_option : Smap → Node → Option String → Result Smap
add_option m n none = ok m
add_option m n (some k) = smap_add_once m k (child_content n)

abbrev pub add_child : Smap → Node → Result Smap
add_child m n = if is_element n then add_option m n (tunnel_option (name n)) else ok m

unfoldable pub tunnel_options : Smap → List Node → Result Smap
tunnel_options m [] = ok m
tunnel_options m (n ∷ rest) = Error.◌>>=◌ (add_child m n) λ m'. tunnel_options m' rest

abbrev pub tunnel_type : Node → Text
tunnel_type n = if named n "vxlan-tunnel" then codes "vxlan" else codes "gre"

-- The option that a single setting of a tunnel changes.
unfoldable pub changed_option : String → Option String
changed_option x = elim (tunnel_option x) [
  | some k ↦ some k
  | none ↦ if str_eq x "checksum-present" then some "csum" else none
]

abbrev pub with_option : Smap → String → Option Text → Smap
with_option m k none = smap_remove m k
with_option m k (some v) = smap_replace m k v

abbrev pub without_tunnel : Smap → Smap
without_tunnel m = smap_remove (smap_remove (smap_remove m "local_ip") "remote_ip") "key"

-- A port that was found has a name.
abbrev pub system_or_internal : (Text → Bool) → Option Text → Text
system_or_internal dev_is_system none = codes "internal"
system_or_internal dev_is_system (some x) =
    if dev_is_system x then codes "system" else codes "internal"

module _ ⦃idl : Idl⦄ where
  unfoldable pub txn_add_port_tunnel : Option Text → Option Node → Txn (Unit {0})
  txn_add_port_tunnel none tunnel_node = raise invalid_input
  txn_add_port_tunnel (some port_name) none = raise invalid_input
  txn_add_port_tunnel (some port_name) (some tunnel_node) = do
    found ← gets (find_interface port_name)
    ifc ← or_raise found (bad_element_msg "name" "Port does not exist in OVSDB")
    options ← lift (tunnel_options ifc.options (children tunnel_node))
    set (interface_type ifc.uuid (tunnel_type tunnel_node))
    set (interface_options ifc.uuid options)
    set (
        interface_external_ids ifc.uuid
          (smap_replace ifc.external_ids "tunnel_type" (codes (name tunnel_node))))

  abbrev pub find_named : Option Text → Db → Option Interface
  find_named none d = none
  find_named (some x) d = find_interface x d

  unfoldable pub txn_mod_port_tunnel_opt :
      Option Text → Option String → Option Text → Txn (Unit {0})
  txn_mod_port_tunnel_opt port_name none value = raise (nc_err_new bad_elem)
  txn_mod_port_tunnel_opt port_name (some node_name) value = do
    opt_key ← or_raise (changed_option node_name) (bad_element node_name)
    found ← gets (find_named port_name)
    ifc ← or_raise found (nc_err_new data_missing)
    set (interface_options ifc.uuid (with_option ifc.options opt_key value))

  unfoldable pub txn_del_port_tunnel : (Text → Bool) → Option Text → Txn (Unit {0})
  txn_del_port_tunnel dev_is_system port_name = do
    found ← gets (find_named port_name)
    ifc ← or_raise found (bad_element_msg "name" "Port not found in OVSDB.")
    set (interface_options ifc.uuid (without_tunnel ifc.options))
    set (interface_external_ids ifc.uuid (smap_remove ifc.external_ids "tunnel_type"))
    set (interface_type ifc.uuid (system_or_internal dev_is_system port_name))
