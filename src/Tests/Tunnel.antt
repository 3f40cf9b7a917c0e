-- ===== src/Tests/Tunnel.antt =====
-- A tunnel that is added to a port with one option before it.
use of_config.Base.{String, codes, none, some, [], ◌∷◌, ◌≡◌, refl, if◌then◌else◌}
use of_config.Error.{ok}
use of_config.Xml.{Node, name, named, children}
use of_config.Ovs.Db.{Smap, smap_init, smap_replace, Interface}
use of_config.Ovs.Txn.{Ovsdb}
use of_config.Ovs.Ports.{find_interface}
use of_config.Ovs.Tunnels.{tunnel_option, tunnel_options, txn_add_port_tunnel}
use of_config.Ovs.Tunnels.Options.{or_else, first_given}
use of_config.Ovs.Tunnels.Added.{txn_add_port_tunnel_lem}
use of_config.Tests.Idl.{sample_idl}
use of_config.Tests.Rows.{rows}
use of_config.Tests.Sample.{el, leaf}

abbrev tunnel : Node
tunnel = el "vxlan-tunnel" (
    leaf "local-endpoint-ipv4-adress" "10.0.0.1"
    ∷ leaf "key" "7"
    ∷ leaf "vni" "8"
    ∷ leaf "colour" "red"
    ∷ [])

abbrev before : Smap
before = smap_replace smap_init "remote_ip" (codes "10.0.0.2")

abbrev ifc1 : Interface
ifc1 = record {
  uuid = 60;
  name = codes "p1";
  type = codes "system";
  ofport_request = none;
  options = before;
  external_ids = smap_init;
}

abbrev with_interface : Ovsdb
with_interface = record { db = record rows { interfaces = ifc1 ∷ [] }; issued = [] }

ifc1_found : find_interface (codes "p1") with_interface.db ≡ some ifc1
unfolding find_interface of_config.Base.text_eq
ifc1_found = refl

abbrev after : Ovsdb
after = (txn_add_port_tunnel ⦃idl = sample_idl⦄ (some (codes "p1")) (some tunnel) with_interface).1

succeeds :
    txn_add_port_tunnel ⦃idl = sample_idl⦄ (some (codes "p1")) (some tunnel) with_interface
    ≡ (ok tt, after)
unfolding txn_add_port_tunnel tunnel_options tunnel_option find_interface of_config.Base.text_eq
succeeds = refl

txn_add_port_tunnel_lem_example :
    (i' : Interface) × (find_interface (codes "p1") after.db ≡ some i')
    × (i'.type ≡ codes (if named tunnel "vxlan-tunnel" then "vxlan" else "gre"))
    × (i'.external_ids "tunnel_type" ≡ some (codes (name tunnel)))
    × ((k : String) → i'.options k ≡ or_else (before k) (first_given k (children tunnel)))
txn_add_port_tunnel_lem_example =
    txn_add_port_tunnel_lem ⦃idl = sample_idl⦄ (codes "p1") tunnel with_interface after ifc1
      ifc1_found succeeds
