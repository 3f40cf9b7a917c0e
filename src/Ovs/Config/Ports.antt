-- ===== src/Ovs/Config/Ports.antt =====
-- The ports of a bridge as server/ovs-data.c prints them, and `ofc_get_config_data`. What of_get_port_byname
-- finds in the answer of the bridge's OpenFlow connection, and what ethtool says, are parameters.
pub mod Elements
pub mod Whole
use of_config.Base.{
  String, Text, codes, Bool, true, false, Option, none, some, List, [], ◌∷◌, ◌++◌, ℤ, if◌then◌else◌,
  text_eq, decimal, pos, negsuc, suc, ◌-◌, ◌^◌,
}
use of_config.Error.{Result, ok, ◌>>=◌}
use of_config.Ovs.Db.{Uuid, Smap, Bridge, Interface, Db, port_at, interface_at}
use of_config.Ovs.Adverts.{Mode, Modes, rates, media, autoneg, asym_pause, pause}
use of_config.Ovs.Config.{
  text_element, optional_element, find_and_append_smap_val, each_row, steal, at_row, Columns,
  get_flow_tables_config, get_queues_config, get_bridges_config,
}

-- The bits of `of_port->config` that are printed.
pub record PortConfig : Type 0 where
  pub port_down : Bool
  pub no_recv : Bool
  pub no_fwd : Bool
  pub no_packet_in : Bool

-- By the bridge's and the interface's name.
pub record Devices : Type 0 where
  pub of_port : Text → Text → Option PortConfig
  pub is_system : Text → Bool
  pub advertising : Text → Modes

abbrev pub each_mode : String → Modes → List (Mode × String) → Text
each_mode elem mask [] = []
each_mode elem mask ((m, str) ∷ rest) =
    (if mask m then text_element elem (codes str) else []) ++ each_mode elem mask rest

abbrev pub pause_of : Modes → Text
pause_of mask =
    if mask asym_pause
    then codes "asymmetric"
    else if mask pause
    then codes "symmetric"
    else codes "unsupported"

abbrev pub true_or_false : Bool → Text
true_or_false b = if b then codes "true" else codes "false"

unfoldable pub dump_port_features : Modes → Text
dump_port_features mask =
    each_mode "rate" mask rates
    ++ (text_element "auto-negotiate" (true_or_false (mask autoneg))
        ++ (each_mode "medium" mask media ++ text_element "pause" (pause_of mask)))

abbrev pub bits_text : PortConfig → Text
bits_text c =
    codes "<configuration><admin-state>"
    ++ ((if c.port_down then codes "down" else codes "up")
        ++ (codes "</admin-state><no-receive>"
            ++ (true_or_false c.no_recv
                ++ (codes "</no-receive><no-forward>"
                    ++ (true_or_false c.no_fwd
                        ++ (codes "</no-forward><no-packet-in>"
                            ++ (true_or_false c.no_packet_in
                                ++ codes "</no-packet-in></configuration>")))))))

abbrev pub configuration_text : Option PortConfig → Option Text → Text
configuration_text (some c) admin = bits_text c
configuration_text none (some s) =
    codes "<configuration><admin-state>" ++ (s ++ codes "</admin-state></configuration>")
configuration_text none none = []

abbrev pub features_text : Bool → Modes → Text
features_text true mask =
    codes "<features><advertised>" ++ (dump_port_features mask ++ codes "</advertised></features>")
features_text false mask = []

abbrev pub tunnel_key : Text → Smap → Text
tunnel_key t options =
    if text_eq t (codes "ipgre-tunnel")
    then find_and_append_smap_val options "csum" "checksum-present"
      ++ find_and_append_smap_val options "key" "key"
    else if text_eq t (codes "vxlan-tunnel")
    then find_and_append_smap_val options "key" "vni"
    else []

abbrev pub tunnel_text : Option Text → Smap → Text
tunnel_text none options = []
tunnel_text (some t) options =
    codes "<"
    ++ (t
        ++ (codes ">"
            ++ (find_and_append_smap_val options "local_ip" "local-endpoint-ipv4-adress"
                ++ (find_and_append_smap_val options "remote_ip" "remote-endpoint-ipv4-adress"
                    ++ (tunnel_key t options ++ (codes "</" ++ (t ++ codes ">")))))))

-- `"%"PRIu64` of an `int64_t`
abbrev pub decimal_u64 : ℤ → Text
decimal_u64 (pos n) = decimal n
decimal_u64 (negsuc n) = decimal (2 ^ 64 - suc n)

abbrev pub number_of : Option ℤ → Option Text
number_of none = none
number_of (some n) = some (decimal_u64 n)

abbrev pub interface_text : Columns → Devices → Text → Interface → Result Text
interface_text c v bridge row = ok (
    codes "<port><name>"
    ++ (row.name
        ++ (codes "</name>"
            ++ (optional_element "requested-number" (number_of row.ofport_request)
                ++ (configuration_text (v.of_port bridge row.name) (c.admin_state row.uuid)
                    ++ (features_text (v.is_system row.name) (v.advertising row.name)
                        ++ (tunnel_text (row.external_ids "tunnel_type") row.options
                            ++ codes "</port>")))))))

abbrev pub interfaces_text : Db → Columns → Devices → Text → Uuid → Result Text
interfaces_text d c v bridge p =
    at_row (port_at p d) (λ port.
      each_row (λ i. at_row (interface_at i d) (interface_text c v bridge)) (c.interfaces p))

unfoldable pub get_ports_config : Db → Columns → Devices → Bridge → Result (Option Text)
get_ports_config d c v bridge = steal (each_row (interfaces_text d c v bridge.name) bridge.ports)

-- A part that is NULL is printed as nothing.
abbrev pub or_empty : Option Text → Text
or_empty none = []
or_empty (some t) = t

abbrev pub is_any : List (Option Text) → Bool
is_any [] = false
is_any (none ∷ rest) = is_any rest
is_any (some t ∷ rest) = true

abbrev pub all_of : List (Option Text) → Text
all_of [] = []
all_of (t ∷ rest) = or_empty t ++ all_of rest

abbrev pub resources_text : List (Option Text) → Text
resources_text parts = if is_any parts then text_element "resources" (all_of parts) else []

abbrev pub config_document : Text → List (Option Text) → Option Text → Text
config_document id resources bridges =
    codes "<?xml version=\"1.0\"?><capable-switch xmlns=\"urn:onf:config:yang\"><id>"
    ++ (id
        ++ (codes "</id>"
            ++ (resources_text resources
                ++ (optional_element "logical-switches" bridges ++ codes "</capable-switch>"))))

abbrev pub all_ports : Db → Columns → Devices → Result (Option Text)
all_ports d c v =
    steal (each_row (λ b. get_ports_config d c v b >>= λ t. ok (or_empty t)) d.bridges)

-- With the local copy of OVSDB up to date: the certificates are what `get_owned_certificates_config` and
-- `get_external_certificates_config` return; the switch's id comes first.
unfoldable pub ofc_get_config_data :
    Option Text → Option Text → Option Text → Db → Columns → Devices → Result Text
ofc_get_config_data none owned external d c v = ok []
ofc_get_config_data (some id) owned external d c v = all_ports d c v >>= λ ports.
    get_queues_config d >>= λ queues. get_flow_tables_config d >>= λ tables.
    get_bridges_config d c >>= λ bridges.
    ok (config_document id (ports ∷ queues ∷ owned ∷ external ∷ tables ∷ []) bridges)
