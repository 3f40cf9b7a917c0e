-- ===== src/Ovs/Controllers.antt =====
-- Controllers of server/ovs-data.c, their targets and their references from bridges.
pub mod InPlace
use of_config.Base.{
  ◌-◌, ◌==◌, String, Text, codes, not, Option, none, some, List, [], ◌∷◌, ◌++◌, length, find?,
  xml_str_equal, str_eq, if◌then◌else◌, others,
}
use of_config.Error.{
  Result, ok, fault, NcErr, nc_err_new, missing_elem, bad_element_msg, failed_msg,
}
use of_config.Error
use of_config.Xml.{Node, named, children, content, first_child, is_element}
use of_config.Ovs.Db.{Uuid, smap_replace, Bridge, Controller, Db}
use of_config.Ovs.Idl.{
  change_controller, bridge_controller, controller_target, controller_local_ip,
  controller_connection_mode, controller_external_ids, controller,
}
use of_config.Ovs.Interface.{Idl}
use of_config.Ovs.Txn.{
  Txn, ◌>>=◌, ◌>>◌, pure, raise, crash, gets, deref, or_raise, lift, invalid_input, set, insert,
  delete,
}
use of_config.Ovs.Address.{split_at, print_target}
use of_config.Ovs.Ports.{find_bridge}
use of_config.Ovs.QueueRefs.{has_text}

unfoldable pub find_controller : Text → Db → Option Controller
find_controller contr_id d =
    find? (λ c. has_text contr_id (c.external_ids "ofconfig-id")) d.controllers

abbrev pub controller_at : Uuid → Db → Option Controller
controller_at u d = find? (λ c. c.uuid == u) d.controllers

abbrev pub no_controller : NcErr
no_controller = bad_element_msg "id" "Controller does not exist in OVSDB"

abbrev pub no_bridge : NcErr
no_bridge = bad_element_msg "id" "Bridge does not exist in OVSDB"

-- What the loop of `txn_add_contr` has read.
pub record ControllerNode : Type 0 where
  pub proto : Text
  pub ip : Option Text
  pub port : Option Text

abbrev pub defaults : ControllerNode
defaults = record { proto = codes "ssl"; ip = none; port = none }

-- `aux->children->content`, which follows the pointer to the first child.
abbrev pub own_content : Node → Result (Option Text)
own_content n = elim (first_child n) [ none ↦ fault | some c ↦ ok (content c) ]

abbrev pub missing_ip : NcErr
missing_ip = record (nc_err_new missing_elem) { info_badelem = some "ip-address" }

abbrev pub not_connected : NcErr
not_connected = failed_msg "Controller to delete is not connected with the specified bridge"

module _ ⦃idl : Idl⦄ where
  unfoldable pub txn_mod_contr_lip : Option Text → Option Text → Txn (Unit {0})
  txn_mod_contr_lip none value = raise invalid_input
  txn_mod_contr_lip (some contr_id) value = do
    found ← gets (find_controller contr_id)
    c ← or_raise found no_controller
    set (controller_local_ip c.uuid value)

  abbrev pub set_id : Uuid → Option Text → Txn (Unit {0})
  set_id u none = crash
  set_id u (some v) = do
    now ← gets (controller_at u)
    c ← deref now
    set (controller_external_ids u (smap_replace c.external_ids "ofconfig-id" v))

  abbrev pub read_child : Uuid → ControllerNode → Node → Txn ControllerNode
  read_child u f n =
      if named n "id"
      then (do v ← lift (own_content n); set_id u v; pure f)
      else if named n "ip-address"
      then (do v ← lift (own_content n); pure (record f { ip = v }))
      else if named n "port"
      then (do v ← lift (own_content n); pure (record f { port = v }))
      else if named n "protocol"
      then (do
        v ← lift (own_content n)
        pure (if xml_str_equal v (some (codes "tcp")) then record f { proto = codes "tcp" } else f))
      else if named n "local-ip-address"
      then (do v ← lift (own_content n); set (controller_local_ip u v); pure f)
      else pure f

  unfoldable pub read_controller : Uuid → ControllerNode → List Node → Txn ControllerNode
  read_controller u f [] = pure f
  read_controller u f (n ∷ rest) = do
    f' ← if is_element n then read_child u f n else pure f
    read_controller u f' rest

  unfoldable pub txn_add_contr : Option Node → Option Text → Txn (Unit {0})
  txn_add_contr none br_name = raise invalid_input
  txn_add_contr (some node) none = raise invalid_input
  txn_add_contr (some node) (some br_name) = do
    u ← insert controller
    set (controller_connection_mode u (codes "in-band"))
    f ← read_controller u defaults (children node)
    ip ← or_raise f.ip missing_ip
    set (controller_target u (print_target f.proto ip f.port))
    found ← gets (find_bridge br_name)
    b ← or_raise found no_bridge
    set (bridge_controller b.uuid (b.controller ++ u ∷ []))

  -- Everything but the controller is copied; it must leave room for one that does not fit.
  abbrev pub without_controller : Bridge → Uuid → List Uuid → Txn (List Uuid)
  without_controller b u [] = raise not_connected
  without_controller b u (v ∷ []) = pure []
  without_controller b u (v ∷ w ∷ rest) =
      let kept = others (λ x. x == u) b.controller in
      if length kept == length b.controller
      then raise not_connected
      else if length kept == length b.controller - 1
      then pure kept
      else crash

  unfoldable pub txn_del_contr : Option Text → Option Text → Txn (Unit {0})
  txn_del_contr none br_name = raise invalid_input
  txn_del_contr (some contr_id) none = raise invalid_input
  txn_del_contr (some contr_id) (some br_name) = do
    found ← gets (find_controller contr_id)
    c ← or_raise found no_controller
    found_bridge ← gets (find_bridge br_name)
    b ← or_raise found_bridge no_bridge
    kept ← without_controller b c.uuid b.controller
    set (bridge_controller b.uuid kept)
    delete controller c.uuid

-- A row's own text, written in place: no call is made.
abbrev pub write_target : Db → Uuid → Text → Db
write_target d u t = change_controller d u (λ c. record c { target = t })

abbrev pub in_place : Uuid → Text → Txn (Unit {0})
in_place u t s = (ok tt, record s { db = write_target s.db u t })

-- `contr->target[0..2] = ...`
abbrev pub overwrite : Text → Text → Option Text
overwrite p (a ∷ b ∷ c ∷ rest) = some (p ++ rest)
overwrite p _ = none

-- Up to the second colon; `index` follows NULL where there is no first.
abbrev pub hide_port : Text → Option Text
hide_port t = elim (split_at b':' t) [
  | none ↦ none
  | some (proto, rest) ↦ elim (split_at b':' rest) [
    | none ↦ some t
    | some (ip, port) ↦ some (proto ++ b':' ∷ ip)
  ]
]

-- `memcpy(aux, contr->target, 3)` over `xxx:...`; a target of two bytes brings its NUL along.
abbrev pub with_protocol : Text → Text → Option Text
with_protocol (a ∷ b ∷ c ∷ _) rest = some (a ∷ b ∷ c ∷ rest)
with_protocol (a ∷ b ∷ []) rest = some (a ∷ b ∷ [])
with_protocol _ rest = none

abbrev pub replace_ip : Text → Text → Option Text
replace_ip t value = elim (split_at b':' t) [
  | none ↦ none
  | some (proto, rest) ↦ elim (split_at b':' rest) [
    | none ↦ with_protocol t (b':' ∷ value)
    | some (ip, port) ↦ with_protocol t (b':' ∷ (value ++ b':' ∷ port))
  ]
]

abbrev pub protocol_bytes : Option Text → Text
protocol_bytes value = if xml_str_equal value (some (codes "tcp")) then codes "tcp" else codes "ssl"

module _ ⦃idl : Idl⦄ where
  abbrev pub mod_port : Controller → Option Text → Txn (Unit {0})
  mod_port c value = do
    hidden ← deref (hide_port c.target)
    in_place c.uuid hidden
    elim value [ none ↦ pure tt | some v ↦ set (controller_target c.uuid (hidden ++ b':' ∷ v)) ]

  abbrev pub mod_protocol : Controller → Option Text → Txn (Unit {0})
  mod_protocol c value = do t ← deref (overwrite (protocol_bytes value) c.target); in_place c.uuid t

  abbrev pub mod_ip : Controller → Option Text → Txn (Unit {0})
  mod_ip c none = pure tt
  mod_ip c (some v) = do t ← deref (replace_ip c.target v); set (controller_target c.uuid t)

  abbrev pub mod_part : Controller → String → Option Text → Txn (Unit {0})
  mod_part c x value =
      if str_eq x "port"
      then mod_port c value
      else if str_eq x "protocol"
      then mod_protocol c value
      else if str_eq x "ip-address"
      then mod_ip c value
      else pure tt

  -- The column `target` is never empty of a value, so the code's test for NULL does not pass.
  unfoldable pub txn_mod_contr_target : Option Text → Option String → Option Text → Txn (Unit {0})
  txn_mod_contr_target none x value = raise invalid_input
  txn_mod_contr_target (some contr_id) none value = raise invalid_input
  txn_mod_contr_target (some contr_id) (some x) value = do
    found ← gets (find_controller contr_id)
    c ← or_raise found no_controller
    mod_part c x value
