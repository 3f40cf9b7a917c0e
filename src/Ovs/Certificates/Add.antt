-- ===== src/Ovs/Certificates/Add.antt =====
-- `txn_add_owned_certificate` and `txn_add_external_certificate` of server/ovs-data.c.
use of_config.Base.{
  String, Text, Bool, true, false, not, ◌&&◌, Option, none, some, List, [], ◌∷◌, if◌then◌else◌,
  text_eq,
}
use of_config.Error.{nc_err_new, op_failed, failed_msg}
use of_config.Xml.{Node, named, is_element, children, child_content}
use of_config.Ovs.Db.{Uuid, smap_replace}
use of_config.Edit.Live.{get_key, above}
use of_config.Ovs.Certificates.{
  Ssl, Switch, System, resid_own, resid_ext, Step, ◌>>=◌, ◌>>◌, answer, pure, raise, reads, set_ssl,
  set_switch_ssl, NodeOp, missing_leaf, need, path, write_cert, write_key, insert_ssl,
  insert_switch,
}

-- What the loop over the children collects.
pub record Given : Type 0 where
  pub resid : Option Text
  pub cert : Option Text
  pub key_type : Option Text
  pub key_data : Option Text

unfoldable pub gather_key : Given → List Node → Given
gather_key g [] = g
gather_key g (n ∷ rest) =
    gather_key
      (if named n "key-type"
        then record g { key_type = child_content n }
        else if named n "key-data"
        then record g { key_data = child_content n }
        else g)
      rest

abbrev pub is_given : Option Text → Bool
is_given none = false
is_given (some t) = true

-- `with_key`: the owned certificate, whose private key is read too
abbrev pub gather_one : Bool → Given → Node → Given
gather_one with_key g n =
    if not (is_given g.resid) && named n "resource-id"
    then record g { resid = child_content n }
    else if named n "certificate"
    then record g { cert = child_content n }
    else if with_key && named n "private-key"
    then gather_key g (children n)
    else g

unfoldable pub gather : Bool → Given → List Node → Given
gather with_key g [] = g
gather with_key g (n ∷ rest) =
    gather with_key (if is_element n then gather_one with_key g n else g) rest

module _ {F : Type 0} (sys : System F) where
  -- the first SSL row, if its resource-id is not another one, or a new row; the key read so far
  abbrev pub same_or_none : Option Text → Text → Bool
  same_or_none none new = true
  same_or_none (some old) new = text_eq new old

  abbrev pub reuse : Ssl → String → String → Option Text → Step F (Uuid × Option Text)
  reuse r type another none = raise (missing_leaf "resource-id")
  reuse r type another (some new) =
      if same_or_none (r.external_ids type) new
      then pure (r.uuid, some new)
      else raise (failed_msg another)

  abbrev pub row_for : List Ssl → String → String → Node → Step F (Uuid × Option Text)
  row_for [] type another node = do u ← insert_ssl sys; pure (u, none)
  row_for (r ∷ rows) type another node = do
    new ← answer (get_key sys.is_blank (above node) "resource-id")
    reuse r type another new

  -- the first Open_vSwitch row, or a new one, is linked with the SSL row
  abbrev pub link_first : List Switch → Uuid → Step F (Unit {0})
  link_first [] u = do v ← insert_switch sys; set_switch_ssl v (some u)
  link_first (v ∷ rest) u = set_switch_ssl v.uuid (some u)

  abbrev pub link_ssl : Uuid → Step F (Unit {0})
  link_ssl u = do rows ← reads (λ s. s.switches); link_first rows u

  unfoldable pub store_owned : Uuid → Given → Step F (Unit {0})
  store_owned u g = do
    rid ← answer (need g.resid "resource-id")
    cert ← answer (need g.cert "certificate")
    key_type ← answer (need g.key_type "key-type")
    key_data ← answer (need g.key_data "key-data")
    write_cert sys cert (path sys "/cert.pem")
    set_ssl u (λ r. record r { certificate = path sys "/cert.pem" })
    write_key sys key_type key_data
    set_ssl u (λ r. record r { private_key = path sys "/key.pem" })
    set_ssl u (λ r. record r { external_ids = smap_replace r.external_ids resid_own rid })
    link_ssl u

  unfoldable pub txn_add_owned_certificate : NodeOp F
  txn_add_owned_certificate none = raise (nc_err_new op_failed)
  txn_add_owned_certificate (some node) = do
    rows ← reads (λ s. s.ssls)
    row ← row_for rows resid_own "OVS allows to use only a single owned certificate" node
    store_owned row.0 (
        gather true (record { resid = row.1; cert = none; key_type = none; key_data = none })
          (children node))

  unfoldable pub store_external : Uuid → Given → Step F (Unit {0})
  store_external u g = do
    rid ← answer (need g.resid "resource-id")
    cert ← answer (need g.cert "certificate")
    write_cert sys cert (path sys "/ca_cert.pem")
    set_ssl u (λ r. record r { ca_cert = path sys "/ca_cert.pem" })
    set_ssl u (λ r. record r { external_ids = smap_replace r.external_ids resid_ext rid })
    link_ssl u

  unfoldable pub txn_add_external_certificate : NodeOp F
  txn_add_external_certificate none = raise (nc_err_new op_failed)
  txn_add_external_certificate (some node) = do
    rows ← reads (λ s. s.ssls)
    row ← row_for rows resid_ext "OVS allows to use only a single external certificate" node
    store_external row.0 (
        gather false (record { resid = row.1; cert = none; key_type = none; key_data = none })
          (children node))
