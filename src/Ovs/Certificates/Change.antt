-- ===== src/Ovs/Certificates/Change.antt =====
-- Changing and deleting a certificate in server/ovs-data.c: `txn_mod_own_cert_certificate`,
-- `txn_mod_ext_cert_certificate`, `txn_del_owned_certificate` and `txn_del_external_certificate`.
use of_config.Base.{String, Text, Option, none, some, List, [], ◌∷◌}
use of_config.Error.{Result, ok, fail, nc_err_new, op_failed, failed_msg, bad_element_msg}
use of_config.Xml.{child_content}
use of_config.Ovs.Db.{smap_remove}
use of_config.Edit.Live.{get_key, above}
use of_config.Ovs.Certificates.{
  Ssl, Switch, System, resid_own, resid_ext, find_ssl, Step, ◌>>=◌, ◌>>◌, answer, raise, reads,
  set_ssl, set_switch_ssl, delete_ssl, NodeOp, missing_leaf, path, unlink_file, write_cert,
}

module _ {F : Type 0} (sys : System F) where
  abbrev pub found_ssl : String → Option Text → Step F Ssl
  found_ssl type resid = do rows ← reads (λ s. s.ssls); answer (find_ssl type resid rows)

  abbrev pub need_data : Option Text → String → Result Text
  need_data none m = fail (some (bad_element_msg "certificate" m))
  need_data (some t) m = ok t

  -- without a node the file goes; the column that is cleared is `ca_cert` here too
  abbrev pub change_own : Ssl → NodeOp F
  change_own r none = do
    unlink_file sys (path sys "/cert.pem")
    set_ssl r.uuid (λ q. record q { ca_cert = [] })
  change_own r (some node) = do
    cert ← answer (need_data (child_content node) "No data in owned-certificate")
    write_cert sys cert (path sys "/cert.pem")
    set_ssl r.uuid (λ q. record q { certificate = path sys "/cert.pem" })

  unfoldable pub txn_mod_own_cert_certificate : Option Text → NodeOp F
  txn_mod_own_cert_certificate none edit = raise (nc_err_new op_failed)
  txn_mod_own_cert_certificate (some resid) edit = do
    r ← found_ssl resid_own (some resid)
    change_own r edit

  abbrev pub change_ext : Ssl → NodeOp F
  change_ext r none = do
    unlink_file sys (path sys "/ca_cert.pem")
    set_ssl r.uuid (λ q. record q { ca_cert = [] })
  change_ext r (some node) = do
    cert ← answer (need_data (child_content node) "No data in external-certificate")
    write_cert sys cert (path sys "/ca_cert.pem")
    set_ssl r.uuid (λ q. record q { ca_cert = path sys "/ca_cert.pem" })

  unfoldable pub txn_mod_ext_cert_certificate : Option Text → NodeOp F
  txn_mod_ext_cert_certificate none edit = raise (nc_err_new op_failed)
  txn_mod_ext_cert_certificate (some resid) edit = do
    r ← found_ssl resid_ext (some resid)
    change_ext r edit

  abbrev pub need_resid : Option Text → String → Result Text
  need_resid none m = fail (some (record (missing_leaf "resource_id") { msg = some m }))
  need_resid (some t) m = ok t

  -- the row goes with the second certificate
  abbrev pub drop_row : Ssl → List Switch → Step F (Unit {0})
  drop_row r [] = raise (failed_msg "OVSDB content is corrupted")
  drop_row r (v ∷ rest) = do set_switch_ssl v.uuid none; delete_ssl r.uuid

  abbrev pub drop_first : Ssl → Step F (Unit {0})
  drop_first r = do rows ← reads (λ s. s.switches); drop_row r rows

  abbrev pub forget_own : Ssl → Step F (Unit {0})
  forget_own r = do
    unlink_file sys (path sys "/cert.pem")
    set_ssl r.uuid (λ q. record q { certificate = [] })
    unlink_file sys (path sys "/key.pem")
    set_ssl r.uuid (λ q. record q { private_key = [] })
    set_ssl r.uuid (λ q. record q { external_ids = smap_remove q.external_ids resid_own })

  abbrev pub delete_own : Ssl → Option Text → Step F (Unit {0})
  delete_own r none = drop_first r
  delete_own r (some other) = forget_own r

  unfoldable pub txn_del_owned_certificate : NodeOp F
  txn_del_owned_certificate none = raise (nc_err_new op_failed)
  txn_del_owned_certificate (some node) = do
    key ← answer (get_key sys.is_blank (above node) "resource-id")
    resid ← answer (need_resid key "owned-certificate has no resource-id specified")
    r ← found_ssl resid_own (some resid)
    delete_own r (r.external_ids resid_ext)

  abbrev pub forget_ext : Ssl → Step F (Unit {0})
  forget_ext r = do
    unlink_file sys (path sys "/ca_cert.pem")
    set_ssl r.uuid (λ q. record q { ca_cert = [] })
    set_ssl r.uuid (λ q. record q { external_ids = smap_remove q.external_ids resid_ext })

  abbrev pub delete_ext : Ssl → Option Text → Step F (Unit {0})
  delete_ext r none = drop_first r
  delete_ext r (some other) = forget_ext r

  unfoldable pub txn_del_external_certificate : NodeOp F
  txn_del_external_certificate none = raise (nc_err_new op_failed)
  txn_del_external_certificate (some node) = do
    key ← answer (get_key sys.is_blank (above node) "resource-id")
    resid ← answer (need_resid key "external-certificate has no resource-id specified")
    r ← found_ssl resid_ext (some resid)
    delete_ext r (r.external_ids resid_own)
