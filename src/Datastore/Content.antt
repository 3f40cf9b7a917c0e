-- ===== src/Datastore/Content.antt =====
-- The contents of the datastores of server/ofconfig-datastore.c: `ofcds_getconfig`,
-- `ofcds_deleteconfig`, `ofcds_copyconfig` and `ofcds_rollback`. libxml2 is a parameter (`Libxml`), and
-- so is the running configuration, which the functions read and replace as a whole (`Running`).
pub mod Rollback
use of_config.Base.{
  Text, String, Bool, true, false, Option, none, some, [], ◌∷◌, if◌then◌else◌, ◌≡◌, ◌≢◌,
}
use of_config.Error.{Result, ok, fail, fault, NcErr, nc_err_new, bad_element, failed_msg, op_failed}
use of_config.Datastore.Locks.{Datastore, error, config, running, startup, candidate}

-- What the code uses of libxml2: `xmlReadMemory`, `xmlDocDumpMemory`, `xmlNewDoc` and
-- `xmlDocGetRootElement`. The dump of a document without a root is only the XML declaration, which is no
-- document. The dump of any other can be read, and gives the document back if that is normal: no text
-- in it consists of blanks and no namespace is declared where it holds already, which XML_READ_OPT has
-- the read drop, and no text stands beside another, with which it would be read as one.
pub record Libxml (D : Type 0) : Type 0 where
  pub read : Text → Option D
  pub dump : D → Text
  pub new_doc : D
  pub has_root : D → Bool
  pub is_normal : D → Bool
  pub dump-ne-nil : (d : D) → dump d ≢ []
  pub read_rootless : (d : D) → has_root d ≡ false → read (dump d) ≡ none
  pub read-dump : (d : D) → has_root d ≡ true → is_normal d ≡ true → read (dump d) ≡ some d

-- `ofc_get_config_data`, and `txn_init` with `edit_replace` and then `txn_abort` or `txn_commit`, on the
-- state W of the server's database. The root of a missing document is NULL.
pub record Running (D W : Type 0) : Type 0 where
  pub config_data : W → Option Text
  pub replace : D → Option D → W → Result (Unit {0}) × W

pub record Store (D W : Type 0) : Type 0 where
  pub db : W
  pub gds_startup : Option D
  pub gds_cand : Option D
  pub rollback_doc : Option D
  pub rollback_type : Datastore
  pub rollbacking : Bool

abbrev pub wrong_place : String → NcErr
wrong_place x = bad_element x

module _ {D W : Type 0} where
  unfoldable pub store_rollback : Option D → Datastore → Store D W → Store D W
  store_rollback doc type s = record s { rollback_doc = doc; rollback_type = type }

  unfoldable pub ofcds_deleteconfig : Datastore → Store D W → Result (Unit {0}) × Store D W
  ofcds_deleteconfig running s = (fail (some (failed_msg "Cannot delete a running datastore.")), s)
  ofcds_deleteconfig startup s =
      (ok tt, record (store_rollback s.gds_startup startup s) { gds_startup = none })
  ofcds_deleteconfig candidate s =
      (ok tt, record (store_rollback s.gds_cand candidate s) { gds_cand = none })
  ofcds_deleteconfig _ s = (fail (some (wrong_place "target")), s)

  module _ (xml : Libxml D) (run : Running D W) where
    abbrev pub dump_or_empty : Option D → Text
    dump_or_empty none = []
    dump_or_empty (some d) = xml.dump d

    -- A text, or NULL.
    unfoldable pub ofcds_getconfig : Datastore → Store D W → Result (Option Text)
    ofcds_getconfig running s = ok (run.config_data s.db)
    ofcds_getconfig startup s = ok (some (dump_or_empty s.gds_startup))
    ofcds_getconfig candidate s = ok (some (dump_or_empty s.gds_cand))
    ofcds_getconfig _ s = fail (some (wrong_place "source"))

    abbrev pub or_fail : Option D → NcErr → Result (Option D)
    or_fail none e = fail (some e)
    or_fail (some d) e = ok (some d)

    abbrev pub invalid_running : NcErr
    invalid_running = record (nc_err_new op_failed) {
      info_badelem = some "invalid running source data";
    }

    abbrev pub read_running : Option Text → Result (Option D)
    read_running none = fail none
    read_running (some t) = or_fail (xml.read t) invalid_running

    abbrev pub read_config : Option Text → Result (Option D)
    read_config none = fail (some (wrong_place "config"))
    read_config (some []) = ok none
    read_config (some (c ∷ t)) = or_fail (xml.read (c ∷ t)) (wrong_place "config")

    -- `src_doc` of `ofcds_copyconfig`
    abbrev pub source_doc : Datastore → Option Text → Store D W → Result (Option D)
    source_doc running text s = read_running (run.config_data s.db)
    source_doc startup text s = ok s.gds_startup
    source_doc candidate text s = ok s.gds_cand
    source_doc config text s = read_config text
    source_doc _ text s = fail (some (wrong_place "source"))

    abbrev pub or_new : Option D → D
    or_new none = xml.new_doc
    or_new (some d) = d

    abbrev pub unless_rollbacking : Option D → Datastore → Store D W → Store D W
    unless_rollbacking doc type s = if s.rollbacking then s else store_rollback doc type s

    abbrev pub put_running : Option D → Option Text → Store D W → Result (Unit {0}) × Store D W
    put_running src none s = (fail none, s)
    put_running src (some t) s =
        let dst = or_new (xml.read t) in
        let s' = unless_rollbacking (some dst) running s in
        let done = run.replace dst src s.db in (done.0, record s' { db = done.1 })

    abbrev pub put : Datastore → Option D → Store D W → Result (Unit {0}) × Store D W
    put running src s = put_running src (run.config_data s.db) s
    put startup src s =
        (ok tt, record (unless_rollbacking s.gds_startup startup s) { gds_startup = src })
    put candidate src s =
        (ok tt, record (unless_rollbacking s.gds_cand candidate s) { gds_cand = src })
    put _ src s = (fail (some (wrong_place "source")), s)

    abbrev pub put_read : Datastore → Result (Option D) → Store D W → Result (Unit {0}) × Store D W
    put_read target (ok src) s = put target src s
    put_read target (fail e) s = (fail e, s)
    put_read target fault s = (fault, s)

    unfoldable pub ofcds_copyconfig :
        Datastore → Datastore → Option Text → Store D W → Result (Unit {0}) × Store D W
    ofcds_copyconfig target source text s = put_read target (source_doc source text s) s

    -- `nc_err_free(e)` where the copy failed: `e` is not initialised, and not every failure sets it.
    abbrev pub free_error : Result (Unit {0}) → Result (Unit {0})
    free_error (ok x) = ok x
    free_error (fail none) = fault
    free_error (fail (some e)) = fail none
    free_error fault = fault

    abbrev pub is_error : Datastore → Bool
    is_error error = true
    is_error _ = false

    unfoldable pub ofcds_rollback : Store D W → Result (Unit {0}) × Store D W
    ofcds_rollback s =
        let done =
          ofcds_copyconfig s.rollback_type config (some (dump_or_empty s.rollback_doc))
            (record s { rollbacking = true }) in
        if is_error s.rollback_type
        then (fail none, s)
        else (free_error done.0, record done.1 { rollbacking = false })
