-- ===== src/Datastore/Editing.antt =====
-- `ofcds_editconfig` of server/ofconfig-datastore.c, with the life of a transaction in server/ovs-data.c:
-- `txn_init`, `txn_abort` and `txn_commit`. The database library is the interface `Library`.
pub mod Closed
pub mod Remembered
use of_config.Base.{ℕ, String, Text, Bool, true, false, Option, none, some, [], ◌∷◌, if◌then◌else◌}
use of_config.Error.{Result, ok, fail, fault, NcErr, nc_err_new, op_failed, bad_element, failed_msg}
use of_config.Xml.{Node, named, Doc}
use of_config.Edit.Keys.{check_keys, root_element}
use of_config.Edit.Operation.{DefOp, EditOp, create, delete}
use of_config.Edit.Compact.{compact_edit_operations}
use of_config.Edit.Apply.{Work, Live}
use of_config.Edit.Operations.{Outcome, edit_operations}
use of_config.Edit.Operations.Checks.{BasicMode, check_edit_ops}
use of_config.Datastore.Locks.{Datastore, running, startup, candidate}
use of_config.Datastore.Content.{Store, store_rollback}

-- enum ovsdb_idl_txn_status
pub data CommitStatus : Type 0 where
  uncommitted unchanged incomplete aborted success try_again not_locked error : CommitStatus

-- `ovsdb_idl_txn_create`, `_destroy`, `_commit_block` and `_get_error`, on the library's state V.
pub record Library (V : Type 0) : Type 0 where
  pub txn_create : V → V
  pub txn_destroy : V → V
  pub commit_block : V → CommitStatus × V
  pub get_error : V → String

-- `ovsdb_handler`: the library's state, whether `txn` is set, `added_interface`.
pub record Handler (V : Type 0) : Type 0 where
  pub base : V
  pub active : Bool
  pub added_interface : Bool

-- The error of a commit, if its status is one.
abbrev pub commit_error : CommitStatus → String → Option NcErr
commit_error success msg = none
commit_error unchanged msg = none
commit_error uncommitted msg = some (failed_msg "Invalid OVSDB transaction")
commit_error incomplete msg = some (failed_msg "Invalid OVSDB transaction")
commit_error aborted msg = some (failed_msg "OVSDB transaction aborted")
commit_error try_again msg = some (failed_msg msg)
commit_error error msg = some (failed_msg msg)
commit_error not_locked msg = some (failed_msg "OVSDB not locked")

abbrev pub result_of : Option NcErr → Result (Unit {0})
result_of none = ok tt
result_of (some e) = fail (some e)

module _ {V : Type 0} (lib : Library V) where
  unfoldable pub txn_init : Handler V → Handler V
  txn_init h = record { base = lib.txn_create h.base; active = true; added_interface = false }

  unfoldable pub txn_abort : Handler V → Handler V
  txn_abort h = if h.active then record h { base = lib.txn_destroy h.base; active = false } else h

  -- a transaction that is not there is a NULL pointer
  unfoldable pub txn_commit : Handler V → Result (Unit {0}) × Handler V
  txn_commit h =
      let done = lib.commit_block h.base in
      let h' : Handler V = record h { base = done.1 } in
      if h.active
      then (result_of (commit_error done.0 (lib.get_error done.1)), txn_abort h')
      else (fault, h)

-- What the handler gets from libxml2, from libnetconf and from the rest of the server: parsing,
-- `ncdflt_get_basic_mode` and the cast of operations, `ofc_get_config_data`, `of_post_ports`.
pub record Serving (V : Type 0) : Type 0 where
  pub read : Text → Option Doc
  pub mode : BasicMode
  pub as_op : DefOp → EditOp
  pub config_data : Handler V → Option Text
  pub of_post_ports : Option Node → Bool → V → Result (Unit {0}) × V

module _ {V : Type 0} (lib : Library V) (srv : Serving V) (live : Live (Handler V)) where
  abbrev pub State : Type 0
  State = Store Doc (Handler V)

  abbrev pub Reply : Type 0
  Reply = Option (Result (Unit {0}) × State)

  abbrev pub is_running : Datastore → Bool
  is_running running = true
  is_running _ = false

  -- `error_cleanup:`
  abbrev pub error_cleanup : Datastore → Result (Unit {0}) → State → Reply
  error_cleanup target r s =
      some (r, if is_running target then record s { db = txn_abort lib s.db } else s)

  abbrev pub checked : {A : Type 0} → Datastore → Result A → State → (A → Reply) → Reply
  checked target (ok a) s k = k a
  checked target (fail e) s k = error_cleanup target (fail e) s
  checked target fault s k = some (fault, s)

  -- the root of the edit is a capable-switch, if there is one
  abbrev pub valid_root : Doc → Option Node → Option Doc
  valid_root cfg none = some cfg
  valid_root cfg (some root) = if named root "capable-switch" then some cfg else none

  abbrev pub valid_config : Option Doc → Option Doc
  valid_config none = none
  valid_config (some cfg) = valid_root cfg (root_element cfg)

  abbrev pub data_of : Option Text → Result (Option Doc)
  data_of none = fail (some (nc_err_new op_failed))
  data_of (some t) = ok (srv.read t)

  -- `cfgds`
  abbrev pub target_doc : Datastore → State → Result (Option Doc)
  target_doc running s = data_of (srv.config_data s.db)
  target_doc startup s = ok s.gds_startup
  target_doc candidate s = ok s.gds_cand
  target_doc _ s = fail (some (bad_element "target"))

  abbrev pub doc_or_new : Option Doc → Doc
  doc_or_new none = []
  doc_or_new (some d) = d

  -- The document is edited in place; a new one becomes the datastore's after a success, unless it is empty.
  abbrev pub edited : Option Doc → Bool → Doc → Option Doc
  edited (some old) went_well d = some d
  edited none true [] = none
  edited none true (n ∷ d) = some (n ∷ d)
  edited none false d = none

  abbrev pub put_edited : Datastore → Option Doc → Bool → Work (Handler V) → State → State
  put_edited startup old went_well w s = record s {
    db = w.world;
    gds_startup = edited old went_well w.orig;
  }
  put_edited candidate old went_well w s = record s {
    db = w.world;
    gds_cand = edited old went_well w.orig;
  }
  put_edited _ old went_well w s = record s { db = w.world }

  -- `of_post_ports` after a commit that went well
  abbrev pub posted : Doc → Result (Unit {0}) × Handler V → Result (Unit {0}) × Handler V
  posted cfg (ok u, h) =
      let done = srv.of_post_ports (root_element cfg) h.added_interface h.base in
      (done.0, record h { base = done.1 })
  posted cfg (fail e, h) = (fail e, h)
  posted cfg (fault, h) = (fault, h)

  abbrev pub finish : Datastore → Doc → State → Reply
  finish running cfg s =
      let done = posted cfg (txn_commit lib s.db) in some (done.0, record s { db = done.1 })
  finish _ cfg s = some (ok tt, s)

  abbrev pub after_edit : Datastore → Doc → Option Doc → Outcome (Handler V) → State → Reply
  after_edit target cfg old none s = none
  after_edit target cfg old (some (ok u, e)) s =
      finish target cfg (put_edited target old true e.work s)
  after_edit target cfg old (some (fail x, e)) s =
      error_cleanup target (fail x) (put_edited target old false e.work s)
  after_edit target cfg old (some (fault, e)) s = some (fault, put_edited target old false e.work s)

  abbrev pub started : Datastore → State → State
  started target s = if is_running target then record s { db = txn_init lib s.db } else s

  abbrev pub compact_result : Result Doc → Result Doc
  compact_result (ok d) = ok d
  compact_result (fail e) = fail (some (nc_err_new op_failed))
  compact_result fault = fault

  -- from the check of the keys on
  abbrev pub perform_edit : ℕ → Datastore → Doc → DefOp → Option Doc → State → Reply
  perform_edit fuel target cfg defop old s = checked target (check_keys (some cfg)) s λ u.
      checked target (check_edit_ops srv.as_op srv.mode delete defop old cfg) s λ v.
        checked target (check_edit_ops srv.as_op srv.mode create defop old cfg) s λ w.
          checked target (compact_result (compact_edit_operations srv.as_op cfg defop))
            (started target s)
            λ edit.
              after_edit target cfg old
                (edit_operations live (is_running target) fuel defop (record {
                  work = record { orig = doc_or_new old; world = (started target s).db };
                  edit = edit;
                  error = none;
                }))
                (started target s)

  abbrev pub merge_if_notset : DefOp → DefOp
  merge_if_notset DefOp.notset = DefOp.merge
  merge_if_notset op = op

  abbrev pub edit_config : ℕ → Datastore → Option Doc → DefOp → State → Reply
  edit_config fuel target none defop s = some (fail (some (bad_element "config")), s)
  edit_config fuel target (some cfg) defop s =
      checked target (target_doc target s) s
        λ old. perform_edit fuel target cfg defop old (store_rollback old target s)

  unfoldable pub ofcds_editconfig : ℕ → Datastore → Text → DefOp → State → Reply
  ofcds_editconfig fuel target config defop s =
      edit_config fuel target (valid_config (srv.read config)) (merge_if_notset defop) s
