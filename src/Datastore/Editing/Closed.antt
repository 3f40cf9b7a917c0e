-- ===== src/Datastore/Editing/Closed.antt =====
-- After `ofcds_editconfig` of server/ofconfig-datastore.c no transaction is left open.
use of_config.Base.{
  ℕ, Text, false, Option, none, some, ◌≡◌, refl, sym, subst, arith, Bool-cases, inl, inr,
}
use of_config.Error.{Result, ok, fail, fault}
use of_config.Xml.{Doc}
use of_config.Edit.Keys.{check_keys}
use of_config.Edit.Operation.{DefOp, create, delete}
use of_config.Edit.Compact.{compact_edit_operations}
use of_config.Edit.Apply.{Live}
use of_config.Edit.Operations.{Outcome}
use of_config.Edit.Operations.Checks.{check_edit_ops}
use of_config.Datastore.Locks.{running}
use of_config.Datastore.Content.{Store}
use of_config.Datastore.Editing.{
  Library, Handler, Serving, txn_abort, txn_commit, result_of, commit_error, checked, valid_config,
  target_doc, posted, finish, after_edit, started, compact_result, perform_edit, merge_if_notset,
  edit_config, ofcds_editconfig,
}

module _ {V : Type 0} (lib : Library V) (srv : Serving V) (live : Live (Handler V)) where
  -- No transaction is left open, unless the run has crashed or has not ended.
  abbrev pub Closed : Option (Result (Unit {0}) × Store Doc (Handler V)) → Type 0
  Closed none = Unit
  Closed (some (ok u, s)) = s.db.active ≡ false
  Closed (some (fail e, s)) = s.db.active ≡ false
  Closed (some (fault, s)) = Unit

  txn_abort-inactive : (h : Handler V) → (txn_abort lib h).active ≡ false
  unfolding txn_abort
  txn_abort-inactive h = ground arith

  Closed-checked :
      {A : Type 0} (r : Result A) (s : Store Doc (Handler V))
      (k : A → Option (Result (Unit {0}) × Store Doc (Handler V)))
      → ((a : A) → Closed (k a))
      → Closed (checked lib srv live running r s k)
  Closed-checked (ok a) s k h = h a
  Closed-checked (fail e) s k h = txn_abort-inactive s.db
  Closed-checked fault s k h = tt

  Closed-any :
      (r : Result (Unit {0})) (s : Store Doc (Handler V))
      → s.db.active ≡ false
      → Closed (some (r, s))
  Closed-any (ok u) s e = e
  Closed-any (fail x) s e = e
  Closed-any fault s e = tt

  Closed-posted :
      (cfg : Doc) (p : Result (Unit {0}) × Handler V) (s : Store Doc (Handler V))
      → p.1.active ≡ false
      → Closed
          (some ((posted lib srv live cfg p).0, record s { db = (posted lib srv live cfg p).1 }))
  Closed-posted cfg (ok u, h) s e = Closed-any _ _ e
  Closed-posted cfg (fail x, h) s e = e
  Closed-posted cfg (fault, h) s e = tt

  Closed-finish :
      (cfg : Doc) (s : Store Doc (Handler V)) → Closed (finish lib srv live running cfg s)
  unfolding txn_commit
  Closed-finish cfg s = elim (Bool-cases s.db.active) [
    | inl e ↦
        let h : Handler V = record s.db { base = (lib.commit_block s.db.base).1 } in
        let done : txn_commit lib s.db ≡ (
          result_of (
              commit_error (lib.commit_block s.db.base).0
                (lib.get_error (lib.commit_block s.db.base).1)),
          txn_abort lib h,
        ) =
          rw (txn_commit, e) refl in
        subst
          (λ p.
            Closed (
              some
                ((posted lib srv live cfg p).0, record s { db = (posted lib srv live cfg p).1 })))
          (sym done) (Closed-posted cfg _ s (txn_abort-inactive h))
    | inr e ↦
        let done : txn_commit lib s.db ≡ (fault, s.db) = rw (txn_commit, e) refl in
        subst
          (λ p.
            Closed (
              some
                ((posted lib srv live cfg p).0, record s { db = (posted lib srv live cfg p).1 })))
          (sym done) tt
  ]

  Closed-after_edit :
      (cfg : Doc) (old : Option Doc) (o : Outcome (Handler V)) (s : Store Doc (Handler V))
      → Closed (after_edit lib srv live running cfg old o s)
  Closed-after_edit cfg old none s = tt
  Closed-after_edit cfg old (some (ok u, e)) s = Closed-finish cfg _
  Closed-after_edit cfg old (some (fail x, e)) s = txn_abort-inactive e.work.world
  Closed-after_edit cfg old (some (fault, e)) s = tt

  Closed-perform_edit :
      (fuel : ℕ) (cfg : Doc) (defop : DefOp) (old : Option Doc) (s : Store Doc (Handler V))
      → Closed (perform_edit lib srv live fuel running cfg defop old s)
  Closed-perform_edit fuel cfg defop old s = Closed-checked (check_keys (some cfg)) s _ λ u.
      Closed-checked (check_edit_ops srv.as_op srv.mode delete defop old cfg) s _ λ v.
        Closed-checked (check_edit_ops srv.as_op srv.mode create defop old cfg) s _ λ w.
          Closed-checked (compact_result lib srv live (compact_edit_operations srv.as_op cfg defop))
            (started lib srv live running s) _ λ edit. Closed-after_edit cfg old _ _

  Closed-edit_config :
      (fuel : ℕ) (o : Option Doc) (defop : DefOp) (s : Store Doc (Handler V))
      → s.db.active ≡ false
      → Closed (edit_config lib srv live fuel running o defop s)
  Closed-edit_config fuel none defop s e = e
  Closed-edit_config fuel (some cfg) defop s e =
      Closed-checked (target_doc lib srv live running s) s _
        λ old. Closed-perform_edit fuel cfg defop old _

  -- An edit of the running datastore that starts without an open transaction ends without one, if it
  -- ends: on success, on every error of the checks and of the edit, and when the commit fails.
  pub ofcds_editconfig-Closed :
      (fuel : ℕ) (config : Text) (defop : DefOp) (s : Store Doc (Handler V))
      → s.db.active ≡ false
      → Closed (ofcds_editconfig lib srv live fuel running config defop s)
  unfolding ofcds_editconfig
  ofcds_editconfig-Closed fuel config defop s e =
      Closed-edit_config fuel (valid_config lib srv live (srv.read config))
        (merge_if_notset lib srv live defop) s e
