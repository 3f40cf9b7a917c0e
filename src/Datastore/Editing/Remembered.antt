-- ===== src/Datastore/Editing/Remembered.antt =====
-- What `ofcds_editconfig` of server/ofconfig-datastore.c stores for a rollback.
use of_config.Base.{ℕ, Text, Option, none, some, ◌≡◌, refl, sym, subst}
use of_config.Error.{Result, ok, fail, fault}
use of_config.Xml.{Doc}
use of_config.Edit.Keys.{check_keys}
use of_config.Edit.Operation.{DefOp, create, delete}
use of_config.Edit.Compact.{compact_edit_operations}
use of_config.Edit.Apply.{Live}
use of_config.Edit.Operations.{Outcome}
use of_config.Edit.Operations.Checks.{check_edit_ops}
use of_config.Datastore.Content.{Store, store_rollback}
use of_config.Datastore.Content.Rollback.{Local, at_startup, at_candidate, datastore, contents}
use of_config.Datastore.Editing.{
  Library, Handler, Serving, checked, valid_config, started, after_edit, compact_result,
  perform_edit, merge_if_notset, edit_config, ofcds_editconfig,
}

-- The other one of the two.
abbrev pub other_contents : {D W : Type 0} → Local → Store D W → Option D
other_contents at_startup s = s.gds_cand
other_contents at_candidate s = s.gds_startup

module _ {V : Type 0} (lib : Library V) (srv : Serving V) (live : Live (Handler V)) where
  -- A rollback would put back what the datastore held in `s`; the other datastore is as it was.
  abbrev pub Remembers : Local → Store Doc (Handler V) → Store Doc (Handler V) → Type 0
  Remembers t s s' =
      (s'.rollback_doc ≡ contents t s)
      × (s'.rollback_type ≡ datastore t)
      × (s'.rollbacking ≡ s.rollbacking)
      × (other_contents t s' ≡ other_contents t s)

  abbrev pub Remembered :
      Local → Store Doc (Handler V) → Option (Result (Unit {0}) × Store Doc (Handler V)) → Type 0
  Remembered t s none = Unit
  Remembered t s (some (r, s')) = Remembers t s s'

  Remembered-checked :
      (t : Local) {A : Type 0} (r : Result A) (s s' : Store Doc (Handler V))
      (k : A → Option (Result (Unit {0}) × Store Doc (Handler V)))
      → Remembers t s s'
      → ((a : A) → Remembered t s (k a))
      → Remembered t s (checked lib srv live (datastore t) r s' k)
  Remembered-checked t (ok a) s s' k m h = h a
  Remembered-checked at_startup (fail e) s s' k m h = m
  Remembered-checked at_candidate (fail e) s s' k m h = m
  Remembered-checked t fault s s' k m h = m

  Remembered-after_edit :
      (t : Local) (cfg : Doc) (old : Option Doc) (o : Outcome (Handler V))
      (s s' : Store Doc (Handler V))
      → Remembers t s s'
      → Remembered t s (after_edit lib srv live (datastore t) cfg old o s')
  Remembered-after_edit t cfg old none s s' m = tt
  Remembered-after_edit at_startup cfg old (some (ok u, e)) s s' m = m
  Remembered-after_edit at_startup cfg old (some (fail x, e)) s s' m = m
  Remembered-after_edit at_startup cfg old (some (fault, e)) s s' m = m
  Remembered-after_edit at_candidate cfg old (some (ok u, e)) s s' m = m
  Remembered-after_edit at_candidate cfg old (some (fail x, e)) s s' m = m
  Remembered-after_edit at_candidate cfg old (some (fault, e)) s s' m = m

  Remembers-started :
      (t : Local) (s s' : Store Doc (Handler V))
      → Remembers t s s'
      → Remembers t s (started lib srv live (datastore t) s')
  Remembers-started at_startup s s' m = m
  Remembers-started at_candidate s s' m = m

  Remembered-perform_edit :
      (fuel : ℕ) (t : Local) (cfg : Doc) (defop : DefOp) (old : Option Doc)
      (s s' : Store Doc (Handler V))
      → Remembers t s s'
      → Remembered t s (perform_edit lib srv live fuel (datastore t) cfg defop old s')
  Remembered-perform_edit fuel t cfg defop old s s' m =
      Remembered-checked t (check_keys (some cfg)) s s' _ m λ u.
        Remembered-checked t (check_edit_ops srv.as_op srv.mode delete defop old cfg) s s' _ m λ v.
          Remembered-checked t (check_edit_ops srv.as_op srv.mode create defop old cfg) s s' _ m
            λ w.
              Remembered-checked t
                (compact_result lib srv live (compact_edit_operations srv.as_op cfg defop)) s _ _
                (Remembers-started t s s' m)
                λ edit. Remembered-after_edit t cfg old _ s _ (Remembers-started t s s' m)

  Remembered-edit_config :
      (fuel : ℕ) (t : Local) (cfg : Doc) (defop : DefOp) (s : Store Doc (Handler V))
      → Remembered t s (edit_config lib srv live fuel (datastore t) (some cfg) defop s)
  unfolding store_rollback
  Remembered-edit_config fuel at_startup cfg defop s =
      Remembered-perform_edit fuel at_startup cfg defop s.gds_startup s _ (refl, refl, refl, refl)
  Remembered-edit_config fuel at_candidate cfg defop s =
      Remembered-perform_edit fuel at_candidate cfg defop s.gds_cand s _ (refl, refl, refl, refl)

  -- An edit of the startup or the candidate datastore whose data is well-formed and has no root but a
  -- capable-switch: if the run ends, with whatever result, what the datastore held before is stored for
  -- a rollback, and the other datastore is as it was.
  pub ofcds_editconfig-Remembered :
      (fuel : ℕ) (t : Local) (config : Text) (cfg : Doc) (defop : DefOp) (s : Store Doc (Handler V))
      → valid_config lib srv live (srv.read config) ≡ some cfg
      → Remembered t s (ofcds_editconfig lib srv live fuel (datastore t) config defop s)
  unfolding ofcds_editconfig
  ofcds_editconfig-Remembered fuel t config cfg defop s e =
      subst
        (λ o.
          Remembered t s
            (edit_config lib srv live fuel (datastore t) o (merge_if_notset lib srv live defop) s))
        (sym e) (Remembered-edit_config fuel t cfg (merge_if_notset lib srv live defop) s)
