-- ===== src/Tests/Datastore.antt =====
-- The theorems about server/ofconfig-datastore.c on concrete stores and requests.
use of_config.Base.{
  Text, codes, Bool, true, false, Option, none, some, List, [], ◌∷◌, ◌≡◌, ◌≢◌, refl,
}
use of_config.Error.{ok}
use of_config.Datastore.Locks.{running, startup, no_locks, error}
use of_config.Datastore.Locks.Holders.{Request, lock, unlock, served, answers, served-answers}
use of_config.Datastore.Content.{Libxml, Running, Store, ofcds_copyconfig, ofcds_rollback}
use of_config.Datastore.Content.Rollback.{at_startup, datastore, restored, rollback-copyconfig}

abbrev requests : List Request
requests =
    lock running (codes "1")
    ∷ lock running (codes "2")
    ∷ unlock running (codes "2")
    ∷ lock startup (codes "2")
    ∷ unlock running (codes "1")
    ∷ lock running (codes "2")
    ∷ []

served-answers_example : served requests no_locks ≡ answers requests (none, none, none)
served-answers_example = served-answers requests

-- Documents that are texts, printed with a leading byte; the empty one has no root.
abbrev read_text : Text → Option Text
read_text [] = none
read_text (c ∷ []) = none
read_text (c ∷ d ∷ t) = some (d ∷ t)

abbrev printed : Text → Text
printed t = b'<' ∷ t

printed-ne-nil : (t : Text) → printed t ≢ []
printed-ne-nil t e = cc

abbrev is_filled : Text → Bool
is_filled [] = false
is_filled (c ∷ t) = true

read_empty : (t : Text) → is_filled t ≡ false → read_text (printed t) ≡ none
read_empty [] h = refl
read_empty (c ∷ t) h = cc

read-printed : (t : Text) → is_filled t ≡ true → read_text (printed t) ≡ some t
read-printed [] h = cc
read-printed (c ∷ t) h = refl

abbrev texts : Libxml Text
texts = record {
  read = read_text;
  dump = printed;
  new_doc = [];
  has_root = is_filled;
  is_normal = λ t. true;
  dump-ne-nil = printed-ne-nil;
  read_rootless = read_empty;
  read-dump = λ t h k. read-printed t h;
}

abbrev database : Running Text Text
database = record { config_data = λ w. some (b'<' ∷ w); replace = λ dst src w. (ok tt, dst) }

abbrev store : Store Text Text
store = record {
  db = codes "running";
  gds_startup = some (codes "old");
  gds_cand = none;
  rollback_doc = none;
  rollback_type = error;
  rollbacking = false;
}

abbrev after_copy : Store Text Text
after_copy = record store {
  gds_startup = some (codes "running");
  rollback_doc = some (codes "old");
  rollback_type = startup;
}

copied_running :
    ofcds_copyconfig texts database (datastore at_startup) running none store ≡ (ok tt, after_copy)
unfolding ofcds_copyconfig of_config.Datastore.Content.store_rollback
copied_running = refl

rollback-copyconfig_example :
    ofcds_rollback texts database after_copy ≡ (ok tt, restored texts database at_startup store)
rollback-copyconfig_example =
    rollback-copyconfig texts database at_startup running none store after_copy refl refl
      copied_running
