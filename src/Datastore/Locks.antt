-- ===== src/Datastore/Locks.antt =====
-- The locks of server/ofconfig-datastore.c: `ofcds_lock` and `ofcds_unlock`.
pub mod Holders
use of_config.Base.{Text, text_eq, Bool, true, false, Option, none, some, if◌then◌else◌}
use of_config.Error.{Result, ok, fail, fault, NcErr, nc_err_new, lock_denied, failed_msg}

-- NC_DATASTORE of libnetconf
pub data Datastore : Type 0 where
  error config url running startup candidate : Datastore

-- `locks.running` and `locks.running_sid`, and the same of the other two
pub record Lock : Type 0 where
  pub locked : Bool
  pub sid : Option Text

pub record Locks : Type 0 where
  pub running : Lock
  pub startup : Lock
  pub cand : Lock

-- The lock that `locked` and `sid` point to.
abbrev pub lock_of : Datastore → Locks → Option Lock
lock_of running l = some l.running
lock_of startup l = some l.startup
lock_of candidate l = some l.cand
lock_of _ l = none

abbrev pub with_lock : Datastore → Lock → Locks → Locks
with_lock running k l = record l { running = k }
with_lock startup k l = record l { startup = k }
with_lock candidate k l = record l { cand = k }
with_lock _ k l = l

abbrev pub denied : Option Text → NcErr
denied sid = record (nc_err_new lock_denied) { info_sid = sid }

abbrev pub denied_msg : Option Text → NcErr
denied_msg sid = record (denied sid) { msg = some "Target datastore is locked by another session." }

abbrev pub not_locked : NcErr
not_locked = failed_msg "Target datastore is not locked."

abbrev pub try_lock : Datastore → Text → Option Lock → Locks → Result (Unit {0}) × Locks
try_lock target session_id none l = (fail none, l)
try_lock target session_id (some k) l =
    if k.locked
    then (fail (some (denied k.sid)), l)
    else (ok tt, with_lock target (record { locked = true; sid = some session_id }) l)

unfoldable pub ofcds_lock : Datastore → Text → Locks → Result (Unit {0}) × Locks
ofcds_lock target session_id l = try_lock target session_id (lock_of target l) l

-- `strcmp(*sid, session_id)` follows the pointer.
abbrev pub release : Datastore → Text → Option Text → Locks → Result (Unit {0}) × Locks
release target session_id none l = (fault, l)
release target session_id (some sid) l =
    if text_eq sid session_id
    then (ok tt, with_lock target (record { locked = false; sid = none }) l)
    else (fail (some (denied_msg (some sid))), l)

abbrev pub try_unlock : Datastore → Text → Option Lock → Locks → Result (Unit {0}) × Locks
try_unlock target session_id none l = (fail none, l)
try_unlock target session_id (some k) l =
    if k.locked then release target session_id k.sid l else (fail (some not_locked), l)

unfoldable pub ofcds_unlock : Datastore → Text → Locks → Result (Unit {0}) × Locks
ofcds_unlock target session_id l = try_unlock target session_id (lock_of target l) l

-- The static `locks` at the start.
abbrev pub no_locks : Locks
no_locks =
    let free : Lock = record { locked = false; sid = none } in
    record { running = free; startup = free; cand = free }
