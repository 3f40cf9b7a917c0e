-- ===== src/Datastore/Locks/Holders.antt =====
-- What `ofcds_lock` and `ofcds_unlock` promise: each datastore has at most one holder, who alone can
-- release it.
use of_config.Base.{
  Text, text_eq, true, false, Option, none, some, List, [], ◌∷◌, if◌then◌else◌, ◌≡◌, refl, ap,
  Bool-cases, inl, inr, ◌∙◌,
}
use of_config.Error.{Result, ok, fail}
use of_config.Datastore.Locks.{
  Datastore, error, config, url, running, startup, candidate, Lock, Locks, denied, denied_msg,
  not_locked, ofcds_lock, ofcds_unlock, no_locks,
}

-- The holder of each datastore that can be locked.
abbrev pub Holders : Type 0
Holders = Option Text × Option Text × Option Text

abbrev pub holder : Datastore → Holders → Option (Option Text)
holder running (r, s, c) = some r
holder startup (r, s, c) = some s
holder candidate (r, s, c) = some c
holder _ h = none

abbrev pub update : Datastore → Option Text → Holders → Holders
update running o (r, s, c) = (o, s, c)
update startup o (r, s, c) = (r, o, c)
update candidate o (r, s, c) = (r, s, o)
update _ o h = h

pub data Request : Type 0 where
  lock unlock : Datastore → Text → Request

-- A free datastore is granted; a held one is released by its holder only, and the answer to another
-- session names the holder.
abbrev pub answer_lock :
    Datastore → Text → Option (Option Text) → Holders → Result (Unit {0}) × Holders
answer_lock t s none h = (fail none, h)
answer_lock t s (some none) h = (ok tt, update t (some s) h)
answer_lock t s (some (some x)) h = (fail (some (denied (some x))), h)

abbrev pub answer_unlock :
    Datastore → Text → Option (Option Text) → Holders → Result (Unit {0}) × Holders
answer_unlock t s none h = (fail none, h)
answer_unlock t s (some none) h = (fail (some not_locked), h)
answer_unlock t s (some (some x)) h =
    if text_eq x s then (ok tt, update t none h) else (fail (some (denied_msg (some x))), h)

abbrev pub answer : Request → Holders → Result (Unit {0}) × Holders
answer (lock t s) h = answer_lock t s (holder t h) h
answer (unlock t s) h = answer_unlock t s (holder t h) h

abbrev pub serve : Request → Locks → Result (Unit {0}) × Locks
serve (lock t s) l = ofcds_lock t s l
serve (unlock t s) l = ofcds_unlock t s l

-- The answers to a sequence of requests.
abbrev pub answers : List Request → Holders → List (Result (Unit {0}))
answers [] h = []
answers (r ∷ rs) h = let (a, h') = answer r h in a ∷ answers rs h'

abbrev pub served : List Request → Locks → List (Result (Unit {0}))
served [] l = []
served (r ∷ rs) l = let (a, l') = serve r l in a ∷ served rs l'

-- The locks that stand for the holders.
abbrev pub lock_held : Option Text → Lock
lock_held none = record { locked = false; sid = none }
lock_held (some s) = record { locked = true; sid = some s }

abbrev pub locks_held : Holders → Locks
locks_held (r, s, c) = record { running = lock_held r; startup = lock_held s; cand = lock_held c }

abbrev pub with_locks : Result (Unit {0}) × Holders → Result (Unit {0}) × Locks
with_locks r = (r.0, locks_held r.1)

serve-held : (r : Request) (h : Holders) → serve r (locks_held h) ≡ with_locks (answer r h)
unfolding ofcds_lock ofcds_unlock
serve-held (lock running x) (none, s, c) = refl
serve-held (lock running x) (some y, s, c) = refl
serve-held (lock startup x) (r, none, c) = refl
serve-held (lock startup x) (r, some y, c) = refl
serve-held (lock candidate x) (r, s, none) = refl
serve-held (lock candidate x) (r, s, some y) = refl
serve-held (unlock running x) (none, s, c) = refl
serve-held (unlock running x) (some y, s, c) = elim (Bool-cases (text_eq y x)) [
  | inl e ↦ rw e refl
  | inr e ↦ rw e refl
]
serve-held (unlock startup x) (r, none, c) = refl
serve-held (unlock startup x) (r, some y, c) = elim (Bool-cases (text_eq y x)) [
  | inl e ↦ rw e refl
  | inr e ↦ rw e refl
]
serve-held (unlock candidate x) (r, s, none) = refl
serve-held (unlock candidate x) (r, s, some y) = elim (Bool-cases (text_eq y x)) [
  | inl e ↦ rw e refl
  | inr e ↦ rw e refl
]
serve-held (lock error x) h = refl
serve-held (lock config x) h = refl
serve-held (lock url x) h = refl
serve-held (unlock error x) h = refl
serve-held (unlock config x) h = refl
serve-held (unlock url x) h = refl

served-held : (rs : List Request) (h : Holders) → served rs (locks_held h) ≡ answers rs h
served-held [] h = refl
served-held (r ∷ rs) h =
    let step = serve-held r h in
    let rest = served-held rs (answer r h).1 in
    ap (λ p. p.0 ∷ served rs p.1) step ∙ ap (λ l. (answer r h).0 ∷ l) rest

-- Any sequence of lock and unlock requests of any sessions, from the start, is answered as by one
-- holder for each datastore: a lock is granted exactly where there is no holder, an unlock exactly to
-- the holder, a refusal names the holder, and the other kinds of datastore are refused.
pub served-answers : (rs : List Request) → served rs no_locks ≡ answers rs (none, none, none)
served-answers rs = served-held rs (none, none, none)
