-- ===== src/Sessions.antt =====
-- The agents that server/server_ops.c keeps: a list with pointers to the next and to the previous
-- agent. `srv_get_agent_by_ncsid`, `srv_get_agent_by_agentid`, `srv_agent_new` and `srv_agent_stop` on
-- the memory, an address being a number.
pub mod Joined
pub mod Gone
mod Apart
use of_config.Base.{
  ℕ, zero, suc, ◌==◌, Text, Bool, true, false, Option, none, some, List, [], ◌∷◌, if◌then◌else◌,
  text_eq, ◌&&◌,
}
use of_config.Error.{Result, ok, fail, fault}

-- `struct agent_info`, with what its NETCONF session was made from: the session's id, the user and the
-- list of capabilities.
pub record Agent : Type 0 where
  pub ncsid : Text
  pub username : Text
  pub cpblts : List Text
  pub id : Text
  pub pid : ℕ
  pub prev : Option ℕ
  pub next : Option ℕ

abbrev pub Memory : Type 0
Memory = ℕ → Option Agent

pub record Sessions : Type 0 where
  pub agents : Option ℕ
  pub memory : Memory

abbrev pub write_at : Memory → ℕ → Option Agent → Memory
write_at m a c b = if a == b then c else m b

-- The walk along `next` to the first agent with that id; `none` where the rounds do not suffice.
unfoldable pub agent_with :
    (Agent → Text) → Text → ℕ → Memory → Option ℕ → Option (Result (Option ℕ))
agent_with key id zero m p = none
agent_with key id (suc n) m none = some (ok none)
agent_with key id (suc n) m (some a) = elim (m a) [
  | none ↦ some fault
  | some c ↦ elim (text_eq id (key c)) [
    | true ↦ some (ok (some a))
    | false ↦ agent_with key id n m c.next
  ]
]

unfoldable pub srv_get_agent_by_ncsid : Text → ℕ → Sessions → Option (Result (Option ℕ))
srv_get_agent_by_ncsid id n s = agent_with (λ c. c.ncsid) id n s.memory s.agents

unfoldable pub srv_get_agent_by_agentid : Text → ℕ → Sessions → Option (Result (Option ℕ))
srv_get_agent_by_agentid id n s = agent_with (λ c. c.id) id n s.memory s.agents

-- `while (agents_iter->next != NULL)`
abbrev pub next_or_here : ℕ → Option Agent → (ℕ → Option (Result ℕ)) → Option (Result ℕ)
next_or_here a none k = some fault
next_or_here a (some c) k = elim c.next [ none ↦ some (ok a) | some b ↦ k b ]

unfoldable pub last_agent : ℕ → Memory → ℕ → Option (Result ℕ)
last_agent zero m a = none
last_agent (suc n) m a = next_or_here a (m a) (λ b. last_agent n m b)

abbrev pub set_next : Option ℕ → Option Agent → Option Agent
set_next v none = none
set_next v (some c) = some (record c { next = v })

abbrev pub set_prev : Option ℕ → Option Agent → Option Agent
set_prev v none = none
set_prev v (some c) = some (record c { prev = v })

abbrev pub with_next : Memory → ℕ → Option ℕ → Memory
with_next m a v = write_at m a (set_next v (m a))

abbrev pub with_prev : Memory → ℕ → Option ℕ → Memory
with_prev m a v = write_at m a (set_prev v (m a))

-- The new agent behind the last one.
abbrev pub attach : Memory → ℕ → ℕ → Memory
attach m last agent = with_prev (with_next m last (some agent)) agent (some last)

abbrev pub attached : Option (Result ℕ) → ℕ → Sessions → Option (Result (Unit {0}) × Sessions)
attached none agent s = none
attached (some (ok last)) agent s = some (ok tt, record s { memory = attach s.memory last agent })
attached (some (fail e)) agent s = some (fail e, s)
attached (some fault) agent s = some (fault, s)

abbrev pub joined : ℕ → Option ℕ → ℕ → Sessions → Option (Result (Unit {0}) × Sessions)
joined n none agent s = some (ok tt, record s { agents = some agent })
joined n (some first) agent s = attached (last_agent n s.memory first) agent s

-- `agent` is the address that `calloc` returns.
unfoldable pub srv_agent_new :
    ℕ → ℕ → Text → Text → List Text → Text → ℕ → Sessions → Option (Result (Unit {0}) × Sessions)
srv_agent_new n agent ncsid username cpblts agentid pid s =
    let cell : Agent = record {
      ncsid = ncsid;
      username = username;
      cpblts = cpblts;
      id = agentid;
      pid = pid;
      prev = none;
      next = none;
    } in
    joined n s.agents agent (record s { memory = write_at s.memory agent (some cell) })

abbrev pub unlink_before : Option ℕ → Option ℕ → Sessions → Sessions
unlink_before none next s = record s { agents = next }
unlink_before (some p) next s = record s { memory = with_next s.memory p next }

abbrev pub unlink_after : Option ℕ → Option ℕ → Memory → Memory
unlink_after none prev m = m
unlink_after (some n) prev m = with_prev m n prev

abbrev pub freed : ℕ → Agent → Sessions → Sessions
freed agent c s = record s { memory = write_at (unlink_after c.next c.prev s.memory) agent none }

-- NULL, or the address of an agent that has not been freed.
abbrev pub is_held : Option ℕ → Memory → Bool
is_held none m = true
is_held (some a) m = elim (m a) [ none ↦ false | some c ↦ true ]

abbrev pub stopped : ℕ → Option Agent → Sessions → Result (Unit {0}) × Sessions
stopped agent none s = (fault, s)
stopped agent (some c) s =
    if is_held c.prev s.memory && is_held c.next s.memory
    then (ok tt, freed agent c (unlink_before c.prev c.next s))
    else (fault, s)

unfoldable pub srv_agent_stop : ℕ → Sessions → Result (Unit {0}) × Sessions
srv_agent_stop agent s = stopped agent (s.memory agent) s

-- `kill(agent->pid, SIGTERM)`, whose first argument is returned with the result of the stop; it names a
-- process, or, where it is 0, the server's own process group.
abbrev pub signalled : Option Agent → List ℕ
signalled none = []
signalled (some c) = c.pid ∷ []

unfoldable pub srv_agent_kill : ℕ → Sessions → (Result (Unit {0}) × Sessions) × List ℕ
srv_agent_kill agent s = (srv_agent_stop agent s, signalled (s.memory agent))
