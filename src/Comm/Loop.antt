-- ===== src/Comm/Loop.antt =====
-- The server's table of agents' sockets, and `comm_loop`, `comm_init` and `comm_destroy` of
-- server/server_comm_socket.c. The descriptor -1 is `none`.
pub mod Room
use of_config.Base.{
  ℕ, zero, suc, ◌+◌, ◌-◌, ◌%◌, ◌^◌, ◌==◌, Text, Bool, true, false, not, ◌&&◌, Option, none, some,
  List, [], ◌∷◌, if◌then◌else◌,
}
use of_config.Comm.Netconf.{Netconf, Shared}
use of_config.Comm.Wire.{
  Queue, Link, sent, put_int, recv, Received, got, closed, retry, broken, overwritten,
  op_get_cpblts, op_set_session, op_close_session, op_kill_session, op_generic, result_error,
}
use of_config.Comm.Server.{
  Handled, get_capabilities, set_session, close_session, kill_session, process_operation,
}

abbrev pub agents_queue : ℕ
agents_queue = 10

-- What `poll` reports of a descriptor: POLLERR, POLLHUP or POLLNVAL, and POLLIN.
pub record Flags : Type 0 where
  pub hup : Bool
  pub pollin : Bool

abbrev pub quiet : Flags
quiet = record { hup = false; pollin = false }

-- The flags of an entry: none for the descriptor -1.
abbrev pub revents : (ℕ → Flags) → Option ℕ → Flags
revents flags none = quiet
revents flags (some fd) = flags fd

-- What the calls of `poll` return, until one is not interrupted.
pub data Poll : Type 0 where
  interrupted : Poll → Poll
  poll_failed : Poll
  timeout : Poll
  ready : ℕ → (ℕ → Flags) → Poll

-- The connections that `accept` returns one after the other, and whether it then fails with EAGAIN.
pub record Accepts : Type 0 where
  pub sockets : List (ℕ × Link)
  pub eagain : Bool

-- What a round changes but the table: `agents[0].fd`, `connected_agents`, and the connections.
pub record Round (n : Netconf) : Type 0 where
  pub listen : Option ℕ
  pub connected : ℕ
  pub links : ℕ → Link
  pub shared : Shared n

-- `agents[1]` to `agents[AGENTS_QUEUE]` by their descriptors, and the rest; `sock` is `*c` as well.
pub record Table (n : Netconf) : Type 0 where
  pub sock : Option ℕ
  pub agents : List (Option ℕ)
  pub round : Round n

-- `ret--` on an `int`
abbrev pub decrement : ℕ → ℕ
decrement ret = (ret + (2 ^ 32 - 1)) % 2 ^ 32

abbrev pub update : (ℕ → Link) → ℕ → Link → ℕ → Link
update links fd k x = if fd == x then k else links x

-- `agents[0].fd`, set again where it is -1
abbrev pub or_listen : Option ℕ → Option ℕ → Option ℕ
or_listen sock none = sock
or_listen sock (some l) = some l

-- The server's capabilities, the memory, the rounds of a walk through the agents, and the address that
-- `calloc` returns for a new agent.
module _ (n : Netconf) (cpblts : List Text) (malloc : ℕ → Bool) (rounds agent : ℕ) where
  -- The `switch` of `comm_loop`.
  unfoldable pub dispatch : ℕ → ℕ → Link → Shared n → Handled n malloc rounds
  dispatch op socket k s =
      if op == op_get_cpblts
      then some (get_capabilities cpblts k, s)
      else if op == op_set_session
      then set_session n malloc rounds agent socket k s
      else if op == op_close_session
      then close_session n malloc rounds socket k s
      else if op == op_kill_session
      then kill_session n malloc rounds socket k s
      else if op == op_generic
      then process_operation n malloc rounds socket k s
      else some (sent (put_int result_error ∷ []) k, s)

  -- A descriptor is gone: there is room for an agent again.
  abbrev pub one_less : Option ℕ → Round n → Round n
  one_less sock r = record r { connected = r.connected - 1; listen = or_listen sock r.listen }

  -- The entry of a descriptor, `op`, and whether the loop goes on at once.
  pub record Served : Type 0 where
    pub fd : Option ℕ
    pub round : Round n
    pub op : Option ℕ
    pub continues : Bool

  abbrev pub after_switch : Option ℕ → ℕ → ℕ → Round n → Handled n malloc rounds → Option Served
  after_switch sock fd op r none = none
  after_switch sock fd op r (some (k, s)) =
      let r' = record r { links = update r.links fd k; shared = s } in
      some (
        if op == op_close_session
        then record { fd = none; round = one_less sock r'; op = some op; continues = false }
        else record { fd = some fd; round = r'; op = some op; continues = false })

  abbrev pub with_op : Option ℕ → ℕ → Option ℕ → Queue → Round n → Option Served
  with_op sock fd none q r = none
  with_op sock fd (some op) q r =
      after_switch sock fd op r (dispatch op fd (record (r.links fd) { input = q }) r.shared)

  abbrev pub skipped : ℕ → Option ℕ → Queue → Round n → Option Served
  skipped fd op q r = some (record {
    fd = some fd;
    round = record r { links = update r.links fd (record (r.links fd) { input = q }) };
    op = op;
    continues = true;
  })

  abbrev pub received : Option ℕ → ℕ → Option ℕ → Received × Queue → Round n → Option Served
  received sock fd op (got bs, q) r = with_op sock fd (overwritten 4 op bs) q r
  received sock fd op (closed, q) r = skipped fd op q r
  received sock fd op (retry, q) r = skipped fd op q r
  received sock fd op (broken, q) r = skipped fd op q r

  -- An agent whose socket has something to read; `recv` on -1 fails.
  unfoldable pub serve : Option ℕ → Option ℕ → Option ℕ → Round n → Option Served
  unfolding recv
  serve sock none op r = some (record { fd = none; round = r; op = op; continues = true })
  serve sock (some fd) op r = received sock fd op (recv 4 (r.links fd).input) r

  -- The table after the loop, the rest, and whether the loop has ended by `return`.
  abbrev pub Looped : Type 0
  Looped = Option (List (Option ℕ) × Round n × Bool)

  abbrev pub entered : Option ℕ → Looped → Looped
  entered fd none = none
  entered fd (some (l, r, done)) = some (fd ∷ l, r, done)

  abbrev pub gone_on : ℕ → List (Option ℕ) → Option Served → (Round n → Option ℕ → Looped) → Looped
  gone_on ret rest none go = none
  gone_on ret rest (some x) go =
      if x.continues
      then entered x.fd (go x.round x.op)
      else if ret == 0
      then some (x.fd ∷ rest, x.round, true)
      else entered x.fd (go x.round x.op)

  -- The loop over the agents: the flags, `ret` and `op`.
  unfoldable pub check_agents :
      Option ℕ → (ℕ → Flags) → ℕ → Option ℕ → List (Option ℕ) → Round n → Looped
  check_agents sock flags ret op [] r = some ([], r, false)
  check_agents sock flags ret op (fd ∷ rest) r =
      let hung_up = entered none (check_agents sock flags ret op rest (one_less sock r)) in
      let idle = entered fd (check_agents sock flags ret op rest r) in
      let left = decrement ret in
      let go = λ (r' : Round n) (op' : Option ℕ). check_agents sock flags left op' rest r' in
      if r.connected == 0
      then some (fd ∷ rest, r, false)
      else if (revents flags fd).hup
      then hung_up
      else if (revents flags fd).pollin
      then gone_on left rest (serve sock fd op r) go
      else idle

abbrev pub free_entries : ℕ → List (Option ℕ)
free_entries zero = []
free_entries (suc k) = none ∷ free_entries k

-- What the calls of the kernel in `comm_init` return.
pub record Startup : Type 0 where
  pub path_exists : Bool
  pub unlinked : Bool
  pub socket : Option ℕ
  pub bound : Bool
  pub listening : Bool

-- The first free entry gets the new socket; `none` for a write behind the table.
unfoldable pub free_place : ℕ → List (Option ℕ) → Option (List (Option ℕ))
free_place fd [] = none
free_place fd (none ∷ rest) = some (some fd ∷ rest)
free_place fd (some x ∷ rest) = elim (free_place fd rest) [
  | none ↦ none
  | some l ↦ some (some x ∷ l)
]

module _ (n : Netconf) where
  -- The table, and whether `accept` has returned -1.
  abbrev pub Accepted : Type 0
  Accepted = Option (List (Option ℕ) × Round n × Bool)

  abbrev pub connected_to : Round n → ℕ → Link → Round n
  connected_to r fd k = record r { connected = r.connected + 1; links = update r.links fd k }

  abbrev pub accepted :
      Round n → Option (List (Option ℕ)) → (List (Option ℕ) → Round n → Accepted) → Accepted
  accepted r none go = none
  accepted r (some l) go =
      if r.connected == agents_queue then some (l, record r { listen = none }, false) else go l r

  unfoldable pub accept_loop : List (ℕ × Link) → List (Option ℕ) → Round n → Accepted
  accept_loop [] l r = some (l, r, true)
  accept_loop ((fd, k) ∷ more) l r =
      accepted (connected_to r fd k) (free_place fd l) (λ l' r'. accept_loop more l' r')

  abbrev pub destroyed : Option ℕ → Table n → Table n
  destroyed none t = t
  destroyed (some s) t = record t { sock = none; round = record (t.round) { connected = 0 } }

  -- `comm_destroy`; the table keeps its entries.
  unfoldable pub comm_destroy : Table n → Table n
  comm_destroy t = destroyed t.sock t

  abbrev pub initiated : ℕ → Startup → Table n → Bool × Table n
  initiated s u t =
      if u.bound && u.listening
      then (
        true,
        record {
          sock = some s;
          agents = free_entries agents_queue;
          round = record (t.round) { listen = some s };
        },
      )
      else (false, t)

  abbrev pub with_socket : Option ℕ → Startup → Table n → Bool × Table n
  with_socket none u t = (false, t)
  with_socket (some s) u t = initiated s u t

  abbrev pub unless_open : Option ℕ → Bool → Startup → Table n → Bool × Table n
  unless_open (some s) crashed u t = (true, t)
  unless_open none crashed u t =
      if u.path_exists && not (crashed && u.unlinked) then (false, t) else with_socket u.socket u t

  -- `true` where the socket is returned. The group of the socket's file, a build option, is left out.
  unfoldable pub comm_init : Bool → Startup → Table n → Bool × Table n
  comm_init crashed u t = unless_open t.sock crashed u t

  abbrev pub after_accept : Accepts → Option ℕ → Accepted → Option (Bool × Table n)
  after_accept a sock none = none
  after_accept a sock (some (l, r, exhausted)) =
      let t : Table n = record { sock = sock; agents = l; round = r } in
      some (if exhausted && not a.eagain then (false, comm_destroy t) else (true, t))

  unfoldable pub check_listen : Flags → Accepts → Table n → Option (Bool × Table n)
  check_listen flags a t =
      if flags.hup
      then some (false, comm_destroy t)
      else if flags.pollin
      then after_accept a t.sock (accept_loop a.sockets t.agents t.round)
      else some (true, t)

  module _ (cpblts : List Text) (malloc : ℕ → Bool) (rounds agent : ℕ) where
    abbrev pub after_agents :
        Flags → Accepts → Option ℕ → Looped n cpblts malloc rounds agent → Option (Bool × Table n)
    after_agents flags a sock none = none
    after_agents flags a sock (some (l, r, done)) =
        let t : Table n = record { sock = sock; agents = l; round = r } in
        if done then some (true, t) else check_listen flags a t

    abbrev pub polled : Poll → Accepts → Table n → Option (Bool × Table n)
    polled (interrupted p) a t = polled p a t
    polled poll_failed a t = some (false, comm_destroy t)
    polled timeout a t = some (true, t)
    polled (ready ret flags) a t =
        after_agents (revents flags t.round.listen) a t.sock
          (check_agents n cpblts malloc rounds agent t.sock flags ret none t.agents t.round)

    abbrev pub if_open : Option ℕ → Poll → Accepts → Table n → Option (Bool × Table n)
    if_open none p a t = some (false, t)
    if_open (some s) p a t = polled p a t

    -- `true` for EXIT_SUCCESS
    unfoldable pub comm_loop : Poll → Accepts → Table n → Option (Bool × Table n)
    comm_loop p a t = if_open t.sock p a t
