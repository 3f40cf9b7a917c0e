-- ===== src/Comm/Server.antt =====
-- The server's end of one agent's socket: the handlers of server/server_comm_socket.c. `none` is a run that
-- C leaves undefined, or one for which the rounds of a walk through the agents do not suffice.
use of_config.Base.{
  ℕ, length, Text, codes, Bool, Option, none, some, List, [], ◌∷◌, ◌++◌, if◌then◌else◌, text_eq,
  decimal,
}
use of_config.Error.{Result, ok, fail, fault}
use of_config.Sessions.{
  Agent, Sessions, srv_agent_new, srv_agent_stop, srv_agent_kill, srv_get_agent_by_ncsid,
  srv_get_agent_by_agentid,
}
use of_config.Comm.Netconf.{Netconf, Shared, srv_process_rpc, op_failed_reply}
use of_config.Comm.Wire.{
  Bytes, Recv, ◌>>=◌, return, undefined, Link, sent, reading, sized, sized_all, put_int,
  split_bytes, recv_number, recv_string, recv_array, recv_msg, as_string, as_strings, string_at,
  op_get_cpblts, op_set_session, op_close_session, op_kill_session, op_generic, result_error,
}

-- `snprintf(id, sizeof id, "%d", socket)` with room for five digits; an `int` has ten at most
unfoldable pub agent_id : ℕ → Text
agent_id socket = (split_bytes 5 (decimal socket)).0

-- `cpblts` are the server's own capabilities.
unfoldable pub get_capabilities : List Text → Link → Link
get_capabilities cpblts k =
    sent (put_int op_get_cpblts ∷ put_int (length cpblts) ∷ sized_all cpblts) k

-- What `set_session` reads: the session's id, the process and the user, and the capabilities or NULL.
pub record SessionInfo : Type 0 where
  pub ncsid : Text
  pub pid : ℕ
  pub username : Text
  pub cpblts : Option (List Text)

abbrev pub listed : Option (List Bytes) → Recv (Option (List Text))
listed none = return none
listed (some l) = as_strings l >>= λ ts. return (some ts)

abbrev recv_buffer : (ℕ → Bool) → ℕ → Recv Text
recv_buffer malloc len = if malloc len then recv_string len else undefined

unfoldable pub read_session : (ℕ → Bool) → Recv SessionInfo
read_session malloc = recv_number 4 none >>= λ len. recv_buffer malloc len >>= λ sid.
    recv_number 2 none >>= λ pid. recv_number 4 (some len) >>= λ len2.
    recv_buffer malloc len2 >>= λ user. recv_number 4 none >>= λ count.
    recv_array malloc count (some len2) >>= λ l.
    listed l >>= λ ts. return (record { ncsid = sid; pid = pid; username = user; cpblts = ts })

-- What a walk through the agents has found.
abbrev pub looked_up : {B : Type 0} → Option (Result (Option ℕ)) → (Option ℕ → Option B) → Option B
looked_up none k = none
looked_up (some (ok a)) k = k a
looked_up (some (fail e)) k = none
looked_up (some fault) k = none

abbrev pub known : {B : Type 0} → Option Agent → (Agent → Option B) → Option B
known none k = none
known (some c) k = k c

module _ (n : Netconf) (malloc : ℕ → Bool) (rounds : ℕ) where
  open n use {nc_reply_dump, nc_reply_error, nc_rpc_build}

  abbrev pub Handled : Type 0
  Handled = Option (Link × Shared n)

  abbrev pub and_reply :
      List Bytes → Link → Shared n → Option (Result (Unit {0}) × Sessions) → Handled
  and_reply reply k s none = none
  and_reply reply k s (some (ok u, t)) = some (sent reply k, record s { sessions = t })
  and_reply reply k s (some (fail e, t)) = none
  and_reply reply k s (some (fault, t)) = none

  abbrev pub new_session : ℕ → ℕ → Option (SessionInfo × Link) → Shared n → Handled
  new_session agent socket none s = none
  new_session agent socket (some (i, k)) s = elim (i.cpblts) [
    | none ↦ some (sent (put_int result_error ∷ []) k, s)
    | some cs ↦
        and_reply (put_int op_set_session ∷ []) k s
          (srv_agent_new rounds agent i.ncsid i.username cs (agent_id socket) i.pid s.sessions)
  ]

  -- `agent` is the address of the memory for the new agent.
  unfoldable pub set_session : ℕ → ℕ → Link → Shared n → Handled
  set_session agent socket k s = new_session agent socket (reading (read_session malloc) k) s

  abbrev pub close_found : Link → Shared n → Option ℕ → Handled
  close_found k s none = some (k, s)
  close_found k s (some a) =
      and_reply (put_int op_close_session ∷ []) k s (some (srv_agent_stop a s.sessions))

  unfoldable pub close_session : ℕ → Link → Shared n → Handled
  close_session socket k s =
      looked_up (srv_get_agent_by_agentid (agent_id socket) rounds s.sessions) (close_found k s)

  abbrev pub refuse : Text → Link → Shared n → Handled
  refuse errmsg k s = some (sent (put_int result_error ∷ sized errmsg) k, s)

  -- The kill, and its process id among those that `kill` was called with.
  abbrev pub kill_found : ℕ → Link → Shared n → Handled
  kill_found a k s =
      let (r, pids) = srv_agent_kill a s.sessions in
      and_reply (put_int op_kill_session ∷ []) k (record s { signals = s.signals ++ pids }) (some r)

  abbrev pub kill_asked : Text → ℕ → Link → Shared n → Option ℕ → Handled
  kill_asked sid a k s none = refuse (codes "You are unknown client") k s
  kill_asked sid a k s (some sender) = known (s.sessions.memory sender) (λ c.
      if text_eq c.ncsid sid
      then refuse (codes "Killing own session requested") k s
      else kill_found a k s)

  abbrev pub kill_target : Text → ℕ → Link → Shared n → Option ℕ → Handled
  kill_target sid socket k s none = refuse (codes "Session to kill does not exists") k s
  kill_target sid socket k s (some a) =
      looked_up (srv_get_agent_by_agentid (agent_id socket) rounds s.sessions)
        (kill_asked sid a k s)

  abbrev pub kill_read : ℕ → Option (Option Text × Link) → Shared n → Handled
  kill_read socket none s = none
  kill_read socket (some (none, k)) s = refuse (codes "SessionID expected as a string value") k s
  kill_read socket (some (some sid, k)) s =
      looked_up (srv_get_agent_by_ncsid sid rounds s.sessions) (kill_target sid socket k s)

  abbrev pub string_or_null : Option Bytes → Recv (Option Text)
  string_or_null none = return none
  string_or_null (some b) = as_string b >>= λ t. return (some t)

  abbrev pub got_message : ℕ → Recv (Option Text)
  got_message len q = let ((b, e), r) = recv_msg malloc len q in string_or_null b r

  unfoldable pub kill_session : ℕ → Link → Shared n → Handled
  kill_session socket k s =
      kill_read socket (reading (recv_number 4 (some 0) >>= λ len. got_message len) k) s

  abbrev pub send_reply : n.Reply → Link → Link
  send_reply reply k = sent (put_int op_generic ∷ sized (nc_reply_dump reply)) k

  abbrev pub operate : n.Reply × n.World → Link → Shared n → Handled
  operate (reply, w) k s = some (send_reply reply k, record s { world = w })

  abbrev pub process_for : Option Text → Link → Shared n → Option ℕ → Handled
  process_for dump k s none =
      some (send_reply (op_failed_reply n (codes "request from unknown agent")) k, s)
  process_for none k s (some a) = none
  process_for (some dump) k s (some a) =
      known (s.sessions.memory a)
        (λ c. operate (srv_process_rpc n c (nc_rpc_build dump c) s.world) k s)

  abbrev pub process_read : ℕ → Option ((Option Text × Option Text) × Link) → Shared n → Handled
  process_read socket none s = none
  process_read socket (some ((dump, some err), k)) s =
      some (send_reply (nc_reply_error (some err)) k, s)
  process_read socket (some ((dump, none), k)) s =
      looked_up (srv_get_agent_by_agentid (agent_id socket) rounds s.sessions)
        (process_for dump k s)

  abbrev pub dump_and_err : Option Bytes → Option Text → Recv (Option Text × Option Text)
  dump_and_err none err = return (none, err)
  dump_and_err (some b) err = return (string_at b, err)

  abbrev pub got_dump : ℕ → Recv (Option Text × Option Text)
  got_dump len q = let ((b, e), r) = recv_msg malloc len q in dump_and_err b e r

  unfoldable pub process_operation : ℕ → Link → Shared n → Handled
  process_operation socket k s =
      process_read socket (reading (recv_number 4 none >>= λ len. got_dump len) k) s
