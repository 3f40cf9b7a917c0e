-- ===== src/Comm/Agent.antt =====
-- The agent's end of the socket: server/agent_comm_socket.c. The descriptor `*c` is `none` for -1.
use of_config.Base.{
  ℕ, suc, length, Text, Bool, true, false, Option, none, some, List, [], ◌∷◌, ◌++◌, ◌==◌, codes,
  if◌then◌else◌,
}
use of_config.Comm.Netconf.{Netconf}
use of_config.Comm.Wire.{
  Bytes, Recv, ◌>>=◌, return, Link, sent, reading, sized, sized_all, put_int, put_u16, recv_number,
  recv_array, recv_msg, as_string, op_get_cpblts, op_set_session, op_close_session, op_kill_session,
  op_generic, result_error,
}

-- What `socket` returns, and whether `connect` succeeds.
unfoldable pub comm_init : Option ℕ → Bool → Option ℕ
comm_init none connected = none
comm_init (some c) connected = if connected then some c else none

-- The answer `result`, which is 0 before, is compared with the request.
abbrev pub answered : {A : Type 0} → ℕ → A → Recv A → Recv A
answered op bad good =
    recv_number 4 (some 0) >>= λ result. if result == op then good else return bad

unfoldable pub read_cpblts : (ℕ → Bool) → Recv (Option (List Bytes))
read_cpblts malloc = recv_number 4 none >>= λ count. recv_array malloc count none

unfoldable pub comm_get_srv_cpblts :
    (ℕ → Bool) → Option ℕ → Link → Option (Option (List Bytes) × Link)
comm_get_srv_cpblts malloc none k = some (none, k)
comm_get_srv_cpblts malloc (some c) k =
    reading (answered op_get_cpblts none (read_cpblts malloc)) (sent (put_int op_get_cpblts ∷ []) k)

-- What `comm_session_info_send` sends: `count` is what `nc_cpblts_count` returns, `cpblts` what
-- `nc_cpblts_iter_next` gives one after the other. `put_u16` cuts the process id to 16 bits.
abbrev pub session_info : Text → Text → ℕ → ℕ → List Text → List Bytes
session_info username sid getpid count cpblts =
    put_int op_set_session
    ∷ (sized sid ++ (put_u16 getpid ∷ (sized username ++ (put_int count ∷ sized_all cpblts))))

-- `true` for EXIT_SUCCESS
unfoldable pub comm_session_info_send :
    Option ℕ → Text → Text → ℕ → ℕ → List Text → Link → Option (Bool × Link)
comm_session_info_send none username sid getpid count cpblts k = some (false, k)
comm_session_info_send (some c) username sid getpid count cpblts k =
    reading (answered op_set_session false (return true))
      (sent (session_info username sid getpid count cpblts) k)

unfoldable pub comm_close : Option ℕ → Link → Option (Bool × Link)
comm_close none k = some (false, k)
comm_close (some c) k =
    reading (answered op_close_session false (return true)) (sent (put_int op_close_session ∷ []) k)

-- `comm_destroy`, with the descriptor that it leaves; `p` is NULL for `none`.
unfoldable pub comm_destroy : Option (Option ℕ) → Link → Option (Option (Option ℕ) × Link)
comm_destroy none k = some (none, k)
comm_destroy (some none) k = some (some none, k)
comm_destroy (some (some c)) k = elim (comm_close (some c) k) [
  | none ↦ none
  | some (done, k') ↦ some (some none, k')
]

module _ (n : Netconf) (malloc : ℕ → Bool) where
  open n use {Rpc, Reply, nc_rpc_dump, nc_reply_build, nc_reply_ok, nc_reply_error}

  abbrev pub built : (Option Bytes × Option Text) → Recv Reply
  built (b, some e) = return (nc_reply_error (some e))
  built (none, none) = return (nc_reply_error none)
  built (some b, none) = as_string b >>= λ t. return (nc_reply_build t)

  abbrev pub got_reply : ℕ → Recv Reply
  got_reply len q = let (m, r) = recv_msg malloc len q in built m r

  unfoldable pub read_reply : Recv Reply
  read_reply = recv_number 4 none >>= λ len. got_reply len

  unfoldable pub comm_operation : Option ℕ → Rpc → Link → Option (Option Reply × Link)
  comm_operation none rpc k = some (none, k)
  comm_operation (some c) rpc k =
      reading
        (answered op_generic
          (some (nc_reply_error (some (codes "agent-server communication failed."))))
          (read_reply >>= λ r. return (some r)))
        (sent (put_int op_generic ∷ sized (nc_rpc_dump rpc)) k)

  abbrev pub told : Option Bytes → Recv Reply
  told none = return (nc_reply_error none)
  told (some b) = as_string b >>= λ t. return (nc_reply_error (some t))

  abbrev pub got_errmsg : ℕ → Recv Reply
  got_errmsg len q = let ((b, e), r) = recv_msg malloc len q in told b r

  -- `len` keeps the length of the session's id where no other arrives.
  unfoldable pub killed : ℕ → ℕ → Recv Reply
  killed len result =
      if result == result_error
      then (recv_number 4 (some len) >>= λ l. got_errmsg l)
      else if result == op_kill_session
      then return nc_reply_ok
      else return (nc_reply_error none)

  unfoldable pub comm_kill_session : Option ℕ → Text → Link → Option (Option Reply × Link)
  comm_kill_session none sid k = some (none, k)
  comm_kill_session (some c) sid k =
      reading
        (recv_number 4 (some 0) >>= λ result.
          killed (suc (length sid)) result >>= λ r. return (some r))
        (sent (put_int op_kill_session ∷ sized sid) k)
