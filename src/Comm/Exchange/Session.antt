-- ===== src/Comm/Exchange/Session.antt =====
-- The exchanges of server/agent_comm_socket.c with server/server_comm_socket.c that concern an agent's session.
use of_config.Base.{
  ℕ, ◌%◌, ◌^◌, ◌<◌, ◌==◌, ltb, Text, true, false, Option, none, some, List, [], ◌∷◌, ◌++◌, map,
  length, ◌≡◌, refl, ap, ◌∙◌, arith, All,
}
use of_config.Error.{ok}
use of_config.Sessions.{Sessions, srv_agent_new, srv_agent_stop, srv_get_agent_by_agentid}
use of_config.Comm.Netconf.{Netconf, Shared}
use of_config.Comm.Wire.{
  Queue, c_string, put_int, sized_all, recv, recv_number, recv_array, Link, sent, read_on, Recv,
  return, op_get_cpblts, op_set_session, op_close_session, Bytes,
}
use of_config.Comm.Wire.Carried.{
  Kernel, arrive, recv-sent, recv_number-sent, overwritten-number, Uncut,
}
use of_config.Comm.Agent.{
  answered, read_cpblts, comm_get_srv_cpblts, session_info, comm_session_info_send, comm_close,
}
use of_config.Comm.Server.{
  agent_id, set_session, new_session, close_session, close_found, get_capabilities, looked_up,
  and_reply,
}
use of_config.Comm.Loop.{
  Round, Served, serve, dispatch, after_switch, with_op, received, update, one_less,
}
use of_config.Comm.Exchange.{enough, Sendable, reads, recv_list-sent, read_session-sent}

-- An answer as it was expected.
pub answered-sent :
    {A : Type 0} (k : Kernel) (op : ℕ) (bad : A) (good : Recv A) (q : Queue)
    {x : Option (A × Queue)}
    → op < 2 ^ 32
    → good q ≡ x
    → answered op bad good (arrive k (put_int op ∷ []) q) ≡ x
answered-sent k op bad good q h e =
    let same : (op == op) ≡ true = ground arith in
    reads (recv_number 4 (some 0)) _ _ op q (recv_number-sent k 3 op (some 0) q (omega arith) h)
      (rw same e)

module _ (n : Netconf) (cpblts : List Text) (rounds agent : ℕ) (k : Kernel) where
  -- The server reads what operation is asked for.
  pub serve-sent :
      (sock : Option ℕ) (fd o : ℕ) (op : Option ℕ) (r : Round n) (q : Queue)
      → o < 2 ^ 32
      → (r.links fd).input ≡ k.cut (put_int o) ++ q
      → serve n cpblts enough rounds agent sock (some fd) op r
        ≡ after_switch n cpblts enough rounds agent sock fd o r (
            dispatch n cpblts enough rounds agent o fd (record (r.links fd) { input = q }) r.shared)
  unfolding serve
  serve-sent sock fd o op r q h e =
      ap (λ x. received n cpblts enough rounds agent sock fd op (recv 4 x) r) e
      ∙ (ap (λ x. received n cpblts enough rounds agent sock fd op x r)
            (recv-sent k 3 o q (omega arith))
          ∙ ap (λ x. with_op n cpblts enough rounds agent sock fd x q r)
              (overwritten-number 4 o op h))

  -- The state after an exchange on a connection that stays.
  abbrev pub answered_on :
      ℕ → Queue → List Bytes → ℕ → Shared n → Round n → Served n cpblts enough rounds agent
  answered_on fd q l o s r = record {
    fd = some fd;
    round = record r {
      links = update r.links fd (record { input = q; output = (r.links fd).output ++ l });
      shared = s;
    };
    op = some o;
    continues = false;
  }

  -- What `comm_session_info_send` sends is read by the server as it was meant: an agent with this session, user
  -- and capabilities is added, and with the process id cut to 16 bits, and the answer makes the agent's call
  -- succeed. The strings and the number of capabilities fit the types that carry their lengths, there is
  -- memory, the kernel hands over the session's id and the user each in one piece, and `srv_agent_new` succeeds.
  pub session_info_send-exchange :
      (sid username : Text) (pid c fd : ℕ) (cs : List Text) (q p : Queue) (sock op : Option ℕ)
      (r : Round n) (link : Link) (t : Sessions)
      → Sendable sid
      → Sendable username
      → All Sendable cs
      → length cs < 2 ^ 31
      → Uncut k sid
      → Uncut k username
      → (r.links fd).input ≡ arrive k (session_info username sid pid (length cs) cs) q
      → link.input ≡ arrive k (put_int op_set_session ∷ []) p
      → srv_agent_new rounds agent sid username cs (agent_id fd) (pid % 2 ^ 16) r.shared.sessions
        ≡ some (ok tt, t)
      → (serve n cpblts enough rounds agent sock (some fd) op r
          ≡ some (
              answered_on fd q
                (put_int op_set_session ∷ [])
                op_set_session
                (record (r.shared) { sessions = t })
                r))
        × (comm_session_info_send (some c) username sid pid (length cs) cs link
            ≡ some (
              true,
              record {
                input = p;
                output = link.output ++ session_info username sid pid (length cs) cs;
              },
            ))
  unfolding dispatch set_session comm_session_info_send
  session_info_send-exchange sid username pid c fd cs q p sock op r link t hs hu hc bc us uu e a
        new =
      (
        serve-sent sock fd op_set_session op r _ (omega arith) e
            ∙ (ap
                  (λ x.
                    after_switch n cpblts enough rounds agent sock fd op_set_session r
                      (new_session n enough rounds agent fd (read_on (r.links fd) x) r.shared))
                  (read_session-sent k sid username pid cs q hs hu hc bc us uu)
                ∙ ap
                    (λ x. after_switch n cpblts enough rounds agent sock fd op_set_session r (
                      and_reply n enough rounds (put_int op_set_session ∷ [])
                        (record (r.links fd) { input = q }) r.shared x))
                    new),
        ap (read_on (sent (session_info username sid pid (length cs) cs) link)) (
            ap (answered op_set_session false (return true)) a
            ∙ answered-sent k op_set_session false (return true) p (omega arith) refl),
      )

  -- The server's capabilities arrive at the agent as they are, each with its NUL.
  pub get_srv_cpblts-exchange :
      (c fd : ℕ) (q p : Queue) (sock op : Option ℕ) (r : Round n) (link : Link)
      → All Sendable cpblts
      → length cpblts < 2 ^ 31
      → (r.links fd).input ≡ arrive k (put_int op_get_cpblts ∷ []) q
      → link.input
        ≡ arrive k (put_int op_get_cpblts ∷ (put_int (length cpblts) ∷ sized_all cpblts)) p
      → (serve n cpblts enough rounds agent sock (some fd) op r
          ≡ some (
              answered_on fd q
                (put_int op_get_cpblts ∷ (put_int (length cpblts) ∷ sized_all cpblts))
                op_get_cpblts
                r.shared
                r))
        × (comm_get_srv_cpblts enough (some c) link
            ≡ some (
              some (map c_string cpblts),
              record { input = p; output = link.output ++ put_int op_get_cpblts ∷ [] },
            ))
  unfolding dispatch get_capabilities comm_get_srv_cpblts read_cpblts recv_array
  get_srv_cpblts-exchange c fd q p sock op r link h b e a =
      let body = arrive k (sized_all cpblts) p in
      let fits : ltb (length cpblts) (2 ^ 31) ≡ true = ground arith in
      let rest : read_cpblts enough (k.cut (put_int (length cpblts)) ++ body)
          ≡ some (some (map c_string cpblts), p) =
        reads (recv_number 4 none) _ _ (length cpblts) body
          (recv_number-sent k 3 (length cpblts) none body (omega arith) (omega arith))
          (rw fits (recv_list-sent k cpblts none p h)) in
      (
        serve-sent sock fd op_get_cpblts op r q (omega arith) e,
        ap
              (λ x.
                read_on (sent (put_int op_get_cpblts ∷ []) link)
                  (answered op_get_cpblts none (read_cpblts enough) x))
              a
            ∙ ap (read_on (sent (put_int op_get_cpblts ∷ []) link)) (
                reads (recv_number 4 (some 0)) _ _ op_get_cpblts
                  (k.cut (put_int (length cpblts)) ++ body)
                  (recv_number-sent k 3 op_get_cpblts (some 0)
                    (k.cut (put_int (length cpblts)) ++ body) (omega arith) (omega arith))
                  rest),
      )

  -- An agent that closes its session gets its answer; its agent is taken out and its entry is free.
  pub close-exchange :
      (c fd a : ℕ) (q p : Queue) (sock op : Option ℕ) (r : Round n) (link : Link) (t : Sessions)
      → (r.links fd).input ≡ arrive k (put_int op_close_session ∷ []) q
      → link.input ≡ arrive k (put_int op_close_session ∷ []) p
      → srv_get_agent_by_agentid (agent_id fd) rounds r.shared.sessions ≡ some (ok (some a))
      → srv_agent_stop a r.shared.sessions ≡ (ok tt, t)
      → (serve n cpblts enough rounds agent sock (some fd) op r
          ≡ some
              (record (answered_on fd q
                (put_int op_close_session ∷ [])
                op_close_session
                (record (r.shared) { sessions = t })
                r) {
                  fd = none;
                  round =
                      one_less n cpblts enough rounds agent sock
                        (answered_on fd q
                          (put_int op_close_session ∷ [])
                          op_close_session
                          (record (r.shared) { sessions = t })
                          r).round;
                }))
        × (comm_close (some c) link
            ≡ some
                (true, record { input = p; output = link.output ++ put_int op_close_session ∷ [] }))
  unfolding dispatch close_session comm_close
  close-exchange c fd a q p sock op r link t e l at stop = (
    serve-sent sock fd op_close_session op r q (omega arith) e
        ∙ (ap
              (λ x. after_switch n cpblts enough rounds agent sock fd op_close_session r (
                looked_up x
                  (close_found n enough rounds (record (r.links fd) { input = q }) r.shared)))
              at
            ∙ ap
                (λ x. after_switch n cpblts enough rounds agent sock fd op_close_session r (
                  and_reply n enough rounds (put_int op_close_session ∷ [])
                    (record (r.links fd) { input = q }) r.shared (some x)))
                stop),
    ap
          (λ x.
            read_on (sent (put_int op_close_session ∷ []) link)
              (answered op_close_session false (return true) x))
          l
        ∙ ap (read_on (sent (put_int op_close_session ∷ []) link))
            (answered-sent k op_close_session false (return true) p (omega arith) refl),
  )
