-- ===== src/Comm/Exchange/Operation.antt =====
-- The exchanges of server/agent_comm_socket.c with server/server_comm_socket.c for the requests of NETCONF, and
-- where the end of another session is refused.
use of_config.Base.{
  ℕ, suc, Text, codes, text_eq, true, Option, none, some, List, ◌∷◌, ◌++◌, length, ◌≡◌, refl, sym,
  ap, ◌∙◌, arith, text_eq_refl,
}
use of_config.Error.{ok}
use of_config.Sessions.{Agent, Sessions, srv_get_agent_by_ncsid, srv_get_agent_by_agentid}
use of_config.Comm.Netconf.{
  Netconf, Shared, Applied, replied, no_reply, not_applicable, srv_process_rpc,
}
use of_config.Comm.Wire.{
  Queue, c_string, put_int, sized, recv_number, Link, sent, read_on, ◌>>=◌, return, op_kill_session,
  op_generic, result_error, as_string,
}
use of_config.Comm.Wire.Carried.{
  Kernel, arrive, recv_number-sent, recv_msg-sent, string_at-c_string,
}
use of_config.Comm.Agent.{answered, read_reply, comm_operation, killed, comm_kill_session}
use of_config.Comm.Server.{
  Handled, agent_id, looked_up, known, process_operation, process_read, process_for, got_dump,
  operate, kill_session, kill_read, kill_target, kill_asked, got_message, refuse,
}
use of_config.Comm.Loop.{Round, serve, dispatch, after_switch}
use of_config.Comm.Exchange.{enough, Sendable, reads}
use of_config.Comm.Exchange.Session.{answered_on, serve-sent}

module _ (n : Netconf) (cpblts : List Text) (rounds agent : ℕ) (k : Kernel) where
  open n use {
    Rpc, Reply, World, ncds_apply_rpc2all, nc_rpc_dump, nc_rpc_build, nc_reply_dump, nc_reply_build,
    nc_reply_ok, nc_reply_error,
  }

  got_dump-sent :
      (t : Text) (q : Queue)
      → Sendable t
      → (recv_number 4 none >>= λ len. got_dump n enough rounds len)
          (k.cut (put_int (length (c_string t))) ++ (k.cut (c_string t) ++ q))
        ≡ some ((some t, none), q)
  got_dump-sent t q (s, b) =
      reads (recv_number 4 none) _ _ (length (c_string t)) (k.cut (c_string t) ++ q)
        (recv_number-sent k 3 (length (c_string t)) none (k.cut (c_string t) ++ q) (omega arith) b)
        (rw (recv_msg-sent k enough t q refl, string_at-c_string t s) refl)

  read_reply-sent :
      (t : Text) (q : Queue)
      → Sendable t
      → read_reply n enough (k.cut (put_int (length (c_string t))) ++ (k.cut (c_string t) ++ q))
        ≡ some (nc_reply_build t, q)
  unfolding read_reply
  read_reply-sent t q (s, b) =
      reads (recv_number 4 none) _ _ (length (c_string t)) (k.cut (c_string t) ++ q)
        (recv_number-sent k 3 (length (c_string t)) none (k.cut (c_string t) ++ q) (omega arith) b)
        (rw (recv_msg-sent k enough t q refl)
          (reads (as_string (c_string t)) _ q t q (rw (string_at-c_string t s) refl) refl))

  -- The reply that is sent for what the data stores answer.
  abbrev pub IsReplyTo : Applied Reply → Reply → Type 0
  IsReplyTo (replied r) reply = reply ≡ r
  IsReplyTo no_reply reply = reply ≡ nc_reply_error none
  IsReplyTo not_applicable reply =
      reply
      ≡ nc_reply_error (some (codes "Request is not applicable to the data managed by the server"))

  processed :
      (cell : Agent) (rpc : Rpc) (v w : World) (answer : Applied Reply) (reply : Reply)
      → ncds_apply_rpc2all cell rpc v ≡ (answer, w)
      → IsReplyTo answer reply
      → srv_process_rpc n cell rpc v ≡ (reply, w)
  unfolding srv_process_rpc
  processed cell rpc v w (replied r) reply e h = rw (e, h) refl
  processed cell rpc v w no_reply reply e h = rw (e, h) refl
  processed cell rpc v w not_applicable reply e h = rw (e, h) refl

  -- The request of a known agent is handed to the data stores, for that agent's session, and the agent gets
  -- their reply as it was printed, or an error where they have none, or one that says so where the request
  -- is not for them; what they did stays.
  pub operation-exchange :
      (rpc : Rpc) (c fd a : ℕ) (cell : Agent) (q p : Queue) (sock op : Option ℕ) (r : Round n)
      (link : Link) (answer : Applied Reply) (reply : Reply) (w : World)
      → Sendable (nc_rpc_dump rpc)
      → Sendable (nc_reply_dump reply)
      → (r.links fd).input ≡ arrive k (put_int op_generic ∷ sized (nc_rpc_dump rpc)) q
      → link.input ≡ arrive k (put_int op_generic ∷ sized (nc_reply_dump reply)) p
      → srv_get_agent_by_agentid (agent_id fd) rounds r.shared.sessions ≡ some (ok (some a))
      → r.shared.sessions.memory a ≡ some cell
      → ncds_apply_rpc2all cell (nc_rpc_build (nc_rpc_dump rpc) cell) r.shared.world ≡ (answer, w)
      → IsReplyTo answer reply
      → (serve n cpblts enough rounds agent sock (some fd) op r
          ≡ some (
              answered_on n cpblts rounds agent k fd q
                (put_int op_generic ∷ sized (nc_reply_dump reply))
                op_generic
                (record (r.shared) { world = w })
                r))
        × (comm_operation n enough (some c) rpc link
            ≡ some (
              some (nc_reply_build (nc_reply_dump reply)),
              record {
                input = p;
                output = link.output ++ put_int op_generic ∷ sized (nc_rpc_dump rpc);
              },
            ))
  unfolding dispatch process_operation comm_operation
  operation-exchange rpc c fd a cell q p sock op r link answer reply w hr hp e l at held apply_all
        is_reply =
      let run =
        processed cell (nc_rpc_build (nc_rpc_dump rpc) cell) r.shared.world w answer reply apply_all
          is_reply in
      let dump = nc_rpc_dump rpc in
      let text = nc_reply_dump reply in
      let k1 : Link = record (r.links fd) { input = q } in
      let server = λ (x : Handled n enough rounds).
        after_switch n cpblts enough rounds agent sock fd op_generic r x in
      let rest = k.cut (put_int (length (c_string text))) ++ (k.cut (c_string text) ++ p) in
      let start = sent (put_int op_generic ∷ sized dump) link in
      let lost = some (nc_reply_error (some (codes "agent-server communication failed."))) in
      (
        serve-sent n cpblts rounds agent k sock fd op_generic op r _ (omega arith) e
            ∙ (ap (λ x. server (process_read n enough rounds fd (read_on (r.links fd) x) r.shared))
                  (got_dump-sent dump q hr)
                ∙ (ap
                      (λ x.
                        server (looked_up x (process_for n enough rounds (some dump) k1 r.shared)))
                      at
                    ∙ (ap
                          (λ x. server (
                            known x (λ cell.
                              operate n enough rounds
                                (srv_process_rpc n cell (nc_rpc_build dump cell) r.shared.world) k1
                                r.shared)))
                          held
                        ∙ ap (λ x. server (operate n enough rounds x k1 r.shared)) run))),
        ap
              (λ x.
                read_on start
                  (answered op_generic lost (read_reply n enough >>= λ y. return (some y)) x))
              l
            ∙ ap (read_on start) (
                reads (recv_number 4 (some 0)) _ _ op_generic rest
                  (recv_number-sent k 3 op_generic (some 0) rest (omega arith) (omega arith))
                  (reads (read_reply n enough) _ rest (nc_reply_build text) p
                    (read_reply-sent text p hp) refl)),
      )

  -- Why the server does not end the session with this id for the agent on a socket.
  pub data Refused (fd : ℕ) (sid : Text) (s : Sessions) (errmsg : Text) : Type 0 where
    no_target :
        srv_get_agent_by_ncsid sid rounds s ≡ some (ok none)
        → errmsg ≡ codes "Session to kill does not exists"
        → Refused fd sid s errmsg
    no_sender :
        (a : ℕ)
        → srv_get_agent_by_ncsid sid rounds s ≡ some (ok (some a))
        → srv_get_agent_by_agentid (agent_id fd) rounds s ≡ some (ok none)
        → errmsg ≡ codes "You are unknown client"
        → Refused fd sid s errmsg
    own_session :
        (a b : ℕ) (cell : Agent)
        → srv_get_agent_by_ncsid sid rounds s ≡ some (ok (some a))
        → srv_get_agent_by_agentid (agent_id fd) rounds s ≡ some (ok (some b))
        → s.memory b ≡ some cell
        → cell.ncsid ≡ sid
        → errmsg ≡ codes "Killing own session requested"
        → Refused fd sid s errmsg

  refused :
      (fd : ℕ) (sid errmsg : Text) (link : Link) (s : Shared n)
      → Refused fd sid s.sessions errmsg
      → kill_read n enough rounds fd (some (some sid, link)) s
        ≡ refuse n enough rounds errmsg link s
  refused fd sid errmsg link s (no_target x e) =
      ap (λ y. looked_up y (kill_target n enough rounds sid fd link s)) x
      ∙ ap (λ m. refuse n enough rounds m link s) (sym e)
  refused fd sid errmsg link s (no_sender a x y e) =
      ap (λ z. looked_up z (kill_target n enough rounds sid fd link s)) x
      ∙ (ap (λ z. looked_up z (kill_asked n enough rounds sid a link s)) y
          ∙ ap (λ m. refuse n enough rounds m link s) (sym e))
  refused fd sid errmsg link s (own_session a b cell x y m i e) =
      let own : text_eq cell.ncsid sid ≡ true = rw i (text_eq_refl sid) in
      ap (λ z. looked_up z (kill_target n enough rounds sid fd link s)) x
      ∙ (ap (λ z. looked_up z (kill_asked n enough rounds sid a link s)) y
          ∙ rw (m, own) (ap (λ m. refuse n enough rounds m link s) (sym e)))

  pub got_message-sent :
      (t : Text) (q : Queue)
      → Sendable t
      → (recv_number 4 (some 0) >>= λ len. got_message n enough rounds len)
          (k.cut (put_int (length (c_string t))) ++ (k.cut (c_string t) ++ q))
        ≡ some (some t, q)
  got_message-sent t q (s, b) =
      reads (recv_number 4 (some 0)) _ _ (length (c_string t)) (k.cut (c_string t) ++ q)
        (recv_number-sent k 3 (length (c_string t)) (some 0) (k.cut (c_string t) ++ q) (omega arith)
          b)
        (rw (recv_msg-sent k enough t q refl)
          (reads (as_string (c_string t)) _ q t q (rw (string_at-c_string t s) refl) refl))

  -- A refused request to end a session leaves the agents and sends no signal, and the agent gets the reason.
  pub kill-Refused :
      (sid errmsg : Text) (c fd : ℕ) (q p : Queue) (sock op : Option ℕ) (r : Round n) (link : Link)
      → Sendable sid
      → Sendable errmsg
      → (r.links fd).input ≡ arrive k (put_int op_kill_session ∷ sized sid) q
      → link.input ≡ arrive k (put_int result_error ∷ sized errmsg) p
      → Refused fd sid r.shared.sessions errmsg
      → (serve n cpblts enough rounds agent sock (some fd) op r
          ≡ some (
              answered_on n cpblts rounds agent k fd q
                (put_int result_error ∷ sized errmsg)
                op_kill_session
                r.shared
                r))
        × (comm_kill_session n enough (some c) sid link
            ≡ some (
              some (nc_reply_error (some errmsg)),
              record { input = p; output = link.output ++ put_int op_kill_session ∷ sized sid },
            ))
  unfolding dispatch kill_session comm_kill_session killed
  kill-Refused sid errmsg c fd q p sock op r link hs (me, mb) e l why =
      let server = λ (x : Handled n enough rounds).
        after_switch n cpblts enough rounds agent sock fd op_kill_session r x in
      let len = length (c_string errmsg) in
      let start = sent (put_int op_kill_session ∷ sized sid) link in
      let body = k.cut (c_string errmsg) ++ p in
      let rest = k.cut (put_int len) ++ body in
      (
        serve-sent n cpblts rounds agent k sock fd op_kill_session op r _ (omega arith) e
            ∙ (ap (λ x. server (kill_read n enough rounds fd (read_on (r.links fd) x) r.shared))
                  (got_message-sent sid q hs)
                ∙ ap server
                    (refused fd sid errmsg (record (r.links fd) { input = q }) r.shared why)),
        ap
              (λ x. read_on start (
                (recv_number 4 (some 0) >>= λ result.
                killed n enough (suc (length sid)) result >>= λ y. return (some y))
                  x))
              l
            ∙ ap (read_on start) (
                reads (recv_number 4 (some 0)) _ _ result_error rest
                  (recv_number-sent k 3 result_error (some 0) rest (omega arith) (omega arith))
                  (reads (killed n enough (suc (length sid)) result_error) _ rest
                    (nc_reply_error (some errmsg)) p
                    (reads (recv_number 4 (some (suc (length sid)))) _ rest len body
                      (recv_number-sent k 3 len (some (suc (length sid))) body (omega arith) mb)
                      (rw (recv_msg-sent k enough errmsg p refl) (
                        reads (as_string (c_string errmsg)) _ p errmsg p
                          (rw (string_at-c_string errmsg me) refl) refl)))
                    refl)),
      )
