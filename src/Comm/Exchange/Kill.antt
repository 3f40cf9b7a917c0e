-- ===== src/Comm/Exchange/Kill.antt =====
-- The exchange of server/agent_comm_socket.c with server/server_comm_socket.c that ends another session.
use of_config.Base.{
  ℕ, suc, Text, text_eq, false, Option, none, some, List, [], ◌∷◌, ◌++◌, length, ◌≡◌, refl, ap, ◌∙◌,
  arith,
}
use of_config.Error.{ok}
use of_config.Sessions.{
  Agent, Sessions, srv_agent_stop, srv_agent_kill, srv_get_agent_by_ncsid, srv_get_agent_by_agentid,
}
use of_config.Sessions.Joined.{Linked, Distinct}
use of_config.Sessions.Gone.{srv_agent_stop-Linked}
use of_config.Comm.Netconf.{Netconf, Shared}
use of_config.Comm.Wire.{
  Queue, put_int, sized, recv_number, Link, sent, read_on, ◌>>=◌, return, op_kill_session,
}
use of_config.Comm.Wire.Carried.{Kernel, arrive, recv_number-sent}
use of_config.Comm.Agent.{killed, comm_kill_session}
use of_config.Comm.Server.{
  Handled, agent_id, looked_up, kill_session, kill_read, kill_target, kill_asked, and_reply,
}
use of_config.Comm.Loop.{Round, serve, dispatch, after_switch}
use of_config.Comm.Exchange.{enough, Sendable, reads}
use of_config.Comm.Exchange.Session.{answered_on, serve-sent}
use of_config.Comm.Exchange.Operation.{got_message-sent}

srv_agent_kill-of_stop :
    (a : ℕ) (s t : Sessions) (target : Agent)
    → s.memory a ≡ some target
    → srv_agent_stop a s ≡ (ok tt, t)
    → srv_agent_kill a s ≡ ((ok tt, t), target.pid ∷ [])
unfolding srv_agent_kill
srv_agent_kill-of_stop a s t target held stop = rw (stop, held) refl

module _ (n : Netconf) (cpblts : List Text) (rounds agent : ℕ) (k : Kernel) where
  open n use {nc_reply_ok}

  kill-served :
      (sid : Text) (c fd a b : ℕ) (cell : Agent) (q p : Queue) (sock op : Option ℕ) (r : Round n)
      (link : Link) (t : Sessions) (pids : List ℕ)
      → Sendable sid
      → (r.links fd).input ≡ arrive k (put_int op_kill_session ∷ sized sid) q
      → link.input ≡ arrive k (put_int op_kill_session ∷ []) p
      → srv_get_agent_by_ncsid sid rounds r.shared.sessions ≡ some (ok (some a))
      → srv_get_agent_by_agentid (agent_id fd) rounds r.shared.sessions ≡ some (ok (some b))
      → r.shared.sessions.memory b ≡ some cell
      → text_eq cell.ncsid sid ≡ false
      → srv_agent_kill a r.shared.sessions ≡ ((ok tt, t), pids)
      → (serve n cpblts enough rounds agent sock (some fd) op r
          ≡ some (
              answered_on n cpblts rounds agent k fd q
                (put_int op_kill_session ∷ [])
                op_kill_session
                (record (r.shared) { sessions = t; signals = r.shared.signals ++ pids })
                r))
        × (comm_kill_session n enough (some c) sid link
            ≡ some (
              some nc_reply_ok,
              record { input = p; output = link.output ++ put_int op_kill_session ∷ sized sid },
            ))
  unfolding dispatch kill_session comm_kill_session killed
  kill-served sid c fd a b cell q p sock op r link t pids hs e l x y m other kill =
      let server = λ (z : Handled n enough rounds).
        after_switch n cpblts enough rounds agent sock fd op_kill_session r z in
      let k1 : Link = record (r.links fd) { input = q } in
      let start = sent (put_int op_kill_session ∷ sized sid) link in
      let done : Shared n = record (r.shared) {
        sessions = t;
        signals = r.shared.signals ++ pids;
      } in
      let asked : kill_asked n enough rounds sid a k1 r.shared (some b)
          ≡ some (sent (put_int op_kill_session ∷ []) k1, done) =
        rw (m, other)
          (ap
            (λ z.
              and_reply n enough rounds (put_int op_kill_session ∷ []) k1
                (record (r.shared) { signals = r.shared.signals ++ z.1 }) (some z.0))
            kill) in
      (
        serve-sent n cpblts rounds agent k sock fd op_kill_session op r _ (omega arith) e
            ∙ (ap (λ z. server (kill_read n enough rounds fd (read_on (r.links fd) z) r.shared))
                  (got_message-sent n cpblts rounds agent k sid q hs)
                ∙ (ap (λ z. server (looked_up z (kill_target n enough rounds sid fd k1 r.shared))) x
                    ∙ (ap (λ z. server (looked_up z (kill_asked n enough rounds sid a k1 r.shared)))
                          y
                        ∙ ap server asked))),
        ap
              (λ z. read_on start (
                (recv_number 4 (some 0) >>= λ result.
                killed n enough (suc (length sid)) result >>= λ w. return (some w))
                  z))
              l
            ∙ ap (read_on start) (
                reads (recv_number 4 (some 0)) _ _ op_kill_session p
                  (recv_number-sent k 3 op_kill_session (some 0) p (omega arith) (omega arith))
                  refl),
      )

  -- A request of a known agent to end another's session, where the agents are linked in both directions at
  -- addresses that differ: `kill` is called once, with the process id that the target's cell holds, the
  -- target is no longer among the agents, whose others stay linked in their order, its cell is freed, and the
  -- request is answered with ok.
  pub kill-exchange :
      (sid : Text) (c fd a b : ℕ) (cell target : Agent) (before after : List ℕ) (q p : Queue)
      (sock op : Option ℕ) (r : Round n) (link : Link)
      → Sendable sid
      → (r.links fd).input ≡ arrive k (put_int op_kill_session ∷ sized sid) q
      → link.input ≡ arrive k (put_int op_kill_session ∷ []) p
      → srv_get_agent_by_ncsid sid rounds r.shared.sessions ≡ some (ok (some a))
      → srv_get_agent_by_agentid (agent_id fd) rounds r.shared.sessions ≡ some (ok (some b))
      → r.shared.sessions.memory b ≡ some cell
      → text_eq cell.ncsid sid ≡ false
      → r.shared.sessions.memory a ≡ some target
      → Distinct (before ++ a ∷ after)
      → Linked r.shared.sessions.memory none r.shared.sessions.agents (before ++ a ∷ after)
      → (t : Sessions) × Linked t.memory none t.agents (before ++ after)
        × (t.memory a ≡ none)
        × (serve n cpblts enough rounds agent sock (some fd) op r
            ≡ some (
                answered_on n cpblts rounds agent k fd q
                  (put_int op_kill_session ∷ [])
                  op_kill_session
                  (record (r.shared) {
                    sessions = t;
                    signals = r.shared.signals ++ target.pid ∷ [];
                  })
                  r))
        × (comm_kill_session n enough (some c) sid link
            ≡ some (
              some nc_reply_ok,
              record { input = p; output = link.output ++ put_int op_kill_session ∷ sized sid },
            ))
  kill-exchange sid c fd a b cell target before after q p sock op r link hs e l x y m other held d
        h =
      let (t, (stop, (linked, gone))) =
        srv_agent_stop-Linked a r.shared.sessions before after d h in
      let kill = srv_agent_kill-of_stop a r.shared.sessions t target held stop in
      let (served, replied) =
        kill-served sid c fd a b cell q p sock op r link t (target.pid ∷ []) hs e l x y m other
          kill in
      (t, linked, gone, served, replied)
