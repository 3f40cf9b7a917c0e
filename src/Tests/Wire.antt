-- ===== src/Tests/Wire.antt =====
-- Two agents on the sockets 7 and 8 of the server of server/server_comm_socket.c. The kernel cuts what is
-- longer than four bytes behind its first byte, and lets `recv` fail once with EAGAIN there.
use of_config.Base.{
  ℕ, ◌+◌, ◌<◌, ◌==◌, leb, Text, codes, true, false, Option, none, some, List, [], ◌∷◌, ◌++◌,
  if◌then◌else◌, length, ◌≡◌, refl, arith, map, inl, inr, ◌⊎◌, All, Bool-cases, append-nil,
}
use of_config.Error.{ok}
use of_config.Sessions.{
  Agent, Memory, Sessions, srv_agent_new, srv_get_agent_by_ncsid, srv_get_agent_by_agentid, attach,
  write_at,
}
use of_config.Comm.Netconf.{Netconf, Shared, replied}
use of_config.Comm.Wire.{
  Bytes, Queue, Link, piece, again, c_string, put_int, sized, sized_all, op_get_cpblts,
  op_set_session, op_kill_session, op_generic, result_error,
}
use of_config.Comm.Wire.Carried.{Kernel, Carries, arrive}
use of_config.Comm.Agent.{
  comm_get_srv_cpblts, session_info, comm_session_info_send, comm_operation, comm_kill_session,
}
use of_config.Comm.Server.{agent_id}
use of_config.Comm.Loop.{Round, Table, Flags, Accepts, ready, interrupted, serve, comm_loop}
use of_config.Comm.Loop.Room.{IsTable}
use of_config.Comm.Loop.Room.Rounds.{comm_loop-IsTable, Ends, Undefined}
use of_config.Comm.Exchange.{enough, Sendable}
use of_config.Comm.Exchange.Session.{
  answered_on, session_info_send-exchange, get_srv_cpblts-exchange,
}
use of_config.Comm.Exchange.Operation.{operation-exchange, kill-Refused, no_target}
use of_config.Comm.Exchange.Kill.{kill-exchange}
use of_config.Sessions.Joined.{Linked, Distinct}

abbrev cut : Bytes → Queue
cut [] = []
cut (b ∷ []) = piece b [] ∷ []
cut (b ∷ c ∷ bs) =
    if leb (length bs) 2 then piece b (c ∷ bs) ∷ [] else piece b [] ∷ again ∷ piece c bs ∷ []

cut-Carries : (bs : Bytes) → Carries (cut bs) bs
cut-Carries [] = refl
cut-Carries (b ∷ []) = ([], refl, refl)
cut-Carries (b ∷ c ∷ bs) = elim (Bool-cases (leb (length bs) 2)) [
  | inl short ↦ rw short ([], rw append-nil refl, refl)
  | inr long ↦ rw long (c ∷ bs, refl, ((λ e. cc), ([], rw append-nil refl, refl)))
]

cut_whole : (b : ℕ) (bs : Bytes) → length bs < 4 → cut (b ∷ bs) ≡ piece b bs ∷ []
cut_whole b [] h = refl
cut_whole b (c ∷ bs) h = let short : leb (length bs) 2 ≡ true = ground arith in rw short refl

abbrev kernel : Kernel
kernel = record { cut = cut; carries = cut-Carries; whole = cut_whole }

abbrev message_of : Option Text → Text
message_of none = []
message_of (some m) = m

abbrev netconf : Netconf
netconf = record {
  Rpc = Text;
  Reply = Text;
  World = ℕ;
  nc_rpc_dump = λ r. r;
  nc_rpc_build = λ t c. t;
  nc_reply_dump = λ r. r;
  nc_reply_build = λ t. t;
  nc_reply_ok = codes "ok";
  nc_reply_error = message_of;
  ncds_apply_rpc2all = λ c r w. (replied (c.username ++ r), w + 1);
}

abbrev first : Agent
first = record {
  ncsid = codes "1";
  username = codes "ann";
  cpblts = [];
  id = codes "7";
  pid = 100;
  prev = none;
  next = some 20;
}

abbrev second : Agent
second = record {
  ncsid = codes "2";
  username = codes "bob";
  cpblts = [];
  id = codes "8";
  pid = 101;
  prev = some 10;
  next = none;
}

abbrev memory_two : Memory
memory_two a = if a == 10 then some first else if a == 20 then some second else none

abbrev two_agents : Sessions
two_agents = record { agents = some 10; memory = memory_two }

abbrev shared : Shared netconf
shared = record { sessions = two_agents; world = 5; signals = [] }

abbrev round_with : Queue → Round netconf
round_with q = record {
  listen = some 3;
  connected = 2;
  links = λ x. record { input = q; output = [] };
  shared = shared;
}

abbrev link_with : Queue → Link
link_with q = record { input = q; output = [] }

abbrev cpblts : List Text
cpblts = codes "urn:base:1.0" ∷ codes "urn:base:1.1" ∷ []

abbrev three_agents : Sessions
three_agents =
    let new : Agent = record {
      ncsid = codes "3";
      username = codes "cat";
      cpblts = cpblts;
      id = codes "9";
      pid = 4;
      prev = none;
      next = none;
    } in
    record { agents = some 10; memory = attach (write_at memory_two 30 (some new)) 20 30 }

three_lem :
    srv_agent_new 3 30 (codes "3") (codes "cat") cpblts (agent_id 9) 4 two_agents
    ≡ some (ok tt, three_agents)
unfolding srv_agent_new agent_id of_config.Sessions.last_agent
three_lem = refl

cpblts-Sendable : All Sendable cpblts
cpblts-Sendable = omega arith

session_info_send-exchange_example :
    (serve netconf cpblts enough 3 30
        (some 3)
        (some 9)
        none
        (round_with (arrive kernel (session_info (codes "cat") (codes "3") 65540 2 cpblts) []))
      ≡ some (
          answered_on netconf cpblts 3 30 kernel 9 []
            (put_int op_set_session ∷ [])
            op_set_session
            (record shared { sessions = three_agents })
            (round_with
              (arrive kernel (session_info (codes "cat") (codes "3") 65540 2 cpblts) []))))
    × (comm_session_info_send
          (some 4)
          (codes "cat")
          (codes "3")
          65540
          2
          cpblts
          (link_with (arrive kernel (put_int op_set_session ∷ []) []))
        ≡ some (
          true,
          record { input = []; output = session_info (codes "cat") (codes "3") 65540 2 cpblts },
        ))
session_info_send-exchange_example =
    session_info_send-exchange netconf cpblts 3 30 kernel (codes "3") (codes "cat") 65540 4 9 cpblts
      [] [] (some 3) none
      (round_with (arrive kernel (session_info (codes "cat") (codes "3") 65540 2 cpblts) []))
      (link_with (arrive kernel (put_int op_set_session ∷ []) [])) three_agents (omega arith)
      (omega arith) cpblts-Sendable (omega arith) (51, 0 ∷ [], refl, refl)
      (99, 97 ∷ 116 ∷ 0 ∷ [], refl, refl) refl refl three_lem

get_srv_cpblts-exchange_example :
    (serve netconf cpblts enough 3 30
        (some 3)
        (some 7)
        none
        (round_with (arrive kernel (put_int op_get_cpblts ∷ []) []))
      ≡ some (
          answered_on netconf cpblts 3 30 kernel 7 []
            (put_int op_get_cpblts ∷ (put_int 2 ∷ sized_all cpblts))
            op_get_cpblts
            shared
            (round_with (arrive kernel (put_int op_get_cpblts ∷ []) []))))
    × (comm_get_srv_cpblts enough
          (some 4)
          (link_with (arrive kernel (put_int op_get_cpblts ∷ (put_int 2 ∷ sized_all cpblts)) []))
        ≡ some (
          some (map c_string cpblts),
          record { input = []; output = put_int op_get_cpblts ∷ [] },
        ))
get_srv_cpblts-exchange_example =
    get_srv_cpblts-exchange netconf cpblts 3 30 kernel 4 7 [] [] (some 3) none
      (round_with (arrive kernel (put_int op_get_cpblts ∷ []) []))
      (link_with (arrive kernel (put_int op_get_cpblts ∷ (put_int 2 ∷ sized_all cpblts)) []))
      cpblts-Sendable (omega arith) refl refl

known_seven : srv_get_agent_by_agentid (agent_id 7) 3 two_agents ≡ some (ok (some 10))
unfolding srv_get_agent_by_agentid agent_id of_config.Sessions.agent_with of_config.Base.text_eq
known_seven = refl

operation-exchange_example :
    (serve netconf cpblts enough 3 30
        (some 3)
        (some 7)
        none
        (round_with (arrive kernel (put_int op_generic ∷ sized (codes "get")) []))
      ≡ some (
          answered_on netconf cpblts 3 30 kernel 7 []
            (put_int op_generic ∷ sized (codes "annget"))
            op_generic
            (record shared { world = 6 })
            (round_with (arrive kernel (put_int op_generic ∷ sized (codes "get")) []))))
    × (comm_operation netconf enough
          (some 4)
          (codes "get")
          (link_with (arrive kernel (put_int op_generic ∷ sized (codes "annget")) []))
        ≡ some (
          some (codes "annget"),
          record { input = []; output = put_int op_generic ∷ sized (codes "get") },
        ))
operation-exchange_example =
    operation-exchange netconf cpblts 3 30 kernel (codes "get") 4 7 10 first [] [] (some 3) none
      (round_with (arrive kernel (put_int op_generic ∷ sized (codes "get")) []))
      (link_with (arrive kernel (put_int op_generic ∷ sized (codes "annget")) []))
      (replied (codes "annget")) (codes "annget") 6 (omega arith) (omega arith) refl refl
      known_seven refl refl refl

absent : srv_get_agent_by_ncsid (codes "5") 3 two_agents ≡ some (ok none)
unfolding srv_get_agent_by_ncsid of_config.Sessions.agent_with of_config.Base.text_eq
absent = refl

abbrev no_session : Text
no_session = codes "Session to kill does not exists"

kill-Refused_example :
    (serve netconf cpblts enough 3 30
        (some 3)
        (some 7)
        none
        (round_with (arrive kernel (put_int op_kill_session ∷ sized (codes "5")) []))
      ≡ some (
          answered_on netconf cpblts 3 30 kernel 7 []
            (put_int result_error ∷ sized no_session)
            op_kill_session
            shared
            (round_with (arrive kernel (put_int op_kill_session ∷ sized (codes "5")) []))))
    × (comm_kill_session netconf enough
          (some 4)
          (codes "5")
          (link_with (arrive kernel (put_int result_error ∷ sized no_session) []))
        ≡ some (
          some no_session,
          record { input = []; output = put_int op_kill_session ∷ sized (codes "5") },
        ))
kill-Refused_example =
    kill-Refused netconf cpblts 3 30 kernel (codes "5") no_session 4 7 [] [] (some 3) none
      (round_with (arrive kernel (put_int op_kill_session ∷ sized (codes "5")) []))
      (link_with (arrive kernel (put_int result_error ∷ sized no_session) [])) (omega arith)
      (omega arith) refl refl (no_target absent refl)

target_two : srv_get_agent_by_ncsid (codes "2") 3 two_agents ≡ some (ok (some 20))
unfolding srv_get_agent_by_ncsid of_config.Sessions.agent_with of_config.Base.text_eq
target_two = refl

two_Linked : Linked memory_two none (some 10) (10 ∷ 20 ∷ [])
two_Linked = (refl, (first, (refl, (refl, (refl, (second, (refl, (refl, refl))))))))

two_Distinct : Distinct (10 ∷ 20 ∷ [])
two_Distinct = ((λ e. omega arith, tt), (tt, tt))

other : of_config.Base.text_eq (codes "1") (codes "2") ≡ false
unfolding of_config.Base.text_eq
other = refl

kill-exchange_example :
    (t : Sessions) × Linked t.memory none t.agents (10 ∷ [])
    × (t.memory 20 ≡ none)
    × (serve netconf cpblts enough 3 30
          (some 3)
          (some 7)
          none
          (round_with (arrive kernel (put_int op_kill_session ∷ sized (codes "2")) []))
        ≡ some (
            answered_on netconf cpblts 3 30 kernel 7 []
              (put_int op_kill_session ∷ [])
              op_kill_session
              (record shared { sessions = t; signals = 101 ∷ [] })
              (round_with (arrive kernel (put_int op_kill_session ∷ sized (codes "2")) []))))
    × (comm_kill_session netconf enough
          (some 4)
          (codes "2")
          (link_with (arrive kernel (put_int op_kill_session ∷ []) []))
        ≡ some (
          some (codes "ok"),
          record { input = []; output = put_int op_kill_session ∷ sized (codes "2") },
        ))
kill-exchange_example =
    kill-exchange netconf cpblts 3 30 kernel (codes "2") 4 7 20 10 first second (10 ∷ []) [] [] []
      (some 3) none (round_with (arrive kernel (put_int op_kill_session ∷ sized (codes "2")) []))
      (link_with (arrive kernel (put_int op_kill_session ∷ []) [])) (omega arith) refl refl
      target_two known_seven refl other refl two_Distinct two_Linked

-- Nine entries are in use, a tenth agent connects, and an eleventh waits.
abbrev nine : List (Option ℕ)
nine =
    some 11
    ∷ some 12
    ∷ some 13
    ∷ none
    ∷ some 15
    ∷ some 16
    ∷ some 17
    ∷ some 18
    ∷ some 19
    ∷ some 20
    ∷ []

abbrev table : Table netconf
table = record { sock = some 3; agents = nine; round = record (round_with []) { connected = 9 } }

abbrev flags : ℕ → Flags
flags fd = record { hup = fd == 12; pollin = fd == 3 }

abbrev newcomers : Accepts
newcomers = record {
  sockets = (30, link_with []) ∷ (31, link_with []) ∷ (32, link_with []) ∷ [];
  eagain = true;
}

table-IsTable : IsTable table
table-IsTable = (refl, (refl, omega arith, refl))

comm_loop-IsTable_example :
    Ends netconf cpblts enough 3 40
      (comm_loop netconf cpblts enough 3 40 (interrupted (ready 2 flags)) newcomers table)
    ⊎ Undefined netconf cpblts enough 3 40 (interrupted (ready 2 flags)) table
comm_loop-IsTable_example =
    comm_loop-IsTable netconf cpblts enough 3 40 (interrupted (ready 2 flags)) newcomers table
      table-IsTable
