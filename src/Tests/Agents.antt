-- ===== src/Tests/Agents.antt =====
-- A third agent of server/server_ops.c beside two others.
use of_config.Base.{◌==◌, codes, none, some, [], ◌∷◌, ◌++◌, ◌≡◌, refl, arith, if◌then◌else◌}
use of_config.Error.{ok}
use of_config.Sessions.{
  Agent, Memory, Sessions, srv_agent_new, srv_agent_stop, srv_get_agent_by_ncsid,
  srv_get_agent_by_agentid,
}
use of_config.Sessions.Gone.{srv_agent_stop-Linked}
use of_config.Sessions.Joined.{Linked, srv_agent_new-Linked}

abbrev first : Agent
first = record {
  ncsid = codes "1";
  username = codes "admin";
  cpblts = [];
  id = codes ":1.5";
  pid = 100;
  prev = none;
  next = some 20;
}

abbrev second : Agent
second = record {
  ncsid = codes "2";
  username = codes "admin";
  cpblts = [];
  id = codes ":1.6";
  pid = 101;
  prev = some 10;
  next = none;
}

abbrev memory_two : Memory
memory_two a = if a == 10 then some first else if a == 20 then some second else none

abbrev two_agents : Sessions
two_agents = record { agents = some 10; memory = memory_two }

srv_agent_new-Linked_example :
    (t : Sessions) × ((srv_agent_new 3 30
          (codes "3")
          (codes "admin")
          (codes "urn:base" ∷ [])
          (codes ":1.7")
          102
          two_agents
        ≡ some (ok tt, t))
      × Linked t.memory none t.agents ((10 ∷ 20 ∷ []) ++ 30 ∷ []))
srv_agent_new-Linked_example =
    srv_agent_new-Linked 3 30 (codes "3") (codes "admin") (codes "urn:base" ∷ []) (codes ":1.7") 102
      two_agents (10 ∷ 20 ∷ []) (omega arith) (((λ e. omega arith), tt), (tt, tt))
      ((λ e. omega arith), ((λ e. omega arith), tt))
      (refl, (first, (refl, (refl, (refl, (second, (refl, (refl, refl))))))))

by_ncsid : srv_get_agent_by_ncsid (codes "2") 3 two_agents ≡ some (ok (some 20))
unfolding srv_get_agent_by_ncsid of_config.Sessions.agent_with of_config.Base.text_eq
by_ncsid = refl

by_agentid : srv_get_agent_by_agentid (codes ":1.9") 3 two_agents ≡ some (ok none)
unfolding srv_get_agent_by_agentid of_config.Sessions.agent_with of_config.Base.text_eq
by_agentid = refl

srv_agent_stop-Linked_example :
    (t : Sessions) × ((srv_agent_stop 20 two_agents ≡ (ok tt, t))
      × (Linked t.memory none t.agents ((10 ∷ []) ++ []) × (t.memory 20 ≡ none)))
srv_agent_stop-Linked_example =
    srv_agent_stop-Linked 20 two_agents (10 ∷ []) [] (((λ e. omega arith), tt), (tt, tt))
      (refl, (first, (refl, (refl, (refl, (second, (refl, (refl, refl))))))))
