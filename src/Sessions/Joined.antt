-- ===== src/Sessions/Joined.antt =====
-- `srv_agent_new` of server/server_ops.c on the list of agents.
use of_config.Base.{
  ℕ, zero, suc, ◌<◌, Text, Option, none, some, List, [], ◌∷◌, ◌++◌, ◌≡◌, ◌≢◌, refl, sym, ap, ◌∙◌,
  arith, All, length,
}
use of_config.Error.{ok}
use of_config.Sessions.{
  Agent, Memory, Sessions, write_at, last_agent, set_next, set_prev, with_next, attach, attached,
  joined, srv_agent_new,
}

-- The agents at these addresses, in order, with their pointers in both directions.
abbrev pub Linked : Memory → Option ℕ → Option ℕ → List ℕ → Type 0
Linked m prev p [] = p ≡ none
Linked m prev p (a ∷ l) =
    (p ≡ some a) × ((c : Agent) × ((m a ≡ some c) × ((c.prev ≡ prev) × Linked m (some a) c.next l)))

abbrev pub Distinct : List ℕ → Type 0
Distinct [] = Unit
Distinct (a ∷ l) = All (λ b. a ≢ b) l × Distinct l

abbrev pub final : ℕ → List ℕ → ℕ
final a [] = a
final a (b ∷ l) = final b l

pub write_at_same : (m : Memory) (a : ℕ) (c : Option Agent) → write_at m a c a ≡ c
write_at_same m a c = ground arith

pub write_at_other : (m : Memory) (a b : ℕ) (c : Option Agent) → a ≢ b → write_at m a c b ≡ m b
write_at_other m a b c h = ground arith

pub All-final : (P : ℕ → Type 0) (a : ℕ) (l : List ℕ) → P a → All P l → P (final a l)
All-final P a [] h k = h
All-final P a (b ∷ l) h (k, ks) = All-final P b l k ks

-- Memory that is not in the list may change.
pub Linked-frame :
    (m m' : Memory) (prev p : Option ℕ) (l : List ℕ)
    → All (λ b. m' b ≡ m b) l
    → Linked m prev p l
    → Linked m' prev p l
Linked-frame m m' prev p [] s h = h
Linked-frame m m' prev p (a ∷ l) (e, s) (q, (c, (cell, (pr, rest)))) =
    (q, (c, (e ∙ cell, (pr, Linked-frame m m' (some a) c.next l s rest))))

-- A write elsewhere leaves the cells of a list.
unchanged :
    (m : Memory) (agent : ℕ) (c : Option Agent) (l : List ℕ)
    → All (λ b. agent ≢ b) l
    → All (λ b. write_at m agent c b ≡ m b) l
unchanged m agent c [] h = tt
unchanged m agent c (b ∷ l) (h, hs) = (write_at_other m agent b c h, unchanged m agent c l hs)

last_agent-final :
    (n : ℕ) (m : Memory) (prev : Option ℕ) (a : ℕ) (l : List ℕ)
    → length l < n
    → Linked m prev (some a) (a ∷ l)
    → last_agent n m a ≡ some (ok (final a l))
unfolding last_agent
last_agent-final zero m prev a l h k = absurd (omega arith)
last_agent-final (suc n) m prev a [] h (q, (c, (cell, (pr, rest)))) =
    rw (last_agent, cell, rest) refl
last_agent-final (suc n) m prev a (b ∷ l) h (q, (c, (cell, (pr, (nx, more))))) =
    rw (last_agent, cell, nx) (last_agent-final n m (some a) b l (omega arith) (refl, more))

-- Memory that differs from `m` at the last agent and at the new one only.
abbrev Extends : Memory → Memory → ℕ → ℕ → Agent → Type 0
Extends m m' last agent cell =
    ((b : ℕ) → last ≢ b → agent ≢ b → m' b ≡ m b)
    × ((m' last ≡ set_next (some agent) (m last))
        × ((m' agent ≡ some cell) × ((cell.prev ≡ some last) × (cell.next ≡ none))))

Linked-append :
    (m m' : Memory) (prev : Option ℕ) (a : ℕ) (l : List ℕ) (agent : ℕ) (cell : Agent)
    → Distinct (a ∷ l)
    → All (λ b. agent ≢ b) (a ∷ l)
    → Extends m m' (final a l) agent cell
    → Linked m prev (some a) (a ∷ l)
    → Linked m' prev (some a) (a ∷ (l ++ agent ∷ []))
Linked-append m m' prev a [] agent cell d f (same, (e, (i, (pv, nx)))) (q, (c, (h, (pr, rest)))) = (
  q,
  (
    record c { next = some agent },
    (e ∙ ap (set_next (some agent)) h, (pr, (refl, (cell, (i, (pv, nx)))))),
  ),
)
Linked-append m m' prev a (b ∷ l) agent cell ((d, dl), ds) (fa, fs) (same, r)
      (q, (c, (h, (pr, (nx, more))))) =
    let apart : final b l ≢ a = λ e. All-final (λ x. a ≢ x) b l d dl (sym e) in
    let here = same a apart fa ∙ h in
    let linked = Linked-append m m' (some a) b l agent cell ds fs (same, r) (refl, more) in
    (q, (c, (here, (pr, (nx, linked.1)))))

attach-Extends :
    (m : Memory) (last agent : ℕ) (cell : Agent)
    → agent ≢ last
    → m agent ≡ some cell
    → cell.next ≡ none
    → Extends m (attach m last agent) last agent (record cell { prev = some last })
attach-Extends m last agent cell h k n =
    let m1 = with_next m last (some agent) in
    let kept = write_at_other m last agent (set_next (some agent) (m last)) (λ e. h (sym e)) in
    (
      (λ b p q.
          write_at_other m1 agent b (set_prev (some last) (m1 agent)) q
          ∙ write_at_other m last b (set_next (some agent) (m last)) p),
      (
        write_at_other m1 agent last (set_prev (some last) (m1 agent)) h
            ∙ write_at_same m last (set_next (some agent) (m last)),
        (
          write_at_same m1 agent (set_prev (some last) (m1 agent))
              ∙ ap (set_prev (some last)) (kept ∙ k),
          (refl, n),
        ),
      ),
    )

-- From a list of agents that is linked in both directions, whose addresses differ from each other and from
-- the new one, with more rounds than agents, `srv_agent_new` succeeds and leaves the list linked in both
-- directions with the new agent as its last.
pub srv_agent_new-Linked :
    (n agent : ℕ) (ncsid username : Text) (cpblts : List Text) (agentid : Text) (pid : ℕ)
    (s : Sessions) (l : List ℕ)
    → length l < n
    → Distinct l
    → All (λ b. agent ≢ b) l
    → Linked s.memory none s.agents l
    → (t : Sessions) × ((srv_agent_new n agent ncsid username cpblts agentid pid s
          ≡ some (ok tt, t))
        × Linked t.memory none t.agents (l ++ agent ∷ []))
unfolding srv_agent_new
srv_agent_new-Linked n agent ncsid username cpblts agentid pid s [] h d f k =
    let cell : Agent = record {
      ncsid = ncsid;
      username = username;
      cpblts = cpblts;
      id = agentid;
      pid = pid;
      prev = none;
      next = none;
    } in
    let m = write_at s.memory agent (some cell) in
    (
      record s { agents = some agent; memory = m },
      (
        ap (λ p. joined n p agent (record s { memory = m })) k,
        (refl, (cell, (write_at_same s.memory agent (some cell), (refl, refl)))),
      ),
    )
srv_agent_new-Linked n agent ncsid username cpblts agentid pid s (a ∷ l) h d (fa, fs) (q, k) =
    let cell : Agent = record {
      ncsid = ncsid;
      username = username;
      cpblts = cpblts;
      id = agentid;
      pid = pid;
      prev = none;
      next = none;
    } in
    let m = write_at s.memory agent (some cell) in
    let linked : Linked m none (some a) (a ∷ l) =
      Linked-frame s.memory m none (some a) (a ∷ l)
        (unchanged s.memory agent (some cell) (a ∷ l) (fa, fs)) (refl, k) in
    let last = final a l in
    let at_last = All-final (λ b. agent ≢ b) a l fa fs in
    let extends =
      attach-Extends m last agent cell at_last (write_at_same s.memory agent (some cell)) refl in
    (
      record s { memory = attach m last agent },
      (
        ap (λ p. joined n p agent (record s { memory = m })) q
            ∙ ap (λ r. attached r agent (record s { memory = m }))
                (last_agent-final n m none a l (omega arith) linked),
        rw q (
            Linked-append m (attach m last agent) none a l agent (record cell { prev = some last })
              d (fa, fs) extends linked),
      ),
    )
