-- ===== src/Comm/Loop/Room/Rounds.antt =====
-- A round of `comm_loop` of server/server_comm_socket.c.
use of_config.Base.{
  ℕ, ◌≤◌, ◌<◌, ◌==◌, Text, Bool, true, false, not, ◌&&◌, Option, none, some, List, length, ◌≡◌,
  refl, ap, arith, Bool-cases, inl, inr, ◌⊎◌, subst,
}
use of_config.Comm.Netconf.{Netconf}
use of_config.Comm.Loop.{
  agents_queue, Flags, Poll, Accepts, Round, Table, revents, interrupted, poll_failed, timeout,
  ready, Looped, check_agents, comm_destroy, if_open, check_listen, after_agents, polled, comm_loop,
}
use of_config.Comm.Loop.Room.{listens, Counts, Fits, IsTable, accept_loop-Counts}
use of_config.Comm.Loop.Room.Serving.{Leaves, check_agents-Leaves}

module _ (n : Netconf) where
  module _ (cpblts : List Text) (malloc : ℕ → Bool) (rounds agent : ℕ) where
    abbrev shut : List (Option ℕ) → Round n → Table n
    shut l r = record { sock = none; agents = l; round = record r { connected = 0 } }

    -- From a count below the table's size a listening round accepts without leaving the table.
    accepts-IsTable :
        (s : ℕ) (flags : Flags) (a : Accepts) (l : List (Option ℕ)) (r : Round n)
        → length l ≡ agents_queue
        → Counts s agents_queue 0 l r
        → ((flags.pollin ≡ true) → r.connected < agents_queue)
        → (b : Bool) × (u : Table n) × (check_listen n flags a
              (record { sock = some s; agents = l; round = r })
            ≡ some (b, u))
          × IsTable u
    unfolding check_listen comm_destroy
    accepts-IsTable s flags a l r k c h = elim (Bool-cases flags.hup) [
      | inl hup ↦ (false, shut l r, rw hup refl, (k, refl))
      | inr up ↦ elim (Bool-cases flags.pollin) [
        | inr idle ↦
            (true, record { sock = some s; agents = l; round = r }, rw (up, idle) refl, (k, c))
        | inl pollin ↦
            let (m, t, b, run, size, fits) = accept_loop-Counts n s a.sockets l r k c (h pollin) in
            elim (Bool-cases (b && not a.eagain)) [
              | inl bad ↦ (false, shut m t, rw (up, pollin, run, bad) refl, (size, refl))
              | inr good ↦ (
                true,
                record { sock = some s; agents = m; round = t },
                rw (up, pollin, run, good) refl,
                (size, fits),
              )
            ]
      ]
    ]

    -- One of the handlers does what C leaves undefined.
    abbrev pub Undefined : Poll → Table n → Type 0
    Undefined (interrupted p) t = Undefined p t
    Undefined poll_failed t = ⊥
    Undefined timeout t = ⊥
    Undefined (ready ret flags) t =
        check_agents n cpblts malloc rounds agent t.sock flags ret none t.agents t.round ≡ none

    abbrev pub Ends : Option (Bool × Table n) → Type 0
    Ends o = (b : Bool) × (u : Table n) × (o ≡ some (b, u)) × IsTable u

    listening :
        (s connected : ℕ) (flags : ℕ → Flags) (o : Option ℕ)
        → o ≡ listens s connected
        → connected ≤ agents_queue
        → (revents flags o).pollin ≡ true
        → connected < agents_queue
    listening s connected flags o e h p = elim (Bool-cases (connected == agents_queue)) [
      | inl full ↦ absurd (
          let shut : o ≡ none = rw e (rw full refl) in cc (ap (λ x. (revents flags x).pollin) shut))
      | inr room ↦ ground arith
    ]

    after_agents-Ends :
        (s top : ℕ) (flags : Flags) (a : Accepts) (o : Looped n cpblts malloc rounds agent)
        → Leaves n cpblts malloc rounds agent s top 0 agents_queue o
        → ((flags.pollin ≡ true) → top < agents_queue)
        → top ≤ agents_queue
        → Ends (after_agents n cpblts malloc rounds agent flags a (some s) o) ⊎ (o ≡ none)
    after_agents-Ends s top flags a none h p c = inr refl
    after_agents-Ends s top flags a (some (l, r, true)) (k, (e, d, f)) p c =
        inl (true, record { sock = some s; agents = l; round = r }, refl, (k, (e, omega arith, f)))
    after_agents-Ends s top flags a (some (l, r, false)) (k, (e, d, f)) p c =
        inl
          (accepts-IsTable s flags a l r k (e, omega arith, f) (λ q. let room = p q in omega arith))

    polled-Ends :
        (s : ℕ) (p : Poll) (a : Accepts) (l : List (Option ℕ)) (r : Round n)
        → length l ≡ agents_queue
        → Counts s agents_queue 0 l r
        → let t : Table n = record { sock = some s; agents = l; round = r } in
          Ends (polled n cpblts malloc rounds agent p a t) ⊎ Undefined p t
    unfolding comm_destroy
    polled-Ends s (interrupted p) a l r k c = polled-Ends s p a l r k c
    polled-Ends s poll_failed a l r k c = inl (false, shut l r, refl, (k, refl))
    polled-Ends s timeout a l r k c =
        inl (true, record { sock = some s; agents = l; round = r }, refl, (k, c))
    polled-Ends s (ready ret flags) a l r k (c, d, e) =
        after_agents-Ends s r.connected (revents flags r.listen) a
          (check_agents n cpblts malloc rounds agent (some s) flags ret none l r)
          (subst
            (λ x.
              Leaves n cpblts malloc rounds agent s r.connected 0 x
                (check_agents n cpblts malloc rounds agent (some s) flags ret none l r))
            k
            (check_agents-Leaves n cpblts malloc rounds agent s r.connected flags ret none 0 l r
              (c, omega arith, e)))
          (listening s r.connected flags r.listen e (omega arith)) (omega arith)

    opened :
        (p : Poll) (a : Accepts) (o : Option ℕ) (l : List (Option ℕ)) (r : Round n)
        → (length l ≡ agents_queue) × Fits o l r
        → let t : Table n = record { sock = o; agents = l; round = r } in
          Ends (if_open n cpblts malloc rounds agent o p a t) ⊎ Undefined p t
    opened p a none l r h = inl (false, record { sock = none; agents = l; round = r }, refl, h)
    opened p a (some s) l r (k, c) = polled-Ends s p a l r k c

    -- A round of the server keeps the table: it has ten entries, `connected_agents` is the number of those in
    -- use, and the server listens just as long as there is room; after a failure no agent is counted. It
    -- never writes behind the table, and it is undefined only where it runs a handler that is.
    pub comm_loop-IsTable :
        (p : Poll) (a : Accepts) (t : Table n)
        → IsTable t
        → Ends (comm_loop n cpblts malloc rounds agent p a t) ⊎ Undefined p t
    unfolding comm_loop
    comm_loop-IsTable p a t h = opened p a t.sock t.agents t.round h
