-- ===== src/Comm/Loop/Room/Serving.antt =====
-- The loop over the agents in `comm_loop` of server/server_comm_socket.c.
use of_config.Base.{
  ℕ, suc, ◌-◌, ◌==◌, Text, Bool, true, Option, none, some, List, [], ◌∷◌, length, ◌≡◌, refl, sym,
  ap, ◌∙◌, arith, Bool-cases, inl, inr, ◌⊎◌,
}
use of_config.Comm.Netconf.{Netconf}
use of_config.Comm.Wire.{
  Queue, op_close_session, Received, got, closed, retry, broken, overwritten, recv,
}
use of_config.Comm.Server.{Handled}
use of_config.Comm.Loop.{
  Flags, Round, decrement, one_less, Served, after_switch, with_op, received, serve, Looped,
  entered, gone_on, check_agents, or_listen,
}
use of_config.Comm.Loop.Room.{listens, Counts, listens_less, some_same}

module _ (n : Netconf) where
  -- What serving an agent does to its entry and to the rest of the table.
  abbrev pub Kept : Option ℕ → Option ℕ → Round n → Option ℕ → Round n → Type 0
  Kept sock fd r fd' r' =
      ((fd' ≡ fd) × (r'.connected ≡ r.connected) × (r'.listen ≡ r.listen))
      ⊎ ((fd' ≡ none) × (r'.connected ≡ r.connected - 1) × (r'.listen ≡ or_listen sock r.listen))

  module _ (cpblts : List Text) (malloc : ℕ → Bool) (rounds agent : ℕ) where
    after_switch-Kept :
        (sock : Option ℕ) (fd op : ℕ) (r : Round n) (h : Handled n malloc rounds)
        (x : Served n cpblts malloc rounds agent)
        → after_switch n cpblts malloc rounds agent sock fd op r h ≡ some x
        → Kept sock (some fd) r x.fd x.round
    after_switch-Kept sock fd op r none x e = cc
    after_switch-Kept sock fd op r (some (k, s)) x e = elim (Bool-cases (op == op_close_session)) [
      | inl shut ↦
          let at = some_same (rw shut at e) in inr (rw (← at) refl, rw (← at) refl, rw (← at) refl)
      | inr held ↦
          let at = some_same (rw held at e) in inl (rw (← at) refl, rw (← at) refl, rw (← at) refl)
    ]

    dispatched-Kept :
        (sock : Option ℕ) (fd : ℕ) (op : Option ℕ) (q : Queue) (r : Round n)
        (x : Served n cpblts malloc rounds agent)
        → with_op n cpblts malloc rounds agent sock fd op q r ≡ some x
        → Kept sock (some fd) r x.fd x.round
    dispatched-Kept sock fd none q r x e = cc
    dispatched-Kept sock fd (some op) q r x e = after_switch-Kept sock fd op r _ x e

    received-Kept :
        (sock : Option ℕ) (fd : ℕ) (op : Option ℕ) (g : Received) (q : Queue) (r : Round n)
        (x : Served n cpblts malloc rounds agent)
        → received n cpblts malloc rounds agent sock fd op (g, q) r ≡ some x
        → Kept sock (some fd) r x.fd x.round
    received-Kept sock fd op (got bs) q r x e =
        dispatched-Kept sock fd (overwritten 4 op bs) q r x e
    received-Kept sock fd op closed q r x e =
        let at = some_same e in inl (rw (← at) refl, rw (← at) refl, rw (← at) refl)
    received-Kept sock fd op retry q r x e =
        let at = some_same e in inl (rw (← at) refl, rw (← at) refl, rw (← at) refl)
    received-Kept sock fd op broken q r x e =
        let at = some_same e in inl (rw (← at) refl, rw (← at) refl, rw (← at) refl)

    serve-Kept :
        (sock fd op : Option ℕ) (r : Round n) (x : Served n cpblts malloc rounds agent)
        → serve n cpblts malloc rounds agent sock fd op r ≡ some x
        → Kept sock fd r x.fd x.round
    unfolding serve
    serve-Kept sock none op r x e =
        let at = some_same e in inl (rw (← at) refl, rw (← at) refl, rw (← at) refl)
    serve-Kept sock (some fd) op r x e =
        received-Kept sock fd op (recv 4 (r.links fd).input).0 (recv 4 (r.links fd).input).1 r x e

    -- The table of so many entries that a part of the loop leaves.
    abbrev pub Leaves : ℕ → ℕ → ℕ → ℕ → Looped n cpblts malloc rounds agent → Type 0
    Leaves s top before size none = Unit
    Leaves s top before size (some (m, t, b)) = (length m ≡ size) × Counts s top before m t

    Leaves-used :
        (s top before size fd : ℕ) (o : Looped n cpblts malloc rounds agent)
        → Leaves s top (suc before) size o
        → Leaves s top before (suc size) (entered n cpblts malloc rounds agent (some fd) o)
    Leaves-used s top before size fd none h = tt
    Leaves-used s top before size fd (some (m, t, b)) (k, (c, d, e)) =
        (ap suc k, (omega arith, d, e))

    Leaves-free :
        (s top before size : ℕ) (o : Looped n cpblts malloc rounds agent)
        → Leaves s top before size o
        → Leaves s top before (suc size) (entered n cpblts malloc rounds agent none o)
    Leaves-free s top before size none h = tt
    Leaves-free s top before size (some (m, t, b)) (k, c) = (ap suc k, c)

    Counts-one_less :
        (s top before fd : ℕ) (l : List (Option ℕ)) (r : Round n)
        → Counts s top before (some fd ∷ l) r
        → Counts s top before l (one_less n cpblts malloc rounds agent (some s) r)
    Counts-one_less s top before fd l r (c, d, e) = (
      omega arith,
      omega arith,
      listens_less s r.connected r.listen e (omega arith) (omega arith),
    )

    Leaves-entered :
        (s top before fd : ℕ) (l : List (Option ℕ)) (r : Round n) (fd' : Option ℕ) (r' : Round n)
        (o : Looped n cpblts malloc rounds agent)
        → Counts s top before (some fd ∷ l) r
        → Kept (some s) (some fd) r fd' r'
        → ((b : ℕ) → Counts s top b l r' → Leaves s top b (length l) o)
        → Leaves s top before (suc (length l)) (entered n cpblts malloc rounds agent fd' o)
    Leaves-entered s top before fd l r fd' r' o (c, d, l') (inl (f, a, e)) go = rw f (
        Leaves-used s top before (length l) fd o
          (go (suc before) (omega arith, omega arith, e ∙ (l' ∙ ap (listens s) (sym a)))))
    Leaves-entered s top before fd l r fd' r' o (c, d, l') (inr (f, a, e)) go = rw f (
        Leaves-free s top before (length l) o (
          go before (
            omega arith,
            omega arith,
            e
                ∙ (listens_less s r.connected r.listen l' (omega arith) (omega arith)
                    ∙ ap (listens s) (sym a)),
          )))

    Leaves-served :
        (s top before fd ret : ℕ) (l : List (Option ℕ)) (r : Round n)
        (x : Option (Served n cpblts malloc rounds agent))
        (go : Round n → Option ℕ → Looped n cpblts malloc rounds agent)
        → Counts s top before (some fd ∷ l) r
        → ((y : Served n cpblts malloc rounds agent)
            → x ≡ some y
            → Kept (some s) (some fd) r y.fd y.round)
        → ((b : ℕ) (r' : Round n) (op' : Option ℕ)
            → Counts s top b l r'
            → Leaves s top b (length l) (go r' op'))
        → Leaves s top before (suc (length l)) (gone_on n cpblts malloc rounds agent ret l x go)
    Leaves-served s top before fd ret l r none go c k h = tt
    Leaves-served s top before fd ret l r (some y) go c k h =
        let goes =
          Leaves-entered s top before fd l r y.fd y.round (go y.round y.op) c (k y refl)
            (λ b. h b y.round y.op) in
        let ends =
          Leaves-entered s top before fd l r y.fd y.round (some (l, y.round, true)) c (k y refl)
            (λ b d. (refl, d)) in
        elim (Bool-cases y.continues) [
          | inl on ↦ rw on goes
          | inr off ↦ elim (Bool-cases (ret == 0)) [
            | inl last ↦ rw (off, last) ends
            | inr more ↦ rw (off, more) goes
          ]
        ]

    pub check_agents-Leaves :
        (s top : ℕ) (flags : ℕ → Flags) (ret : ℕ) (op : Option ℕ) (before : ℕ) (l : List (Option ℕ))
        (r : Round n)
        → Counts s top before l r
        → Leaves s top before
            (length l)
            (check_agents n cpblts malloc rounds agent (some s) flags ret op l r)
    unfolding check_agents
    check_agents-Leaves s top flags ret op before [] r c = (refl, c)
    check_agents-Leaves s top flags ret op before (none ∷ l) r c =
        let rest = check_agents-Leaves s top flags ret op before l r c in
        elim (Bool-cases (r.connected == 0)) [
          | inl empty ↦ rw empty (refl, c)
          | inr more ↦ rw more (Leaves-free s top before (length l) _ rest)
        ]
    check_agents-Leaves s top flags ret op before (some fd ∷ l) r c =
        elim (Bool-cases (r.connected == 0)) [
          | inl empty ↦ rw empty (refl, c)
          | inr more ↦ rw more (elim (Bool-cases (flags fd).hup) [
            | inl hup ↦ rw hup (
                Leaves-free s top before (length l) _ (
                  check_agents-Leaves s top flags ret op before l
                    (one_less n cpblts malloc rounds agent (some s) r)
                    (Counts-one_less s top before fd l r c)))
            | inr up ↦ rw up (elim (Bool-cases (flags fd).pollin) [
              | inl pollin ↦ rw pollin (
                  Leaves-served s top before fd (decrement ret) l r
                    (serve n cpblts malloc rounds agent (some s) (some fd) op r) _ c
                    (λ y. serve-Kept (some s) (some fd) op r y)
                    (λ b r' op'. check_agents-Leaves s top flags (decrement ret) op' b l r'))
              | inr idle ↦ rw idle (
                  Leaves-used s top before (length l) fd _ (
                    check_agents-Leaves s top flags ret op (suc before) l r
                      (omega arith, c.1, c.2)))
            ])
          ])
        ]
