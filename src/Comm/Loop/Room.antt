-- ===== src/Comm/Loop/Room.antt =====
-- The table of sockets of server/server_comm_socket.c: its entries are counted, and have room for whom
-- `comm_loop` accepts.
pub mod Serving
pub mod Rounds
use of_config.Base.{
  ℕ, suc, ◌+◌, ◌-◌, ◌≤◌, ◌<◌, ◌==◌, Bool, true, false, not, ◌&&◌, Option, none, some, List, [], ◌∷◌,
  if◌then◌else◌, length, ◌≡◌, refl, ap, ◌∙◌, arith, Bool-cases, inl, inr,
}
use of_config.Comm.Netconf.{Netconf}
use of_config.Comm.Wire.{Link}
use of_config.Comm.Loop.{
  agents_queue, Round, Table, free_place, connected_to, accept_loop, destroyed, or_listen,
  with_socket, comm_init, initiated, Startup,
}

-- How many entries are in use.
abbrev pub used : List (Option ℕ) → ℕ
used [] = 0
used (none ∷ l) = used l
used (some fd ∷ l) = suc (used l)

-- The server listens as long as the table has room.
abbrev pub listens : ℕ → ℕ → Option ℕ
listens s connected = if connected == agents_queue then none else some s

-- So many entries are in use before these, and not more than `top` in all.
abbrev pub Counts : {n : Netconf} → ℕ → ℕ → ℕ → List (Option ℕ) → Round n → Type 0
Counts s top before l r =
    (r.connected ≡ before + used l)
    × ((r.connected ≤ top) × (top ≤ agents_queue))
    × (r.listen ≡ listens s r.connected)

-- An open table; a closed one counts no agents.
abbrev pub Fits : {n : Netconf} → Option ℕ → List (Option ℕ) → Round n → Type 0
Fits none l r = r.connected ≡ 0
Fits (some s) l r = Counts s agents_queue 0 l r

abbrev pub IsTable : {n : Netconf} → Table n → Type 0
IsTable t = (length t.agents ≡ agents_queue) × Fits t.sock t.agents t.round

used-le-length : (l : List (Option ℕ)) → used l ≤ length l
used-le-length [] = omega arith
used-le-length (none ∷ l) = omega (arith, used-le-length l)
used-le-length (some fd ∷ l) = omega (arith, used-le-length l)

free_place-used :
    (fd : ℕ) (l : List (Option ℕ))
    → used l < length l
    → (m : List (Option ℕ)) × (free_place fd l ≡ some m)
      × (used m ≡ suc (used l))
      × (length m ≡ length l)
unfolding free_place
free_place-used fd [] h = absurd (omega arith)
free_place-used fd (none ∷ l) h = (some fd ∷ l, refl, refl, refl)
free_place-used fd (some x ∷ l) h =
    let (m, e, u, k) = free_place-used fd l (omega arith) in
    (some x ∷ m, rw e refl, ap suc u, ap suc k)

pub listens_less :
    (s connected : ℕ) (o : Option ℕ)
    → o ≡ listens s connected
    → 0 < connected
    → connected ≤ agents_queue
    → or_listen (some s) o ≡ listens s (connected - 1)
listens_less s connected o e h k =
    let less : (connected - 1 == agents_queue) ≡ false = ground arith in
    elim (Bool-cases (connected == agents_queue)) [
      | inl full ↦ rw (less, e, full) refl
      | inr room ↦ rw (less, e, room) refl
    ]

pub some_same : {A : Type 0} {a b : A} → some a ≡ some b → a ≡ b
some_same e = cc

module _ (n : Netconf) where
  pub accept_loop-Counts :
      (s : ℕ) (new : List (ℕ × Link)) (l : List (Option ℕ)) (r : Round n)
      → length l ≡ agents_queue
      → Counts s agents_queue 0 l r
      → r.connected < agents_queue
      → (m : List (Option ℕ)) × (t : Round n) × (b : Bool) × (accept_loop n new l r
          ≡ some (m, t, b))
        × (length m ≡ agents_queue)
        × Counts s agents_queue 0 m t
  unfolding accept_loop
  accept_loop-Counts s [] l r k c h = (l, r, true, refl, k, c)
  accept_loop-Counts s ((fd, link) ∷ new) l r k (c, b, e) h =
      let (m, p, u, j) = free_place-used fd l (omega arith) in
      elim (Bool-cases (r.connected + 1 == agents_queue)) [
        | inl full ↦ (
          m,
          record (connected_to n r fd link) { listen = none },
          false,
          rw (p, full) refl,
          j ∙ k,
          (omega arith, ground arith, rw full refl),
        )
        | inr more ↦
            let still : r.listen ≡ listens s (r.connected + 1) = ground arith in
            let (o, t, b, run, size, fits) =
              accept_loop-Counts s new m (connected_to n r fd link) (j ∙ k)
                (omega arith, ground arith, still) (ground arith) in
            (o, t, b, rw (p, more) run, size, fits)
      ]

  destroyed-IsTable : (o : Option ℕ) (t : Table n) → IsTable t → IsTable (destroyed n o t)
  destroyed-IsTable none t h = h
  destroyed-IsTable (some s) t h = (h.0, refl)

  initiated-IsTable :
      (s : ℕ) (u : Startup) (t : Table n)
      → t.sock ≡ none
      → t.round.connected ≡ 0
      → IsTable t
      → IsTable (initiated n s u t).1
  initiated-IsTable s u t e z h = elim (Bool-cases (u.bound && u.listening)) [
    | inl up ↦ rw up (refl, (z, omega arith, rw z refl))
    | inr down ↦ rw down h
  ]

  with_socket-IsTable :
      (o : Option ℕ) (u : Startup) (t : Table n)
      → t.sock ≡ none
      → t.round.connected ≡ 0
      → IsTable t
      → IsTable (with_socket n o u t).1
  with_socket-IsTable none u t e z h = h
  with_socket-IsTable (some s) u t e z h = initiated-IsTable s u t e z h

  pub comm_init-IsTable :
      (crashed : Bool) (u : Startup) (o : Option ℕ) (l : List (Option ℕ)) (r : Round n)
      → let t : Table n = record { sock = o; agents = l; round = r } in
        IsTable t → IsTable (comm_init n crashed u t).1
  unfolding comm_init
  comm_init-IsTable crashed u (some s) l r h = h
  comm_init-IsTable crashed u none l r (k, z) =
      elim (Bool-cases (u.path_exists && not (crashed && u.unlinked))) [
        | inl taken ↦ rw taken (k, z)
        | inr free ↦ rw free (
            with_socket-IsTable u.socket u (record { sock = none; agents = l; round = r }) refl z
              (k, z))
      ]
