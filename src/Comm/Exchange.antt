-- ===== src/Comm/Exchange.antt =====
-- An agent and the server on the two ends of a socket: server/agent_comm_socket.c with
-- server/server_comm_socket.c.
pub mod Session
pub mod Operation
pub mod Kill
use of_config.Base.{
  ℕ, ◌/◌, ◌%◌, ◌^◌, ◌<◌, ltb, Text, Bool, true, Option, none, some, List, [], ◌∷◌, ◌++◌, map,
  length, ◌≡◌, refl, ap, ◌∙◌, arith, All,
}
use of_config.Comm.Wire.{
  Queue, c_string, put_int, put_u16, sized, sized_all, recv_number, recv_string, recv_list,
  recv_array, as_string, as_strings, Recv, ◌>>=◌,
}
use of_config.Comm.Wire.Carried.{
  Kernel, arrive, recv_number-sent, recv_msg-sent, recv_string-sent, IsString, Uncut,
  string_at-c_string,
}
use of_config.Comm.Server.{read_session, listed}

-- There is always memory.
abbrev pub enough : ℕ → Bool
enough len = true

-- A C string whose length an `unsigned int` holds.
abbrev pub Sendable : Text → Type 0
Sendable t = IsString t × (length (c_string t) < 2 ^ 32)

-- A step that reads, and what follows it.
pub reads :
    {A B : Type 0} (m : Recv A) (f : A → Recv B) (q : Queue) (a : A) (r : Queue)
    {x : Option (B × Queue)}
    → m q ≡ some (a, r)
    → f a r ≡ x
    → (m >>= f) q ≡ x
reads m f q a r e h = rw (◌>>=◌, e) h

recv_list-sent :
    (k : Kernel) (cs : List Text) (old : Option ℕ) (q : Queue)
    → All Sendable cs
    → recv_list enough (length cs) old (arrive k (sized_all cs) q)
      ≡ some (some (map c_string cs), q)
unfolding recv_list
recv_list-sent k [] old q h = refl
recv_list-sent k (t ∷ cs) old q ((s, b), hs) =
    let len = length (c_string t) in
    let rest = arrive k (sized_all cs) q in
    let first = recv_number-sent k 3 len old (k.cut (c_string t) ++ rest) (omega arith) b in
    reads (recv_number 4 old) _ _ len (k.cut (c_string t) ++ rest) first (
      rw (recv_msg-sent k enough t rest refl) (
        reads (recv_list enough (length cs) (some len)) _ rest (some (map c_string cs)) q
          (recv_list-sent k cs (some len) q hs) refl))

as_strings-c_strings :
    (cs : List Text) (q : Queue) → All Sendable cs → as_strings (map c_string cs) q ≡ some (cs, q)
as_strings-c_strings [] q h = refl
as_strings-c_strings (t ∷ cs) q ((s, b), hs) =
    reads (as_string (c_string t)) _ q t q (rw (string_at-c_string t s) refl)
      (reads (as_strings (map c_string cs)) _ q cs q (as_strings-c_strings cs q hs) refl)

put_u16-wraps : (n : ℕ) → put_u16 n ≡ put_u16 (n % 2 ^ 16)
put_u16-wraps n =
    let low : n % 256 ≡ n % 2 ^ 16 % 256 = omega arith in
    let high : n / 256 % 256 ≡ n % 2 ^ 16 / 256 % 256 = omega arith in
    ap (λ x. x ∷ (n / 256 % 256) ∷ []) low ∙ ap (λ x. (n % 2 ^ 16 % 256) ∷ x ∷ []) high

recv_u16-sent :
    (k : Kernel) (n : ℕ) (q : Queue)
    → recv_number 2 none (k.cut (put_u16 n) ++ q) ≡ some (n % 2 ^ 16, q)
recv_u16-sent k n q =
    ap (λ b. recv_number 2 none (k.cut b ++ q)) (put_u16-wraps n)
    ∙ recv_number-sent k 1 (n % 2 ^ 16) none q (omega arith) (omega arith)

-- What the server reads of an agent's session.
pub read_session-sent :
    (k : Kernel) (sid username : Text) (pid : ℕ) (cs : List Text) (q : Queue)
    → Sendable sid
    → Sendable username
    → All Sendable cs
    → length cs < 2 ^ 31
    → Uncut k sid
    → Uncut k username
    → read_session enough (
        arrive k
          (sized sid ++ (put_u16 pid ∷ (sized username ++ (put_int (length cs) ∷ sized_all cs))))
          q)
      ≡ some (record { ncsid = sid; pid = pid % 2 ^ 16; username = username; cpblts = some cs }, q)
unfolding read_session recv_array
read_session-sent k sid username pid cs q (hs, bs) (hu, bu) hc bc us uu =
    let ls = length (c_string sid) in
    let lu = length (c_string username) in
    let q6 = arrive k (sized_all cs) q in
    let q5 = k.cut (put_int (length cs)) ++ q6 in
    let q4 = k.cut (c_string username) ++ q5 in
    let q3 = k.cut (put_int lu) ++ q4 in
    let q2 = k.cut (put_u16 pid) ++ q3 in
    let q1 = k.cut (c_string sid) ++ q2 in
    let fits : ltb (length cs) (2 ^ 31) ≡ true = ground arith in
    reads (recv_number 4 none) _ _ ls q1 (recv_number-sent k 3 ls none q1 (omega arith) bs) (
      reads (recv_string ls) _ q1 sid q2 (recv_string-sent k sid q2 hs us) (
        reads (recv_number 2 none) _ q2 (pid % 2 ^ 16) q3 (recv_u16-sent k pid q3) (
          reads (recv_number 4 (some ls)) _ q3 lu q4
            (recv_number-sent k 3 lu (some ls) q4 (omega arith) bu)
            (reads (recv_string lu) _ q4 username q5 (recv_string-sent k username q5 hu uu) (
              reads (recv_number 4 none) _ q5 (length cs) q6
                (recv_number-sent k 3 (length cs) none q6 (omega arith) (omega arith))
                (reads (recv_array enough (length cs) (some lu)) _ q6 (some (map c_string cs)) q
                  (rw fits (recv_list-sent k cs (some lu) q hc))
                  (reads (listed (some (map c_string cs))) _ q (some cs) q
                    (reads (as_strings (map c_string cs)) _ q cs q (as_strings-c_strings cs q hc)
                      refl)
                    refl)))))))
