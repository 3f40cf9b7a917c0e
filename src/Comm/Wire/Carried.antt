-- ===== src/Comm/Wire/Carried.antt =====
-- What server/comm_socket.c reads of what was sent, however the kernel cuts it.
use of_config.Base.{
  ℕ, zero, suc, ◌-◌, ◌*◌, ◌/◌, ◌%◌, ◌<◌, Text, Bool, true, false, Option, none, some, List, [], ◌∷◌,
  ◌++◌, ◌==◌, length, leb, ◌≡◌, ◌≢◌, refl, ap, ◌∙◌, subst, arith, append_assoc, append-nil,
  length-append, All,
}
use of_config.Comm.Wire.{
  Bytes, number, value, c_string, string_at, Queue, piece, again, failed, split_bytes, requeue,
  recv, got, overwritten, behind, with_rest, recv_number, recv_string, recv_loop, recv_msg,
}

-- The queue delivers exactly these bytes, with no failure; it does not end in a retry.
abbrev pub Carries : Queue → Bytes → Type 0
Carries [] bs = bs ≡ []
Carries (again ∷ q) bs = (bs ≢ []) × Carries q bs
Carries (failed ∷ q) bs = ⊥
Carries (piece b c ∷ q) bs = (r : Bytes) × (bs ≡ b ∷ (c ++ r)) × Carries q r

-- How the kernel cuts what is sent: a number arrives in one piece.
pub record Kernel : Type 0 where
  pub cut : Bytes → Queue
  pub carries : (bs : Bytes) → Carries (cut bs) bs
  pub whole : (b : ℕ) (bs : Bytes) → length bs < 4 → cut (b ∷ bs) ≡ piece b bs ∷ []

-- What arrives of these calls of `send`, before the rest.
abbrev pub arrive : Kernel → List Bytes → Queue → Queue
arrive k [] q = q
arrive k (bs ∷ sent) q = k.cut bs ++ arrive k sent q

split_bytes-all : (bs : Bytes) → split_bytes (length bs) bs ≡ (bs, [])
split_bytes-all [] = refl
split_bytes-all (b ∷ bs) = rw (split_bytes-all bs) refl

-- How many numbers fit into so many bytes.
abbrev pub room : ℕ → ℕ
room zero = 1
room (suc k) = 256 * room k

value-number : (k n : ℕ) → n < room k → value (number k n) ≡ n
value-number zero n h = omega arith
value-number (suc k) n h =
    let low : n / 256 < room k = omega arith in omega (arith, value-number k (n / 256) low)

length-number : (k n : ℕ) → length (number k n) ≡ k
length-number zero n = refl
length-number (suc k) n = ap suc (length-number k (n / 256))

split_bytes-number : (k n : ℕ) → split_bytes k (number k n) ≡ (number k n, [])
split_bytes-number zero n = refl
split_bytes-number (suc k) n = rw (split_bytes-number k (n / 256)) refl

behind-number : (k n v : ℕ) → behind (number k n) (number k v) ≡ []
behind-number zero n v = refl
behind-number (suc k) n v = behind-number k (n / 256) (v / 256)

pub overwritten-number :
    (k n : ℕ) (old : Option ℕ) → n < room k → overwritten k old (number k n) ≡ some n
overwritten-number k n none h =
    let full : (length (number k n) == k) ≡ true = rw (length-number k n) (ground arith) in
    rw full (ap some (value-number k n h))
overwritten-number k n (some v) h =
    rw (behind-number k n v, append-nil) (ap some (value-number k n h))

pub recv-sent :
    (k : Kernel) (j n : ℕ) (q : Queue)
    → j < 4
    → recv (suc j) (k.cut (number (suc j) n) ++ q) ≡ (got (number (suc j) n), q)
unfolding recv
recv-sent k j n q h =
    rw
      (
        k.whole (n % 256) (number j (n / 256)) (rw (length-number j (n / 256)) h),
        split_bytes-number j (n / 256),
      )
      refl

-- A number is read as it was sent.
pub recv_number-sent :
    (k : Kernel) (j n : ℕ) (old : Option ℕ) (q : Queue)
    → j < 4
    → n < room (suc j)
    → recv_number (suc j) old (k.cut (number (suc j) n) ++ q) ≡ some (n, q)
unfolding recv_number
recv_number-sent k j n old q h b =
    rw (recv-sent k j n q h) (ap (λ o. with_rest o q) (overwritten-number (suc j) n old b))

pub recv_loop-carried :
    (p : Queue) (bs buffer : Bytes) (q : Queue)
    → Carries p bs
    → recv_loop (length bs) buffer (p ++ q) ≡ (some (buffer ++ bs), q)
unfolding recv_loop
recv_loop-carried [] bs buffer q h = rw (h, append-nil) refl
recv_loop-carried (again ∷ p) [] buffer q (h, c) = absurd (h refl)
recv_loop-carried (again ∷ p) (b ∷ bs) buffer q (h, c) = recv_loop-carried p (b ∷ bs) buffer q c
recv_loop-carried (failed ∷ p) bs buffer q h = absurd h
recv_loop-carried (piece b c ∷ p) bs buffer q (r, e, h) =
    let fits : leb (length c) (length (c ++ r)) ≡ true = ground (arith, length-append c r) in
    let left : length (c ++ r) - length c ≡ length r = omega (arith, length-append c r) in
    rw (e, fits, left)
      (recv_loop-carried p r (buffer ++ b ∷ c) q h
        ∙ ap (λ x. (some x, q)) (append_assoc buffer (b ∷ c) r))

abbrev pub IsString : Text → Type 0
IsString t = All (λ b. b ≢ 0) t

pub string_at-c_string : (t : Text) → IsString t → string_at (c_string t) ≡ some t
unfolding string_at
string_at-c_string [] h = refl
string_at-c_string (b ∷ t) (h, hs) =
    let full : (b == 0) ≡ false = ground arith in rw (full, string_at-c_string t hs) refl

-- The kernel hands over a string in one piece.
abbrev pub Uncut : Kernel → Text → Type 0
Uncut k t = (b : ℕ) × (bs : Bytes) × (c_string t ≡ b ∷ bs) × (k.cut (c_string t) ≡ piece b bs ∷ [])

recv_string-piece :
    (b : ℕ) (bs : Bytes) (t : Text) (q : Queue)
    → string_at (b ∷ bs) ≡ some t
    → recv_string (length (b ∷ bs)) (piece b bs ∷ q) ≡ some (t, q)
unfolding recv_string recv
recv_string-piece b bs t q h =
    ap (λ x. with_rest (string_at (b ∷ x.0)) (requeue x.1 q)) (split_bytes-all bs)
    ∙ ap (λ o. with_rest o q) h

pub recv_string-sent :
    (k : Kernel) (t : Text) (q : Queue)
    → IsString t
    → Uncut k t
    → recv_string (length (c_string t)) (k.cut (c_string t) ++ q) ≡ some (t, q)
recv_string-sent k t q h (b, bs, e, u) =
    rw (u, e)
      (recv_string-piece b bs t q (subst (λ x. string_at x ≡ some t) e (string_at-c_string t h)))

-- A message is read as it was sent, wherever the kernel cuts it.
pub recv_msg-sent :
    (k : Kernel) (malloc : ℕ → Bool) (t : Text) (q : Queue)
    → malloc (length (c_string t)) ≡ true
    → recv_msg malloc (length (c_string t)) (k.cut (c_string t) ++ q)
      ≡ ((some (c_string t), none), q)
unfolding recv_msg
recv_msg-sent k malloc t q m =
    rw (m, recv_loop-carried (k.cut (c_string t)) (c_string t) [] q (k.carries (c_string t))) refl
