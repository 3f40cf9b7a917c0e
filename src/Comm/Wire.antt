-- ===== src/Comm/Wire.antt =====
-- What travels over the UNIX socket: the numbers and strings of server/comm_socket.h, `send` and
-- `recv`, and `recv_msg` of server/comm_socket.c. Numbers are sent as they lie in memory, little endian.
-- The kernel delivers what was sent in pieces of its choice; between two pieces `recv` may fail with
-- EAGAIN or EINTR, or with another error. Behind the last piece the peer has closed the socket.
pub mod Carried
use of_config.Base.{
  ℕ, zero, suc, codes, ◌+◌, ◌-◌, ◌*◌, ◌/◌, ◌%◌, ◌^◌, Text, Bool, Option, none, some, List, [], ◌∷◌,
  ◌++◌, ◌==◌, if◌then◌else◌, length, leb, ltb, ◌&&◌,
}

abbrev pub Bytes : Type 0
Bytes = List ℕ

-- A number of so many bytes.
abbrev pub number : ℕ → ℕ → Bytes
number zero n = []
number (suc k) n = (n % 256) ∷ number k (n / 256)

abbrev pub value : Bytes → ℕ
value [] = 0
value (b ∷ bs) = b + 256 * value bs

-- `unsigned int`, `int` and `msgtype_t`
abbrev pub put_int : ℕ → Bytes
put_int n = number 4 n

-- `uint16_t`
abbrev pub put_u16 : ℕ → Bytes
put_u16 n = number 2 n

-- A string with its NUL.
abbrev pub c_string : Text → Bytes
c_string t = t ++ 0 ∷ []

abbrev pub and_then : ℕ → Option Text → Option Text
and_then b none = none
and_then b (some t) = some (b ∷ t)

-- The string at the start of a buffer; `none` where no NUL is in it.
unfoldable pub string_at : Bytes → Option Text
string_at [] = none
string_at (b ∷ bs) = let rest = and_then b (string_at bs) in if b == 0 then some [] else rest

pub data Arrival : Type 0 where
  piece : ℕ → Bytes → Arrival
  again : Arrival
  failed : Arrival

abbrev pub Queue : Type 0
Queue = List Arrival

-- `enum COMM_SOCKET_MSGTYPE`, as it is sent.
abbrev pub result_error : ℕ
result_error = 2 ^ 32 - 1

abbrev pub op_get_cpblts : ℕ
op_get_cpblts = 1

abbrev pub op_set_session : ℕ
op_set_session = 2

abbrev pub op_close_session : ℕ
op_close_session = 3

abbrev pub op_kill_session : ℕ
op_kill_session = 4

abbrev pub op_generic : ℕ
op_generic = 5

-- The first bytes of a piece, and what is left of it.
abbrev pub split_bytes : ℕ → Bytes → Bytes × Bytes
split_bytes zero bs = ([], bs)
split_bytes (suc n) [] = ([], [])
split_bytes (suc n) (b ∷ bs) = let (l, r) = split_bytes n bs in (b ∷ l, r)

abbrev pub requeue : Bytes → Queue → Queue
requeue [] q = q
requeue (b ∷ bs) q = piece b bs ∷ q

-- What a call of `recv` returns: the bytes that it stores, at least one; 0; -1 with EAGAIN or EINTR; or -1.
pub data Received : Type 0 where
  got : Bytes → Received
  closed : Received
  retry : Received
  broken : Received

unfoldable pub recv : ℕ → Queue → Received × Queue
recv n [] = (closed, [])
recv n (again ∷ q) = (retry, q)
recv n (failed ∷ q) = (broken, q)
recv n (piece b bs ∷ q) = let (l, r) = split_bytes n (b ∷ bs) in (got l, requeue r q)

-- Reading, where `none` stands for a run that C leaves undefined.
abbrev pub Recv : Type 0 → Type 0
Recv A = Queue → Option (A × Queue)

infixl 5 ◌>>=◌
abbrev pub ◌>>=◌ : {A B : Type 0} → Recv A → (A → Recv B) → Recv B
◌>>=◌ m f q = elim (m q) [ none ↦ none | some (a, r) ↦ f a r ]

abbrev pub return : {A : Type 0} → A → Recv A
return a q = some (a, q)

abbrev pub undefined : {A : Type 0} → Recv A
undefined q = none

-- The last bytes of a variable, behind those that `recv` has written.
abbrev pub behind : Bytes → Bytes → Bytes
behind [] old = old
behind (b ∷ bs) [] = []
behind (b ∷ bs) (o ∷ old) = behind bs old

-- The value of a variable of `k` bytes over which so much was received, and which held a value before or none.
abbrev pub overwritten : ℕ → Option ℕ → Bytes → Option ℕ
overwritten k none bs = if length bs == k then some (value bs) else none
overwritten k (some v) bs = some (value (bs ++ behind bs (number k v)))

abbrev pub stored : ℕ → Option ℕ → Received → Option ℕ
stored k old (got bs) = overwritten k old bs
stored k old closed = old
stored k old retry = old
stored k old broken = old

abbrev pub with_rest : {A : Type 0} → Option A → Queue → Option (A × Queue)
with_rest none q = none
with_rest (some a) q = some (a, q)

-- `recv(socket, &x, sizeof x, ...)` with its result left alone
unfoldable pub recv_number : ℕ → Option ℕ → Recv ℕ
unfolding recv
recv_number k old q = let (r, rest) = recv k q in with_rest (stored k old r) rest

-- `recv(socket, s, len, ...)` into a new buffer that is used as a string
abbrev pub received_string : Received → Option Text
received_string (got bs) = string_at bs
received_string closed = none
received_string retry = none
received_string broken = none

unfoldable pub recv_string : ℕ → Recv Text
unfolding recv
recv_string len q = let (r, rest) = recv len q in with_rest (received_string r) rest

-- The loop of `recv_msg`: what is still missing, and the buffer so far; `none` for its `return NULL`.
-- `recv` gives the whole piece or what is missing of it.
unfoldable pub recv_loop : ℕ → Bytes → Queue → Option Bytes × Queue
recv_loop zero buffer q = (some buffer, q)
recv_loop (suc n) buffer [] = (none, [])
recv_loop (suc n) buffer (failed ∷ q) = (none, q)
recv_loop (suc n) buffer (again ∷ q) = recv_loop (suc n) buffer q
recv_loop (suc n) buffer (piece b bs ∷ q) =
    let (l, r) = split_bytes n bs in
    let more = recv_loop (n - length bs) (buffer ++ b ∷ bs) q in
    if leb (length bs) n then more else (some (buffer ++ b ∷ l), requeue r q)

abbrev pub message : Option Bytes × Queue → (Option Bytes × Option Text) × Queue
message (none, q) = ((none, some (codes "agent-server communication failed.")), q)
message (some bs, q) = ((some bs, none), q)

-- `recv_msg`: the buffer, or the message of the error that `err` is set to. `malloc` says whether there is memory.
unfoldable pub recv_msg : (ℕ → Bool) → ℕ → Queue → (Option Bytes × Option Text) × Queue
recv_msg malloc len q =
    let r = message (recv_loop len [] q) in
    if malloc len then r else ((none, some (codes "Memory allocation failed.")), q)

abbrev pub put_first : Bytes → Option (List Bytes) → Option (List Bytes)
put_first b none = none
put_first b (some l) = some (b ∷ l)

abbrev pub unless_null : Option Bytes → Recv (Option (List Bytes)) → Recv (Option (List Bytes))
unless_null none rest = return none
unless_null (some b) rest = rest >>= λ l. return (put_first b l)

abbrev pub recv_element :
    (Queue → (Option Bytes × Option Text) × Queue)
    → Recv (Option (List Bytes))
    → Recv (Option (List Bytes))
recv_element msg rest q = let ((b, e), r) = msg q in unless_null b rest r

-- The loop over the capabilities: their number, and the length that was read last.
unfoldable pub recv_list : (ℕ → Bool) → ℕ → Option ℕ → Recv (Option (List Bytes))
recv_list malloc zero old = return (some [])
recv_list malloc (suc n) old =
    recv_number 4 old >>= λ len. recv_element (recv_msg malloc len) (recv_list malloc n (some len))

-- The same with its `int` number and the memory for its array.
unfoldable pub recv_array : (ℕ → Bool) → ℕ → Option ℕ → Recv (Option (List Bytes))
recv_array malloc count old =
    if ltb count (2 ^ 31) && malloc (8 * (count + 1)) then recv_list malloc count old else undefined

abbrev pub at_string : Option Text → Recv Text
at_string none = undefined
at_string (some t) = return t

-- A buffer that is used as a string.
abbrev pub as_string : Bytes → Recv Text
as_string b = at_string (string_at b)

abbrev pub as_strings : List Bytes → Recv (List Text)
as_strings [] = return []
as_strings (b ∷ l) = as_string b >>= λ t. as_strings l >>= λ r. return (t ∷ r)

-- One end of a connection: what arrives there, and what was sent from it, a call of `send` at a time.
pub record Link : Type 0 where
  pub input : Queue
  pub output : List Bytes

abbrev pub sent : List Bytes → Link → Link
sent l k = record k { output = k.output ++ l }

abbrev pub read_on : {A : Type 0} → Link → Option (A × Queue) → Option (A × Link)
read_on k none = none
read_on k (some (a, q)) = some (a, record k { input = q })

abbrev pub reading : {A : Type 0} → Recv A → Link → Option (A × Link)
reading m k = read_on k (m k.input)

-- A string behind its length, as both sides send it.
abbrev pub sized : Text → List Bytes
sized t = put_int (length (c_string t)) ∷ c_string t ∷ []

abbrev pub sized_all : List Text → List Bytes
sized_all [] = []
sized_all (t ∷ l) = sized t ++ sized_all l
