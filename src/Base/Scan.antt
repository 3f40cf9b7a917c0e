-- ===== src/Base/Scan.antt =====
-- Reading numbers, and printing them, as the C library does: `strtol` with base 10, and `sscanf` with `%li`, which takes
-- the base from the prefix. Both skip whitespace and a sign; both stop at the limits of int64_t.
use Prim.Native.Nat.{ℕ, zero, suc, ◌+◌, ◌-◌, ◌*◌, ◌/◌, ◌%◌, ◌^◌}
use mathlib.Core.Bool.{Bool, true, false, ◌&&◌, ◌||◌}
use mathlib.Core.Option.{Option, none, some}
use mathlib.Core.List.{[], ◌∷◌}
use of_config.Base.Tests.{leb, ltb, ◌==◌, if◌then◌else◌}
use of_config.Base.Bytes.{Text}
use of_config.Base.Int.{ℤ, pos, negsuc}

-- `isspace` in the C locale
unfoldable pub isspace : ℕ → Bool
isspace c = (leb 9 c && leb c 13) || (c == 32)

abbrev pub skip_blanks : Text → Text
skip_blanks [] = []
skip_blanks (c ∷ s) = let rest = skip_blanks s in if isspace c then rest else c ∷ s

-- The value of a digit, letters included; 36 for anything else.
abbrev pub digit : ℕ → ℕ
digit c =
    if leb b'0' c && leb c b'9'
    then c - b'0'
    else if leb b'a' c && leb c b'z'
    then c - b'a' + 10
    else if leb b'A' c && leb c b'Z'
    then c - b'A' + 10
    else 36

-- The longest run of digits, and whether there is one.
abbrev pub digits_from : ℕ → ℕ → Text → ℕ
digits_from base acc [] = acc
digits_from base acc (c ∷ s) =
    let longer = digits_from base (acc * base + digit c) s in
    if ltb (digit c) base then longer else acc

abbrev pub has_digit : ℕ → Text → Bool
has_digit base [] = false
has_digit base (c ∷ s) = ltb (digit c) base

abbrev pub i64_max : ℕ
i64_max = 2 ^ 63 - 1

abbrev pub clamp_pos : ℕ → ℤ
clamp_pos n = if leb n i64_max then pos n else pos i64_max

abbrev pub clamp_neg : ℕ → ℤ
clamp_neg zero = pos 0
clamp_neg (suc n) = if leb n i64_max then negsuc n else negsuc i64_max

abbrev pub signed : Bool → ℕ → ℤ
signed true n = clamp_neg n
signed false n = clamp_pos n

-- The sign, and what follows it.
abbrev pub sign : Text → Bool × Text
sign [] = (false, [])
sign (c ∷ s) = if c == b'-' then (true, s) else if c == b'+' then (false, s) else (false, c ∷ s)

unfoldable pub strtol : Text → ℤ
strtol s = let (minus, rest) = sign (skip_blanks s) in signed minus (digits_from 10 0 rest)

-- The base and the digits of a number with an optional prefix.
abbrev pub prefix : Text → ℕ × Text
prefix (c ∷ d ∷ s) =
    if c == b'0' && (d == b'x' || d == b'X')
    then (16, s)
    else if c == b'0'
    then (8, c ∷ d ∷ s)
    else (10, c ∷ d ∷ s)
prefix s = (10, s)

-- `sscanf(s, "%li", &n) == 1`, with the value of `n`
unfoldable pub sscanf_i64 : Text → Option ℤ
sscanf_i64 s =
    let (minus, rest) = sign (skip_blanks s) in
    let (base, ds) = prefix rest in
    if has_digit base ds then some (signed minus (digits_from base 0 ds)) else none

abbrev pub decimal_go : ℕ → ℕ → Text → Text
decimal_go zero n acc = acc
decimal_go (suc k) n acc =
    let digits = (b'0' + n % 10) ∷ acc in
    let more = decimal_go k (n / 10) digits in if n / 10 == 0 then digits else more

-- The decimal digits of a number below 10 ^ 20.
abbrev pub decimal : ℕ → Text
decimal n = decimal_go 20 n []

-- `"%" PRIi64`
abbrev pub decimal_i64 : ℤ → Text
decimal_i64 (pos n) = decimal n
decimal_i64 (negsuc n) = b'-' ∷ decimal (suc n)
