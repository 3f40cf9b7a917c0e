-- ===== src/Edit/Whitespace/Padding.antt =====
-- What `clrwspace` of server/edit-config.c returns for a text with and without leading whitespace.
use of_config.Base.{
  isspace, ℕ, zero, suc, ◌+◌, ◌≤◌, ltb, true, false, [], ◌∷◌, ◌++◌, Text, length, set, All, ◌≡◌,
  ◌≢◌, refl, ap, arith, append_assoc, length-append,
}
use of_config.Edit.Whitespace.{at, skip_space, pack, trim_end, c_string, clrwspace}

-- A byte of a C string that is no whitespace.
abbrev pub IsWordByte : ℕ → Type 0
IsWordByte c = (c ≢ 0) × (isspace c ≡ false)

abbrev pub IsCString : Text → Type 0
IsCString = All (λ c. c ≢ 0)

nul-append : (s : Text) → IsCString s → c_string (s ++ 0 ∷ []) ≡ s
nul-append [] h = refl
nul-append (c ∷ s) h = ground (arith, nul-append s h.1)

-- A text that does not begin with whitespace is returned as it is, with whatever whitespace it
-- ends in.
pub clrwspace_of_word_start :
    (c : ℕ) (s : Text) → IsCString (c ∷ s) → isspace c ≡ false → clrwspace (c ∷ s) ≡ c ∷ s
unfolding clrwspace trim_end
clrwspace_of_word_start c s h k = rw k (nul-append (c ∷ s) h)

-- the last byte of `c ∷ s`
abbrev pub last_of : ℕ → Text → ℕ
last_of c [] = c
last_of c (d ∷ s) = last_of d s

at-append : (xs ys : Text) (c : ℕ) → at (xs ++ c ∷ ys) (length xs) ≡ c
at-append [] ys c = refl
at-append (x ∷ xs) ys c = at-append xs ys c

set-append : (xs ys : Text) (c d : ℕ) → set (xs ++ c ∷ ys) (length xs) d ≡ xs ++ d ∷ ys
set-append [] ys c d = refl
set-append (x ∷ xs) ys c d = ap (λ r. x ∷ r) (set-append xs ys c d)

last_of-IsWordByte : (c : ℕ) (s : Text) → IsWordByte c → All IsWordByte s → IsWordByte (last_of c s)
last_of-IsWordByte c [] h k = h
last_of-IsWordByte c (d ∷ s) h k = last_of-IsWordByte d s k.0 k.1

skip_space_of_word :
    (fuel : ℕ) (buf : Text) (i : ℕ) → IsWordByte (at buf i) → skip_space fuel buf i ≡ i
unfolding skip_space
skip_space_of_word zero buf i h = refl
skip_space_of_word (suc fuel) buf i h = ground arith

at-append_next : (xs ys : Text) (c d : ℕ) → at (xs ++ c ∷ d ∷ ys) (suc (length xs)) ≡ d
at-append_next [] ys c d = refl
at-append_next (x ∷ xs) ys c d = at-append_next xs ys c d

-- The loop copies each byte one place to the left, and leaves the last one in place too.
pack_of_word :
    (fuel len i j : ℕ) (xs ys : Text) (p : ℕ)
    → All IsWordByte ys
    → length ys ≤ fuel
    → len ≡ suc (length xs) + length ys
    → i ≡ suc (length xs)
    → j ≡ length xs
    → pack fuel len (xs ++ p ∷ (ys ++ 0 ∷ [])) i j
      ≡ (xs ++ (ys ++ last_of p ys ∷ 0 ∷ []), length xs + length ys)
unfolding pack
pack_of_word zero len i j xs [] p h f e ei ej = rw (← ej) (ground arith)
pack_of_word (suc fuel) len i j xs [] p h f e ei ej = ground arith
pack_of_word zero len i j xs (y ∷ ys) p h f e ei ej = absurd (omega arith)
pack_of_word (suc fuel) len i j xs (y ∷ ys) p h f e ei ej =
    let buf = xs ++ p ∷ y ∷ (ys ++ 0 ∷ []) in
    let here : at buf i ≡ y = rw ei (at-append_next xs _ p y) in
    let stay : skip_space len buf i ≡ i = skip_space_of_word len buf i (rw here h.0) in
    let inside : ltb i len ≡ true = ground arith in
    let longer : length (xs ++ y ∷ []) ≡ length xs + 1 = omega (arith, length-append xs (y ∷ [])) in
    let ih =
      pack_of_word fuel len (i + 1) (length xs + 1) (xs ++ y ∷ []) ys y h.1 (omega arith)
        (omega (arith, longer)) (omega (arith, longer)) (omega (arith, longer)) in
    let total : length (xs ++ y ∷ []) + length ys ≡ length xs + suc (length ys) =
      omega (arith, longer) in
    rw (inside, stay, here, ej, set-append)
      (cc (
        ih,
        total,
        append_assoc xs (y ∷ []) (y ∷ (ys ++ 0 ∷ [])),
        append_assoc xs (y ∷ []) (ys ++ last_of y ys ∷ 0 ∷ []),
      ))

trim_end_of_word : (buf : Text) (j : ℕ) → isspace (at buf j) ≡ false → trim_end buf j ≡ buf
unfolding trim_end
trim_end_of_word buf zero h = rw h
trim_end_of_word buf (suc j) h = rw h

All-IsCString : (s : Text) → All IsWordByte s → IsCString s
All-IsCString [] h = tt
All-IsCString (c ∷ s) h = (h.0.0, All-IsCString s h.1)

IsCString-append_byte : (s : Text) (c : ℕ) → IsCString s → c ≢ 0 → IsCString (s ++ c ∷ [])
IsCString-append_byte [] c h k = (k, tt)
IsCString-append_byte (d ∷ s) c h k = (h.0, IsCString-append_byte s c h.1 k)

skip_space_of_padding :
    (n c d : ℕ) (r : Text)
    → c ≢ 0
    → isspace c ≡ true
    → IsWordByte d
    → skip_space (suc (suc n)) (c ∷ d ∷ r) 0 ≡ 1
unfolding skip_space
skip_space_of_padding n c d r nz sp h = ground arith

pack_of_padded_word :
    (c d : ℕ) (s : Text)
    → c ≢ 0
    → isspace c ≡ true
    → All IsWordByte (d ∷ s)
    → pack (length (c ∷ d ∷ s)) (length (c ∷ d ∷ s)) ((c ∷ d ∷ s) ++ 0 ∷ []) 0 0
      ≡ (d ∷ (s ++ last_of d s ∷ 0 ∷ []), suc (length s))
unfolding pack
pack_of_padded_word c d s nz sp h =
    let inside : ltb 0 (suc (suc (length s))) ≡ true = ground arith in
    let rest =
      pack_of_word (suc (length s)) (suc (suc (length s))) 2 1 (d ∷ []) s d h.1 (omega arith)
        (omega arith) refl refl in
    let total : 1 + length s ≡ suc (length s) = omega arith in
    rw (inside, skip_space_of_padding (length s) c d (s ++ 0 ∷ []) nz sp h.0) (cc (rest, total))

-- One whitespace byte before a word that holds none: the byte is dropped, and the last byte of the
-- word stands in the result twice.
pub clrwspace_of_padded_word :
    (c d : ℕ) (s : Text)
    → c ≢ 0
    → isspace c ≡ true
    → All IsWordByte (d ∷ s)
    → clrwspace (c ∷ d ∷ s) ≡ d ∷ (s ++ last_of d s ∷ [])
unfolding clrwspace
clrwspace_of_padded_word c d s nz sp h =
    let end = last_of-IsWordByte d s h.0 h.1 in
    let tail = d ∷ (s ++ last_of d s ∷ 0 ∷ []) in
    let at_end : at tail (suc (length s)) ≡ last_of d s = at-append s (0 ∷ []) (last_of d s) in
    let kept : trim_end tail (suc (length s)) ≡ tail =
      trim_end_of_word tail (suc (length s)) (rw at_end end.1) in
    let copied : c_string tail ≡ d ∷ (s ++ last_of d s ∷ []) =
      rw (← append_assoc s (last_of d s ∷ []) (0 ∷ [])) (
        nul-append (d ∷ (s ++ last_of d s ∷ []))
          (h.0.0, IsCString-append_byte s (last_of d s) (All-IsCString s h.1) end.0)) in
    rw (sp, pack_of_padded_word c d s nz sp h, kept) copied
