-- ===== src/Edit/Whitespace.antt =====
-- `clrwspace` of server/edit-config.c, on the buffer that `strdup` returns.
pub mod Padding
use of_config.Base.{
  isspace, ℕ, zero, suc, ◌+◌, ◌==◌, ltb, [], ◌∷◌, ◌++◌, Text, if◌then◌else◌, length, set,
}

-- `buf[i]`; the buffer is never left in the runs below.
abbrev pub at : Text → ℕ → ℕ
at [] i = 0
at (c ∷ s) zero = c
at (c ∷ s) (suc i) = at s i

-- `while (retval[i] != '\0' && isspace(retval[i])) i++`
unfoldable pub skip_space : ℕ → Text → ℕ → ℕ
skip_space zero buf i = i
skip_space (suc fuel) buf i =
    let next = skip_space fuel buf (i + 1) in
    if at buf i == 0 then i else if isspace (at buf i) then next else i

-- the `for` loop; the fuel bounds its rounds, and `len` the inner loop's
unfoldable pub pack : ℕ → ℕ → Text → ℕ → ℕ → Text × ℕ
pack zero len buf i j = (buf, j)
pack (suc fuel) len buf i j =
    let i' = skip_space len buf i in
    let rest = pack fuel len (set buf j (at buf i')) (i' + 1) (j + 1) in
    if ltb i len then rest else (buf, j)

-- `while (j >= 0 && isspace(retval[j])) { retval[j] = '\0'; j--; }`
unfoldable pub trim_end : Text → ℕ → Text
trim_end buf zero = if isspace (at buf 0) then set buf 0 0 else buf
trim_end buf (suc j) =
    let rest = trim_end (set buf (suc j) 0) j in if isspace (at buf (suc j)) then rest else buf

-- the bytes up to the first NUL
abbrev pub c_string : Text → Text
c_string [] = []
c_string (c ∷ s) = let rest = c_string s in if c == 0 then [] else c ∷ rest

unfoldable pub clrwspace : Text → Text
clrwspace s =
    let buf = s ++ 0 ∷ [] in
    let len = length s in
    let (packed, j) = pack len len buf 0 0 in
    if isspace (at buf 0) then c_string (trim_end packed j) else c_string (trim_end buf 0)
