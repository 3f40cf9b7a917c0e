-- ===== src/Ovs/Config/Escaped.antt =====
-- Documents as XML writes them, with the characters escaped that server/ovs-data.c prints as they are.
use of_config.Base.{
  ℕ, leb, ltb, ◌==◌, Text, codes, Bool, true, false, not, ◌&&◌, ◌||◌, [], ◌∷◌, ◌++◌, if◌then◌else◌,
  ◌≡◌, refl, ap, ◌∙◌, arith,
}
use of_config.Error.{Result, ok, fail, fault}
use of_config.Ovs.Config.Documents.{Document, end, words, element, tags, render}

abbrev pub escaped_byte : ℕ → Text
escaped_byte c =
    if c == b'&'
    then codes "&amp;"
    else if c == b'<'
    then codes "&lt;"
    else if c == b'>'
    then codes "&gt;"
    else c ∷ []

abbrev pub escaped : Text → Text
escaped [] = []
escaped (c ∷ s) = escaped_byte c ++ escaped s

unfoldable pub render_xml : Document → Text
render_xml end = []
render_xml (words t d) = escaped t ++ render_xml d
render_xml (element n c d) = tags n (render_xml c) (render_xml d)

-- A printable byte, a tab or a line's end, and none that is escaped.
abbrev pub is_plain_byte : ℕ → Bool
is_plain_byte c =
    ((leb 32 c && ltb c 127) || (c == 9 || c == 10))
    && (not (c == b'&') && (not (c == b'<') && not (c == b'>')))

abbrev pub are_plain : Text → Bool
are_plain [] = true
are_plain (c ∷ s) = is_plain_byte c && are_plain s

abbrev pub is_letter : ℕ → Bool
is_letter c = (leb b'a' c && leb c b'z') || ((leb b'A' c && leb c b'Z') || c == b'_')

abbrev pub are_of_name : Text → Bool
are_of_name [] = true
are_of_name (c ∷ s) =
    (is_letter c || ((leb b'0' c && leb c b'9') || (c == b'-' || c == b'.'))) && are_of_name s

abbrev pub is_tag : Text → Bool
is_tag [] = false
is_tag (c ∷ s) = is_letter c && are_of_name s

-- The names of the elements are names in XML, and the texts are plain.
unfoldable pub is_plain : Document → Bool
is_plain end = true
is_plain (words t d) = are_plain t && is_plain d
is_plain (element n c d) = is_tag n && (is_plain c && is_plain d)

left : (a b : Bool) → (a && b) ≡ true → a ≡ true
left true b h = refl
left false b h = h

right : (a b : Bool) → (a && b) ≡ true → b ≡ true
right true b h = h
right false b h = cc

escaped_byte-plain : (c : ℕ) → is_plain_byte c ≡ true → escaped_byte c ≡ c ∷ []
escaped_byte-plain c h = ground arith

escaped-plain : (t : Text) → are_plain t ≡ true → escaped t ≡ t
escaped-plain [] h = refl
escaped-plain (c ∷ s) h =
    ap (λ x. x ++ escaped s) (escaped_byte-plain c (left (is_plain_byte c) (are_plain s) h))
    ∙ ap (λ x. c ∷ x) (escaped-plain s (right (is_plain_byte c) (are_plain s) h))

-- A plain document is written by XML as it is printed.
pub render_xml-render : (d : Document) → is_plain d ≡ true → render d ≡ render_xml d
unfolding render render_xml is_plain
render_xml-render end h = refl
render_xml-render (words t d) h =
    rw
      (
        escaped-plain t (left (are_plain t) (is_plain d) h),
        render_xml-render d (right (are_plain t) (is_plain d) h),
      )
      refl
render_xml-render (element n c d) h =
    let inner = right (is_tag n) (is_plain c && is_plain d) h in
    rw
      (
        render_xml-render c (left (is_plain c) (is_plain d) inner),
        render_xml-render d (right (is_plain c) (is_plain d) inner),
      )
      refl

-- A failure prints nothing.
abbrev pub IsPlainResult : Result Document → Type 0
IsPlainResult (ok d) = is_plain d ≡ true
IsPlainResult (fail e) = Unit
IsPlainResult fault = Unit
