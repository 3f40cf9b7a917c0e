-- ===== src/Edit/Matching/Find.antt =====
-- What `find_element_equiv` of server/edit-config.c finds.
use of_config.Base.{some, List, [], ◌∷◌, ◌++◌, All, ◌≡◌, ◌↔◌, ◌⊎◌, inl, inr, refl, ap, arith, subst}
use of_config.Xml.{Node, Loc, Doc, children}
use of_config.Edit.Matching.{
  Match, differ, same, invalid, matching_elements, Found, absent, found, found_if, first_match,
  below, find_in, find_element_equiv,
}

abbrev pub place : List Node → Node → Loc
place up n = record { node = n; parents = up }

-- Any answer but 0 counts as a match.
abbrev pub Matches : Node → Loc → Type 0
Matches edit l = (matching_elements edit l ≡ same) ⊎ (matching_elements edit l ≡ invalid)

-- The node stands among the siblings, it matches, and none before it does.
abbrev pub IsFirst : Node → List Node → List Node → Loc → Type 0
IsFirst edit up siblings l =
    (before : List Node) × (after : List Node) × (siblings ≡ before ++ l.node ∷ after)
    × (l ≡ place up l.node)
    × All (λ n. matching_elements edit (place up n) ≡ differ) before
    × Matches edit l

-- Level by level from the root, the first match below the one that was found above.
abbrev pub IsEquiv : Doc → Node → List Node → Loc → Type 0
IsEquiv doc edit [] l = IsFirst edit [] doc l
IsEquiv doc edit (p ∷ up) l =
    (q : Loc) × IsEquiv doc p up q × IsFirst edit (q.node ∷ q.parents) (children q.node) l

found_if-cases :
    (m : Match) (a l : Loc) (rest : Found)
    → found_if m a rest ≡ found l
    → (((m ≡ same) ⊎ (m ≡ invalid)) × (a ≡ l)) ⊎ ((m ≡ differ) × (rest ≡ found l))
found_if-cases same a l rest h = inl (inl refl, ground arith)
found_if-cases invalid a l rest h = inl (inr refl, ground arith)
found_if-cases differ a l rest h = inr (refl, h)
found_if-cases _ a l rest h = cc

first_match_sound :
    (edit : Node) (up siblings : List Node) (l : Loc)
    → first_match edit up siblings ≡ found l
    → IsFirst edit up siblings l
unfolding first_match
first_match_sound edit up [] l h = cc
first_match_sound edit up (n ∷ rest) l h =
    elim (found_if-cases (matching_elements edit (place up n)) (place up n) l _ h) [
      | inl (m, e) ↦ subst (IsFirst edit up (n ∷ rest)) e ([], rest, refl, refl, tt, m)
      | inr (m, e) ↦
          let (before, after, split, at, none_before, matches) =
            first_match_sound edit up rest l e in
          (n ∷ before, after, ap (λ r. n ∷ r) split, at, (m, none_before), matches)
    ]

first_match_complete :
    (edit : Node) (up : List Node) (l : Loc) (before after : List Node)
    → l ≡ place up l.node
    → All (λ n. matching_elements edit (place up n) ≡ differ) before
    → Matches edit l
    → first_match edit up (before ++ l.node ∷ after) ≡ found l
unfolding first_match
first_match_complete edit up l [] after at h (inl m) = rw (← at, m)
first_match_complete edit up l [] after at h (inr m) = rw (← at, m)
first_match_complete edit up l (n ∷ before) after at h m =
    rw (h.0) (first_match_complete edit up l before after at h.1 m)

below-found :
    (edit : Node) (r : Found) (l : Loc)
    → below edit r ≡ found l
    → (q : Loc) × (r ≡ found q)
      × (first_match edit (q.node ∷ q.parents) (children q.node) ≡ found l)
below-found edit (found q) l h = (q, refl, h)
below-found edit absent l h = cc
below-found edit Found.crashed l h = cc

IsFirst-first_match :
    (edit : Node) (up siblings : List Node) (l : Loc)
    → IsFirst edit up siblings l
    → first_match edit up siblings ≡ found l
IsFirst-first_match edit up siblings l (before, after, split, at, none_before, matches) =
    rw split (first_match_complete edit up l before after at none_before matches)

find_in_sound :
    (doc : Doc) (edit : Node) (up : List Node) (l : Loc)
    → find_in doc edit up ≡ found l
    → IsEquiv doc edit up l
unfolding find_in
find_in_sound doc edit [] l h = first_match_sound edit [] doc l h
find_in_sound doc edit (p ∷ up) l h =
    let (q, above, here) = below-found edit (find_in doc p up) l h in
    (q, find_in_sound doc p up q above, first_match_sound edit _ _ l here)

find_in_complete :
    (doc : Doc) (edit : Node) (up : List Node) (l : Loc)
    → IsEquiv doc edit up l
    → find_in doc edit up ≡ found l
unfolding find_in
find_in_complete doc edit [] l h = IsFirst-first_match edit [] doc l h
find_in_complete doc edit (p ∷ up) l (q, above, here) =
    rw (find_in_complete doc p up q above) (IsFirst-first_match edit _ _ l here)

-- The search finds a place exactly when that place is reached from the document's top level by
-- going, for the edit's ancestors from the root down and then for the element itself, to the first
-- sibling that matches.
pub find_element_equiv_iff :
    (doc : Doc) (edit l : Loc)
    → (find_element_equiv (some doc) edit ≡ found l) ↔ IsEquiv doc edit.node edit.parents l
unfolding find_element_equiv
find_element_equiv_iff doc edit l =
    (find_in_sound doc edit.node edit.parents l, find_in_complete doc edit.node edit.parents l)
