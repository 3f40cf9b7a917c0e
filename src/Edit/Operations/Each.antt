-- ===== src/Edit/Operations/Each.antt =====
-- The elements with an operation, which `get_operation_elements` of server/edit-config.c finds, by a walk
-- through the document.
use of_config.Base.{
  ℕ, suc, Text, Bool, true, false, Option, none, some, List, [], ◌∷◌, ◌++◌, length, All, All-append,
  append-nil, append_assoc, length-append, ◌≡◌, ◌≢◌, ◌↔◌, ◌⊎◌, inl, inr, refl, sym, ap, ◌∙◌, subst,
  arith, text_eq_iff, Bool-cases,
}
use of_config.Xml.{Node, Forest, nil, cons, element, text, other, nodes, Doc}
use of_config.Edit.Zipper.{forest, Frame, Zipper, frame_of}
use of_config.Edit.Zipper.Search.{nodes-forest}
use of_config.Edit.Operations.{
  Position, has_operation, self_if, below_index, positions_in, positions_among, nth_place,
  enter_node, enter, place_at,
}

-- Each element of a document, in its place, has another operation than `t`, or none, or fulfils P.
abbrev mutual
  pub EachAmong : (Zipper → Type 0) → Text → List Frame → List Node → Forest → Type 0
  EachAmong P t ups before nil = Unit
  EachAmong P t ups before (cons n f) =
      EachIn P t (record { before = before; node = n; after = nodes f; ups = ups }) n
      × EachAmong P t ups (before ++ n ∷ []) f

  pub EachIn : (Zipper → Type 0) → Text → Zipper → Node → Type 0
  EachIn P t z (element x ns op f) =
      ((op ≢ some t) ⊎ P z) × EachAmong P t (frame_of z x ns op ∷ z.ups) [] f
  EachIn P t z (text s) = Unit
  EachIn P t z (other x s) = Unit

nth_place-append :
    (ups : List Frame) (b bs : List Node) (n : Node) (rest : List Node)
    → nth_place ups b (bs ++ n ∷ rest) (length bs)
      ≡ some (record { before = b ++ bs; node = n; after = rest; ups = ups })
nth_place-append ups b [] n rest =
    ap (λ l. some (record { before = l; node = n; after = rest; ups = ups })) (sym (append-nil b))
nth_place-append ups b (c ∷ bs) n rest =
    nth_place-append ups (b ++ c ∷ []) bs n rest
    ∙ ap (λ l. some (record { before = l; node = n; after = rest; ups = ups }))
        (append_assoc b (c ∷ []) bs)

has_operation-eq : (op : Option Text) (t : Text) → has_operation op t ≡ true → op ≡ some t
has_operation-eq none t h = cc
has_operation-eq (some s) t h = ap some ((text_eq_iff s t).0 h)

eq-has_operation : (op : Option Text) (t : Text) → op ≡ some t → has_operation op t ≡ true
eq-has_operation op t e = rw e ((text_eq_iff t t).1 refl)

module _ (Q : Position → Type 0) where
  All-split : (ps qs : List Position) → All Q (ps ++ qs) → All Q ps × All Q qs
  All-split [] qs h = (tt, h)
  All-split (p ∷ ps) qs (h, hs) = let (a, b) = All-split ps qs hs in ((h, a), b)

  All-index : (i : ℕ) (ps : List Position) → All Q (below_index i ps) ↔ All (λ p. Q (i ∷ p)) ps
  All-index i [] = (λ h. tt, λ h. tt)
  All-index i (p ∷ ps) = (λ h. (h.0, (All-index i ps).0 h.1), λ h. (h.0, (All-index i ps).1 h.1))

-- The positions of a level, or of a node, reach the places that the walk passes.
abbrev AtLevel : (Position → Option Zipper) → List Frame → List Node → Type 0
AtLevel reach ups kids = (j : ℕ) (q : Position) → reach (j ∷ q) ≡ place_at ups kids (j ∷ q)

abbrev AtNode : (Position → Option Zipper) → Zipper → Node → Type 0
AtNode reach z n =
    (reach [] ≡ some z)
    × ((j : ℕ) (q : Position)
        → reach (j ∷ q) ≡ enter_node z n (λ ups kids. place_at ups kids (j ∷ q)))

module _ (reach : Position → Option Zipper) (ups : List Frame) (before : List Node) (n : Node)
    (f : Forest) (level : AtLevel reach ups (before ++ nodes (cons n f))) where
  abbrev here : Zipper
  here = record { before = before; node = n; after = nodes f; ups = ups }

  first_AtNode : AtNode (λ p. reach (length before ∷ p)) here n
  unfolding place_at
  first_AtNode = (
    level (length before) [] ∙ nth_place-append ups [] before n (nodes f),
    λ j q.
        level (length before) (j ∷ q)
        ∙ ap (λ o. enter o (λ ups' kids'. place_at ups' kids' (j ∷ q)))
            (nth_place-append ups [] before n (nodes f)),
  )

  rest_AtLevel : AtLevel reach ups ((before ++ n ∷ []) ++ nodes f)
  rest_AtLevel j q =
      level j q ∙ ap (λ l. place_at ups l (j ∷ q)) (sym (append_assoc before (n ∷ []) (nodes f)))

length_snoc : (before : List Node) (n : Node) → suc (length before) ≡ length (before ++ n ∷ [])
length_snoc before n = omega (arith, length-append before (n ∷ []))

module _ (G : Option Zipper → Type 0) (t : Text) where
  abbrev Reached : (Position → Option Zipper) → List Position → Type 0
  Reached reach ps = All (λ p. G (reach p)) ps

  self_if-split :
      (reach : Position → Option Zipper) (z : Zipper) (op : Option Text) (ps : List Position)
      → reach [] ≡ some z
      → Reached reach (self_if (has_operation op t) ps)
        ↔ (((op ≢ some t) ⊎ G (some z)) × Reached reach ps)
  self_if-split reach z op ps at = elim (Bool-cases (has_operation op t)) [
    | inl e ↦ rw e (λ h. (inr (subst G at h.0), h.1), λ h. (chosen e h.0, h.1))
    | inr e ↦ rw e (
      λ h. (
        inl (λ i. let bad : ◌≡◌ {A = Bool} true false = sym (eq-has_operation op t i) ∙ e in cc),
        h,
      ),
      λ h. h.1,
    )
  ]
    where
      chosen : has_operation op t ≡ true → (op ≢ some t) ⊎ G (some z) → G (reach [])
      chosen e (inl no_such) = absurd (no_such (has_operation-eq op t e))
      chosen e (inr g) = subst G (sym at) g

  mutual
    unfolding positions_among positions_in

    among-each :
        (reach : Position → Option Zipper) (ups : List Frame) (before : List Node) (f : Forest)
        → AtLevel reach ups (before ++ nodes f)
        → Reached reach (positions_among t (length before) f)
          ↔ EachAmong (λ z. G (some z)) t ups before f
    among-each reach ups before nil level = (λ h. tt, λ h. tt)
    among-each reach ups before (cons n f) level =
        let i = length before in
        let first =
          in-each (λ p. reach (i ∷ p)) (here reach ups before n f level) n
            (first_AtNode reach ups before n f level) in
        let index = All-index (λ p. G (reach p)) i (positions_in t n) in
        let later =
          among-each reach ups (before ++ n ∷ []) f (rest_AtLevel reach ups before n f level) in
        let moved = length_snoc before n in
        (
          λ h.
              let (a, b) = All-split (λ p. G (reach p)) (below_index i (positions_in t n)) _ h in
              (
                first.0 (index.0 a),
                later.0 (subst (λ k. Reached reach (positions_among t k f)) moved b),
              ),
          λ h.
              All-append (λ p. G (reach p)) (below_index i (positions_in t n)) _
                (index.1 (first.1 h.0))
                (subst (λ k. Reached reach (positions_among t k f)) (sym moved) (later.1 h.1)),
        )

    in-each :
        (reach : Position → Option Zipper) (z : Zipper) (n : Node)
        → AtNode reach z n
        → Reached reach (positions_in t n) ↔ EachIn (λ z'. G (some z')) t z n
    in-each reach z (element x ns op f) (at, level) =
        let own = self_if-split reach z op (positions_among t 0 f) at in
        let deeper = among-each reach (frame_of z x ns op ∷ z.ups) [] f level in
        (λ h. let (a, b) = own.0 h in (a, deeper.0 b), λ h. own.1 (h.0, deeper.1 h.1))
    in-each reach z (text s) k = (λ h. tt, λ h. tt)
    in-each reach z (other x s) k = (λ h. tt, λ h. tt)

  -- What holds of the places of all elements that are found holds of each element of the document with
  -- the operation, and the other way round.
  pub found-each :
      (edit : Doc)
      → Reached (place_at [] edit) (positions_among t 0 (forest edit))
        ↔ EachAmong (λ z. G (some z)) t [] [] (forest edit)
  found-each edit =
      among-each (place_at [] edit) [] [] (forest edit)
        (λ j q. ap (λ l. place_at [] l (j ∷ q)) (sym (nodes-forest edit)))
