-- ===== src/Edit/Operations/Roots.antt =====
-- The nodes at the top of an edit while `edit_operations` of server/edit-config.c takes nodes out of it.
use of_config.Base.{
  ℕ, zero, suc, false, Option, none, some, List, [], ◌∷◌, ◌++◌, ◌≡◌, refl, ap, ◌∙◌, subst,
  append_assoc,
}
use of_config.Xml.{Node, element, text, other, nodes, Doc}
use of_config.Edit.Matching.{is_key}
use of_config.Edit.Zipper.{
  forest, Frame, Zipper, wrap, level, plug, siblings, doc_of, replaced, frame_of,
}
use of_config.Edit.Zipper.Search.{forest-nodes}
use of_config.Edit.Operations.{Position, nth_place, enter_node, enter, place_at}

-- At most that many nodes, none of which is a key.
abbrev pub Roots : ℕ → Doc → Type 0
Roots k [] = Unit
Roots zero (n ∷ d) = ⊥
Roots (suc k) (n ∷ d) = (is_key (record { node = n; parents = [] }) ≡ false) × Roots k d

Roots-suc : (k : ℕ) (d : Doc) → Roots k d → Roots (suc k) d
Roots-suc k [] h = tt
Roots-suc zero (n ∷ d) h = absurd h
Roots-suc (suc k) (n ∷ d) (e, h) = (e, Roots-suc k d h)

Roots-dropped :
    (k : ℕ) (before : List Node) (n : Node) (after : List Node)
    → Roots k (before ++ n ∷ after)
    → Roots k (before ++ after)
Roots-dropped zero [] n after h = absurd h
Roots-dropped (suc k) [] n after (e, h) = Roots-suc k after h
Roots-dropped zero (m ∷ before) n after h = absurd h
Roots-dropped (suc k) (m ∷ before) n after (e, h) = (e, Roots-dropped k before n after h)

-- Whether a root is a key depends on its name only.
Roots-wrap :
    (k : ℕ) (before : List Node) (f : Frame) (kids kids' after : List Node)
    → Roots k (before ++ wrap f kids ∷ after)
    → Roots k (before ++ wrap f kids' ∷ after)
unfolding is_key
Roots-wrap zero [] f kids kids' after h = absurd h
Roots-wrap (suc k) [] f kids kids' after h = h
Roots-wrap zero (m ∷ before) f kids kids' after h = absurd h
Roots-wrap (suc k) (m ∷ before) f kids kids' after (e, h) =
    (e, Roots-wrap k before f kids kids' after h)

Roots-plug :
    (k : ℕ) (ups : List Frame) (kids kids' : List Node)
    → (Roots k kids → Roots k kids')
    → Roots k (plug ups kids)
    → Roots k (plug ups kids')
Roots-plug k [] kids kids' h r = h r
Roots-plug k (f ∷ ups) kids kids' h r =
    Roots-plug k ups (level f kids) (level f kids') (Roots-wrap k f.before f kids kids' f.after) r

pub Roots-replaced : (k : ℕ) (z : Zipper) → Roots k (doc_of z) → Roots k (replaced z [])
Roots-replaced k z r =
    Roots-plug k z.ups (siblings z) (z.before ++ z.after) (Roots-dropped k z.before z.node z.after)
      r

-- The place is in this document.
abbrev pub Holds : Doc → Option Zipper → Type 0
Holds d none = Unit
Holds d (some z) = doc_of z ≡ d

Holds-nth_place :
    (ups : List Frame) (before rest : List Node) (i : ℕ)
    → Holds (plug ups (before ++ rest)) (nth_place ups before rest i)
Holds-nth_place ups before [] i = tt
Holds-nth_place ups before (n ∷ rest) zero = refl
Holds-nth_place ups before (n ∷ rest) (suc i) =
    subst (λ l. Holds (plug ups l) (nth_place ups (before ++ n ∷ []) rest i))
      (append_assoc before (n ∷ []) rest) (Holds-nth_place ups (before ++ n ∷ []) rest i)

Holds-enter_node :
    (z : Zipper) (n : Node) (k : List Frame → List Node → Option Zipper)
    → n ≡ z.node
    → ((ups : List Frame) (kids : List Node) → Holds (plug ups kids) (k ups kids))
    → Holds (doc_of z) (enter_node z n k)
Holds-enter_node z (element x ns op f) k e h =
    let whole : element x ns op (forest (nodes f)) ≡ z.node =
      ap (element x ns op) (forest-nodes f) ∙ e in
    subst
      (λ n. Holds (plug z.ups (z.before ++ n ∷ z.after)) (k (frame_of z x ns op ∷ z.ups) (nodes f)))
      whole (h (frame_of z x ns op ∷ z.ups) (nodes f))
Holds-enter_node z (text t) k e h = tt
Holds-enter_node z (other x t) k e h = tt

Holds-enter :
    (d : Doc) (o : Option Zipper) (k : List Frame → List Node → Option Zipper)
    → Holds d o
    → ((ups : List Frame) (kids : List Node) → Holds (plug ups kids) (k ups kids))
    → Holds d (enter o k)
Holds-enter d none k e h = tt
Holds-enter d (some z) k e h =
    subst (λ d'. Holds d' (enter_node z z.node k)) e (Holds-enter_node z z.node k refl h)

-- A position leads to a place of the document.
pub Holds-place_at :
    (ups : List Frame) (kids : List Node) (p : Position)
    → Holds (plug ups kids) (place_at ups kids p)
unfolding place_at
Holds-place_at ups kids [] = tt
Holds-place_at ups kids (i ∷ []) = Holds-nth_place ups [] kids i
Holds-place_at ups kids (i ∷ j ∷ p) =
    Holds-enter (plug ups kids) (nth_place ups [] kids i) (λ u l. place_at u l (j ∷ p))
      (Holds-nth_place ups [] kids i) (λ u l. Holds-place_at u l (j ∷ p))
