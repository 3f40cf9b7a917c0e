-- ===== src/Edit/Apply/Removal.antt =====
-- When `edit_remove` of server/edit-config.c ends, and what it leaves.
use of_config.Base.{
  ℕ, zero, suc, ◌+◌, ◌<◌, true, false, Option, none, some, List, [], ◌∷◌, ◌++◌, ◌≡◌, ◌⊎◌, inl, inr,
  refl, sym, ap, arith, subst,
}
use of_config.Error.{Result, ok, fail, fault}
use of_config.Xml.{Node, Forest, nil, cons, element, text, other, Loc}
use of_config.Edit.Zipper.{
  forest, Frame, Zipper, wrap, level, plug, siblings, doc_of, replaced, Place, nowhere, broken, at,
  place_of,
}
use of_config.Edit.Zipper.Search.{IsIn, place_of-find_element_equiv}
use of_config.Edit.Apply.{Live, Work, edit_delete, edit_remove}

-- The number of nodes.
abbrev mutual
  pub size : Node → ℕ
  size (element x ns op f) = suc (size_forest f)
  size (text t) = 1
  size (other x t) = 1

  pub size_forest : Forest → ℕ
  size_forest nil = 0
  size_forest (cons n f) = size n + size_forest f

abbrev pub size_list : List Node → ℕ
size_list [] = 0
size_list (n ∷ l) = size n + size_list l

size_list-append : (a b : List Node) → size_list (a ++ b) ≡ size_list a + size_list b
size_list-append [] b = omega arith
size_list-append (n ∷ a) b = omega (arith, size_list-append a b)

size_forest-forest : (l : List Node) → size_forest (forest l) ≡ size_list l
size_forest-forest [] = refl
size_forest-forest (n ∷ l) = omega (arith, size_forest-forest l)

size_pos : (n : Node) → 0 < size n
size_pos (element x ns op f) = omega arith
size_pos (text t) = omega arith
size_pos (other x t) = omega arith

-- What stands around a level.
abbrev pub around : List Frame → ℕ
around [] = 0
around (f ∷ ups) = suc (size_list f.before) + size_list f.after + around ups

size_list-plug :
    (ups : List Frame) (l : List Node) → size_list (plug ups l) ≡ around ups + size_list l
size_list-plug [] l = omega arith
size_list-plug (f ∷ ups) l = omega (
  arith,
  size_list-plug ups (level f l),
  size_list-append f.before (wrap f l ∷ f.after),
  size_forest-forest l,
)

-- A place that loses its node makes the document smaller.
pub size-replaced : (z : Zipper) → size_list (replaced z []) < size_list (doc_of z)
size-replaced z =
    let less : size_list (replaced z []) ≡ around z.ups + size_list (z.before ++ z.after) =
      size_list-plug z.ups (z.before ++ z.after) in
    let whole : size_list (doc_of z) ≡ around z.ups + size_list (siblings z) =
      size_list-plug z.ups (siblings z) in
    omega (
      arith,
      less,
      whole,
      size_list-append z.before z.after,
      size_list-append z.before (z.node ∷ z.after),
      size_pos z.node,
    )

pub Place-cases : (p : Place) → (p ≡ nowhere) ⊎ (p ≡ broken) ⊎ ((z : Zipper) × (p ≡ at z))
Place-cases nowhere = inl refl
Place-cases broken = inr (inl refl)
Place-cases (at z) = inr (inr (z, refl))

module _ {W : Type 0} (live : Live W) where
  -- Either the search crashes, or nothing is left that the edit could be matched with.
  abbrev pub Ended : Loc → W → Option (Result (Unit {0}) × Work W) → Type 0
  Ended edit db o =
      (w' : Work W) × (w'.world ≡ db)
      × (((o ≡ some (ok tt, w')) × (place_of w'.orig edit ≡ nowhere))
          ⊎ ((o ≡ some (fault, w')) × (place_of w'.orig edit ≡ broken)))

  -- Outside a running datastore `edit_remove` ends within as many rounds as the configuration has
  -- nodes, and one more: it succeeds, with no counterpart of the edit left, or the last search follows a
  -- NULL pointer. The database is not touched.
  pub edit_remove-Ended :
      (fuel : ℕ) (edit : Loc) (w : Work W)
      → size_list w.orig < fuel
      → Ended edit w.world (edit_remove live false fuel edit w)
  unfolding edit_remove edit_delete
  edit_remove-Ended zero edit w h = absurd (omega arith)
  edit_remove-Ended (suc fuel) edit w h = elim (Place-cases (place_of w.orig edit)) [
    | inl e ↦ (w, refl, inl (rw (edit_remove, e) refl, e))
    | inr (inl e) ↦ (w, refl, inr (rw (edit_remove, e) refl, e))
    | inr (inr (z, e)) ↦
        let inside : doc_of z ≡ w.orig =
          subst (IsIn w.orig) e (place_of-find_element_equiv w.orig edit).1 in
        let smaller : size_list (replaced z []) < fuel =
          omega (arith, size-replaced z, ap size_list inside) in
        rw (edit_remove, e)
          (edit_remove-Ended fuel edit (record w { orig = replaced z [] }) smaller)
  ]

  edit_delete-live :
      (z : Zipper) (again : W → W)
      → ((d : W) → live.on_delete z d ≡ ((ok tt, z.node ∷ []), again d))
      → (w : Work W)
      → edit_delete live true z w ≡ (ok tt, record { orig = doc_of z; world = again w.world })
  unfolding edit_delete
  edit_delete-live z again stays w = rw (edit_delete, stays w.world) refl

  -- Where the database's deletion of the counterpart succeeds and leaves it in the document, no number
  -- of rounds is enough.
  pub edit_remove-stuck :
      (edit : Loc) (z : Zipper) (again : W → W)
      → ((d : W) → live.on_delete z d ≡ ((ok tt, z.node ∷ []), again d))
      → (fuel : ℕ) (w : Work W) → place_of w.orig edit ≡ at z
      → edit_remove live true fuel edit w ≡ none
  unfolding edit_remove
  edit_remove-stuck edit z again stays zero w h = refl
  edit_remove-stuck edit z again stays (suc fuel) w h =
      let inside : doc_of z ≡ w.orig =
        subst (IsIn w.orig) h (place_of-find_element_equiv w.orig edit).1 in
      let step : edit_delete live true z w
          ≡ (ok tt, record { orig = doc_of z; world = again w.world }) =
        edit_delete-live z again stays w in
      rw (edit_remove, h)
        (subst
          (λ p.
            elim p.0 [
              | ok done ↦ edit_remove live true fuel edit p.1
              | fail e ↦ some (fail e, p.1)
              | fault ↦ some (fault, p.1)
            ]
            ≡ none)
          (sym step)
          (edit_remove-stuck edit z again stays fuel
            (record { orig = doc_of z; world = again w.world }) (rw inside h)))
