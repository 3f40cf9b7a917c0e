-- ===== src/Edit/Matching/EmptyKey.antt =====
-- An entry of the edit with an empty key, in `find_element_equiv` of server/edit-config.c.
use of_config.Base.{
  ℕ, suc, String, Text, true, false, Option, none, some, List, [], ◌∷◌, ◌++◌, ◌≡◌, ◌≢◌, refl, sym,
  subst, str_eq, eq_iff, Bool-cases, All, inl, inr, ◌⊎◌,
}
use of_config.Xml.{Node, Loc, Forest, element, text, other, children, go2node, depth}
use of_config.Edit.Matching.{
  invalid, differ, match_deep, match_nodes, matching_elements, match_by, match_keys, key, child_loc,
  list_key, nscmp, found, first_match,
}

abbrev IsKeyedById : String → Type 0
IsKeyedById x = (x ≡ "switch") ⊎ (x ≡ "controller")

module _ (x : String) (ns op ns' op' : Option Text) (f f' : Forest) (up : List Node) where
  -- `list_key` of the element, and the way to it through `match_nodes`
  matching_by_id :
      IsKeyedById x
      → nscmp ns ns' ≡ true
      → matching_elements (element x ns op f) (record { node = element x ns' op' f'; parents = up })
        ≡ match_by
            (match_deep (suc (depth (element x ns' op' f'))))
            (key "id")
            (element x ns op f)
            (record { node = element x ns' op' f'; parents = up })
  unfolding matching_elements match_deep match_nodes list_key
  matching_by_id (inl s) n = rw (s, n)
  matching_by_id (inr s) n = rw (s, n)

match_keys-empty :
    (again : ℕ) (k1 : Node) (l : Loc) (k2 : Node)
    → children k1 ≡ []
    → match_keys (match_deep (suc again)) (some k1) (some (child_loc l k2)) ≡ invalid
unfolding match_deep
match_keys-empty fuel k1 l k2 e = rw e

-- A sibling that the search passes over: one with another name, or with a namespace that does not fit, or
-- without an `id`.
abbrev pub IsPassed : String → Option Text → Node → Type 0
IsPassed x ns (element y ns' op f) =
    (y ≢ x)
    ⊎ (nscmp ns ns' ≡ false)
    ⊎ ((nscmp ns ns' ≡ true) × (go2node (some (element y ns' op f)) "id" ≡ none))
IsPassed x ns (text t) = Unit
IsPassed x ns (other y t) = Unit

module _ (x : String) (ns op : Option Text) (f : Forest) (up : List Node)
    (keyed : IsKeyedById x) where
  named_otherwise :
      (y : String) (ns' op' : Option Text) (f' : Forest)
      → str_eq x y ≡ false
      → matching_elements (element x ns op f) (record { node = element y ns' op' f'; parents = up })
        ≡ differ
  unfolding matching_elements match_deep match_nodes
  named_otherwise y ns' op' f' h = rw h refl

  unfit :
      (ns' op' : Option Text) (f' : Forest)
      → nscmp ns ns' ≡ false
      → matching_elements (element x ns op f) (record { node = element x ns' op' f'; parents = up })
        ≡ differ
  unfolding matching_elements match_deep match_nodes
  unfit ns' op' f' h = rw ((eq_iff x x).1 refl, h) refl

  keyless :
      (ns' op' : Option Text) (f' : Forest) (o : Option Node)
      → go2node (some (element x ns op f)) "id" ≡ o
      → nscmp ns ns' ≡ true
      → go2node (some (element x ns' op' f')) "id" ≡ none
      → matching_elements (element x ns op f) (record { node = element x ns' op' f'; parents = up })
        ≡ differ
  keyless ns' op' f' none k n e = rw (matching_by_id x ns op ns' op' f f' up keyed n, k) refl
  keyless ns' op' f' (some id) k n e =
      rw (matching_by_id x ns op ns' op' f f' up keyed n, k, e) refl

  same_name :
      (y : String) (ns' op' : Option Text) (f' : Forest)
      → x ≡ y
      → IsPassed x ns (element y ns' op' f')
      → matching_elements (element x ns op f) (record { node = element y ns' op' f'; parents = up })
        ≡ differ
  same_name y ns' op' f' e (inl apart) = absurd (apart (sym e))
  same_name y ns' op' f' e (inr (inl h)) =
      subst
        (λ z.
          matching_elements (element x ns op f)
            (record { node = element z ns' op' f'; parents = up })
          ≡ differ)
        e (unfit ns' op' f' h)
  same_name y ns' op' f' e (inr (inr (n, k))) =
      subst
        (λ z.
          matching_elements (element x ns op f)
            (record { node = element z ns' op' f'; parents = up })
          ≡ differ)
        e
        (keyless ns' op' f' _ refl n
          (subst (λ z. go2node (some (element z ns' op' f')) "id" ≡ none) (sym e) k))

  passed :
      (n : Node)
      → IsPassed x ns n
      → matching_elements (element x ns op f) (record { node = n; parents = up }) ≡ differ
  unfolding matching_elements match_deep match_nodes
  passed (element y ns' op' f') h = elim (Bool-cases (str_eq x y)) [
    | inl e ↦ same_name y ns' op' f' ((eq_iff x y).0 e) h
    | inr e ↦ named_otherwise y ns' op' f' e
  ]
  passed (text t) h = refl
  passed (other y t) h = refl

-- A `switch` or `controller` of the edit whose `id` is empty is taken for the first of the siblings that
-- has that name, a fitting namespace and an `id`, whatever that `id` is: the comparison fails with -1, and
-- the search stops at any answer but 0.
pub empty_key-found :
    (x : String) (ns op ns' op' : Option Text) (f f' : Forest) (up before rest : List Node)
    (id id' : Node)
    → IsKeyedById x
    → All (IsPassed x ns) before
    → nscmp ns ns' ≡ true
    → go2node (some (element x ns op f)) "id" ≡ some id
    → children id ≡ []
    → go2node (some (element x ns' op' f')) "id" ≡ some id'
    → first_match (element x ns op f) up (before ++ element x ns' op' f' ∷ rest)
      ≡ found (record { node = element x ns' op' f'; parents = up })
unfolding first_match
empty_key-found x ns op ns' op' f f' up [] rest id id' h b n k e k' =
    rw (matching_by_id x ns op ns' op' f f' up h n, k, k', match_keys-empty _ id _ id' e)
empty_key-found x ns op ns' op' f f' up (p ∷ before) rest id id' h (b, bs) n k e k' =
    rw (passed x ns op f up h p b)
      (empty_key-found x ns op ns' op' f f' up before rest id id' h bs n k e k')
