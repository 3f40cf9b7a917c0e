-- ===== src/Edit/Matching/Fuel.antt =====
-- The recursion of `matching_elements` of server/edit-config.c ends within its fuel.
use mathlib.Core.Option
use of_config.Base.{
  ℕ, zero, suc, ◌≤◌, ◌<◌, String, Text, Bool, true, false, not, ◌&&◌, ◌||◌, Option, none, some,
  List, [], ◌∷◌, ◌⊎◌, inl, inr, Bool-cases, if◌then◌else◌, ◌≡◌, ◌≢◌, refl, arith, find?, str_eq,
}
use of_config.Xml.{
  Node, Forest, Loc, element, text, other, nil, cons, nodes, depth, depth_forest, first_child,
  go2node, is_element, named, name, ns_href, is_text, content,
}
use of_config.Edit.Matching.{
  Match, differ, no_fuel, crash, KeyName, key, no_key, crashed, key_if_above, above_named,
  child_loc, first_child_loc, match_text, match_keys, match_by, match_nodes, match_deep,
  matching_elements, list_key, nscmp, compares_text, starts_with_text,
}

abbrev height : Option Node → ℕ
height none = 0
height (some n) = suc (depth n)

abbrev loc_height : Option Loc → ℕ
loc_height none = 0
loc_height (some l) = suc (depth l.node)

loc_height-map : (l : Loc) (o : Option Node) → loc_height (Option.map (child_loc l) o) ≡ height o
loc_height-map l none = refl
loc_height-map l (some n) = refl

height-first_child : (n : Node) → height (first_child n) ≤ depth n
height-first_child (element x ns op nil) = omega arith
height-first_child (element x ns op (cons n f)) = omega arith
height-first_child (text t) = omega arith
height-first_child (other x t) = omega arith

height-find? : (p : Node → Bool) (f : Forest) → height (find? p (nodes f)) ≤ depth_forest f
height-find? p nil = omega arith
height-find? p (cons n f) = ground (arith, height-find? p f)

height-go2node : (n : Node) (x : String) → height (go2node (some n) x) ≤ depth n
unfolding go2node
height-go2node (element y ns op f) x =
    omega (arith, height-find? (λ c. is_element c && named c x) f)
height-go2node (text t) x = omega arith
height-go2node (other y t) x = omega arith

either {ℓ} : {A : Type ℓ} (b : Bool) {x y z : A} → x ≢ z → y ≢ z → (if b then x else y) ≢ z
either true p q = p
either false p q = q

match_text-ne-no_fuel : (s t : Option Text) → match_text s t ≢ no_fuel
match_text-ne-no_fuel s t = ground arith

module _ (again : Option Node → Option Loc → Match) (bound : ℕ)
    (enough : (n : Option Node) (l : Option Loc) → loc_height l < bound → again n l ≢ no_fuel) where
  keys-ne-no_fuel :
      (k1 : Option Node) (l : Loc) (k2 : Option Node)
      → height k2 ≤ bound
      → match_keys again k1 (Option.map (child_loc l) k2) ≢ no_fuel
  keys-ne-no_fuel none l k2 h e = cc
  keys-ne-no_fuel (some k1) l none h e = cc
  keys-ne-no_fuel (some k1) l (some k2) h e =
      enough (first_child k1) (first_child_loc (child_loc l k2))
        (omega (arith, height-first_child k2, loc_height-map (child_loc l k2) (first_child k2))) e

  match_by-ne-no_fuel :
      (k : KeyName) (n1 : Node) (l : Loc) → depth l.node ≤ bound → match_by again k n1 l ≢ no_fuel
  match_by-ne-no_fuel no_key n1 l h e = cc
  match_by-ne-no_fuel crashed n1 l h e = cc
  match_by-ne-no_fuel (key k) n1 l h e =
      keys-ne-no_fuel _ l (go2node (some l.node) k) (omega (arith, height-go2node l.node k)) e

  match_nodes-ne-no_fuel :
      (n1 : Node) (l : Loc) → depth l.node < bound → match_nodes again n1 l ≢ no_fuel
  unfolding match_nodes
  match_nodes-ne-no_fuel n1 l h =
      let short : loc_height (first_child_loc l) < bound =
        omega (arith, loc_height-map l (first_child l.node), height-first_child l.node) in
      let n2 = l.node in
      let differs : differ ≢ no_fuel = λ e. cc in
      either (is_text n1 && is_text n2) (match_text-ne-no_fuel (content n1) (content n2)) (
        either (not (is_element n1) || not (is_element n2)) differs (
          either (not (str_eq (name n1) (name n2))) differs (
            either (not (nscmp (ns_href n1) (ns_href n2))) differs (
              either
                (compares_text l
                  && starts_with_text (first_child n1)
                  && starts_with_text (first_child n2))
                (enough (first_child n1) (first_child_loc l) short)
                (match_by-ne-no_fuel (list_key l) n1 l (omega arith))))))

match_deep_total :
    (fuel : ℕ) (n : Option Node) (l : Option Loc)
    → loc_height l < fuel
    → match_deep fuel n l ≢ no_fuel
unfolding match_deep
match_deep_total zero n l h e = absurd (omega arith)
match_deep_total (suc fuel) none l h e = cc
match_deep_total (suc fuel) (some n) none h e = cc
match_deep_total (suc fuel) (some n) (some l) h e =
    match_nodes-ne-no_fuel (match_deep fuel) fuel (match_deep_total fuel) n l (omega arith) e

matching_elements-ne-no_fuel : (n : Node) (l : Loc) → matching_elements n l ≢ no_fuel
unfolding matching_elements
matching_elements-ne-no_fuel n l =
    match_deep_total (suc (suc (depth l.node))) (some n) (some l) (omega arith)

-- The parent of a node's children is that node, so only a node without a parent lacks one.
abbrev HasParent : Option Loc → Type 0
HasParent none = Unit
HasParent (some l) = l.parents ≢ []

HasParent-map : (l : Loc) (o : Option Node) → HasParent (Option.map (child_loc l) o)
HasParent-map l none = tt
HasParent-map l (some n) = λ e. cc

key_if_above-ne-crashed :
    (up : List Node) (x k : String) → up ≢ [] → key_if_above (above_named up x) k ≢ crashed
key_if_above-ne-crashed [] x k h = absurd (h refl)
key_if_above-ne-crashed (p ∷ []) x k h = λ e. cc
key_if_above-ne-crashed (p ∷ q ∷ up) x k h = elim (Bool-cases (named q x)) [
  | inl e ↦ rw e (λ e. cc)
  | inr e ↦ rw e (λ e. cc)
]

list_key-ne-crashed : (l : Loc) → l.parents ≢ [] → list_key l ≢ crashed
unfolding list_key
list_key-ne-crashed l h =
    let above = λ (k : String). key_if_above-ne-crashed l.parents "capable-switch" k h in
    let is_key : (k : String) → key k ≢ crashed = λ k e. cc in
    let no : no_key ≢ crashed = λ e. cc in
    either (named l.node "controller" || named l.node "switch") (is_key "id") (
      either (named l.node "port") (above "name") (
        either (named l.node "flow-table") (above "table-id") (
          either
            (named l.node "queue"
              || named l.node "owned-certificate"
              || named l.node "external-certificate")
            (above "resource-id") no)))

match_text-ne-crash : (s t : Option Text) → match_text s t ≢ crash
match_text-ne-crash s t = ground arith

module _ (again : Option Node → Option Loc → Match)
    (below : (n : Option Node) (l : Option Loc) → HasParent l → again n l ≢ crash) where
  keys-ne-crash :
      (k1 : Option Node) (l : Loc) (k2 : Option Node)
      → match_keys again k1 (Option.map (child_loc l) k2) ≢ crash
  keys-ne-crash none l k2 e = cc
  keys-ne-crash (some k1) l none e = cc
  keys-ne-crash (some k1) l (some k2) e =
      below (first_child k1) (first_child_loc (child_loc l k2))
        (HasParent-map (child_loc l k2) (first_child k2)) e

  match_by-ne-crash :
      (k : KeyName) (n1 : Node) (l : Loc) → k ≢ crashed → match_by again k n1 l ≢ crash
  match_by-ne-crash no_key n1 l h e = cc
  match_by-ne-crash crashed n1 l h e = h refl
  match_by-ne-crash (key k) n1 l h e = keys-ne-crash _ l (go2node (some l.node) k) e

  match_nodes-ne-crash : (n1 : Node) (l : Loc) → l.parents ≢ [] → match_nodes again n1 l ≢ crash
  unfolding match_nodes
  match_nodes-ne-crash n1 l h =
      let differs : differ ≢ crash = λ e. cc in
      let n2 = l.node in
      either (is_text n1 && is_text n2) (match_text-ne-crash (content n1) (content n2)) (
        either (not (is_element n1) || not (is_element n2)) differs (
          either (not (str_eq (name n1) (name n2))) differs (
            either (not (nscmp (ns_href n1) (ns_href n2))) differs (
              either
                (compares_text l
                  && starts_with_text (first_child n1)
                  && starts_with_text (first_child n2))
                (below (first_child n1) (first_child_loc l) (HasParent-map l (first_child l.node)))
                (match_by-ne-crash (list_key l) n1 l (list_key-ne-crashed l h))))))

match_deep-ne-crash :
    (fuel : ℕ) (n : Option Node) (l : Option Loc) → HasParent l → match_deep fuel n l ≢ crash
unfolding match_deep
match_deep-ne-crash zero n l h e = cc
match_deep-ne-crash (suc fuel) none l h e = cc
match_deep-ne-crash (suc fuel) (some n) none h e = cc
match_deep-ne-crash (suc fuel) (some n) (some l) h e =
    match_nodes-ne-crash (match_deep fuel) (match_deep-ne-crash fuel) n l h e

-- The comparison has ended: with one of the code's answers, or at a NULL, where the node has no parent.
abbrev pub Ended : Loc → Match → Type 0
Ended l no_fuel = ⊥
Ended l crash = l.parents ≡ []
Ended l _ = Unit

ended :
    (l : Loc) (m : Match)
    → m ≢ no_fuel
    → (l.parents ≢ [] → m ≢ crash)
    → (l.parents ≡ []) ⊎ (l.parents ≢ [])
    → Ended l m
ended l no_fuel fuel h c = absurd (fuel refl)
ended l crash fuel h (inl top) = top
ended l crash fuel h (inr inner) = absurd (h inner refl)
ended l _ fuel h c = tt

no_or_some : (up : List Node) → (up ≡ []) ⊎ (up ≢ [])
no_or_some [] = inl refl
no_or_some (p ∷ up) = inr (λ e. cc)

-- Comparing two nodes ends, whatever their depth, and with an answer of the code, 0, 1 or -1, if the second
-- has a parent; if it has none, it ends with an answer or where the code follows a NULL.
pub matching_elements_total : (n : Node) (l : Loc) → Ended l (matching_elements n l)
matching_elements_total n l =
    ended l (matching_elements n l) (matching_elements-ne-no_fuel n l)
      (unfold matching_elements in match_deep-ne-crash (suc (suc (depth l.node))) (some n) (some l))
      (no_or_some l.parents)
