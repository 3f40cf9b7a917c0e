-- ===== src/Ovs/Config/Documents.antt =====
-- Documents, which describe what server/ovs-data.c prints of the configuration.
use of_config.Base.{
  String, Text, codes, Option, none, some, List, [], ◌∷◌, ◌++◌, ◌≡◌, refl, ap, ◌∙◌, sym,
  append_assoc, append-nil,
}
use of_config.Error.{Result, ok, fail, fault, ◌>>=◌}
use of_config.Ovs.Config.{text_element, optional_element, each_row}

-- Elements with their names and contents, and texts, one after the other.
pub data Document : Type 0 where
  end : Document
  words : Text → Document → Document
  element : Text → Document → Document → Document

abbrev pub tags : Text → Text → Text → Text
tags n content rest =
    codes "<" ++ (n ++ (codes ">" ++ (content ++ (codes "</" ++ (n ++ (codes ">" ++ rest))))))

-- As server/ovs-data.c prints: the texts as they are, without an escape.
unfoldable pub render : Document → Text
render end = []
render (words t d) = t ++ render d
render (element n c d) = tags n (render c) (render d)

infixr 65 ◌⊕◌
unfoldable pub ◌⊕◌ : Document → Document → Document
end ⊕ e = e
words t d ⊕ e = words t (d ⊕ e)
element n c d ⊕ e = element n c (d ⊕ e)

abbrev pub leaf : String → Text → Document
leaf n t = element (codes n) (words t end) end

abbrev pub leaf_if : String → Option Text → Document
leaf_if n none = end
leaf_if n (some t) = leaf n t

abbrev pub around : String → Document → Document
around n d = element (codes n) d end

tags-append :
    (n content rest more : Text) → tags n content rest ++ more ≡ tags n content (rest ++ more)
tags-append n content rest more = simp (append_assoc)

pub render-append : (d e : Document) → render (d ⊕ e) ≡ render d ++ render e
unfolding render ◌⊕◌
render-append end e = refl
render-append (words t d) e = rw (render-append d e) (sym (append_assoc t (render d) (render e)))
render-append (element n c d) e =
    ap (tags n (render c)) (render-append d e)
    ∙ sym (tags-append n (render c) (render d) (render e))

pub render-leaf : (n : String) (t : Text) → render (leaf n t) ≡ text_element n t
unfolding render
render-leaf n t = ap (λ x. tags (codes n) x []) (append-nil t)

pub render-leaf_if : (n : String) (t : Option Text) → render (leaf_if n t) ≡ optional_element n t
unfolding render
render-leaf_if n none = refl
render-leaf_if n (some t) = render-leaf n t

pub render-around : (n : String) (d : Document) → render (around n d) ≡ text_element n (render d)
unfolding render
render-around n d = refl

-- An element only where it has a content.
abbrev pub filled_text : String → Text → Text
filled_text n [] = []
filled_text n (c ∷ s) = text_element n (c ∷ s)

abbrev pub filled_with : String → Document → Text → Document
filled_with n d [] = end
filled_with n d (c ∷ s) = around n d

unfoldable pub filled : String → Document → Document
filled n d = filled_with n d (render d)

render-filled_with :
    (n : String) (d : Document) (t : Text)
    → render d ≡ t
    → render (filled_with n d t) ≡ filled_text n t
unfolding render
render-filled_with n d [] e = refl
render-filled_with n d (c ∷ s) e = ap (text_element n) e

pub render-filled : (n : String) (d : Document) → render (filled n d) ≡ filled_text n (render d)
unfolding filled
render-filled n d = render-filled_with n d (render d) refl

-- The results of printers.
abbrev pub rendered : Result Document → Result Text
rendered r = r >>= λ d. ok (render d)

abbrev pub documents : {A : Type 0} → (A → Result Document) → List A → Result Document
documents doc [] = ok end
documents doc (a ∷ l) = doc a >>= λ x. documents doc l >>= λ y. ok (x ⊕ y)

-- A step of a printer that prints nothing, and one that prints a document.
pub after_value :
    {A : Type 0} (r : Result A) (f : A → Result Text) (g : A → Result Document)
    → ((a : A) → f a ≡ rendered (g a))
    → (r >>= f) ≡ rendered (r >>= g)
after_value (ok a) f g h = h a
after_value (fail e) f g h = refl
after_value fault f g h = refl

pub after_document :
    (r : Result Document) (f : Text → Result Text) (g : Document → Result Document)
    → ((x : Document) → f (render x) ≡ rendered (g x))
    → (rendered r >>= f) ≡ rendered (r >>= g)
after_document (ok x) f g h = h x
after_document (fail e) f g h = refl
after_document fault f g h = refl

pub after_printed :
    (t : Result Text) (r : Result Document) (f : Text → Result Text)
    (g : Document → Result Document)
    → t ≡ rendered r
    → ((x : Document) → f (render x) ≡ rendered (g x))
    → (t >>= f) ≡ rendered (r >>= g)
after_printed t r f g e h = ap (λ x. x >>= f) e ∙ after_document r f g h

pub each_row-documents :
    {A : Type 0} (print : A → Result Text) (doc : A → Result Document)
    → ((a : A) → print a ≡ rendered (doc a))
    → (l : List A) → each_row print l ≡ rendered (documents doc l)
unfolding render
each_row-documents print doc h [] = refl
each_row-documents print doc h (a ∷ l) =
    rw (h a, each_row-documents print doc h l)
      (after_document (doc a) _ _
        λ x. after_document (documents doc l) _ _ λ y. ap ok (sym (render-append x y)))
