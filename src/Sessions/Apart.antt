-- ===== src/Sessions/Apart.antt =====
-- Lists of different addresses, for the agents of server/server_ops.c.
use of_config.Base.{ℕ, List, [], ◌∷◌, ◌++◌, ◌≢◌, sym, All}
use of_config.Sessions.Joined.{Distinct, final, All-final}

All-left : (P : ℕ → Type 0) (l r : List ℕ) → All P (l ++ r) → All P l
All-left P [] r h = tt
All-left P (a ∷ l) r (h, hs) = (h, All-left P l r hs)

All-right : (P : ℕ → Type 0) (l r : List ℕ) → All P (l ++ r) → All P r
All-right P [] r h = h
All-right P (a ∷ l) r (h, hs) = All-right P l r hs

pub Distinct-right : (l r : List ℕ) → Distinct (l ++ r) → Distinct r
Distinct-right [] r h = h
Distinct-right (a ∷ l) r (h, hs) = Distinct-right l r hs

pub Distinct-left : (l r : List ℕ) → Distinct (l ++ r) → Distinct l
Distinct-left [] r h = tt
Distinct-left (a ∷ l) r (h, hs) = (All-left (λ b. a ≢ b) l r h, Distinct-left l r hs)

pub Distinct-across : (l r : List ℕ) → Distinct (l ++ r) → All (λ a. All (λ b. a ≢ b) r) l
Distinct-across [] r h = tt
Distinct-across (a ∷ l) r (h, hs) = (All-right (λ b. a ≢ b) l r h, Distinct-across l r hs)

pub final_apart :
    (b : ℕ) (l r : List ℕ) → All (λ x. All (λ y. x ≢ y) r) (b ∷ l) → All (λ y. final b l ≢ y) r
final_apart b l r (h, hs) = All-final (λ x. All (λ y. x ≢ y) r) b l h hs

pub head_apart : (f a : ℕ) (r : List ℕ) → All (λ y. f ≢ y) (a ∷ r) → a ≢ f
head_apart f a r (h, hs) e = h (sym e)

pub tail_apart : (f a : ℕ) (r : List ℕ) → All (λ y. f ≢ y) (a ∷ r) → All (λ y. f ≢ y) r
tail_apart f a r (h, hs) = hs

pub apart_of : (a : ℕ) (r : List ℕ) → Distinct (a ∷ r) → All (λ y. a ≢ y) r
apart_of a r (h, hs) = h

pub Distinct-tail : (a : ℕ) (r : List ℕ) → Distinct (a ∷ r) → Distinct r
Distinct-tail a r (h, hs) = hs
