-- ===== src/Base/Lists.antt =====
-- Lists measured by native numbers, Boolean searches through them, and predicates over them.
use Prim.Native.Nat.{ℕ, zero, suc, ◌+◌}
use mathlib.Core.Path.{◌≡◌, refl, sym, ap, subst}
use mathlib.Core.Logic.{◌⊎◌, inl, inr}
use mathlib.Core.Bool.{Bool, true, false, ◌||◌}
use mathlib.Core.Option.{Option, none, some}
use mathlib.Core.List.{List, [], ◌∷◌, ◌++◌, reverse, reverse-cons}
use native.Mathlib.Omega.{arith}
use meridio.Base.Tests.{Eq, ◌==◌, if◌then◌else◌, Bool-cases}

module _ {ℓ} {A : Type ℓ} where
  abbrev pub length : List A → ℕ
  length [] = 0
  length (_ ∷ xs) = suc (length xs)

  abbrev pub take : ℕ → List A → List A
  take zero xs = []
  take (suc n) [] = []
  take (suc n) (x ∷ xs) = x ∷ take n xs

  abbrev pub drop : ℕ → List A → List A
  drop zero xs = xs
  drop (suc n) [] = []
  drop (suc n) (x ∷ xs) = drop n xs

  abbrev pub get_elem? : List A → ℕ → Option A
  get_elem? [] i = none
  get_elem? (x ∷ xs) zero = some x
  get_elem? (x ∷ xs) (suc i) = get_elem? xs i

  abbrev pub replicate : ℕ → A → List A
  replicate zero a = []
  replicate (suc n) a = a ∷ replicate n a

  -- The elements that pass the test, in order.
  abbrev pub keep_if : (A → Bool) → List A → List A
  keep_if p [] = []
  keep_if p (x ∷ xs) = let rest = keep_if p xs in if p x then x ∷ rest else rest

  abbrev pub All {κ} : (A → Type κ) → List A → Type κ
  All P [] = Unit
  All P (x ∷ xs) = P x × All P xs

  -- Membership with its position, which proofs can match.
  pub data Elem (a : A) : List A → Type ℓ where
    here : {b : A} {xs : List A} → a ≡ b → Elem a (b ∷ xs)
    there : {b : A} {xs : List A} → Elem a xs → Elem a (b ∷ xs)

  pub Elem-append_left : {a : A} (xs ys : List A) → Elem a xs → Elem a (xs ++ ys)
  Elem-append_left [] ys m = elim m [ ]
  Elem-append_left (x ∷ xs) ys (here e) = here e
  Elem-append_left (x ∷ xs) ys (there m) = there (Elem-append_left xs ys m)

  pub Elem-append_right : {a : A} (xs ys : List A) → Elem a ys → Elem a (xs ++ ys)
  Elem-append_right [] ys m = m
  Elem-append_right (x ∷ xs) ys m = there (Elem-append_right xs ys m)

  pub List-cases : (xs : List A) → (xs ≡ []) ⊎ ((x : A) × (r : List A) × (xs ≡ x ∷ r))
  List-cases [] = inl refl
  List-cases (x ∷ r) = inr (x, r, refl)

  pub length-append : (xs ys : List A) → length (xs ++ ys) ≡ length xs + length ys
  length-append [] ys = omega arith
  length-append (x ∷ xs) ys = omega (arith, length-append xs ys)

  pub length-reverse : (xs : List A) → length (reverse xs) ≡ length xs
  length-reverse [] = refl
  length-reverse (x ∷ xs) =
      omega (
        arith,
        ap length (reverse-cons x xs),
        length-append (reverse xs) (x ∷ []),
        length-reverse xs,
      )

module _ {ℓ} {A : Type ℓ} ⦃e : Eq A⦄ where
  abbrev pub contains : List A → A → Bool
  contains [] a = false
  contains (x ∷ xs) a = a == x || contains xs a

module _ {ℓ κ} {A : Type ℓ} where
  pub All-append : (P : A → Type κ) (xs ys : List A) → All P xs → All P ys → All P (xs ++ ys)
  All-append P [] ys h k = k
  All-append P (x ∷ xs) ys h k = (h.0, All-append P xs ys h.1 k)

  pub All-left : (P : A → Type κ) (xs ys : List A) → All P (xs ++ ys) → All P xs
  All-left P [] ys h = tt
  All-left P (x ∷ xs) ys h = (h.0, All-left P xs ys h.1)

  pub All-right : (P : A → Type κ) (xs ys : List A) → All P (xs ++ ys) → All P ys
  All-right P [] ys h = h
  All-right P (x ∷ xs) ys h = All-right P xs ys h.1

  pub All-map : (P Q : A → Type κ) (f : (a : A) → P a → Q a) (xs : List A) → All P xs → All Q xs
  All-map P Q f [] h = tt
  All-map P Q f (x ∷ xs) h = (f x h.0, All-map P Q f xs h.1)

  pub All-reverse : (P : A → Type κ) (xs : List A) → All P xs → All P (reverse xs)
  All-reverse P [] h = tt
  All-reverse P (x ∷ xs) h =
      rw (reverse-cons x xs) (All-append P (reverse xs) (x ∷ []) (All-reverse P xs h.1) (h.0, tt))

module _ {ℓ} {A : Type ℓ} where
  -- A test that no element passes filters nothing in.
  pub keep_if-nil : (p : A → Bool) (xs : List A) → keep_if p xs ≡ [] → All (λ x. p x ≡ false) xs
  keep_if-nil p [] h = tt
  keep_if-nil p (x ∷ xs) h = ground (arith, keep_if-nil p xs)

  pub keep_if_none : (p : A → Bool) (xs : List A) → All (λ x. p x ≡ false) xs → keep_if p xs ≡ []
  keep_if_none p [] h = refl
  keep_if_none p (x ∷ xs) h = ground (arith, keep_if_none p xs h.1)

  -- What a filter keeps first passes the test, and stands in the list.
  pub keep_if-cons :
      (p : A → Bool) (xs : List A) {x : A} (r : List A) → keep_if p xs ≡ x ∷ r → p x ≡ true
  keep_if-cons p [] r h = cc
  keep_if-cons p (y ∷ xs) r h = elim (Bool-cases (p y)) [
    | inl e ↦ ground (arith, e)
    | inr e ↦ keep_if-cons p xs r (ground (arith, e))
  ]

  pub keep_if-append :
      (p : A → Bool) (xs ys : List A) → keep_if p (xs ++ ys) ≡ keep_if p xs ++ keep_if p ys
  keep_if-append p [] ys = refl
  keep_if-append p (x ∷ xs) ys = ground (arith, keep_if-append p xs ys)

  pub All-Elem {κ} : (P : A → Type κ) (xs : List A) {a : A} → All P xs → Elem a xs → P a
  All-Elem P [] h m = elim m [ ]
  All-Elem P (x ∷ xs) h (here e) = subst P (sym e) h.0
  All-Elem P (x ∷ xs) h (there m) = All-Elem P xs h.1 m
