-- ===== src/Prelude/Members.antt =====
-- Membership by the test `contains`, lists without repetition, and the pigeonhole principle.
use Prim.Native.Nat.{suc, ◌≤◌}
use mathlib.Core.Path.{◌≡◌, refl, sym, subst}
use mathlib.Core.Logic.{inl, inr}
use mathlib.Core.Bool.{true, false, ◌||◌}
use mathlib.Core.List.{List, [], ◌∷◌, ◌++◌}
use native.Mathlib.Omega.{arith}
use ho_h.Prelude.Tests.{Eq, ◌==◌, eq_of_==, ==_refl, contains, Bool-cases, if◌then◌else◌}
use ho_h.Prelude.Lists.{length, All}

module _ {ℓ} {A : Type ℓ} ⦃e : Eq A⦄ where
  abbrev pub Within : List A → List A → Type 0
  Within ys xs = All (λ x. contains x ys ≡ true) xs

  abbrev pub Distinct : List A → Type 0
  Distinct [] = Unit
  Distinct (x ∷ xs) = (contains x xs ≡ false) × Distinct xs

  pub contains-append :
      (x : A) (xs ys : List A) → contains x (xs ++ ys) ≡ (contains x xs || contains x ys)
  unfolding contains
  contains-append x [] ys = refl
  contains-append x (y ∷ xs) ys = ground (arith, contains-append x xs ys)

  pub Distinct-snoc :
      (xs : List A) (t : A) → Distinct xs → contains t xs ≡ false → Distinct (xs ++ t ∷ [])
  unfolding contains
  Distinct-snoc [] t d h = (refl, tt)
  Distinct-snoc (x ∷ xs) t (fresh, d) h = (
    ground (arith, contains-append x xs (t ∷ []), fresh, h, eq_of_== x t, ==_refl t),
    Distinct-snoc xs t d (ground (arith, h)),
  )

  -- the list without the first place of `x`
  without : A → List A → List A
  without x [] = []
  without x (y ∷ ys) = if x == y then ys else y ∷ without x ys

  length-without :
      (x : A) (ys : List A) → contains x ys ≡ true → suc (length (without x ys)) ≡ length ys
  unfolding contains without
  length-without x [] h = absurd (ground (arith, h))
  length-without x (y ∷ ys) h = ground (arith, length-without x ys, h)

  contains-without :
      (x z : A) (ys : List A)
      → (x == z) ≡ false
      → contains z ys ≡ true
      → contains z (without x ys) ≡ true
  unfolding contains without
  contains-without x z [] other h = absurd (ground (arith, h))
  contains-without x z (y ∷ ys) other h =
      ground (arith, contains-without x z ys, other, h, eq_of_== x y, eq_of_== z y, ==_refl z)

  Within-without :
      (x : A) (xs ys : List A) → contains x xs ≡ false → Within ys xs → Within (without x ys) xs
  unfolding contains
  Within-without x [] ys fresh h = tt
  Within-without x (z ∷ xs) ys fresh (h, hs) = (
    contains-without x z ys (ground (arith, fresh)) h,
    Within-without x xs ys (ground (arith, fresh)) hs,
  )

  -- a list without repetition is no longer than a list that holds its elements
  pub pigeonhole : (xs ys : List A) → Distinct xs → Within ys xs → length xs ≤ length ys
  pigeonhole [] ys d h = omega arith
  pigeonhole (x ∷ xs) ys (fresh, d) (h, hs) = omega (
    arith,
    length-without x ys h,
    pigeonhole xs (without x ys) d (Within-without x xs ys fresh hs),
  )

filter_out {ℓ} : {A : Type ℓ} ⦃e : Eq A⦄ → A → List A → List A
filter_out x [] = []
filter_out x (y ∷ ys) = let rest = filter_out x ys in if x == y then rest else y ∷ rest

-- `dict.fromkeys(xs)`: each element at its first place
unfoldable pub unique {ℓ} : {A : Type ℓ} ⦃e : Eq A⦄ → List A → List A
unfolding filter_out
unique [] = []
unique (x ∷ xs) = x ∷ filter_out x (unique xs)

module _ {ℓ κ} {A : Type ℓ} ⦃e : Eq A⦄ (P : A → Type κ) where
  -- a property of all elements, at an element
  pub All-contains : (x : A) (xs : List A) → All P xs → contains x xs ≡ true → P x
  unfolding contains
  All-contains x [] hs h = absurd (ground (arith, h))
  All-contains x (y ∷ xs) (hy, hs) h = elim (Bool-cases (x == y)) [
    | inl same ↦ subst P (sym (eq_of_== x y same)) hy
    | inr other ↦ All-contains x xs hs (ground (arith, h, other))
  ]

  pub All-intro : (xs : List A) → ((x : A) → contains x xs ≡ true → P x) → All P xs
  unfolding contains
  All-intro [] f = tt
  All-intro (x ∷ xs) f =
      (f x (ground (arith, ==_refl x)), All-intro xs λ y h. f y (ground (arith, h)))

  All-filter_out : (x : A) (xs : List A) → All P xs → All P (filter_out x xs)
  unfolding filter_out
  All-filter_out x [] h = tt
  All-filter_out x (y ∷ ys) (h, hs) = elim (Bool-cases (x == y)) [
    | inl same ↦ rw same (All-filter_out x ys hs)
    | inr other ↦ rw other (h, All-filter_out x ys hs)
  ]

  pub All-unique : (xs : List A) → All P xs → All P (unique xs)
  unfolding unique
  All-unique [] h = tt
  All-unique (x ∷ xs) (h, hs) = (h, All-filter_out x (unique xs) (All-unique xs hs))

contains-filter_out {ℓ} :
    {A : Type ℓ} ⦃e : Eq A⦄ (x z : A) (ys : List A)
    → (x == z) ≡ false
    → contains z (filter_out x ys) ≡ contains z ys
unfolding filter_out contains
contains-filter_out x z [] other = refl
contains-filter_out x z (y ∷ ys) other =
    ground (arith, contains-filter_out x z ys other, other, eq_of_== x y, eq_of_== z y, ==_refl z)

pub contains-unique {ℓ} :
    {A : Type ℓ} ⦃e : Eq A⦄ (z : A) (xs : List A) → contains z (unique xs) ≡ contains z xs
unfolding unique contains
contains-unique z [] = refl
contains-unique z (x ∷ xs) = elim (Bool-cases (x == z)) [
  | inl same ↦ ground (arith, same, eq_of_== x z, ==_refl z)
  | inr other ↦ ground (arith, contains-filter_out x z (unique xs) other, contains-unique z xs)
]
