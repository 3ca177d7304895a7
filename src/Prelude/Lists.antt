-- ===== src/Prelude/Lists.antt =====
-- Lists measured by native numbers, and the list functions that the components share.
use Prim.Native.Nat.{ℕ, zero, suc, ◌+◌, ◌≤◌}
use mathlib.Core.Path.{◌≡◌, refl, ap}
use mathlib.Core.Logic.{inl, inr}
use mathlib.Core.Bool.{Bool, true, false}
use mathlib.Core.List.{List, [], ◌∷◌, ◌++◌, map}
use mathlib.Core.Option.{Option, none, some}
use native.Mathlib.Omega.{arith}
use alya.Prelude.Tests.{Bool-cases, if◌then◌else◌, ◌==◌}

module _ {ℓ} {A : Type ℓ} where
  abbrev pub length : List A → ℕ
  length [] = 0
  length (x ∷ xs) = suc (length xs)

  abbrev pub take : ℕ → List A → List A
  take zero xs = []
  take (suc n) [] = []
  take (suc n) (x ∷ xs) = x ∷ take n xs

  -- The elements that pass a Boolean test, in order.
  abbrev pub select : (A → Bool) → List A → List A
  select p [] = []
  select p (x ∷ xs) = let rest = select p xs in if p x then x ∷ rest else rest

  -- How many elements pass a Boolean test.
  abbrev pub count_if : (A → Bool) → List A → ℕ
  count_if p [] = 0
  count_if p (x ∷ xs) = let rest = count_if p xs in if p x then suc rest else rest

  abbrev pub find_if : (A → Bool) → List A → Option A
  find_if p [] = none
  find_if p (x ∷ xs) = if p x then some x else find_if p xs

  abbrev pub any_if : (A → Bool) → List A → Bool
  any_if p [] = false
  any_if p (x ∷ xs) = if p x then true else any_if p xs

  -- An update of the elements that pass a test: SQL's `UPDATE … SET … WHERE …`.
  abbrev pub update_if : (A → Bool) → (A → A) → List A → List A
  update_if p f [] = []
  update_if p f (x ∷ xs) = (if p x then f x else x) ∷ update_if p f xs

  -- A predicate of every element.
  abbrev pub All {κ} : (A → Type κ) → List A → Type κ
  All P [] = Unit
  All P (x ∷ xs) = P x × All P xs

  pub length-append : (xs ys : List A) → length (xs ++ ys) ≡ length xs + length ys
  length-append [] ys = omega arith
  length-append (x ∷ xs) ys = omega (arith, length-append xs ys)

  pub count_if-append :
      (p : A → Bool) (xs ys : List A) → count_if p (xs ++ ys) ≡ count_if p xs + count_if p ys
  count_if-append p [] ys = omega arith
  count_if-append p (x ∷ xs) ys = ground (arith, count_if-append p xs ys)

  pub length-update_if :
      (p : A → Bool) (f : A → A) (xs : List A) → length (update_if p f xs) ≡ length xs
  length-update_if p f [] = refl
  length-update_if p f (x ∷ xs) = ap suc (length-update_if p f xs)

  pub length-select : (p : A → Bool) (xs : List A) → length (select p xs) ≡ count_if p xs
  length-select p [] = refl
  length-select p (x ∷ xs) = ground (arith, length-select p xs)

  pub length-take_le : (n : ℕ) (xs : List A) → length (take n xs) ≤ n
  length-take_le zero xs = omega arith
  length-take_le (suc n) [] = omega arith
  length-take_le (suc n) (x ∷ xs) = omega (arith, length-take_le n xs)

module _ {ℓ κ} {A : Type ℓ} {B : Type κ} where
  pub length-map : (f : A → B) (xs : List A) → length (map f xs) ≡ length xs
  length-map f [] = refl
  length-map f (x ∷ xs) = ap suc (length-map f xs)

-- `x = ANY(xs)` on numbers.
abbrev pub contains : ℕ → List ℕ → Bool
contains n = any_if (λ m. n == m)

module _ {ℓ κ} {A : Type ℓ} (P : A → Type κ) where
  pub All-append : (xs ys : List A) → All P xs → All P ys → All P (xs ++ ys)
  All-append [] ys h k = k
  All-append (x ∷ xs) ys h k = (h.0, All-append xs ys h.1 k)

module _ {ℓ κ} {A : Type ℓ} {P : A → Type κ} where
  pub All-update_if :
      (p : A → Bool) (f : A → A) (xs : List A)
      → ((x : A) → p x ≡ true → P x → P (f x))
      → All P xs
      → All P (update_if p f xs)
  All-update_if p f [] k h = tt
  All-update_if p f (x ∷ xs) k h = (go (p x) refl, All-update_if p f xs k h.1)
    where
      go : (b : Bool) → p x ≡ b → P (if b then f x else x)
      go true e = k x e h.0
      go false e = h.0

  pub All-map {μ} : {Q : A → Type μ} → ((x : A) → P x → Q x) → (xs : List A) → All P xs → All Q xs
  All-map k [] h = tt
  All-map k (x ∷ xs) h = (k x h.0, All-map k xs h.1)

  pub All-zip {μ ν} :
      {Q : A → Type μ} {R : A → Type ν}
      → ((x : A) → P x → Q x → R x)
      → (xs : List A) → All P xs
      → All Q xs
      → All R xs
  All-zip k [] h g = tt
  All-zip k (x ∷ xs) h g = (k x h.0 g.0, All-zip k xs h.1 g.1)

-- A place of an element in a list.
pub data In {A : Type 0} (x : A) : List A → Type 0 where
  here : {xs : List A} → In x (x ∷ xs)
  there : {y : A} {xs : List A} → In x xs → In x (y ∷ xs)

pub In-append_right : {A : Type 0} {x : A} (xs ys : List A) → In x ys → In x (xs ++ ys)
In-append_right [] ys m = m
In-append_right (y ∷ xs) ys m = there (In-append_right xs ys m)

pub In-append_left : {A : Type 0} {x : A} (xs ys : List A) → In x xs → In x (xs ++ ys)
In-append_left [] ys m = elim m [ ]
In-append_left (_ ∷ xs) ys here = here
In-append_left (y ∷ xs) ys (there m) = there (In-append_left xs ys m)

-- An element that passes.
pub any_if-In :
    {A : Type 0} (p : A → Bool) (xs : List A)
    → any_if p xs ≡ true
    → (x : A) × In x xs × (p x ≡ true)
any_if-In p [] h = cc
any_if-In p (x ∷ xs) h = elim (Bool-cases (p x)) [
  | inl e ↦ (x, here, e)
  | inr e ↦ let (y, m, q) = any_if-In p xs (ground arith) in (y, there m, q)
]
