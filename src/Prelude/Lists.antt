-- ===== src/Prelude/Lists.antt =====
-- Lists measured and searched with native numbers, under the library's names.
use Prim.Native.Nat.{ℕ, suc, ◌+◌}
use mathlib.Core.Path.{◌≡◌, refl}
use mathlib.Core.Option.{Option, none, some}
use mathlib.Core.Bool.{Bool, true, false, ◌&&◌, ◌||◌}
use mathlib.Core.Logic.{◌⊎◌, inl, inr}
use mathlib.Core.List.{List, [], ◌∷◌, ◌++◌, map}
use native.Mathlib.Omega.{arith}
use parallel_usdp_hyperevm_i.Prelude.Tests.{if◌then◌else◌, Bool-cases}

module _ {ℓ} {A : Type ℓ} where
  abbrev pub length : List A → ℕ
  length [] = 0
  length (x ∷ xs) = suc (length xs)

  abbrev pub any : (A → Bool) → List A → Bool
  any p [] = false
  any p (x ∷ xs) = p x || any p xs

  abbrev pub all : (A → Bool) → List A → Bool
  all p [] = true
  all p (x ∷ xs) = p x && all p xs

  -- The library's `filter` takes a decision; the source's takes a Boolean test.
  abbrev pub filter : (A → Bool) → List A → List A
  filter p [] = []
  filter p (x ∷ xs) = if p x then x ∷ filter p xs else filter p xs

  abbrev pub count : (A → Bool) → List A → ℕ
  count p [] = 0
  count p (x ∷ xs) = (if p x then 1 else 0) + count p xs

  abbrev pub sum_of : (A → ℕ) → List A → ℕ
  sum_of f [] = 0
  sum_of f (x ∷ xs) = f x + sum_of f xs

  abbrev pub first : List A → Option A
  first [] = none
  first (x ∷ xs) = some x

  pub length-append : (xs ys : List A) → length (xs ++ ys) ≡ length xs + length ys
  length-append [] ys = omega arith
  length-append (x ∷ xs) ys = omega (arith, length-append xs ys)

  pub length-filter : (p : A → Bool) (xs : List A) → length (filter p xs) ≡ count p xs
  length-filter p [] = refl
  length-filter p (x ∷ xs) = ground (arith, length-filter p xs)

  pub any-append : (p : A → Bool) (xs ys : List A) → any p (xs ++ ys) ≡ (any p xs || any p ys)
  any-append p [] ys = refl
  any-append p (x ∷ xs) ys = ground (arith, any-append p xs ys)

module _ {ℓ κ} {A : Type ℓ} (P : A → Type κ) where
  abbrev pub All : List A → Type κ
  All [] = Unit
  All (x ∷ xs) = P x × All xs

  pub All-append : (xs ys : List A) → All xs → All ys → All (xs ++ ys)
  All-append [] ys h k = k
  All-append (x ∷ xs) ys (p, h) k = (p, All-append xs ys h k)

module _ {ℓ κ} {A : Type ℓ} (P : A → Type κ) (p : A → Bool) where
  pub All-filter : (xs : List A) → All P xs → All P (filter p xs)
  All-filter [] h = tt
  All-filter (x ∷ xs) h = elim (Bool-cases (p x)) [
    | inl e ↦ rw e (h.0, All-filter xs h.1)
    | inr e ↦ rw e (All-filter xs h.1)
  ]

module _ {ℓ} {A : Type ℓ} where
  -- What a filter keeps passes its test.
  pub All-filter_self : (p : A → Bool) (xs : List A) → All (λ x. p x ≡ true) (filter p xs)
  All-filter_self p [] = tt
  All-filter_self p (x ∷ xs) = elim (Bool-cases (p x)) [
    | inl e ↦ rw e (e, All-filter_self p xs)
    | inr e ↦ rw e (All-filter_self p xs)
  ]

  -- The first element that passes a test, if any does.
  pub first-filter :
      (p : A → Bool) (xs : List A)
      → ((first (filter p xs) ≡ none) × (any p xs ≡ false))
        ⊎ ((x : A) × (first (filter p xs) ≡ some x)
            × (p x ≡ true)
            × ((q : A → Bool) → q x ≡ true → any (λ y. p y && q y) xs ≡ true))
  first-filter p [] = inl (refl, refl)
  first-filter p (x ∷ xs) = elim (Bool-cases (p x)) [
    | inl e ↦ inr (x, rw e refl, e, λ q h. rw e (rw h refl))
    | inr e ↦ elim (first-filter p xs) [
      | inl h ↦ inl (rw e h.0, ground (arith, h))
      | inr (y, found, passes, there) ↦ inr (y, rw e found, passes, λ q h. rw e (there q h))
    ]
  ]

  pub first-append :
      (p : A → Bool) (xs ys : List A) (x : A)
      → first (filter p xs) ≡ some x
      → first (filter p (xs ++ ys)) ≡ some x
  first-append p [] ys x h = cc h
  first-append p (y ∷ xs) ys x h = elim (Bool-cases (p y)) [
    | inl e ↦ rw e (rw e at h)
    | inr e ↦ rw e (first-append p xs ys x (rw e at h))
  ]

  pub first-append_none :
      (p : A → Bool) (xs ys : List A)
      → first (filter p xs) ≡ none
      → first (filter p (xs ++ ys)) ≡ first (filter p ys)
  first-append_none p [] ys h = refl
  first-append_none p (y ∷ xs) ys h = elim (Bool-cases (p y)) [
    | inl e ↦ cc (rw e at h)
    | inr e ↦ rw e (first-append_none p xs ys (rw e at h))
  ]

  pub length-map {κ} : {B : Type κ} (f : A → B) (xs : List A) → length (map f xs) ≡ length xs
  length-map f [] = refl
  length-map f (x ∷ xs) = omega (arith, length-map f xs)

module _ {ℓ κ ℓ'} {A : Type ℓ} {B : Type κ} where
  pub All-map :
      (P : B → Type ℓ') (f : A → B) (xs : List A) → All (λ x. P (f x)) xs → All P (map f xs)
  All-map P f [] h = tt
  All-map P f (x ∷ xs) h = (h.0, All-map P f xs h.1)

module _ {ℓ κ ℓ'} {A : Type ℓ} {P : A → Type κ} {Q : A → Type ℓ'} where
  pub All-imp : ((x : A) → P x → Q x) → (xs : List A) → All P xs → All Q xs
  All-imp f [] h = tt
  All-imp f (x ∷ xs) h = (f x h.0, All-imp f xs h.1)

module _ {ℓ κ ℓ'} {A : Type ℓ} (P : A → Type κ) (Q : A → Type ℓ') where
  pub All-and : (xs : List A) → All P xs → All Q xs → All (λ x. P x × Q x) xs
  All-and [] h k = tt
  All-and (x ∷ xs) h k = ((h.0, k.0), All-and xs h.1 k.1)

abbrev pub sum : List ℕ → ℕ
sum [] = 0
sum (x ∷ xs) = x + sum xs
