-- ===== src/Prelude/Sets.antt =====
-- Lists of numbers read as sets: membership, `new Set(...)`, and the `distinct on` of a query.
use Prim.Native.Nat.{ℕ, suc, ◌≤◌}
use mathlib.Core.Path.{◌≡◌, refl}
use mathlib.Core.Logic.{inl, inr}
use mathlib.Core.Bool.{◌||◌, Bool, true, false}
use mathlib.Core.List.{List, [], ◌∷◌, map}
use native.Mathlib.Omega.{arith}
use parallel_usdp_hyperevm_i.Prelude.Tests.{◌==◌, if◌then◌else◌, Bool-cases}
use parallel_usdp_hyperevm_i.Prelude.Lists.{All-and, All-imp, length, any, filter, All}

abbrev pub has : ℕ → List ℕ → Bool
has x xs = any (λ y. y == x) xs

abbrev pub Distinct : List ℕ → Type 0
Distinct [] = Unit
Distinct (x ∷ xs) = (has x xs ≡ false) × Distinct xs

-- `[...new Set(xs)]` past the elements already seen: the first occurrence stays.
unfoldable pub unseen : List ℕ → List ℕ → List ℕ
unseen seen [] = []
unseen seen (x ∷ xs) = let rest = unseen (x ∷ seen) xs in if has x seen then rest else x ∷ rest

abbrev pub unique : List ℕ → List ℕ
unique xs = unseen [] xs

module _ {ℓ} {A : Type ℓ} (key : A → ℕ) where
  -- `distinct on (key)` over rows in the query's order: the first row of each key.
  unfoldable pub distinct_on : List ℕ → List A → List A
  distinct_on seen [] = []
  distinct_on seen (x ∷ xs) =
      let rest = distinct_on (key x ∷ seen) xs in if has (key x) seen then rest else x ∷ rest

  -- No row that is kept has a key seen before.
  has-distinct_on :
      (k : ℕ) (seen : List ℕ) (xs : List A)
      → has k seen ≡ true
      → has k (map key (distinct_on seen xs)) ≡ false
  unfolding distinct_on
  has-distinct_on k seen [] h = refl
  has-distinct_on k seen (x ∷ xs) h = ground (arith, has-distinct_on k (key x ∷ seen) xs)

  pub distinct_on-Distinct :
      (seen : List ℕ) (xs : List A) → Distinct (map key (distinct_on seen xs))
  unfolding distinct_on
  distinct_on-Distinct seen [] = tt
  distinct_on-Distinct seen (x ∷ xs) = elim (Bool-cases (has (key x) seen)) [
    | inl e ↦ rw e (distinct_on-Distinct (key x ∷ seen) xs)
    | inr e ↦ rw e (
      has-distinct_on (key x) (key x ∷ seen) xs (ground arith),
      distinct_on-Distinct (key x ∷ seen) xs,
    )
  ]

  pub All-distinct_on {κ} :
      (P : A → Type κ) (seen : List ℕ) (xs : List A) → All P xs → All P (distinct_on seen xs)
  unfolding distinct_on
  All-distinct_on P seen [] h = tt
  All-distinct_on P seen (x ∷ xs) h = elim (Bool-cases (has (key x) seen)) [
    | inl e ↦ rw e (All-distinct_on P (key x ∷ seen) xs h.1)
    | inr e ↦ rw e (h.0, All-distinct_on P (key x ∷ seen) xs h.1)
  ]

  has-filter :
      (k : ℕ) (p : A → Bool) (xs : List A)
      → has k (map key xs) ≡ false
      → has k (map key (filter p xs)) ≡ false
  has-filter k p [] h = refl
  has-filter k p (x ∷ xs) h = ground (arith, has-filter k p xs)

  pub filter-Distinct :
      (p : A → Bool) (xs : List A) → Distinct (map key xs) → Distinct (map key (filter p xs))
  filter-Distinct p [] h = tt
  filter-Distinct p (x ∷ xs) h = elim (Bool-cases (p x)) [
    | inl e ↦ rw e (has-filter (key x) p xs h.0, filter-Distinct p xs h.1)
    | inr e ↦ rw e (filter-Distinct p xs h.1)
  ]

  -- Where keys are not repeated, a row's key is among the kept ones exactly if the row is kept.
  apart : (k : ℕ) (xs : List A) → has k (map key xs) ≡ false → All (λ y. (k == key y) ≡ false) xs
  apart k [] h = tt
  apart k (y ∷ xs) h = (ground arith, apart k xs (ground arith))

  pub has-filter_own :
      (p : A → Bool) (xs : List A)
      → Distinct (map key xs)
      → All (λ x. has (key x) (map key (filter p xs)) ≡ p x) xs
  has-filter_own p [] d = tt
  has-filter_own p (x ∷ xs) d = elim (Bool-cases (p x)) [
    | inl e ↦ (
      rw e (ground arith),
      All-imp (λ y h. rw e (ground (arith, h))) xs
          (All-and _ _ xs (apart (key x) xs d.0) (has-filter_own p xs d.1)),
    )
    | inr e ↦
        (rw e (has-filter (key x) p xs d.0), All-imp (λ y h. rw e h) xs (has-filter_own p xs d.1))
  ]

has-unseen :
    (k : ℕ) (seen xs : List ℕ) → (has k (unseen seen xs) || has k seen) ≡ (has k xs || has k seen)
unfolding unseen
has-unseen k seen [] = refl
has-unseen k seen (x ∷ xs) = elim (Bool-cases (has x seen)) [
  | inl e ↦ rw e (ground (arith, has-unseen k (x ∷ seen) xs))
  | inr e ↦ rw e (ground (arith, has-unseen k (x ∷ seen) xs))
]

pub has-unique : (k : ℕ) (xs : List ℕ) → has k (unique xs) ≡ has k xs
has-unique k xs = ground (arith, has-unseen k [] xs)

erase : ℕ → List ℕ → List ℕ
erase x [] = []
erase x (y ∷ ys) = if y == x then ys else y ∷ erase x ys

length-erase : (x : ℕ) (ys : List ℕ) → has x ys ≡ true → suc (length (erase x ys)) ≡ length ys
unfolding erase
length-erase x [] h = cc
length-erase x (y ∷ ys) h = ground (arith, length-erase x ys)

has-erase : (x z : ℕ) (ys : List ℕ) → (z == x) ≡ false → has z ys ≡ true → has z (erase x ys) ≡ true
unfolding erase
has-erase x z [] e h = cc
has-erase x z (y ∷ ys) e h = ground (arith, has-erase x z ys)

All_has-erase :
    (x : ℕ) (xs ys : List ℕ)
    → has x xs ≡ false
    → All (λ z. has z ys ≡ true) xs
    → All (λ z. has z (erase x ys) ≡ true) xs
All_has-erase x [] ys h k = tt
All_has-erase x (z ∷ xs) ys h k =
    (has-erase x z ys (ground arith) k.0, All_has-erase x xs ys (ground arith) k.1)

-- A list without repetitions is no longer than a list that has all its elements.
length_le_of_All_has :
    (xs ys : List ℕ) → Distinct xs → All (λ z. has z ys ≡ true) xs → length xs ≤ length ys
length_le_of_All_has [] ys d h = omega arith
length_le_of_All_has (x ∷ xs) ys d h = omega (
  arith,
  length-erase x ys h.0,
  length_le_of_All_has xs (erase x ys) d.1 (All_has-erase x xs ys d.0 h.1),
)

-- Where it is as long, it has all the elements of the other list.
pub has_of_length :
    (xs ys : List ℕ)
    → Distinct xs
    → All (λ z. has z ys ≡ true) xs
    → length xs ≡ length ys
    → (y : ℕ) → has y ys ≡ true
    → has y xs ≡ true
has_of_length xs ys d h e y k = elim (Bool-cases (has y xs)) [
  | inl found ↦ found
  | inr missing ↦ absurd (omega (arith, length_le_of_All_has (y ∷ xs) ys (missing, d) (k, h)))
]
