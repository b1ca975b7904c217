-- ===== src/Prelude/Sorting.antt =====
-- `Array.prototype.sort`, which is stable: its result under a comparator that orders by a test
-- `before` is the one of insertion sort.
use Prim.Native.Nat.{ℕ, suc, ◌+◌}
use mathlib.Core.Path.{◌≡◌, refl}
use mathlib.Core.Logic.{inl, inr}
use mathlib.Core.Bool.{Bool, ◌||◌}
use mathlib.Core.List.{List, [], ◌∷◌}
use native.Mathlib.Omega.{arith}
use parallel_usdp_hyperevm_i.Prelude.Tests.{if◌then◌else◌, Bool-cases}
use parallel_usdp_hyperevm_i.Prelude.Lists.{length, any, All, sum_of}

module _ {ℓ} {A : Type ℓ} (before : A → A → Bool) where
  -- `x` stands in front of the elements that it does not come after.
  unfoldable pub insert_by : A → List A → List A
  insert_by x [] = x ∷ []
  insert_by x (y ∷ ys) = if before y x then y ∷ insert_by x ys else x ∷ y ∷ ys

  unfoldable pub sort_by : List A → List A
  unfolding insert_by
  sort_by [] = []
  sort_by (x ∷ xs) = insert_by x (sort_by xs)

  pub length-insert_by : (x : A) (xs : List A) → length (insert_by x xs) ≡ suc (length xs)
  unfolding insert_by
  length-insert_by x [] = refl
  length-insert_by x (y ∷ ys) = ground (arith, length-insert_by x ys)

  pub length-sort_by : (xs : List A) → length (sort_by xs) ≡ length xs
  unfolding sort_by
  length-sort_by [] = refl
  length-sort_by (x ∷ xs) = ground (arith, length-sort_by xs, length-insert_by x (sort_by xs))

  pub sum_of-insert_by :
      (f : A → ℕ) (x : A) (xs : List A) → sum_of f (insert_by x xs) ≡ f x + sum_of f xs
  unfolding insert_by
  sum_of-insert_by f x [] = refl
  sum_of-insert_by f x (y ∷ ys) = ground (arith, sum_of-insert_by f x ys)

  pub sum_of-sort_by : (f : A → ℕ) (xs : List A) → sum_of f (sort_by xs) ≡ sum_of f xs
  unfolding sort_by
  sum_of-sort_by f [] = refl
  sum_of-sort_by f (x ∷ xs) = omega (arith, sum_of-insert_by f x (sort_by xs), sum_of-sort_by f xs)

  pub any-insert_by :
      (p : A → Bool) (x : A) (xs : List A) → any p (insert_by x xs) ≡ (p x || any p xs)
  unfolding insert_by
  any-insert_by p x [] = refl
  any-insert_by p x (y ∷ ys) = ground (arith, any-insert_by p x ys)

  pub any-sort_by : (p : A → Bool) (xs : List A) → any p (sort_by xs) ≡ any p xs
  unfolding sort_by
  any-sort_by p [] = refl
  any-sort_by p (x ∷ xs) = ground (arith, any-sort_by p xs, any-insert_by p x (sort_by xs))

  pub All-insert_by {κ} :
      (P : A → Type κ) (x : A) (xs : List A) → P x → All P xs → All P (insert_by x xs)
  unfolding insert_by
  All-insert_by P x [] p h = (p, tt)
  All-insert_by P x (y ∷ ys) p h = elim (Bool-cases (before y x)) [
    | inl after ↦ rw after (h.0, All-insert_by P x ys p h.1)
    | inr here ↦ rw here (p, h)
  ]

  pub All-sort_by {κ} : (P : A → Type κ) (xs : List A) → All P xs → All P (sort_by xs)
  unfolding sort_by
  All-sort_by P [] h = tt
  All-sort_by P (x ∷ xs) h = All-insert_by P x (sort_by xs) h.0 (All-sort_by P xs h.1)
