-- ===== src/Flows/Payload/Decimal.antt =====
-- Decimal texts: their digits, and the number that is read from them.
use parallel_usdp_hyperevm_i.Prelude.{
  ℕ, zero, suc, ◌+◌, ◌*◌, ◌-◌, ◌/◌, ◌%◌, ◌≤◌, ◌≡◌, refl, Bool, true, leb, [], ◌∷◌, ◌++◌, all,
  Bool-cases, inl, inr, arith, false, ap, sym, ◌∙◌, ◌<◌,
}
use mathlib.Core.List.{append-nil, append_assoc}
use parallel_usdp_hyperevm_i.Prelude.Text.{Text, digits_of, decimal_text}
use parallel_usdp_hyperevm_i.Flows.Payload.{big_int, big_int_from, is_digit}
use parallel_usdp_hyperevm_i.Ingest.Store.{is_nonempty}

big_int_from-append :
    (read : ℕ) (digits : Text) (last : ℕ)
    → big_int_from read (digits ++ last ∷ []) ≡ big_int_from read digits * 10 + (last - b'0')
unfolding big_int_from
big_int_from-append read [] last = refl
big_int_from-append read (d ∷ digits) last =
    big_int_from-append (read * 10 + (d - b'0')) digits last

pub big_int-digits_of : (fuel n : ℕ) → n ≤ fuel → big_int (digits_of fuel n) ≡ n
unfolding digits_of big_int_from
big_int-digits_of zero n h = omega arith
big_int-digits_of (suc fuel) n h = elim (Bool-cases (leb n 9)) [
  | inl e ↦ rw (e, digits_of) (omega arith)
  | inr e ↦
      let rest = big_int-digits_of fuel (n / 10) (ground arith) in
      let last = big_int_from-append 0 (digits_of fuel (n / 10)) (b'0' + n % 10) in
      rw (e, digits_of) (omega (arith, rest, last))
]

pub all-append :
    (p : ℕ → Bool) (xs ys : Text) → all p xs ≡ true → all p ys ≡ true → all p (xs ++ ys) ≡ true
all-append p [] ys h k = k
all-append p (x ∷ xs) ys h k = ground (arith, all-append p xs ys)

pub all-digits_of : (fuel n : ℕ) → n ≤ fuel → all is_digit (digits_of fuel n) ≡ true
unfolding digits_of
all-digits_of zero n h = ground arith
all-digits_of (suc fuel) n h = elim (Bool-cases (leb n 9)) [
  | inl e ↦ rw (e, digits_of) (ground arith)
  | inr e ↦
      rw (e, digits_of)
        (all-append is_digit (digits_of fuel (n / 10)) _
          (all-digits_of fuel (n / 10) (ground arith)) (ground arith))
]

is_nonempty-append : (xs : Text) (y : ℕ) → is_nonempty (xs ++ y ∷ []) ≡ true
is_nonempty-append [] y = refl
is_nonempty-append (x ∷ xs) y = refl

pub is_nonempty-digits_of : (fuel n : ℕ) → is_nonempty (digits_of fuel n) ≡ true
unfolding digits_of
is_nonempty-digits_of zero n = refl
is_nonempty-digits_of (suc fuel) n = elim (Bool-cases (leb n 9)) [
  | inl e ↦ rw (e, digits_of) refl
  | inr e ↦ rw (e, digits_of) (is_nonempty-append (digits_of fuel (n / 10)) _)
]

-- The fuel of the digits does not matter.
digits_of_fuel : (fuel other n : ℕ) → n ≤ fuel → n ≤ other → digits_of fuel n ≡ digits_of other n
unfolding digits_of
digits_of_fuel zero zero n h k = refl
digits_of_fuel zero (suc other) n h k =
    let small : leb n 9 ≡ true = ground arith in
    rw (small, digits_of) (ap (λ (c : ℕ). (b'0' + c) ∷ []) (omega arith))
digits_of_fuel (suc fuel) zero n h k =
    let small : leb n 9 ≡ true = ground arith in
    rw (small, digits_of) (ap (λ (c : ℕ). (b'0' + c) ∷ []) (omega arith))
digits_of_fuel (suc fuel) (suc other) n h k = elim (Bool-cases (leb n 9)) [
  | inl e ↦ rw (e, digits_of) refl
  | inr e ↦
      rw (e, digits_of)
        (ap (λ (t : Text). t ++ (b'0' + n % 10) ∷ [])
          (digits_of_fuel fuel other (n / 10) (ground (arith, e)) (ground (arith, e))))
]

decimal_text_small : (n : ℕ) → n ≤ 9 → decimal_text n ≡ (b'0' + n) ∷ []
unfolding digits_of
decimal_text_small n h =
    let small : leb n 9 ≡ true = ground (arith, h) in
    digits_of_fuel n (suc n) n (omega arith) (omega arith) ∙ rw (small, digits_of) refl

decimal_text_large :
    (n : ℕ) → 9 < n → decimal_text n ≡ decimal_text (n / 10) ++ (b'0' + n % 10) ∷ []
unfolding digits_of
decimal_text_large n h =
    let large : leb n 9 ≡ false = ground (arith, h) in
    digits_of_fuel n (suc n) n (omega arith) (omega arith)
    ∙ rw (large, digits_of)
        (ap (λ (t : Text). t ++ (b'0' + n % 10) ∷ [])
          (digits_of_fuel n (n / 10) (n / 10) (omega arith) (omega arith)))

-- A number of one digit more.
decimal_text-digit :
    (n digit : ℕ)
    → 0 < n
    → is_digit digit ≡ true
    → decimal_text (n * 10 + (digit - b'0')) ≡ decimal_text n ++ digit ∷ []
decimal_text-digit n digit h k =
    let small : digit - b'0' ≤ 9 = ground (arith, k) in
    let tens : (n * 10 + (digit - b'0')) / 10 ≡ n = omega (arith, small) in
    let units : b'0' + (n * 10 + (digit - b'0')) % 10 ≡ digit = ground (arith, k, small) in
    decimal_text_large (n * 10 + (digit - b'0')) (omega (arith, h)) ∙ rw (tens, units) refl

decimal_text-big_int_from :
    (n : ℕ) (digits : Text)
    → 0 < n
    → all is_digit digits ≡ true
    → decimal_text (big_int_from n digits) ≡ decimal_text n ++ digits
unfolding big_int_from
decimal_text-big_int_from n [] h k = sym (append-nil (decimal_text n))
decimal_text-big_int_from n (digit ∷ digits) h k =
    decimal_text-big_int_from (n * 10 + (digit - b'0')) digits (omega (arith, h))
      (ground (arith, k))
    ∙ ap (λ (t : Text). t ++ digits) (decimal_text-digit n digit h (ground (arith, k)))
    ∙ append_assoc (decimal_text n) (digit ∷ []) digits

abbrev pub zeros : ℕ → Text
zeros zero = []
zeros (suc n) = b'0' ∷ zeros n

-- The decimal text of the number, after any zeros.
abbrev pub IsDecimalOf : ℕ → Text → Type 0
IsDecimalOf n digits = (leading : ℕ) × (digits ≡ zeros leading ++ decimal_text n)

-- A zero before the digits.
zero-IsDecimalOf :
    (digits : Text)
    → (is_nonempty digits ≡ true → IsDecimalOf (big_int digits) digits)
    → IsDecimalOf (big_int digits) (b'0' ∷ digits)
unfolding digits_of big_int_from
zero-IsDecimalOf [] rest = (0, refl)
zero-IsDecimalOf (digit ∷ digits) rest =
    let (leading, same) = rest refl in (suc leading, ap (λ (t : Text). b'0' ∷ t) same)

pub digits-IsDecimalOf :
    (digits : Text)
    → is_nonempty digits ≡ true
    → all is_digit digits ≡ true
    → IsDecimalOf (big_int digits) digits
unfolding big_int_from
digits-IsDecimalOf [] h k = cc h
digits-IsDecimalOf (digit ∷ digits) h k = elim (Bool-cases (leb (0 * 10 + (digit - b'0')) 0)) [
  | inr e ↦ (
    0,
    sym (
        decimal_text-big_int_from (0 * 10 + (digit - b'0')) digits (ground (arith, e))
          (ground (arith, k))
        ∙ ap (λ (t : Text). t ++ digits)
            (decimal_text_small (0 * 10 + (digit - b'0')) (ground (arith, k))
              ∙ ap (λ (c : ℕ). c ∷ []) (ground (arith, k)))),
  )
  | inl e ↦
      let zero_digit : digit ≡ b'0' = ground (arith, e, k) in
      let nothing : 0 * 10 + (digit - b'0') ≡ 0 = ground (arith, e) in
      rw (nothing, zero_digit)
        (zero-IsDecimalOf digits (λ filled. digits-IsDecimalOf digits filled (ground (arith, k))))
]

pub big_int-zeros :
    (leading : ℕ) (digits : Text) → big_int (zeros leading ++ digits) ≡ big_int digits
unfolding big_int_from
big_int-zeros zero digits = refl
big_int-zeros (suc n) digits = big_int-zeros n digits

pub all-zeros : (leading : ℕ) → all is_digit (zeros leading) ≡ true
all-zeros zero = refl
all-zeros (suc n) = all-zeros n

pub is_nonempty-zeros :
    (leading : ℕ) (digits : Text)
    → is_nonempty digits ≡ true
    → is_nonempty (zeros leading ++ digits) ≡ true
is_nonempty-zeros zero digits h = h
is_nonempty-zeros (suc n) digits h = refl
