-- ===== src/Flows/Payload/Amounts.antt =====
-- Which texts of a payload are amounts.
use parallel_usdp_hyperevm_i.Prelude.{
  ℕ, ◌≡◌, refl, true, List, ◌++◌, some, all, ok, ◌>>=◌, Bool-cases, inl, inr, arith, subst, err,
  Option-cases, ok-injective, if◌then◌else◌, ap, sym, ◌∙◌, ◌↔◌,
}
use parallel_usdp_hyperevm_i.Prelude.Text.{Text, decimal_text}
use parallel_usdp_hyperevm_i.Flows.Payload.{
  no_text, nonempty_text, not_unsigned, text, field_of, unsigned_amount, big_int, is_digit,
  PayloadValue, object,
}
use parallel_usdp_hyperevm_i.Ingest.Store.{is_nonempty}
use parallel_usdp_hyperevm_i.Flows.Payload.Decimal.{
  big_int-digits_of, all-append, all-digits_of, is_nonempty-digits_of, zeros, IsDecimalOf,
  digits-IsDecimalOf, big_int-zeros, all-zeros, is_nonempty-zeros,
}

accepted_text :
    (key value amount : Text)
    → (nonempty_text key (some (text value)) >>= λ value.
        if all is_digit value then ok value else err (not_unsigned key))
      ≡ ok amount
    → (value ≡ amount) × (is_nonempty amount ≡ true) × (all is_digit amount ≡ true)
accepted_text key value amount h = elim (Bool-cases (is_nonempty value)) [
  | inr e ↦ cc (rw e at h)
  | inl e ↦ elim (Bool-cases (all is_digit value)) [
    | inr d ↦ cc (rw (e, d) at h)
    | inl d ↦
        let same : value ≡ amount = ok-injective (rw (e, d) at h) in
        (
          same,
          subst (λ (t : Text). is_nonempty t ≡ true) same e,
          subst (λ (t : Text). all is_digit t ≡ true) same d,
        )
  ]
]

accepted :
    (fields : List (Text × PayloadValue)) (key amount : Text)
    → unsigned_amount (object fields) key ≡ ok amount
    → (field_of key fields ≡ some (text amount)) × IsDecimalOf (big_int amount) amount
unfolding unsigned_amount
accepted fields key amount h = elim (Option-cases (field_of key fields)) [
  | inl e ↦ cc (rw e at h)
  | inr (no_text, e) ↦ cc (rw e at h)
  | inr (text value, e) ↦
      let (same, filled, digits) = accepted_text key value amount (rw e at h) in
      (e ∙ ap (λ (t : Text). some (text t)) same, digits-IsDecimalOf amount filled digits)
]

reads :
    (fields : List (Text × PayloadValue)) (key amount : Text)
    → field_of key fields ≡ some (text amount)
    → IsDecimalOf (big_int amount) amount
    → unsigned_amount (object fields) key ≡ ok amount
unfolding unsigned_amount
reads fields key amount f (leading, same) =
    let n : ℕ = big_int amount in
    let filled : is_nonempty amount ≡ true =
      subst (λ (t : Text). is_nonempty t ≡ true) (sym same)
        (is_nonempty-zeros leading (decimal_text n) (is_nonempty-digits_of n n)) in
    let digits : all is_digit amount ≡ true =
      subst (λ (t : Text). all is_digit t ≡ true) (sym same)
        (all-append is_digit (zeros leading) (decimal_text n) (all-zeros leading)
          (all-digits_of n n (omega arith))) in
    rw f (rw filled (rw digits refl))

-- `unsignedAmount` accepts a text exactly if it stands under the key of the payload and is the
-- decimal text of a number, after any zeros; and the number is the one that `BigInt` reads from it,
-- whatever the number and the zeros.
pub unsigned_amount-decimal_text :
    (fields : List (Text × PayloadValue)) (key amount : Text)
    → (unsigned_amount (object fields) key ≡ ok amount
        ↔ (field_of key fields ≡ some (text amount)) × IsDecimalOf (big_int amount) amount)
      × ((leading n : ℕ) → big_int (zeros leading ++ decimal_text n) ≡ n)
unsigned_amount-decimal_text fields key amount = (
  (accepted fields key amount, λ h. reads fields key amount h.0 h.1),
  λ leading n. big_int-zeros leading (decimal_text n) ∙ big_int-digits_of n n (omega arith),
)
