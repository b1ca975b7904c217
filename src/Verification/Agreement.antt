-- ===== src/Verification/Agreement.antt =====
-- What it means that a comparison of src/verification/evaluators.ts passes.
use parallel_usdp_hyperevm_i.Prelude.{
  refl, ◌≤◌, ◌+◌, none, some, if◌then◌else◌, sym, ◌∙◌, arith, ◌↔◌, ◌≡◌, some, Option, String, Bool,
  true, false,
}
use parallel_usdp_hyperevm_i.Prelude.Int.{
  neg_part, +ℤ_parts, -ℤ_parts, pos_part, pos, negsuc, ◌+ℤ◌, ◌-ℤ◌, ◌≤ℤ◌, leb_ℤ, ℤ,
}
use parallel_usdp_hyperevm_i.Verification.{pass, fail, Diagnostics, absolute, compare_numeric}
use parallel_usdp_hyperevm_i.Verification.Summary.{is_pass}

-- Both amounts are known, and neither exceeds the other by more than the tolerance.
abbrev pub Agrees : ℤ → Option ℤ → Option ℤ → Type 0
Agrees tolerance none actual = ⊥
Agrees tolerance (some expected) none = ⊥
Agrees tolerance (some expected) (some actual) =
    (actual ≤ℤ expected +ℤ tolerance) × (expected ≤ℤ actual +ℤ tolerance)

-- The bounds on both sides that a bound on the absolute value is.
abbrev Within : ℤ → ℤ → Type 0
Within v tolerance =
    (pos_part v + neg_part tolerance ≤ pos_part tolerance + neg_part v)
    × (neg_part v + neg_part tolerance ≤ pos_part tolerance + pos_part v)

Within-of_absolute : (v tolerance : ℤ) → leb_ℤ (absolute v) tolerance ≡ true → Within v tolerance
Within-of_absolute (pos n) tolerance h = (ground arith, ground arith)
Within-of_absolute (negsuc n) tolerance h = (ground arith, ground arith)

absolute-of_Within : (v tolerance : ℤ) → Within v tolerance → leb_ℤ (absolute v) tolerance ≡ true
absolute-of_Within (pos n) tolerance (h, k) = ground arith
absolute-of_Within (negsuc n) tolerance (h, k) = ground arith

Agrees-of_Within :
    (expected actual tolerance : ℤ)
    → Within (actual -ℤ expected) tolerance
    → Agrees tolerance (some expected) (some actual)
Agrees-of_Within expected actual tolerance (h, k) = (
  omega (arith, -ℤ_parts actual expected, +ℤ_parts expected tolerance),
  omega (arith, -ℤ_parts actual expected, +ℤ_parts actual tolerance),
)

Within-of_Agrees :
    (expected actual tolerance : ℤ)
    → Agrees tolerance (some expected) (some actual)
    → Within (actual -ℤ expected) tolerance
Within-of_Agrees expected actual tolerance (h, k) = (
  omega (arith, -ℤ_parts actual expected, +ℤ_parts expected tolerance),
  omega (arith, -ℤ_parts actual expected, +ℤ_parts actual tolerance),
)

is_pass_if : (b : Bool) → is_pass (if b then pass else fail) ≡ b
is_pass_if true = refl
is_pass_if false = refl

-- A comparison passes exactly if both numbers are known and neither exceeds the other by more than
-- the tolerance.
pub compare_numeric-pass :
    (check_name : String) (expected actual : Option ℤ) (tolerance : ℤ) (diagnostics : Diagnostics)
    → (is_pass (compare_numeric check_name expected actual tolerance diagnostics).status ≡ true)
      ↔ Agrees tolerance expected actual
unfolding compare_numeric
compare_numeric-pass check_name none actual tolerance diagnostics =
    (λ h. ground arith, λ h. elim h [ ])
compare_numeric-pass check_name (some expected) none tolerance diagnostics =
    (λ h. ground arith, λ h. elim h [ ])
compare_numeric-pass check_name (some expected) (some actual) tolerance diagnostics = (
  λ h. Agrees-of_Within expected actual tolerance (
      Within-of_absolute (actual -ℤ expected) tolerance
        (sym (is_pass_if (leb_ℤ (absolute (actual -ℤ expected)) tolerance)) ∙ h)),
  λ h.
      is_pass_if (leb_ℤ (absolute (actual -ℤ expected)) tolerance)
      ∙ absolute-of_Within (actual -ℤ expected) tolerance
          (Within-of_Agrees expected actual tolerance h),
)
