-- ===== src/Text/Digits.antt =====
-- Numbers that are printed and read back.
use gopayrollengine.Base.{
  ℕ, zero, suc, ◌≡◌, refl, ◌+◌, ◌-◌, ◌*◌, ◌/◌, ◌%◌, ◌^◌, ◌<◌, arith, Bool, true, false, none, some,
  [], ◌∷◌, ◌==◌, ◌∙◌, if◌then◌else◌, ap,
}
use native.Mathlib.Numerals.{unary_clauses}
use gopayrollengine.Base.Int.{ℤ, pos, negsuc, neg_ℕ}
use gopayrollengine.Base.Int64.{InRange, in_range}
use gopayrollengine.Base.Lists.{All}
use gopayrollengine.Text.{
  Text, is_empty, is_digit, value_from, signed_digits, parse_digits, parse_int, digits_from,
  format_nat, format_int,
}

value_digit :
    (value d : ℕ) (others : Text)
    → d < 10
    → value_from value ((48 + d) ∷ others) ≡ value_from (10 * value + d) others
unfolding value_from
value_digit value d others h =
    let e : 10 * value + (48 + d - 48) ≡ 10 * value + d = omega arith in
    ground (arith, ap (λ v. value_from v others) e)

-- Ten to the power of the fuel bounds what the digits can hold.
value-digits :
    (fuel n : ℕ) (others : Text)
    → n < 10 ^ fuel
    → value_from 0 (digits_from fuel n others) ≡ value_from n others
unfolding digits_from
value-digits zero n others h = let e : 0 ≡ n = omega arith in ap (λ v. value_from v others) e
value-digits (suc fuel) n others h =
    go
      (value-digits fuel (n / 10) ((48 + n % 10) ∷ others) (omega (arith, simp unary_clauses at h)))
      (n / 10 == 0) refl
  where
    go :
        value_from 0 (digits_from fuel (n / 10) ((48 + n % 10) ∷ others))
          ≡ value_from (n / 10) ((48 + n % 10) ∷ others)
        → (small : Bool) → (n / 10 == 0) ≡ small
        → value_from 0 (elim small [
          | true ↦ (48 + n % 10) ∷ others
          | false ↦ digits_from fuel (n / 10) ((48 + n % 10) ∷ others)
        ])
          ≡ value_from n others
    go shorter true e =
        value_digit 0 (n % 10) others (omega arith)
        ∙ ap (λ v. value_from v others) (let h : n / 10 ≡ 0 = ground arith in omega arith)
    go shorter false e =
        shorter
        ∙ value_digit (n / 10) (n % 10) others (omega arith)
        ∙ ap (λ v. value_from v others) (omega arith)

abbrev pub AllDigits : Text → Type 0
AllDigits = All (λ c. is_digit c ≡ true)

-- The first character of a printed number is a digit.
Starts : Text → Type 0
Starts [] = ⊥
Starts (c ∷ s) = is_digit c ≡ true

digit : (n : ℕ) → is_digit (48 + n % 10) ≡ true
digit n = ground arith

digits_from-Starts :
    (fuel n : ℕ) (c : ℕ) (others : Text)
    → is_digit c ≡ true
    → Starts (digits_from fuel n (c ∷ others))
unfolding digits_from Starts
digits_from-Starts zero n c others h = h
digits_from-Starts (suc fuel) n c others h =
    go (digits_from-Starts fuel (n / 10) (48 + n % 10) (c ∷ others) (digit n)) (n / 10 == 0)
  where
    go :
        Starts (digits_from fuel (n / 10) ((48 + n % 10) ∷ c ∷ others))
        → (small : Bool)
        → Starts (elim small [
          | true ↦ (48 + n % 10) ∷ c ∷ others
          | false ↦ digits_from fuel (n / 10) ((48 + n % 10) ∷ c ∷ others)
        ])
    go shorter true = digit n
    go shorter false = shorter

digits_from-AllDigits :
    (fuel n : ℕ) (others : Text) → AllDigits others → AllDigits (digits_from fuel n others)
unfolding digits_from
digits_from-AllDigits zero n others h = h
digits_from-AllDigits (suc fuel) n others h =
    go (digits_from-AllDigits fuel (n / 10) ((48 + n % 10) ∷ others) (digit n, h)) (n / 10 == 0)
  where
    go :
        AllDigits (digits_from fuel (n / 10) ((48 + n % 10) ∷ others))
        → (small : Bool)
        → AllDigits (elim small [
          | true ↦ (48 + n % 10) ∷ others
          | false ↦ digits_from fuel (n / 10) ((48 + n % 10) ∷ others)
        ])
    go longer true = (digit n, h)
    go longer false = longer

pub format_nat-AllDigits : (n : ℕ) → AllDigits (format_nat n)
unfolding format_nat
format_nat-AllDigits n = digits_from-AllDigits 20 n [] tt

format_nat-Starts : (n : ℕ) → Starts (format_nat n)
unfolding format_nat digits_from Starts
format_nat-Starts n = go (digits_from-Starts 19 (n / 10) (48 + n % 10) [] (digit n)) (n / 10 == 0)
  where
    go :
        Starts (digits_from 19 (n / 10) ((48 + n % 10) ∷ []))
        → (small : Bool)
        → Starts (elim small [
          | true ↦ (48 + n % 10) ∷ []
          | false ↦ digits_from 19 (n / 10) ((48 + n % 10) ∷ [])
        ])
    go longer true = digit n
    go longer false = longer

-- A text that Starts with a digit is read without a sign.
parse_int-unsigned :
    (s : Text)
    → Starts s
    → (parse_int s ≡ signed_digits pos (parse_digits s)) × (is_empty s ≡ false)
unfolding Starts parse_int
parse_int-unsigned [] h = absurd h
parse_int-unsigned (c ∷ s) h = (ground arith, refl)

whole_value : (n : ℕ) → n < 10 ^ 20 → value_from 0 (format_nat n) ≡ some n
unfolding format_nat value_from
whole_value n h = value-digits 20 n [] h

pub format_nat-nonempty : (n : ℕ) → is_empty (format_nat n) ≡ false
format_nat-nonempty n = (parse_int-unsigned (format_nat n) (format_nat-Starts n)).1

-- A number below ten to the power of twenty is read back from its digits.
pub parse_digits-format : (n : ℕ) → n < 10 ^ 20 → parse_digits (format_nat n) ≡ some n
unfolding parse_digits
parse_digits-format n h = rw (format_nat-nonempty n) (whole_value n h)

within-fits : (z : ℤ) → InRange z → (if in_range z then some z else none) ≡ some z
within-fits z h = ground arith

negative-fits : (n : ℕ) → InRange (negsuc n) → signed_digits neg_ℕ (some (suc n)) ≡ some (negsuc n)
negative-fits n h = ground arith

-- strconv.ParseInt reads back what strconv.FormatInt prints.
pub parse_int-format : (z : ℤ) → InRange z → parse_int (format_int z) ≡ some z
unfolding format_int
parse_int-format (pos n) h =
    (parse_int-unsigned (format_nat n) (format_nat-Starts n)).0
    ∙ ap (signed_digits pos) (parse_digits-format n (omega (arith, h.0)))
    ∙ within-fits (pos n) h
parse_int-format (negsuc n) h =
    unfold parse_int in
    (ap (signed_digits neg_ℕ) (parse_digits-format (suc n) (omega (arith, h.1)))
      ∙ negative-fits n h)
