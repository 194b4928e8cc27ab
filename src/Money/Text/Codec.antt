-- ===== src/Money/Text/Codec.antt =====
-- The JSON codec of Kobo (pkg/money/money.go).
use gopayrollengine.Base.{
  ℕ, suc, ◌≡◌, refl, ◌∙◌, ap, Option, [], ◌∷◌, false, true, inl, inr, ◌⊎◌, arith,
}
use gopayrollengine.Base.Int.{ℤ, pos, negsuc}
use gopayrollengine.Base.Int64.{InRange}
use gopayrollengine.Base.Result.{ok}
use gopayrollengine.Money.{Kobo}
use gopayrollengine.Money.Text.{marshal_json, unmarshal_json, is_float_form, or_invalid}
use gopayrollengine.Text.{Text, parse_int, format_int, format_nat, is_digit, is_empty, minus}
use gopayrollengine.Text.Digits.{
  AllDigits, parse_int-format, format_nat-AllDigits, format_nat-nonempty,
}

digits_are_plain : (s : Text) → AllDigits s → is_float_form s ≡ false
digits_are_plain [] h = refl
digits_are_plain (c ∷ s) (d, h) = ground (arith, digits_are_plain s h)

-- A number in JSON is read as an integer.
plain_number :
    (unquote : Text → Option Text) (integral : Text → Option ℤ) (c : ℕ) (s : Text)
    → AllDigits s
    → (is_digit c ≡ true) ⊎ (c ≡ minus)
    → unmarshal_json unquote integral (c ∷ s) ≡ or_invalid (parse_int (c ∷ s))
unfolding unmarshal_json
plain_number unquote integral c s h k = ground (arith, digits_are_plain s h)

printed :
    (unquote : Text → Option Text) (integral : Text → Option ℤ) (k : ℤ)
    → unmarshal_json unquote integral (format_int k) ≡ or_invalid (parse_int (format_int k))
unfolding format_int
printed unquote integral (negsuc n) =
    plain_number unquote integral minus (format_nat (suc n)) (format_nat-AllDigits (suc n))
      (inr refl)
printed unquote integral (pos n) =
    go (format_nat n) (format_nat-AllDigits n) (format_nat-nonempty n)
  where
    go :
        (s : Text)
        → AllDigits s
        → is_empty s ≡ false
        → unmarshal_json unquote integral s ≡ or_invalid (parse_int s)
    go [] h k = absurd cc
    go (c ∷ s) (d, h) k = plain_number unquote integral c s h (inl d)

-- UnmarshalJSON reads back what MarshalJSON writes, for every int64 value and whatever the
-- library's readers of quoted texts and of floating-point numbers give.
pub unmarshal_json-marshal :
    (unquote : Text → Option Text) (integral : Text → Option ℤ) (k : Kobo)
    → InRange k
    → unmarshal_json unquote integral (marshal_json k) ≡ ok k
unfolding marshal_json
unmarshal_json-marshal unquote integral k h =
    printed unquote integral k ∙ ap or_invalid (parse_int-format k h)
