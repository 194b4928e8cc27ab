-- ===== src/Payroll/Reference/Parsed.antt =====
-- The references of items (internal/models/payroll_item.go), sent and parsed back.
use gopayrollengine.Base.{
  ℕ, ◌≡◌, refl, ◌∙◌, ap, ◌<◌, ◌≤◌, ◌^◌, true, false, some, [], ◌∷◌, ◌++◌, arith, dec_lt, sym,
  if◌then◌else◌,
}
use gopayrollengine.Base.Int.{ℤ, pos, negsuc, leb_ℤ}
use gopayrollengine.Base.Int64.{InRange}
use gopayrollengine.Base.Lists.{All}
use gopayrollengine.Text.{Text, format_int}
use gopayrollengine.Text.Digits.{parse_digits-format}
use gopayrollengine.Payroll.Reference.{
  item_prefix, retry_mark, item_reference, is_alphanumeric, leading, trailing, parse_attempt,
  parse_item_reference, with_id,
}

-- Letters and digits.
abbrev pub IsName : Text → Type 0
IsName = All (λ c. is_alphanumeric c ≡ true)

-- What a mark, or nothing, leaves after a name.
record Ends (rest : Text) : Type 0 where
  leads : leading is_alphanumeric rest ≡ []
  trails : trailing is_alphanumeric rest ≡ rest

leading-name :
    (name rest : Text)
    → IsName name
    → Ends rest
    → (leading is_alphanumeric (name ++ rest) ≡ name)
      × (trailing is_alphanumeric (name ++ rest) ≡ rest)
leading-name [] rest h e = (e.leads, e.trails)
leading-name (c ∷ name) rest (d, h) e =
    let (l, t) = leading-name name rest h e in rw (d) (ap (λ s. c ∷ s) l, t)

parse_name :
    (c : ℕ) (name rest : Text)
    → IsName (c ∷ name)
    → Ends rest
    → parse_item_reference (item_prefix ++ (c ∷ name) ++ rest)
      ≡ with_id (item_prefix ++ c ∷ name) (parse_attempt rest)
unfolding parse_item_reference
parse_name c name rest h e = let (l, t) = leading-name (c ∷ name) rest h e in rw (l, t) refl

mark_Ends : (s : Text) → Ends (retry_mark ++ s)
mark_Ends s = record { leads = refl; trails = refl }

parse_mark :
    (n : ℕ) → 2 ≤ n → n < 2 ^ 63 → parse_attempt (retry_mark ++ format_int (pos n)) ≡ some (pos n)
unfolding parse_attempt format_int
parse_mark n h k = ground (arith, parse_digits-format n (omega arith))

append-empty : (s : Text) → s ++ [] ≡ s
append-empty [] = refl
append-empty (c ∷ s) = ap (λ t. c ∷ t) (append-empty s)

first_attempt :
    (c : ℕ) (name : Text)
    → IsName (c ∷ name)
    → parse_item_reference (item_prefix ++ c ∷ name) ≡ some (item_prefix ++ c ∷ name, pos 1)
unfolding parse_attempt
first_attempt c name h =
    ap (λ s. parse_item_reference (item_prefix ++ c ∷ s)) (sym (append-empty name))
    ∙ parse_name c name [] h (record { leads = refl; trails = refl })

-- The attempt that a reference names: a first attempt is not written.
abbrev named : ℤ → ℤ
named attempt = if leb_ℤ attempt (pos 1) then pos 1 else attempt

-- ParseItemReference reads back the identifier and the attempt that ItemReference was given,
-- where the identifier is ITEM- and letters and digits, at least one, and the attempt is an int64
-- value; an attempt below two is read as the first.
pub parse_item_reference-item_reference :
    (c : ℕ) (name : Text) (attempt : ℤ)
    → IsName (c ∷ name)
    → InRange attempt
    → parse_item_reference (item_reference (item_prefix ++ c ∷ name) attempt)
      ≡ some (item_prefix ++ c ∷ name, named attempt)
unfolding item_reference
parse_item_reference-item_reference c name (negsuc n) h fits =
    let e : leb_ℤ (negsuc n) (pos 1) ≡ true = ground arith in rw e (first_attempt c name h)
parse_item_reference-item_reference c name (pos n) h fits = elim (dec_lt 1 n) [
  | no small ↦ let e : leb_ℤ (pos n) (pos 1) ≡ true = ground arith in rw e (first_attempt c name h)
  | yes large ↦
      let e : leb_ℤ (pos n) (pos 1) ≡ false = ground arith in
      rw e (
        parse_name c name (retry_mark ++ format_int (pos n)) h (mark_Ends _)
        ∙ ap (with_id (item_prefix ++ c ∷ name))
            (parse_mark n (omega arith) (omega (arith, fits.0))))
]
