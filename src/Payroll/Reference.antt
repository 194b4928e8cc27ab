-- ===== src/Payroll/Reference.antt =====
-- internal/models/payroll_item.go: the reference that an item is sent to the bank under. Here an
-- item's identifier is its text.
pub mod Parsed
use gopayrollengine.Base.{
  ℕ, Bool, true, false, ◌&&◌, ◌||◌, Option, none, some, List, [], ◌∷◌, ◌++◌, ltb, leb,
  if◌then◌else◌,
}
use gopayrollengine.Base.Int.{ℤ, pos, negsuc, ltb_ℤ, leb_ℤ}
use gopayrollengine.Base.Int64.{in_range}
use gopayrollengine.Text.{Text, is_empty, is_digit, minus, after_prefix, parse_digits, format_int}

-- ITEM-
abbrev pub item_prefix : Text
item_prefix = 73 ∷ 84 ∷ 69 ∷ 77 ∷ 45 ∷ []

-- -R
abbrev pub retry_mark : Text
retry_mark = minus ∷ 82 ∷ []

unfoldable pub item_reference : Text → ℤ → Text
item_reference id attempt =
    if leb_ℤ attempt (pos 1) then id else id ++ (retry_mark ++ format_int attempt)

-- [0-9A-Za-z]
abbrev pub is_alphanumeric : ℕ → Bool
is_alphanumeric c = is_digit c || (leb 65 c && leb c 90) || (leb 97 c && leb c 122)

-- The longest beginning that the class admits, and the rest.
abbrev pub leading : (ℕ → Bool) → Text → Text
leading admits [] = []
leading admits (c ∷ s) = let more = leading admits s in if admits c then c ∷ more else []

abbrev pub trailing : (ℕ → Bool) → Text → Text
trailing admits [] = []
trailing admits (c ∷ s) = let rest = trailing admits s in if admits c then rest else c ∷ s

-- The attempt that digits give: an int of at least two (strconv.Atoi on 64 bits).
abbrev pub attempt_of : Option ℕ → Option ℤ
attempt_of none = none
attempt_of (some n) = if in_range (pos n) && leb 2 n then some (pos n) else none

-- What follows the identifier: nothing, or the mark and at least one digit up to the end.
unfoldable pub parse_attempt : Text → Option ℤ
parse_attempt [] = some (pos 1)
parse_attempt (c ∷ s) = elim (after_prefix retry_mark (c ∷ s)) [
  | none ↦ none
  | some digits ↦ attempt_of (parse_digits digits)
]

abbrev pub with_id : Text → Option ℤ → Option (Text × ℤ)
with_id id none = none
with_id id (some attempt) = some (id, attempt)

-- The expression ^(ITEM-[0-9A-Za-z]+)(?:-R([0-9]+))?$, and the attempt.
unfoldable pub parse_item_reference : Text → Option (Text × ℤ)
unfolding parse_attempt
parse_item_reference ref = elim (after_prefix item_prefix ref) [
  | none ↦ none
  | some s ↦
      let name = leading is_alphanumeric s in
      if is_empty name
      then none
      else with_id (item_prefix ++ name) (parse_attempt (trailing is_alphanumeric s))
]
