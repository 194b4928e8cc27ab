-- ===== src/Ledger/Complete.antt =====
-- ValidatePosting (internal/models/ledger.go) on balanced postings: the other half of
-- Ledger/Validate.
use gopayrollengine.Base.{
  ℕ, ◌≡◌, ap, sym, ◌∙◌, subst, ◌⊎◌, ◌↔◌, List, [], ◌∷◌, Option, none, some, arith, true,
}
use mathlib.Core.Path.{ap₂}
use gopayrollengine.Base.Int.{
  ℤ, pos, pos_part, neg_part, ◌+ℤ◌, ◌≤ℤ◌, ◌<ℤ◌, int_laws, one_sided, +ℤ_zero, +ℤ_assoc,
}
use gopayrollengine.Base.Int64.{InRange}
use gopayrollengine.Base.Lists.{All}
use gopayrollengine.Base.Result.{ok}
use gopayrollengine.Money.Currency.{Currency, Money, is_valid}
use gopayrollengine.Money.Currency.Laws.{add-exact}
use gopayrollengine.Store.{Direction, debit, credit, unlisted_direction, Key, KeyPrefix}
use gopayrollengine.Ledger.Request.{EntryInput, PostingRequest, tally, totals, validate_posting}
use gopayrollengine.Ledger.Validate.{
  on_side, side_total, IsLine, IsBalanced, Int64Amounts, same_currency_refl, validate_lines,
  request,
}

on_side_nonneg : (d e : Direction) (amount : ℤ) → pos 0 <ℤ amount → pos 0 ≤ℤ on_side d e amount
on_side_nonneg debit debit amount h = omega arith
on_side_nonneg credit credit amount h = omega arith
on_side_nonneg debit credit amount h = omega arith
on_side_nonneg debit unlisted_direction amount h = omega arith
on_side_nonneg credit debit amount h = omega arith
on_side_nonneg credit unlisted_direction amount h = omega arith
on_side_nonneg unlisted_direction _ amount h = omega arith

side_total_nonneg :
    (currency : Currency) (d : Direction) (es : List EntryInput)
    → All (IsLine currency) es
    → pos 0 ≤ℤ side_total d es
side_total_nonneg currency d [] h = omega arith
side_total_nonneg currency d (e ∷ es) h = omega (
  int_laws,
  side_total_nonneg currency d es h.1,
  on_side_nonneg d e.direction e.amount.minor h.0.positive,
)

module _ (currency : Currency) where
  abbrev in_minor : ℤ → Money
  in_minor n = record { minor = n; currency = currency }

  tally-fits :
      (d : Direction) (amount : Money) (debits credits : ℤ)
      → amount.currency ≡ currency
      → (d ≡ debit) ⊎ (d ≡ credit)
      → InRange amount.minor
      → InRange debits
      → InRange credits
      → InRange (debits +ℤ on_side debit d amount.minor)
      → InRange (credits +ℤ on_side credit d amount.minor)
      → tally d amount (in_minor debits) (in_minor credits)
        ≡ ok (
          in_minor (debits +ℤ on_side debit d amount.minor),
          in_minor (credits +ℤ on_side credit d amount.minor),
        )
  unfolding tally
  tally-fits debit amount debits credits same dir ha hd hc fd fc = ground (
    arith,
    add-exact (in_minor debits) amount hd ha,
    same_currency_refl currency,
    +ℤ_zero credits,
  )
  tally-fits credit amount debits credits same dir ha hd hc fd fc = ground (
    arith,
    add-exact (in_minor credits) amount hc ha,
    same_currency_refl currency,
    +ℤ_zero debits,
  )
  tally-fits unlisted_direction amount debits credits same dir ha hd hc fd fc =
      absurd (ground arith)

  -- A sum of amounts that are not negative passes no total that fits.
  part_fits :
      (n part rest : ℤ)
      → pos 0 ≤ℤ n
      → pos 0 ≤ℤ part
      → pos 0 ≤ℤ rest
      → InRange (n +ℤ (part +ℤ rest))
      → (pos 0 ≤ℤ n +ℤ part) × InRange (n +ℤ part) × InRange (n +ℤ part +ℤ rest)
  part_fits n part rest hn hp hr h = (
    omega int_laws,
    omega (int_laws, one_sided (n +ℤ part)),
    omega (int_laws, one_sided (n +ℤ part +ℤ rest)),
  )

  line_passes :
      (e : EntryInput) (es : List EntryInput) (debits credits d c : ℤ)
      → IsLine currency e
      → tally e.direction e.amount (in_minor debits) (in_minor credits)
        ≡ ok (in_minor d, in_minor c)
      → totals currency (in_minor debits) (in_minor credits) (e ∷ es)
        ≡ totals currency (in_minor d) (in_minor c) es
  unfolding totals
  line_passes e es debits credits d c h run =
      ground (arith, h.in_currency, h.positive, same_currency_refl currency)

  totals-fits :
      (debits credits : ℤ) (es : List EntryInput)
      → Int64Amounts es
      → All (IsLine currency) es
      → pos 0 ≤ℤ debits
      → pos 0 ≤ℤ credits
      → InRange debits
      → InRange credits
      → InRange (debits +ℤ side_total debit es)
      → InRange (credits +ℤ side_total credit es)
      → totals currency (in_minor debits) (in_minor credits) es
        ≡ ok (in_minor (debits +ℤ side_total debit es), in_minor (credits +ℤ side_total credit es))
  totals-fits debits credits [] ha hl dn cn hd hc fd fc =
      unfold totals in rw (+ℤ_zero debits, +ℤ_zero credits)
  totals-fits debits credits (e ∷ es) ha hl dn cn hd hc fd fc =
      let d = on_side debit e.direction e.amount.minor in
      let c = on_side credit e.direction e.amount.minor in
      let line = hl.0 in
      let (dn', hd', fd') =
        part_fits debits d (side_total debit es) dn
          (on_side_nonneg debit e.direction e.amount.minor line.positive)
          (side_total_nonneg currency debit es hl.1) fd in
      let (cn', hc', fc') =
        part_fits credits c (side_total credit es) cn
          (on_side_nonneg credit e.direction e.amount.minor line.positive)
          (side_total_nonneg currency credit es hl.1) fc in
      line_passes e es debits credits (debits +ℤ d) (credits +ℤ c) line (
        tally-fits e.direction e.amount debits credits line.in_currency line.directed ha.0 hd hc hd'
          hc')
      ∙ totals-fits (debits +ℤ d) (credits +ℤ c) es ha.1 hl.1 dn' cn' hd' hc' fd' fc'
      ∙ ap₂ (λ x y. ok (in_minor x, in_minor y)) (+ℤ_assoc debits d (side_total debit es))
          (+ℤ_assoc credits c (side_total credit es))

module _ (k : Key) (kind : KeyPrefix) (reference : ℕ) (e : EntryInput) (es : List EntryInput) where
  validates :
      Int64Amounts (e ∷ es)
      → (b : IsBalanced (request k kind reference e es)) → InRange (side_total debit (e ∷ es))
      → validate_posting (request k kind reference e es) ≡ ok tt
  unfolding validate_posting
  validates ha b fits =
      let c = e.amount.currency in
      let same : c ≡ b.currency = b.lines.0.in_currency in
      let lines : All (IsLine c) (e ∷ es) =
        subst (λ c. All (IsLine c) (e ∷ es)) (sym same) b.lines in
      let fd : InRange (pos 0 +ℤ side_total debit (e ∷ es)) =
        omega (int_laws, one_sided (pos 0 +ℤ side_total debit (e ∷ es))) in
      let fc : InRange (pos 0 +ℤ side_total credit (e ∷ es)) = omega (
        int_laws,
        ap pos_part b.balanced,
        ap neg_part b.balanced,
        one_sided (pos 0 +ℤ side_total credit (e ∷ es)),
      ) in
      let run =
        totals-fits c (pos 0) (pos 0) (e ∷ es) ha lines (omega arith) (omega arith)
          (omega arith, omega arith) (omega arith, omega arith) fd fc in
      let valid : is_valid c ≡ true = rw same b.supported in
      ground (arith, run, valid, b.two_lines, b.balanced)

abbrev posting : Option Key → KeyPrefix → ℕ → List EntryInput → PostingRequest
posting k kind reference es = record {
  kind = kind;
  reference = reference;
  idempotency_key = k;
  entries = es;
}

module _ (kind : KeyPrefix) (reference : ℕ) where
  sound :
      (k : Option Key) (es : List EntryInput)
      → Int64Amounts es
      → validate_posting (posting k kind reference es) ≡ ok tt
      → IsBalanced (posting k kind reference es)
  sound none es ha h = absurd (unfold validate_posting in cc)
  sound (some k) [] ha h = absurd (unfold validate_posting in cc)
  sound (some k) (e ∷ es) ha h = validate_lines k kind reference e es ha h

  complete :
      (k : Option Key) (es : List EntryInput)
      → Int64Amounts es
      → InRange (side_total debit es)
      → IsBalanced (posting k kind reference es)
      → validate_posting (posting k kind reference es) ≡ ok tt
  complete none es ha fits b = absurd (let e = b.keyed in cc)
  complete (some k) [] ha fits b = absurd (let two = b.two_lines in omega arith)
  complete (some k) (e ∷ es) ha fits b = validates k kind reference e es ha b fits

-- On int64 amounts whose debits add up to an int64 value, ValidatePosting returns no error
-- exactly for a posting that has a key, a supported currency, two lines or more, every line
-- positive, in that one currency and a debit or a credit, and debits that equal the credits.
pub validate_posting_iff :
    (req : PostingRequest)
    → Int64Amounts req.entries
    → InRange (side_total debit req.entries)
    → (validate_posting req ≡ ok tt) ↔ IsBalanced req
validate_posting_iff req ha fits = (
  sound req.kind req.reference req.idempotency_key req.entries ha,
  complete req.kind req.reference req.idempotency_key req.entries ha fits,
)

-- What ValidatePosting admits is balanced, whatever the size of the totals.
pub validate_posting-IsBalanced :
    (req : PostingRequest)
    → Int64Amounts req.entries
    → validate_posting req ≡ ok tt
    → IsBalanced req
validate_posting-IsBalanced req = sound req.kind req.reference req.idempotency_key req.entries
