-- ===== src/Ledger/Validate.antt =====
-- The balanced postings, and what ValidatePosting (internal/models/ledger.go) refuses.
use gopayrollengine.Base.{ℕ, ◌≤◌, ◌≡◌, refl, ap, ◌∙◌, ◌⊎◌, true, not, List, [], ◌∷◌, some, arith}
use gopayrollengine.Base.Int.{
  ℤ, pos, pos_part, neg_part, ◌+ℤ◌, ◌<ℤ◌, int_laws, +ℤ_zero, +ℤ_assoc, eq_of_parts,
}
use gopayrollengine.Base.Int64.{InRange}
use gopayrollengine.Base.Lists.{All, length}
use gopayrollengine.Base.Result.{
  Result, ok, err, >>=-eq-ok, fail_if, currency_mismatch, non_positive,
}
use gopayrollengine.Money.Currency.{Currency, Money, same_currency, is_valid, is_positive}
use gopayrollengine.Money.Currency.Laws.{add-exact}
use gopayrollengine.Store.{Direction, debit, credit, unlisted_direction, Key, KeyPrefix}
use gopayrollengine.Ledger.Request.{EntryInput, PostingRequest, tally, totals, validate_posting}

-- The exact sum of the lines on one side.
abbrev pub on_side : Direction → Direction → ℤ → ℤ
on_side debit debit amount = amount
on_side credit credit amount = amount
on_side _ _ amount = pos 0

abbrev pub side_total : Direction → List EntryInput → ℤ
side_total d [] = pos 0
side_total d (e ∷ rest) = on_side d e.direction e.amount.minor +ℤ side_total d rest

-- A line that a posting in `currency` may have.
pub record IsLine (currency : Currency) (e : EntryInput) : Type 0 where
  pub in_currency : e.amount.currency ≡ currency
  pub positive : pos 0 <ℤ e.amount.minor
  pub directed : (e.direction ≡ debit) ⊎ (e.direction ≡ credit)

abbrev pub Int64Amounts : List EntryInput → Type 0
Int64Amounts = All (λ e. InRange e.amount.minor)

same_currency-eq : (c d : Currency) → same_currency c d ≡ true → c ≡ d
same_currency-eq c d h = ground arith

tally-ok :
    (d : Direction) (amount debits credits : Money) {r : Money × Money}
    → InRange amount.minor
    → InRange debits.minor
    → InRange credits.minor
    → tally d amount debits credits ≡ ok r
    → (r.0.minor ≡ debits.minor +ℤ on_side debit d amount.minor)
      × (r.1.minor ≡ credits.minor +ℤ on_side credit d amount.minor)
      × (r.0.currency ≡ debits.currency)
      × (r.1.currency ≡ credits.currency)
      × InRange r.0.minor
      × InRange r.1.minor
      × ((d ≡ debit) ⊎ (d ≡ credit))
unfolding tally
tally-ok debit amount debits credits ha hd hc h =
    ground (arith, add-exact debits amount hd ha, +ℤ_zero credits.minor)
tally-ok credit amount debits credits ha hd hc h =
    ground (arith, add-exact credits amount hc ha, +ℤ_zero debits.minor)
tally-ok unlisted_direction amount debits credits ha hd hc h = absurd (cc)

-- What a loop over lines has shown when it returns the totals r.
record Tallied (currency : Currency) (debits credits : Money) (es : List EntryInput)
    (r : Money × Money) : Type 0 where
  debit_sum : r.0.minor ≡ debits.minor +ℤ side_total debit es
  credit_sum : r.1.minor ≡ credits.minor +ℤ side_total credit es
  lines : All (IsLine currency) es

line-ok :
    (currency : Currency) (e : EntryInput) {u : Unit {0}}
    → fail_if (not (same_currency e.amount.currency currency)) currency_mismatch ≡ ok u
    → e.amount.currency ≡ currency
line-ok currency e h = ground (arith, same_currency-eq e.amount.currency currency)

positive-ok :
    (e : EntryInput) {u : Unit {0}}
    → fail_if (not (is_positive e.amount)) non_positive ≡ ok u
    → pos 0 <ℤ e.amount.minor
positive-ok e h = ground arith

totals-ok :
    (currency : Currency) (debits credits : Money) (es : List EntryInput) {r : Money × Money}
    → Int64Amounts es
    → InRange debits.minor
    → InRange credits.minor
    → totals currency debits credits es ≡ ok r
    → Tallied currency debits credits es r
unfolding totals
totals-ok currency debits credits [] ha hd hc h = record {
  debit_sum = ground (arith, +ℤ_zero debits.minor);
  credit_sum = ground (arith, +ℤ_zero credits.minor);
  lines = tt;
}
totals-ok currency debits credits (e ∷ es) ha hd hc h =
    let (u, same, h1) = >>=-eq-ok _ _ h in
    let (u', positive, h2) = >>=-eq-ok _ _ h1 in
    let (dc, tallied, h3) = >>=-eq-ok _ _ h2 in
    let (ds, cs, dcur, ccur, din, cin, dir) =
      tally-ok e.direction e.amount debits credits ha.0 hd hc tallied in
    let later = totals-ok currency dc.0 dc.1 es ha.1 din cin h3 in
    record {
      debit_sum = later.debit_sum ∙ ap (λ x. x +ℤ side_total debit es) ds ∙ +ℤ_assoc _ _ _;
      credit_sum = later.credit_sum ∙ ap (λ x. x +ℤ side_total credit es) cs ∙ +ℤ_assoc _ _ _;
      lines = (
        record {
          in_currency = line-ok currency e same;
          positive = positive-ok e positive;
          directed = dir;
        },
        later.lines,
      );
    }

-- A posting that the ledger may hold.
pub record IsBalanced (req : PostingRequest) : Type 0 where
  pub key : Key
  pub keyed : req.idempotency_key ≡ some key
  pub currency : Currency
  pub supported : is_valid currency ≡ true
  pub two_lines : 2 ≤ length req.entries
  pub lines : All (IsLine currency) req.entries
  pub balanced : side_total debit req.entries ≡ side_total credit req.entries

-- The totals that the loop returns when a posting is admitted.
module _ (k : Key) (kind : KeyPrefix) (reference : ℕ) (e : EntryInput) (es : List EntryInput) where
  abbrev pub request : PostingRequest
  request = record {
    kind = kind;
    reference = reference;
    idempotency_key = some k;
    entries = e ∷ es;
  }

  abbrev pub start : Money
  start = record { minor = pos 0; currency = e.amount.currency }

  validate_run :
      (r : Result (Money × Money))
      → totals e.amount.currency start start (e ∷ es) ≡ r
      → validate_posting request ≡ ok tt
      → (dc : Money × Money) × (r ≡ ok dc)
        × (dc.0.minor ≡ dc.1.minor)
        × (is_valid e.amount.currency ≡ true)
        × (2 ≤ length (e ∷ es))
  unfolding validate_posting
  validate_run (ok dc) run h =
      (dc, refl, ground (arith, eq_of_parts dc.0.minor dc.1.minor), ground arith, ground arith)
  validate_run (err x) run h = absurd (ground arith)

  pub validate_lines : Int64Amounts (e ∷ es) → validate_posting request ≡ ok tt → IsBalanced request
  validate_lines ha h =
      let c = e.amount.currency in
      let (dc, run, same, valid, two) = validate_run (totals c start start (e ∷ es)) refl h in
      let t = totals-ok c start start (e ∷ es) ha (ground arith) (ground arith) run in
      record {
        key = k;
        keyed = refl;
        currency = c;
        supported = valid;
        two_lines = two;
        lines = t.lines;
        balanced = omega (
          int_laws,
          ap pos_part same,
          ap neg_part same,
          ap pos_part t.debit_sum,
          ap neg_part t.debit_sum,
          ap pos_part t.credit_sum,
          ap neg_part t.credit_sum,
        );
      }

pub same_currency_refl : (c : Currency) → same_currency c c ≡ true
same_currency_refl c = ground arith
