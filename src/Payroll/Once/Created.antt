-- ===== src/Payroll/Once/Created.antt =====
-- The batches through CreatePayroll (internal/services/payroll_service.go).
use gopayrollengine.Base.{
  ℕ, ◌≡◌, refl, subst, sym, ◌≢◌, Bool, true, false, List, [], ◌∷◌, ◌++◌, ◌==◌, ◌∙◌, ap, not, Option,
  none, some, inl, inr, arith, Bool-cases, if◌then◌else◌,
}
use gopayrollengine.Base.Lists.{find, is_some, All, All-append}
use gopayrollengine.Base.Result.{Result, ok, err, duplicate_key, invalid_period, queue_unavailable}
use gopayrollengine.Money.{Kobo}
use gopayrollengine.Money.Currency.{Currency}
use gopayrollengine.Store.{
  Payroll, modify, Store, M, pure, fail, gets, fail_if, with_org_scope, ◌>>=◌, ◌>>◌,
}
use gopayrollengine.Store.Keeps.{
  Keeps, keeps_rules, Keeps-checked, Keeps-statement, Keeps-modify, Keeps-bind,
  with_org_scope-Keeps,
}
use gopayrollengine.Advance.{update_where}
use gopayrollengine.Timesheet.{Calendar}
use gopayrollengine.Payroll.{update_payrolls}
use gopayrollengine.Payroll.Create.{
  clashes, new_payroll, create_batch, create_payroll_tx, validate_period, create_payroll,
}
use gopayrollengine.Payroll.Once.{Batches, tick, once_rules}
use gopayrollengine.Payroll.Once.Employees.{pay_all-Keeps}

-- The month of a batch.
abbrev pub month : Calendar → Payroll → Option ℕ
month calendar p = calendar.start_of p.period

-- A period that is the text of the month it names.
pub record IsCanonical (calendar : Calendar) (format : ℕ → ℕ) (p : Payroll) : Type 0 where
  pub start : ℕ
  pub parses : month calendar p ≡ some start
  pub prints : format start ≡ p.period

abbrev pub OncePerMonth : Calendar → List Payroll → Type 0
OncePerMonth calendar [] = Unit
OncePerMonth calendar (p ∷ rest) =
    All (λ q. month calendar q ≢ month calendar p) rest × OncePerMonth calendar rest

abbrev Months : Calendar → (ℕ → ℕ) → List Payroll → Type 0
Months calendar format rows = OncePerMonth calendar rows × All (IsCanonical calendar format) rows

-- No two batches are of the same month, and every period is canonical.
abbrev pub HasOnePerMonth : Calendar → (ℕ → ℕ) → Store → Type 0
HasOnePerMonth calendar format = Batches (Months calendar format)

module _ (calendar : Calendar) (format : ℕ → ℕ) where
  same_text :
      (p q : Payroll)
      → IsCanonical calendar format p
      → IsCanonical calendar format q
      → month calendar p ≡ month calendar q
      → p.period ≡ q.period
  same_text p q h k e =
      let both : some h.start ≡ some k.start = sym h.parses ∙ e ∙ k.parses in
      let same : h.start ≡ k.start = cc in sym h.prints ∙ ap format same ∙ k.prints

  differs : (row q : Payroll) → clashes row q ≡ false → row.period ≢ q.period
  differs row q e = ground arith

  -- A canonical row that clashes with none is of a new month.
  fresh_month :
      (row : Payroll) (rows : List Payroll)
      → IsCanonical calendar format row
      → All (IsCanonical calendar format) rows
      → is_some (find (clashes row) rows) ≡ false
      → All (λ q. month calendar row ≢ month calendar q) rows
  fresh_month row [] k ks h = tt
  fresh_month row (q ∷ rows) k ks h =
      go (λ free. fresh_month row rows k ks.1 free) (clashes row q) refl h
    where
      go :
          (is_some (find (clashes row) rows) ≡ false
            → All (λ q. month calendar row ≢ month calendar q) rows)
          → (b : Bool) → clashes row q ≡ b
          → is_some (if b then some q else find (clashes row) rows) ≡ false
          → All (λ q. month calendar row ≢ month calendar q) (q ∷ rows)
      go later true e h = absurd cc
      go later false e h = (λ m. differs row q e (same_text row q k ks.0 m), later h)

  OncePerMonth-append :
      (rows : List Payroll) (row : Payroll)
      → OncePerMonth calendar rows
      → All (λ q. month calendar row ≢ month calendar q) rows
      → OncePerMonth calendar (rows ++ row ∷ [])
  OncePerMonth-append [] row h f = (tt, tt)
  OncePerMonth-append (p ∷ rows) row h f =
      (All-append _ rows (row ∷ []) h.0 (f.0, tt), OncePerMonth-append rows row h.1 f.1)

  insert_batch-Keeps :
      (row : Payroll)
      → IsCanonical calendar format row
      → Keeps (HasOnePerMonth calendar format) (
          gets (λ s. find (clashes row) s.payrolls) >>= λ taken.
          fail_if (is_some taken) duplicate_key
          >> modify (λ s. record s { payrolls = s.payrolls ++ row ∷ [] }))
  unfolding ◌>>=◌
  insert_batch-Keeps row k = record {
    at = λ s h. elim (Bool-cases (is_some (find (clashes row) s.payrolls))) [
      | inl taken ↦ rw taken h
      | inr free ↦ rw free (record {
        rows = (
          OncePerMonth-append s.payrolls row h.rows.0 (fresh_month row s.payrolls k h.rows.1 free),
          All-append _ s.payrolls (row ∷ []) h.rows.1 (k, tt),
        );
      })
    ];
  }

  create_batch-Keeps :
      (row : Payroll)
      → IsCanonical calendar format row
      → Keeps (HasOnePerMonth calendar format) (create_batch row)
  unfolding create_batch
  create_batch-Keeps row k = Keeps-bind _ _ (Keeps-statement tick) λ _. insert_batch-Keeps row k

  -- An update that leaves the periods.
  module _ (wanted : Payroll → Bool) (change : Payroll → Payroll)
      (same : (p : Payroll) → (change p).period ≡ p.period) where
    same_month :
        (b : Bool) (q : Payroll) → month calendar (if b then change q else q) ≡ month calendar q
    same_month true q = ap (λ n. calendar.start_of n) (same q)
    same_month false q = refl

    others :
        (m : Option ℕ) (rows : List Payroll)
        → All (λ q. month calendar q ≢ m) rows
        → All (λ q. month calendar q ≢ m) (update_where wanted change rows)
    others m [] h = tt
    others m (q ∷ rows) h = (λ e. h.0 (sym (same_month (wanted q) q) ∙ e), others m rows h.1)

    same_months :
        (rows : List Payroll)
        → OncePerMonth calendar rows
        → OncePerMonth calendar (update_where wanted change rows)
    same_months [] h = tt
    same_months (q ∷ rows) h = (
      subst (λ m. All (λ r. month calendar r ≢ m) (update_where wanted change rows))
          (sym (same_month (wanted q) q)) (others (month calendar q) rows h.0),
      same_months rows h.1,
    )

    still_prints :
        (rows : List Payroll)
        → All (IsCanonical calendar format) rows
        → All (IsCanonical calendar format) (update_where wanted change rows)
    still_prints [] h = tt
    still_prints (q ∷ rows) h = (go (wanted q), still_prints rows h.1)
      where
        go : (b : Bool) → IsCanonical calendar format (if b then change q else q)
        go true = record {
          start = h.0.start;
          parses = ap (λ n. calendar.start_of n) (same q) ∙ h.0.parses;
          prints = h.0.prints ∙ sym (same q);
        }
        go false = h.0

  total_row :
      (id : ℕ) (total : Kobo)
      → Keeps (HasOnePerMonth calendar format) (
          modify (λ s. record s {
            payrolls =
                update_where (λ p. p.id == id) (λ p. record p { total_amount = total }) s.payrolls;
          }))
  total_row id total = Keeps-modify _ (λ s h. record {
    rows = (
      same_months (λ p. p.id == id) (λ p. record p { total_amount = total }) (λ p. refl) s.payrolls
          h.rows.0,
      still_prints (λ p. p.id == id) (λ p. record p { total_amount = total }) (λ p. refl) s.payrolls
          h.rows.1,
    );
  })

  set_total-Keeps :
      (id : ℕ) (total : Kobo)
      → Keeps
          (HasOnePerMonth calendar format)
          (update_payrolls (λ p. p.id == id) (λ p. record p { total_amount = total }))
  unfolding update_payrolls
  set_total-Keeps id total = search (once_rules, total_row)

  -- A period that passes ValidatePeriod.
  pub record Passes (period : ℕ) : Type 0 where
    pub start : ℕ
    pub parses : calendar.start_of period ≡ some start
    pub prints : format start ≡ period

  validate_period-Keeps :
      (period : ℕ) → Keeps (HasOnePerMonth calendar format) (validate_period calendar format period)
  unfolding validate_period
  validate_period-Keeps period = go (calendar.start_of period)
    where
      go :
          (start : Option ℕ)
          → Keeps {A = Unit {0}} (HasOnePerMonth calendar format) (elim start [
            | none ↦ fail invalid_period
            | some first ↦ fail_if (not (format first == period)) invalid_period
          ])
      go none = search keeps_rules
      go (some start) = search keeps_rules

  validate_period-Passes :
      (period : ℕ) (s t : Store) (a : Unit {0})
      → validate_period calendar format period s ≡ (ok a, t)
      → Passes period
  unfolding validate_period fail fail_if
  validate_period-Passes period s t a h = go (calendar.start_of period) refl h
    where
      go :
          (o : Option ℕ)
          → calendar.start_of period ≡ o
          → (let m : M (Unit {0}) = elim o [
            | none ↦ fail invalid_period
            | some start ↦ fail_if (not (format start == period)) invalid_period
          ] in
              m s)
            ≡ (ok a, t)
          → Passes period
      go none e k = absurd cc
      go (some start) e k = record {
        start = start;
        parses = e;
        prints = printed (format start == period) refl k;
      }
        where
          printed :
              (b : Bool)
              → (format start == period) ≡ b
              → (let r : Result (Unit {0}) × Store =
                    (if not b then err invalid_period else ok tt, s) in
                  r)
                ≡ (ok a, t)
              → format start ≡ period
          printed true same k = ground arith
          printed false same k = absurd cc

  create_payroll_tx-Keeps :
      (settles : Currency → Bool) (period : ℕ)
      → Passes period
      → Keeps (HasOnePerMonth calendar format) (create_payroll_tx calendar settles period)
  unfolding create_payroll_tx
  create_payroll_tx-Keeps settles period k =
      search (once_rules, created, pay_all-Keeps, set_total-Keeps) depth 16
    where
      created :
          (id : ℕ) → Keeps (HasOnePerMonth calendar format) (create_batch (new_payroll id period))
      created id =
          create_batch-Keeps (new_payroll id period)
            (record { start = k.start; parses = k.parses; prints = k.prints })

  after_validation :
      (settles : Currency → Bool) (queued : Bool) (period : ℕ)
      → Passes period
      → Keeps (HasOnePerMonth calendar format) (
          with_org_scope (create_payroll_tx calendar settles period) >>= λ payroll.
          fail_if (not queued) queue_unavailable >> pure payroll)
  after_validation settles queued period k =
      Keeps-bind _ _ (with_org_scope-Keeps _ tick (create_payroll_tx-Keeps settles period k))
        λ payroll. search keeps_rules

-- Every batch of an organization has the canonical text of a month as its period, and no two
-- batches are of the same month: where this holds, it holds after CreatePayroll too, whatever
-- period it is asked for and whether it returns or fails. Texts that parse to the same month are
-- not two periods, since ValidatePeriod refuses all but the one that the month prints as; that the
-- unique index on the payrolls table compares texts is part of the model.
pub create_payroll-HasOnePerMonth :
    (calendar : Calendar) (format : ℕ → ℕ) (settles : Currency → Bool) (queued : Bool) (period : ℕ)
    → Keeps (HasOnePerMonth calendar format) (create_payroll calendar format settles queued period)
unfolding create_payroll
create_payroll-HasOnePerMonth calendar format settles queued period =
    Keeps-checked _ _ (validate_period-Keeps calendar format period) λ s t a e.
      after_validation calendar format settles queued period
        (validate_period-Passes calendar format period s t a e)
