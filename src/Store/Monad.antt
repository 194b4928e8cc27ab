-- ===== src/Store/Monad.antt =====
-- Running statements: a result and the new state. A statement may fail for reasons of the
-- database's own, at moments that the model does not choose (`faulty`).
use gopayrollengine.Base.{
  ℕ, ◌+◌, ◌≡◌, refl, Bool, true, false, Option, none, some, List, if◌then◌else◌,
}
use gopayrollengine.Base.Result.{Result, ok, err, Error, database}
use gopayrollengine.Money.Currency.{Currency}
use gopayrollengine.Store.Rows.{
  LedgerAccount, LedgerTransaction, LedgerEntry, EwaAdvance, Payroll, PayrollItem, AuditEvent,
  EwaSavingsPreference, EwaWorkerPreference, EwaPolicy, TimeEntry, PayrollPolicy, Employee,
  EwaHardshipGrant, D2cDebitCollection, D2cBankLink, ConsentRecord, EwaBill,
}

pub record Store : Type 0 where
  pub org_currency : Option Currency
  pub accounts : List LedgerAccount
  pub transactions : List LedgerTransaction
  pub entries : List LedgerEntry
  pub advances : List EwaAdvance
  pub payrolls : List Payroll
  pub items : List PayrollItem
  pub audits : List AuditEvent
  pub savings : List EwaSavingsPreference
  pub preferences : List EwaWorkerPreference
  pub policy : Option EwaPolicy
  pub time_entries : List TimeEntry
  pub payroll_policy : Option PayrollPolicy
  pub employees : List Employee
  pub grants : List EwaHardshipGrant
  pub collections : List D2cDebitCollection
  pub links : List D2cBankLink
  pub consents : List ConsentRecord
  pub bills : List EwaBill
  -- The time that time.Now() reads.
  pub now : ℕ
  -- The identifiers that uuid.New() draws, and the statements that fail, by their number.
  pub uuid : ℕ → ℕ
  pub faulty : ℕ → Bool
  pub tick : ℕ

-- An action returns or fails, and gives the state that it leaves.
abbrev pub M {ℓ} : Type ℓ → Type ℓ
M A = Store → Result A × Store

module _ {ℓ} {A : Type ℓ} where
  unfoldable pub pure : A → M A
  pure a s = (ok a, s)

  unfoldable pub fail : Error → M A
  fail e s = (err e, s)

  unfoldable pub lift : Result A → M A
  lift r s = (r, s)

  unfoldable pub gets : (Store → A) → M A
  gets f s = (ok (f s), s)

  unfoldable pub or_fail : Option A → Error → M A
  or_fail none e s = (err e, s)
  or_fail (some a) e s = (ok a, s)

unfoldable pub modify : (Store → Store) → M (Unit {0})
modify f s = (ok tt, f s)

-- An early return of an error.
unfoldable pub fail_if : Bool → Error → M (Unit {0})
fail_if c e s = (if c then err e else ok tt, s)

-- One statement: it is counted, and may fail.
unfoldable pub statement : M (Unit {0})
statement s = (if s.faulty s.tick then err database else ok tt, record s { tick = s.tick + 1 })

-- An identifier that is drawn.
unfoldable pub draw_id : M ℕ
draw_id s = (ok (s.uuid s.tick), record s { tick = s.tick + 1 })

-- A branch on whether a query found a row.
unfoldable pub if_found {ℓ κ} : {A : Type ℓ} {B : Type κ} → Option A → M B → (A → M B) → M B
if_found none absent present = absent
if_found (some a) absent present = present a

module _ {ℓ κ} {A : Type ℓ} {B : Type κ} where
  abbrev pub proceed : Result A → (A → M B) → M B
  proceed (ok a) f s = f a s
  proceed (err e) f s = (err e, s)

  infixl 5 ◌>>=◌ ◌>>◌
  -- Opening this opens the actions above too.
  unfoldable pub ◌>>=◌ : M A → (A → M B) → M B
  unfolding pure fail lift gets or_fail modify fail_if statement draw_id if_found
  ◌>>=◌ m f s = let (r, s') = m s in proceed r f s'

  abbrev pub ◌>>◌ : M A → M B → M B
  m >> n = m >>= λ _. n

  pub bind-ok :
      (m : M A) (f : A → M B) (s : Store) {b : B} {t : Store}
      → (m >>= f) s ≡ (ok b, t)
      → (a : A) × (s' : Store) × (m s ≡ (ok a, s')) × (f a s' ≡ (ok b, t))
  unfolding ◌>>=◌
  bind-ok m f s {b} {t} h = split (m s).0 (m s).1 refl h
    where
      split :
          (r : Result A) (s' : Store)
          → m s ≡ (r, s')
          → proceed r f s' ≡ (ok b, t)
          → (a : A) × (s' : Store) × (m s ≡ (ok a, s')) × (f a s' ≡ (ok b, t))
      split (ok a) s' e h = (a, s', e, h)
      split (err x) s' e h = absurd (cc)

-- `if err != nil && !errors.Is(err, ErrStaleStatus)`: a lost race is no error.
abbrev pub ignore_stale_from : Result (Unit {0}) × Store → Result (Unit {0}) × Store
ignore_stale_from (ok a, s) = (ok a, s)
ignore_stale_from (err Error.stale_status, s) = (ok tt, s)
ignore_stale_from (err e, s) = (err e, s)

unfoldable pub ignore_stale : M (Unit {0}) → M (Unit {0})
ignore_stale m s = ignore_stale_from (m s)

abbrev pub race_lost_from {ℓ} : {A : Type ℓ} → Result A × Store → Result Bool × Store
race_lost_from (ok a, s) = (ok false, s)
race_lost_from (err Error.stale_status, s) = (ok true, s)
race_lost_from (err e, s) = (err e, s)

-- An `if err != nil` that passes every error on but ErrStaleStatus, and its `else`: the result
-- says which.
unfoldable pub race_lost {ℓ} : {A : Type ℓ} → M A → M Bool
race_lost m s = race_lost_from (m s)

abbrev pub rolled_back {ℓ} : {A : Type ℓ} → Store → Result A × Store → Result A × Store
rolled_back s (ok a, s') = (ok a, s')
rolled_back s (err e, s') = (err e, record s { tick = s'.tick })

-- BEGIN, set_config, the body, and COMMIT, which fails where a deferred constraint does.
unfoldable pub in_transaction {ℓ} : {A : Type ℓ} → M A → M A
in_transaction m = do statement; statement; a ← m; statement; pure a

-- WithOrgScope: an error, that of the COMMIT included, rolls every write back.
unfoldable pub with_org_scope {ℓ} : {A : Type ℓ} → M A → M A
unfolding in_transaction
with_org_scope m s = rolled_back s (in_transaction m s)
