-- ===== src/Timesheet/Paid.antt =====
-- The entries that payroll pays for, and their mark (internal/models/time_entry.go,
-- internal/services/hourly_pay_service.go).
use gopayrollengine.Base.{
  ℕ, ◌≡◌, refl, ◌∙◌, ap, sym, false, List, [], ◌∷◌, ◌++◌, map, some, arith, Bool-cases, inl, inr,
  ◌⊎◌,
}
use mathlib.Core.List.{append-nil, append_assoc}
use gopayrollengine.Base.Lists.{All, select}
use gopayrollengine.Base.Result.{ok}
use gopayrollengine.Money.{Kobo}
use gopayrollengine.Store.{TimeEntry, PayrollPolicy, Store, M, ◌>>=◌}
use gopayrollengine.Store.Yields.{Yields, Yields-pure, Yields-bind, Yields-chain}
use gopayrollengine.Advance.{update_where}
use gopayrollengine.Timesheet.{Calendar, among, is_unpaid, mark_time_entries_paid, update_entries}
use gopayrollengine.Timesheet.Hourly.{Run, no_run, pay_entry, pay_entries}

-- The update of the paid column.
abbrev marked : List ℕ → ℕ → List TimeEntry → List TimeEntry
marked ids item rows =
    update_where (λ e. among ids e.id) (λ e. record e { paid_payroll_item_id = some item }) rows

marked-unpaid :
    (ids : List ℕ) (item employee upper : ℕ) (rows : List TimeEntry)
    → All (λ e. among ids e.id ≡ false) (select (is_unpaid employee upper) (marked ids item rows))
marked-unpaid ids item employee upper [] = tt
marked-unpaid ids item employee upper (e ∷ rows) = elim (Bool-cases (among ids e.id)) [
  | inl hit ↦ rw hit (ground (arith, marked-unpaid ids item employee upper rows))
  | inr miss ↦ rw miss (ground (arith, marked-unpaid ids item employee upper rows, miss))
]

mark-writes :
    (ids : List ℕ) (item : ℕ) (s t : Store)
    → mark_time_entries_paid ids item s ≡ (ok tt, t)
    → ((ids ≡ []) × (t ≡ s)) ⊎ (t.time_entries ≡ marked ids item s.time_entries)
unfolding mark_time_entries_paid update_entries ◌>>=◌
mark-writes [] item s t h = ground arith
mark-writes (a ∷ ids) item s t h = ground arith

none_among : (rows : List TimeEntry) → All (λ e. among [] e.id ≡ false) rows
none_among [] = tt
none_among (e ∷ rows) = (refl, none_among rows)

-- Once MarkTimeEntriesPaid has returned, no query for unpaid entries, of any worker and up to any
-- day, returns one of the entries that it was given.
pub marked-never-unpaid :
    (ids : List ℕ) (item : ℕ) (s t : Store)
    → mark_time_entries_paid ids item s ≡ (ok tt, t)
    → (employee upper : ℕ)
    → All (λ e. among ids e.id ≡ false) (select (is_unpaid employee upper) t.time_entries)
marked-never-unpaid ids item s t h employee upper = elim (mark-writes ids item s t h) [
  | inl (nothing, same) ↦ rw nothing (none_among _)
  | inr rows ↦ rw rows (marked-unpaid ids item employee upper s.time_entries)
]

abbrev ids_of : List TimeEntry → List ℕ
ids_of entries = map (λ (e : TimeEntry). e.id) entries

pay_entry-id :
    (calendar : Calendar) (policy : PayrollPolicy) (employee : ℕ) (rate : Kobo) (entry : TimeEntry)
    (run : Run)
    → Yields
        (λ r. r.entry_ids ≡ run.entry_ids ++ entry.id ∷ [])
        (pay_entry calendar policy employee rate entry run)
unfolding pay_entry
pay_entry-id calendar policy employee rate entry run = Yields-bind _ _ λ before.
    Yields-bind _ _
      λ shift_rate. Yields-bind _ _ λ base. Yields-bind _ _ λ premiums. Yields-pure _ refl

-- The identifiers that the loop collects.
pay_entries-ids :
    (calendar : Calendar) (policy : PayrollPolicy) (employee : ℕ) (rate : Kobo)
    (entries : List TimeEntry) (run : Run)
    → Yields
        (λ r. r.entry_ids ≡ run.entry_ids ++ ids_of entries)
        (pay_entries calendar policy employee rate entries run)
unfolding pay_entries
pay_entries-ids calendar policy employee rate [] run =
    Yields-pure run (sym (append-nil run.entry_ids))
pay_entries-ids calendar policy employee rate (entry ∷ rest) run =
    Yields-chain _ (pay_entry calendar policy employee rate entry run) _
      (pay_entry-id calendar policy employee rate entry run)
      λ next e. widen next e (pay_entries-ids calendar policy employee rate rest next)
  where
    widen :
        (next : Run)
        → next.entry_ids ≡ run.entry_ids ++ entry.id ∷ []
        → {m : M Run} → Yields (λ r. r.entry_ids ≡ next.entry_ids ++ ids_of rest) m
        → Yields (λ r. r.entry_ids ≡ run.entry_ids ++ ids_of (entry ∷ rest)) m
    widen next e y = record {
      at = λ s t r h.
          y.at s t r h
          ∙ ap (λ ids. ids ++ ids_of rest) e
          ∙ append_assoc run.entry_ids (entry.id ∷ []) (ids_of rest);
    }

-- The loop of ComputeHourlyGross, when it returns, has collected the identifier of every entry
-- that it was given, each once and in their order.
pub pay_entries-all :
    (calendar : Calendar) (policy : PayrollPolicy) (employee : ℕ) (rate : Kobo)
    (entries : List TimeEntry) (s t : Store) (r : Run)
    → pay_entries calendar policy employee rate entries no_run s ≡ (ok r, t)
    → r.entry_ids ≡ map (λ (e : TimeEntry). e.id) entries
pay_entries-all calendar policy employee rate entries s t r h =
    (pay_entries-ids calendar policy employee rate entries no_run).at s t r h
