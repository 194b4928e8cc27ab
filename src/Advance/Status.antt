-- ===== src/Advance/Status.antt =====
-- internal/models/ewa.go: the legal edges of an advance's life.
use gopayrollengine.Base.{Bool, true, false, ◌||◌, List, [], ◌∷◌}
use gopayrollengine.Store.{
  AdvanceStatus, requested, approved, disbursed, settled, declined, cancelled, written_off,
  AdvanceStatus-discrete,
}

abbrev pub same_status : AdvanceStatus → AdvanceStatus → Bool
same_status a b = elim (AdvanceStatus-discrete a b) [ yes e ↦ true | no ne ↦ false ]

unfoldable pub valid_advance_transitions : AdvanceStatus → List AdvanceStatus
valid_advance_transitions requested = approved ∷ declined ∷ cancelled ∷ []
valid_advance_transitions approved = disbursed ∷ cancelled ∷ []
valid_advance_transitions disbursed = settled ∷ written_off ∷ []
valid_advance_transitions settled = []
valid_advance_transitions declined = []
valid_advance_transitions cancelled = []
valid_advance_transitions written_off = []

-- The loop over the allowed targets.
unfoldable pub allows : AdvanceStatus → List AdvanceStatus → Bool
allows to [] = false
allows to (allowed ∷ rest) = same_status allowed to || allows to rest

unfoldable pub can_transition_advance : AdvanceStatus → AdvanceStatus → Bool
unfolding valid_advance_transitions allows
can_transition_advance from to = allows to (valid_advance_transitions from)
