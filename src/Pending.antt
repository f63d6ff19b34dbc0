-- ===== src/Pending.antt =====
-- kernel/src/pending_requests.c: the table of pending user requests. Of a request only its `slot_used`
-- matters here. The table's lock is held for the whole of the search and is left out.
pub mod Slots
use mungi.Common.{ℕ, zero, suc, Bool, true, false, Option, none, some, if◌then◌else◌}
use mungi.Common.Arrays.{Array, update}
use mungi.Common.Checked.{Checked, done, panic}

abbrev pub max_pending_requests : ℕ
max_pending_requests = 64

-- The loop of `pending_requests_init`.
pub clear_slots : Array Bool → ℕ → Array Bool
clear_slots used zero = used
clear_slots used (suc n) = update (clear_slots used n) n false

unfoldable pub pending_requests_init : Array Bool → Array Bool
unfolding clear_slots
pending_requests_init used = clear_slots used max_pending_requests

-- The first slot that is not used, `rounds` rounds from index `i`.
pub first_free : Array Bool → ℕ → ℕ → Option ℕ
first_free used zero i = none
first_free used (suc rounds) i = elim (used i) [
  | false ↦ some i
  | true ↦ first_free used rounds (suc i)
]

-- The slot, and the table afterwards. A full table fails an assert.
pub pending_requests_get_slot : Array Bool → Checked (ℕ × Array Bool)
unfolding first_free
pending_requests_get_slot used = elim (first_free used max_pending_requests 0) [
  | none ↦ panic
  | some i ↦ done (i, update used i true)
]

unfoldable pub pending_requests_free_slot : Array Bool → ℕ → Array Bool
pending_requests_free_slot used i = update used i false
