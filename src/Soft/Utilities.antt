-- ===== src/Soft/Utilities.antt =====
-- SOFT/utilities.h: the state of a node, in the two lowest digits of a pointer. A pointer is the number
-- that `(uintptr_t)` gives for it.
use efficient_lock_free_dura.Common.{ℕ, zero, suc, ◌+◌, ◌-◌, ◌%◌, Bool, ◌==◌, ◌||◌}

-- `enum state`
pub data State : Type 0 where
  inserted : State
  intend_to_delete : State
  intend_to_insert : State
  deleted : State

abbrev pub code : State → ℕ
code State.inserted = 0
code State.intend_to_delete = 1
code State.intend_to_insert = 2
code State.deleted = 3

-- The cast of `& STATE_MASK`, a number below 4, to the enumeration
abbrev pub to_state : ℕ → State
to_state zero = State.inserted
to_state (suc zero) = State.intend_to_delete
to_state (suc (suc zero)) = State.intend_to_insert
to_state (suc (suc (suc n))) = State.deleted

unfoldable pub get_ref : ℕ → ℕ
get_ref ptr = ptr - ptr % 4

unfoldable pub create_ref : ℕ → State → ℕ
unfolding get_ref
create_ref p s = get_ref p + code s

unfoldable pub get_state : ℕ → State
get_state p = to_state (p % 4)

-- `==` on states
abbrev pub is : State → State → Bool
is s t = code s == code t

unfoldable pub is_out : State → Bool
is_out s = is s State.deleted || is s State.intend_to_insert
