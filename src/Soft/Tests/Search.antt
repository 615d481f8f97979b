-- ===== src/Soft/Tests/Search.antt =====
-- The theorem on the two searches at a concrete list.
use efficient_lock_free_dura.Common.{◌+◌, ◌≡◌, refl, [], ◌∷◌, arith}
use efficient_lock_free_dura.Soft.Utilities.{State}
use efficient_lock_free_dura.Soft.Memory.{nullptr, exec}
use efficient_lock_free_dura.Soft.List.{find_loop, int_min}
use efficient_lock_free_dura.Soft.Recovery.{quick_find}
use efficient_lock_free_dura.Soft.Find.{head_cell}
use efficient_lock_free_dura.Soft.Rebuild.Search.Equivalence.{with_state, soft_quick_find-find_loop}
use efficient_lock_free_dura.Soft.Tests.Calls.{one, five, one-IsList}

soft_quick_find-find_loop_example :
    with_state (exec (quick_find 3 (int_min + 9) 16 256) one)
    ≡ exec (find_loop 3 (int_min + 9) 16 256 State.inserted) one
soft_quick_find-find_loop_example =
    soft_quick_find-find_loop 3 one (head_cell 16 nullptr) (five ∷ []) (int_min + 9) one-IsList.here
      refl (omega arith)
