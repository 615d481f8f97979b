-- ===== src/Soft/Tests/Beyond.antt =====
-- The theorem on keys beyond the sentinel at a concrete list.
use efficient_lock_free_dura.Common.{◌+◌, ◌≡◌, refl, true, arith}
use efficient_lock_free_dura.Common.Prog.{done, fault}
use efficient_lock_free_dura.Soft.Memory.{exec}
use efficient_lock_free_dura.Soft.List.{contains, int_max}
use efficient_lock_free_dura.Soft.Contains.Beyond.{soft_contains-beyond}
use efficient_lock_free_dura.Soft.Tests.Calls.{one, one-IsList}

soft_contains-beyond_example :
    (exec (contains 3 16 int_max) one ≡ done true one)
    × (exec (contains 3 16 (int_max + 1)) one ≡ fault)
soft_contains-beyond_example =
    soft_contains-beyond one-IsList 3 (int_max + 1) (omega arith) refl (omega arith)
