-- ===== src/LinkFree/Tests/Beyond.antt =====
-- The theorem on keys beyond the sentinel at a concrete list.
use efficient_lock_free_dura.Common.{◌+◌, ◌≡◌, refl, true, arith}
use efficient_lock_free_dura.Common.Prog.{done, fault}
use efficient_lock_free_dura.LinkFree.Memory.{write, exec}
use efficient_lock_free_dura.LinkFree.List.{contains, int_max}
use efficient_lock_free_dura.LinkFree.Help.{helped}
use efficient_lock_free_dura.LinkFree.Contains.Beyond.{contains-beyond}
use efficient_lock_free_dura.LinkFree.Tests.{two, two-IsList}

contains-beyond_example :
    (exec (contains 4 16 int_max) two ≡ done true (helped two 48))
    × (exec (contains 4 16 (int_max + 1)) two ≡ fault)
unfolding write
contains-beyond_example =
    contains-beyond two-IsList 4 (int_max + 1) (omega arith) refl (omega arith)
