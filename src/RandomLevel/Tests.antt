-- ===== src/RandomLevel/Tests.antt =====
-- The bounds of the height of a tower, with a generator that counts.
use efficient_lock_free_dura.Common.{ℕ, ◌+◌, ◌≤◌}
use efficient_lock_free_dura.LinkFree.SkipList.Memory.{max_level}
use efficient_lock_free_dura.RandomLevel.{get_random_level, get_random_level-bounds}

abbrev counter : ℕ → ℕ × ℕ
counter seed = (seed, seed + 1)

get_random_level-bounds_example :
    (1 ≤ (get_random_level counter 120).0) × ((get_random_level counter 120).0 ≤ max_level)
get_random_level-bounds_example = get_random_level-bounds counter 120
