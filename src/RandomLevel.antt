-- ===== src/RandomLevel.antt =====
-- SLBench.cpp: `get_random_level`, the height of a new tower. `rand_r_32` of include/rand_r_32.h gives a
-- result and the next seed.
mod Tests
use efficient_lock_free_dura.Common.{
  ℕ, zero, suc, ◌+◌, ◌-◌, ◌≤◌, Bool, ltb, bit_and, if◌then◌else◌, arith, Bool-cases, inl, inr,
}
use efficient_lock_free_dura.LinkFree.SkipList.Memory.{max_level}

module _ (rand_r_32 : ℕ → ℕ × ℕ) where
  -- The loop, `count` rounds left.
  unfoldable pub level_loop : (count level seed : ℕ) → ℕ × ℕ
  level_loop zero level seed = (level, seed)
  level_loop (suc count) level seed =
      let drawn = rand_r_32 seed in
      if ltb (bit_and drawn.0 0xff) 128
      then level_loop count (suc level) drawn.1
      else (level, drawn.1)

  unfoldable pub get_random_level : ℕ → ℕ × ℕ
  get_random_level seed = level_loop (max_level - 1) 1 seed

  level_loop-bounds :
      (count level seed : ℕ)
      → (level ≤ (level_loop count level seed).0)
        × ((level_loop count level seed).0 ≤ level + count)
  unfolding level_loop
  level_loop-bounds zero level seed = (omega arith, omega arith)
  level_loop-bounds (suc count) level seed =
      let drawn = rand_r_32 seed in
      elim (Bool-cases (ltb (bit_and drawn.0 0xff) 128)) [
        | inl again ↦
            let rest = level_loop-bounds count (suc level) drawn.1 in
            rw again (omega (arith, rest.0), omega (arith, rest.1))
        | inr over ↦ rw over (omega arith, omega arith)
      ]

  -- Whatever the random numbers are, a new tower has at least one level and at most MAX_LEVEL, the length
  -- of its array of links.
  pub get_random_level-bounds :
      (seed : ℕ) → (1 ≤ (get_random_level seed).0) × ((get_random_level seed).0 ≤ max_level)
  unfolding get_random_level
  get_random_level-bounds seed = level_loop-bounds (max_level - 1) 1 seed
