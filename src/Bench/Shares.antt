-- ===== src/Bench/Shares.antt =====
-- The number of keys that each thread of the benchmark inserts before the start.
use efficient_lock_free_dura.Common.{
  ℕ, zero, suc, ◌+◌, ◌-◌, ◌*◌, ◌/◌, ◌%◌, ◌^◌, ◌≤◌, ◌<◌, ◌≡◌, ◌∙◌, ap, refl, false, Option, none,
  some, ◌==◌, List, [], ◌∷◌, map, leb, if◌then◌else◌, arith,
}
use native.Mathlib.Nat.{div-add-mod', mod-lt, mul-le-mul_left, mul_comm}
use efficient_lock_free_dura.Bench.{ThreadArg, thread_args, total_ops}

-- Division of unsigned numbers, with nothing if it is by zero.
abbrev pub division : (a b : ℕ) → Option ℕ
division a b = if b == 0 then none else some (a / b)

abbrev pub over_option : (ℕ → ℕ) → Option ℕ → Option ℕ
over_option f none = none
over_option f (some a) = some (f a)

-- `missing`, of which each of the first threads takes one
unfoldable pub missing : (key_range num_threads num_elems_thread : ℕ) → ℕ
missing key_range num_threads num_elems_thread =
    (key_range / 2 + 2 ^ 32 - num_elems_thread * num_threads % 2 ^ 32) % 2 ^ 32

-- Without a thread there is no share: the division ends the program.
unfoldable pub share : (key_range num_threads id : ℕ) → Option ℕ
share key_range num_threads id =
    over_option
      (λ num_elems_thread.
        if leb id (missing key_range num_threads num_elems_thread)
        then (num_elems_thread + 1) % 2 ^ 32
        else num_elems_thread)
      (division (key_range / 2) num_threads)

abbrev pub sum : List ℕ → ℕ
sum [] = 0
sum (x ∷ xs) = x + sum xs

-- The sum of values all of which are there.
abbrev pub plus : Option ℕ → Option ℕ → Option ℕ
plus none b = none
plus (some a) none = none
plus (some a) (some b) = some (a + b)

abbrev pub sum_all : List (Option ℕ) → Option ℕ
sum_all [] = some 0
sum_all (x ∷ xs) = plus x (sum_all xs)

module _ (f : ℕ → Option ℕ) (q extra : ℕ)
    (f_eq : (id : ℕ) → f id ≡ some (if leb id extra then suc q else q)) where
  sum_all-thread_args :
      (set left j : ℕ)
      → suc extra ≤ j + left
      → sum_all (map (λ a. f a.tid) (thread_args set left j)) ≡ some (left * q + (suc extra - j))
  unfolding thread_args
  sum_all-thread_args set zero j h = ap some (omega (arith, h))
  sum_all-thread_args set (suc left) j h =
      rw (f_eq j, sum_all-thread_args set left (suc j) (omega (arith, h)))
        (ap some (ground (arith, h)))

module _ (key_range num_threads : ℕ) (some_threads : 0 < num_threads)
    (threads : num_threads < 2 ^ 31) (range : key_range < 2 ^ 32) where
  abbrev q : ℕ
  q = key_range / 2 / num_threads

  q-small : q * num_threads ≤ key_range / 2
  q-small = omega (arith, div-add-mod' (key_range / 2) num_threads)

  q-bound : q ≤ key_range / 2
  q-bound = omega (arith, q-small, mul-le-mul_left q some_threads)

  missing-lt : key_range / 2 - q * num_threads < num_threads
  missing-lt =
      omega (arith, div-add-mod' (key_range / 2) num_threads, mod-lt (key_range / 2) some_threads)

  missing-eq : missing key_range num_threads q ≡ key_range / 2 - q * num_threads
  unfolding missing
  missing-eq = omega (arith, q-small, range)

  share-eq :
      (id : ℕ)
      → share key_range num_threads id
        ≡ some (if leb id (missing key_range num_threads q) then suc q else q)
  unfolding share
  share-eq id =
      let parts : (num_threads == 0) ≡ false = ground (arith, some_threads) in
      let grown : (q + 1) % 2 ^ 32 ≡ suc q = omega (arith, range, q-bound) in rw (parts, grown) refl

  -- The shares of the threads that `runBench` starts, which are the numbers of keys that they
  -- insert before the calls are measured, add up to half of the range of keys. The conditions: the
  -- number of threads is a positive `int`, and the range of keys a `uint32_t`.
  pub share-thread_args :
      (set : ℕ)
      → sum_all (map (λ a. share key_range num_threads a.tid) (thread_args set num_threads 1))
        ≡ some (key_range / 2)
  share-thread_args set =
      sum_all-thread_args (share key_range num_threads) q (missing key_range num_threads q) share-eq
        set num_threads 1 (omega (arith, missing-eq, missing-lt))
      ∙ ap some (omega (arith, missing-eq, q-small, mul_comm q num_threads))

total_ops-from :
    (total : ℕ) (args : List ThreadArg)
    → total < 2 ^ 64
    → total_ops total args ≡ (total + sum (map (λ a. a.ops) args)) % 2 ^ 64
unfolding total_ops
total_ops-from total [] small = omega (arith, small)
total_ops-from total (a ∷ args) small =
    total_ops-from ((total + a.ops) % 2 ^ 64) args (omega arith) ∙ omega arith

-- The total that `runBench` adds up on a `uint64_t` is the sum of what the threads counted, modulo
-- 2^64.
pub total_ops-sum :
    (args : List ThreadArg) → total_ops 0 args ≡ sum (map (λ a. a.ops) args) % 2 ^ 64
total_ops-sum args = total_ops-from 0 args (omega arith) ∙ omega arith
