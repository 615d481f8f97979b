-- ===== src/Bench/Tests.antt =====
-- The theorems on the benchmark at concrete settings, with a generator that counts; its thread runs over
-- the link-free list.
use efficient_lock_free_dura.Common.{
  ℕ, ◌+◌, ◌*◌, ◌-◌, ◌/◌, ◌%◌, ◌^◌, ◌≤◌, ◌<◌, ◌≡◌, refl, true, false, none, some, ◌⊎◌, List, [], ◌∷◌,
  ◌++◌, map, arith,
}
use efficient_lock_free_dura.Common.Prog.{Returns, run, out_of_fuel}
use efficient_lock_free_dura.LinkFree.Memory.{perform}
use efficient_lock_free_dura.LinkFree.History.{InRange, Serving, run_call, implements}
use efficient_lock_free_dura.LinkFree.Construct.{construct}
use efficient_lock_free_dura.LinkFree.Tests.History.{chunk, zeroed, ready}
use efficient_lock_free_dura.Bench.{
  Settings, ThreadArg, defaults, switch_r, switch_m, switch_h, parse_args, thread_args, total_ops,
}
use efficient_lock_free_dura.Bench.Shares.{
  missing, share, sum, sum_all, share-thread_args, total_ops-sum,
}
use efficient_lock_free_dura.Bench.Ratios.{thread_mix, thread_ratios_mix}
use efficient_lock_free_dura.Bench.Thread.{key_of, bench_ops_thread}
use efficient_lock_free_dura.Bench.Fill.{new_draws}
use efficient_lock_free_dura.Bench.Work.{AllAllowed, Ran, stop_after, bench_ops_thread-Ran}
use efficient_lock_free_dura.Bench.Parse.{last_settings, parse_args-last}

share-thread_args_example :
    sum_all (map (λ a. share 1024 3 a.tid) (thread_args 64 3 1)) ≡ some (1024 / 2)
share-thread_args_example = share-thread_args 1024 3 (omega arith) (omega arith) (omega arith) 64

parse_args-last_example :
    (parse_args (λ text. 7) defaults (switch_r "7" ∷ switch_m "7" ∷ [])
      ≡ (true, last_settings (λ text. 7) defaults (switch_r "7" ∷ switch_m "7" ∷ [])))
    × (parse_args (λ text. 7) defaults ((switch_r "7" ∷ switch_m "7" ∷ []) ++ switch_h ∷ [])
        ≡ (false, last_settings (λ text. 7) defaults (switch_r "7" ∷ switch_m "7" ∷ [])))
parse_args-last_example =
    parse_args-last (λ text. 7) defaults (switch_r "7" ∷ switch_m "7" ∷ []) (refl, (refl, tt))
      switch_h [] refl

abbrev counter : ℕ → ℕ × ℕ
counter seed = (seed, seed + 1)

-- One thread on four keys, half of its calls on `contains`.
abbrev small : Settings
small = record defaults { ro_ratio = 50; key_range = 4 }

four_keys : (k : ℕ) → k < 4 → AllAllowed InRange (key_of k)
four_keys k inside c same_key = ground arith

share_two : share 4 1 1 ≡ some 2
unfolding share missing
share_two = refl

-- Without a thread the division ends the program.
no_thread : share 4 0 1 ≡ none
unfolding share
no_thread = refl

bench_ops_thread-Ran_example :
    ((2 ≤ new_draws counter 4 2 ((1 + 1) % 2 ^ 32) (λ k. false))
      × Returns
          (λ ops m'.
            (ops ≡ 1 % 2 ^ 64) × Ran counter small 1 (Serving chunk 16 48 9) 2 1 0 (λ k. false) m')
          (run perform
            (bench_ops_thread counter (run_call 1 9 16) small 1 2 (stop_after 1))
            (construct 16 48 zeroed)))
    ⊎ ((new_draws counter 4 2 ((1 + 1) % 2 ^ 32) (λ k. false) < 2)
        × (run perform
              (bench_ops_thread counter (run_call 1 9 16) small 1 2 (stop_after 1))
              (construct 16 48 zeroed)
            ≡ out_of_fuel))
bench_ops_thread-Ran_example =
    bench_ops_thread-Ran counter small 1 (implements chunk 16 48 0 9) four_keys (omega arith)
      (omega arith) (omega arith) 2 1 0 (λ k. false) (construct 16 48 zeroed) share_two ready

-- The generator draws enough, so it is the first case.
enough_draws : 2 ≤ new_draws counter 4 2 2 (λ k. false)
unfolding new_draws
enough_draws = omega arith

thread_ratios_mix_example :
    thread_mix 90
    ≡ some (record { look_ups = 10 * 90; inserts = 5 * (100 - 90); removes = 5 * (100 - 90) })
thread_ratios_mix_example = thread_ratios_mix 90 (omega arith)

abbrev done_twice : List ThreadArg
done_twice = record { tid = 1; set = 64; ops = 5 } ∷ record { tid = 2; set = 64; ops = 7 } ∷ []

total_ops-sum_example : total_ops 0 done_twice ≡ sum (map (λ a. a.ops) done_twice) % 2 ^ 64
total_ops-sum_example = total_ops-sum done_twice
