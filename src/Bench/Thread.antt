-- ===== src/Bench/Thread.antt =====
-- `benchOpsThread`, a thread of the benchmark: it fills the set, then makes calls until it is told to stop.
-- The generator `rand_r_32` gives a result and the next seed. What pins the thread to a processor, sets
-- up its allocator and waits for the other threads touches no set, and is left out.
use efficient_lock_free_dura.Common.{
  ℕ, zero, suc, ◌+◌, ◌-◌, ◌%◌, ◌^◌, ◌≡◌, ◌∙◌, ap, Bool, true, false, Option, none, some, List, [],
  ◌∷◌, ltb, ◌==◌, if◌then◌else◌,
}
use efficient_lock_free_dura.Common.Prog.{Prog, ret, stop, abort, ◌>>=◌}
use efficient_lock_free_dura.SetSpec.{Call, to_insert}
use efficient_lock_free_dura.Bench.{Settings}
use efficient_lock_free_dura.Bench.Shares.{share}
use efficient_lock_free_dura.Bench.Ratios.{Ratios, thread_ratios, choose}

-- An `int` with its 32-bit pattern, as a key of a set: its distance from INTPTR_MIN.
abbrev pub key_of : (pattern : ℕ) → ℕ
key_of p = if ltb p (2 ^ 31) then 2 ^ 63 + p else 2 ^ 63 - 2 ^ 32 + p

-- What a thread draws for a round: the number that decides on the call, the key, and the next seeds.
pub record Draw : Type 0 where
  pub call : Call
  pub seed1 : ℕ
  pub seed2 : ℕ

module _ (rand_r_32 : ℕ → ℕ × ℕ) where
  abbrev pub draw_key : (key_range seed2 : ℕ) → ℕ
  draw_key key_range seed2 = key_of ((rand_r_32 seed2).0 % key_range)

  unfoldable pub draw : Ratios → (key_range id seed1 seed2 : ℕ) → Draw
  draw ratios key_range id seed1 seed2 = record {
    call = choose ratios ((rand_r_32 seed1).0 % 1000) (draw_key key_range seed2) id;
    seed1 = (rand_r_32 seed1).1;
    seed2 = (rand_r_32 seed2).1;
  }

  module _ {Op : Type 0} {Res : Op → Type 0} (run_call : Call → Prog Op Res Bool) where
    -- The loop that inserts `to_go` more keys, on fuel, and returns the next seed. A remainder by zero
    -- ends the program.
    unfoldable pub prefill : (key_range id fuel to_go seed2 : ℕ) → Prog Op Res ℕ
    prefill key_range id fuel zero seed2 = ret seed2
    prefill key_range id zero (suc to_go) seed2 = stop
    prefill key_range id (suc fuel) (suc to_go) seed2 = if key_range == 0 then abort else (do
      added ← run_call (to_insert (draw_key key_range seed2) id)
      prefill key_range id fuel (if added then to_go else suc to_go) (rand_r_32 seed2).1)

    -- The loop of calls. The list holds what the loop reads from `bench_stop`, round by round.
    unfoldable pub work :
        Ratios → (key_range id : ℕ) → List Bool → (seed1 seed2 ops : ℕ) → Prog Op Res ℕ
    work ratios key_range id [] seed1 seed2 ops = stop
    work ratios key_range id (true ∷ reads) seed1 seed2 ops = ret ops
    work ratios key_range id (false ∷ reads) seed1 seed2 ops = if key_range == 0 then abort else (do
      let drawn = draw ratios key_range id seed1 seed2
      answer ← run_call drawn.call
      work ratios key_range id reads drawn.seed1 drawn.seed2 ((ops + 1) % 2 ^ 64))

    -- What has no value ends the program: an `int` that overflows, a division by zero.
    abbrev with_value : {A : Type 0} → Option A → (A → Prog Op Res ℕ) → Prog Op Res ℕ
    with_value none rest = abort
    with_value (some a) rest = rest a

    -- The two loops, with the numbers that are computed before them.
    unfoldable pub bench_loops : Settings → Ratios → (id fuel to_go : ℕ) → List Bool → Prog Op Res ℕ
    bench_loops s ratios id fuel to_go reads = do
      seed2 ← prefill s.key_range id fuel to_go ((id + 1) % 2 ^ 32)
      work ratios s.key_range id reads id seed2 0

    unfoldable pub bench_ops_thread : Settings → (id fuel : ℕ) → List Bool → Prog Op Res ℕ
    bench_ops_thread s id fuel reads = with_value (thread_ratios s.ro_ratio) λ ratios.
        with_value (share s.key_range s.num_threads id)
          λ to_go. bench_loops s ratios id fuel to_go reads

    pub bench_ops_thread-some :
        (s : Settings) (id fuel : ℕ) (reads : List Bool) {ratios : Ratios} {to_go : ℕ}
        → thread_ratios s.ro_ratio ≡ some ratios
        → share s.key_range s.num_threads id ≡ some to_go
        → bench_ops_thread s id fuel reads ≡ bench_loops s ratios id fuel to_go reads
    unfolding bench_ops_thread
    bench_ops_thread-some s id fuel reads {ratios} e d =
        ap
          (λ r. with_value r λ ratios.
            with_value (share s.key_range s.num_threads id)
              λ to_go. bench_loops s ratios id fuel to_go reads)
          e
        ∙ ap (λ r. with_value r λ to_go. bench_loops s ratios id fuel to_go reads) d
