-- ===== src/Bench/Work.antt =====
-- The loop of calls of `benchOpsThread`, and the whole thread over a set that keeps its interface.
use efficient_lock_free_dura.Common.{
  ℕ, zero, suc, ◌+◌, ◌-◌, ◌%◌, ◌^◌, ◌≤◌, ◌<◌, ◌≡◌, ◌∙◌, ap, subst, refl, Bool, true, false, List,
  [], ◌∷◌, ◌==◌, ◌⊎◌, inl, inr, leb, Bool-cases, Option, some, arith,
}
use native.Mathlib.Nat.{mod-lt}
use efficient_lock_free_dura.Common.Prog.{
  Prog, run, Returns, returns, Returns-bind, Returns-mono, run-bind, out_of_fuel,
}
use efficient_lock_free_dura.SetSpec.{
  Call, to_insert, call_key, Keys, set_after, final_set, Implements,
}
use efficient_lock_free_dura.Bench.{Settings}
use efficient_lock_free_dura.Bench.Shares.{share}
use efficient_lock_free_dura.Bench.Ratios.{Ratios, percent, thread_ratios-percent, choose-key}
use efficient_lock_free_dura.Bench.Thread.{
  key_of, draw_key, draw, work, prefill, bench_loops, bench_ops_thread, bench_ops_thread-some,
}
use efficient_lock_free_dura.Bench.Fill.{size_below, new_draws, prefill-Filled, prefill-short}

-- What the loop reads from `bench_stop` when it is set after `rounds` rounds.
abbrev pub stop_after : (rounds : ℕ) → List Bool
stop_after zero = true ∷ []
stop_after (suc rounds) = false ∷ stop_after rounds

-- The set allows each call on the key.
abbrev pub AllAllowed : (Call → Type 0) → ℕ → Type 0
AllAllowed allowed key = (c : Call) → call_key c ≡ key → allowed c

module _ (rand_r_32 : ℕ → ℕ × ℕ) (ratios : Ratios) (key_range id : ℕ) where
  -- The calls of the rounds.
  unfoldable pub drawn_calls : (rounds seed1 seed2 : ℕ) → List Call
  drawn_calls zero seed1 seed2 = []
  drawn_calls (suc rounds) seed1 seed2 =
      let drawn = draw rand_r_32 ratios key_range id seed1 seed2 in
      drawn.call ∷ drawn_calls rounds drawn.seed1 drawn.seed2

  draw-key :
      (seed1 seed2 : ℕ)
      → call_key (draw rand_r_32 ratios key_range id seed1 seed2).call
        ≡ draw_key rand_r_32 key_range seed2
  unfolding draw
  draw-key seed1 seed2 =
      choose-key ratios ((rand_r_32 seed1).0 % 1000) (draw_key rand_r_32 key_range seed2) id

  module _ {Op : Type 0} {Res : Op → Type 0} {S : Type 0}
      {perform : (o : Op) → S → Option (Res o × S)} {run_call : Call → Prog Op Res Bool}
      {usable : Keys → ℕ → S → Type 0} {allowed : Call → Type 0}
      (impl : Implements perform run_call usable allowed)
      (range_allowed : (k : ℕ) → k < key_range → AllAllowed allowed (key_of k))
      (range_pos : 0 < key_range) where
    work-rounds :
        (rounds budget seed1 seed2 ops : ℕ) (s : Keys) (m : S)
        → ops < 2 ^ 64
        → usable s (rounds + budget) m
        → Returns
            (λ ops' m'.
              (ops' ≡ (ops + rounds) % 2 ^ 64)
              × usable (final_set s (drawn_calls rounds seed1 seed2)) budget m')
            (run perform
              (work rand_r_32 run_call ratios key_range id (stop_after rounds) seed1 seed2 ops)
              m)
    unfolding work drawn_calls
    work-rounds zero budget seed1 seed2 ops s m small u =
        returns (omega (arith, small), subst (λ n. usable s n m) (omega arith) u)
    work-rounds (suc rounds) budget seed1 seed2 ops s m small u =
        let ready : usable s (suc (rounds + budget)) m =
          subst (λ n. usable s n m) (omega arith) u in
        let some_range : (key_range == 0) ≡ false = ground (arith, range_pos) in
        let drawn = draw rand_r_32 ratios key_range id seed1 seed2 in
        rw some_range (
          Returns-bind perform (run_call drawn.call) _ m
            (impl.serves drawn.call s (rounds + budget) m
              (range_allowed _ (mod-lt (rand_r_32 seed2).0 range_pos) drawn.call
                (draw-key seed1 seed2))
              ready)
            λ answer m' (eq, u').
              Returns-mono
                (work-rounds rounds budget drawn.seed1 drawn.seed2 ((ops + 1) % 2 ^ 64)
                  (set_after drawn.call s) m' (omega arith) u')
                λ ops' m'' (total, u''). (total ∙ omega arith, u''))

module _ (rand_r_32 : ℕ → ℕ × ℕ) (settings : Settings) (id : ℕ) where
  -- What the thread leaves after `rounds` rounds: it filled the set with `to_go` new keys, then made
  -- the calls that it drew.
  pub record Ran {S : Type 0} (usable : Keys → ℕ → S → Type 0) (to_go rounds budget : ℕ) (s : Keys)
      (m' : S) : Type 0 where
    pub filled : Keys
    pub seed2 : ℕ
    pub left : ℕ
    pub size : size_below filled settings.key_range ≡ to_go + size_below s settings.key_range
    pub kept : (j : ℕ) → s j ≡ true → filled j ≡ true
    pub enough : budget ≤ left
    pub usable_after :
        usable
          (final_set filled (
            drawn_calls rand_r_32
              (percent settings.ro_ratio)
              settings.key_range
              id
              rounds
              id
              seed2))
          left
          m'

  module _ {Op : Type 0} {Res : Op → Type 0} {S : Type 0}
      {perform : (o : Op) → S → Option (Res o × S)} {run_call : Call → Prog Op Res Bool}
      {usable : Keys → ℕ → S → Type 0} {allowed : Call → Type 0}
      (impl : Implements perform run_call usable allowed)
      (range_allowed : (k : ℕ) → k < settings.key_range → AllAllowed allowed (key_of k))
      (range_pos : 0 < settings.key_range) (range_small : settings.key_range ≤ 2 ^ 32)
      (ro_small : settings.ro_ratio ≤ 100) where
    loops-Ran :
        (fuel rounds budget : ℕ) {to_go : ℕ} (s : Keys) (m : S)
        → to_go ≤ new_draws rand_r_32 settings.key_range fuel ((id + 1) % 2 ^ 32) s
        → usable s (fuel + (rounds + budget)) m
        → Returns
            (λ ops m'. (ops ≡ rounds % 2 ^ 64) × Ran usable to_go rounds budget s m')
            (run perform
              (bench_loops rand_r_32 run_call settings
                (percent settings.ro_ratio)
                id
                fuel
                to_go
                (stop_after rounds))
              m)
    unfolding bench_loops
    loops-Ran fuel rounds budget {to_go} s m enough u =
        Returns-bind perform
          (prefill rand_r_32 run_call settings.key_range id fuel to_go ((id + 1) % 2 ^ 32)) _ m
          (prefill-Filled rand_r_32 settings.key_range impl id
            (λ k inside. range_allowed k inside (to_insert (key_of k) id) refl) range_pos
            range_small fuel to_go (rounds + budget) ((id + 1) % 2 ^ 32) s m enough u)
          λ seed2 m' f.
            let room : f.left ≡ rounds + (f.left - rounds) = omega (arith, f.enough) in
            Returns-mono
              (work-rounds rand_r_32 (percent settings.ro_ratio) settings.key_range id impl
                range_allowed range_pos rounds (f.left - rounds) id seed2 0 f.keys m' (omega arith)
                (subst (λ n. usable f.keys n m') room f.usable_after))
              λ ops m'' (total, u'). (
                total ∙ omega arith,
                record {
                  filled = f.keys;
                  seed2 = seed2;
                  left = f.left - rounds;
                  size = f.size;
                  kept = f.kept;
                  enough = omega (arith, f.enough);
                  usable_after = u';
                },
              )

    loops-short :
        (fuel rounds budget : ℕ) {to_go : ℕ} (s : Keys) (m : S)
        → new_draws rand_r_32 settings.key_range fuel ((id + 1) % 2 ^ 32) s < to_go
        → usable s (fuel + (rounds + budget)) m
        → run perform
            (bench_loops rand_r_32 run_call settings
              (percent settings.ro_ratio)
              id
              fuel
              to_go
              (stop_after rounds))
            m
          ≡ out_of_fuel
    unfolding bench_loops
    loops-short fuel rounds budget {to_go} s m few u =
        run-bind perform
          (prefill rand_r_32 run_call settings.key_range id fuel to_go ((id + 1) % 2 ^ 32)) _ m
        ∙ rw
            (prefill-short rand_r_32 settings.key_range impl id
              (λ k inside. range_allowed k inside (to_insert (key_of k) id) refl) range_pos
              range_small fuel to_go (rounds + budget) ((id + 1) % 2 ^ 32) s m few u)
            refl

    -- A thread of the benchmark runs alone over a set which fills the interface of a set, and is
    -- told to stop after a number of rounds of calls. If the keys that the generator draws in the
    -- rounds of filling that the fuel allows are new, each for the first time, as often as the
    -- share of the thread asks for, the thread ends, without a fault, and counts a call a round,
    -- modulo 2^64: the set gained exactly the share in new keys of the range and lost none, then
    -- went through the calls that the thread drew, as a mathematical set does. If too few of them
    -- are new, the loop that fills the set is still running when the fuel is used up, and nothing
    -- has faulted. The conditions: the thread has a share, so that the number of threads is not
    -- zero; RO_RATIO is at most 100; the range of keys is not empty, a `uint32_t`, and its keys
    -- are allowed by the set; and the set is usable for a call a round of both loops.
    pub bench_ops_thread-Ran :
        (fuel rounds budget : ℕ) {to_go : ℕ} (s : Keys) (m : S)
        → share settings.key_range settings.num_threads id ≡ some to_go
        → usable s (fuel + (rounds + budget)) m
        → ((to_go ≤ new_draws rand_r_32 settings.key_range fuel ((id + 1) % 2 ^ 32) s)
            × Returns
                (λ ops m'. (ops ≡ rounds % 2 ^ 64) × Ran usable to_go rounds budget s m')
                (run perform
                  (bench_ops_thread rand_r_32 run_call settings id fuel (stop_after rounds))
                  m))
          ⊎ ((new_draws rand_r_32 settings.key_range fuel ((id + 1) % 2 ^ 32) s < to_go)
              × (run perform
                    (bench_ops_thread rand_r_32 run_call settings id fuel (stop_after rounds))
                    m
                  ≡ out_of_fuel))
    bench_ops_thread-Ran fuel rounds budget {to_go} s m dealt u =
        let seed = (id + 1) % 2 ^ 32 in
        let draws = new_draws rand_r_32 settings.key_range fuel seed s in
        let loops =
          bench_ops_thread-some rand_r_32 run_call settings id fuel (stop_after rounds)
            (thread_ratios-percent settings.ro_ratio ro_small) dealt in
        elim (Bool-cases (leb to_go draws)) [
          | inl enough ↦
              let enough_draws : to_go ≤ draws = ground (arith, enough) in
              inl (enough_draws, rw loops (loops-Ran fuel rounds budget s m enough_draws u))
          | inr few ↦
              let few_draws : draws < to_go = ground (arith, few) in
              inr (
                few_draws,
                ap (λ p. run perform p m) loops ∙ loops-short fuel rounds budget s m few_draws u,
              )
        ]
