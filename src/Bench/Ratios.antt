-- ===== src/Bench/Ratios.antt =====
-- The ratios of the calls that a thread of the benchmark makes, and its choice of a call.
use efficient_lock_free_dura.Common.{
  ℕ, zero, suc, ◌+◌, ◌-◌, ◌*◌, ◌/◌, ◌%◌, ◌^◌, ◌≤◌, ◌≡◌, refl, Bool, Bool-cases, inl, inr, true,
  false, Option, none, some, ltb, leb, if◌then◌else◌, arith,
}
use mathlib.Core.Option.{map}
use efficient_lock_free_dura.Common.Int.{ℤ, pos, negsuc, int_of, minus, ◌+ℤ◌, half}
use efficient_lock_free_dura.SetSpec.{Call, call_key, to_insert, to_remove, to_look_up}

-- 1000 - c on `int`s, with nothing if it overflows.
abbrev pub from_thousand : ℤ → Option ℤ
from_thousand (pos c) = some (minus 1000 c)
from_thousand (negsuc c) = if ltb (1001 + c) (2 ^ 31) then some (pos (1001 + c)) else none

-- op < c for an `op` that is not negative
abbrev pub below : (op : ℕ) → ℤ → Bool
below op (pos c) = ltb op c
below op (negsuc c) = false

pub record Ratios : Type 0 where
  pub c_ratio : ℤ
  pub i_ratio : ℤ

ratios_with : ℤ → Option ℤ → Option Ratios
ratios_with c none = none
ratios_with c (some rest) = some (record { c_ratio = c; i_ratio = c +ℤ half rest })

unfoldable pub thread_ratios : (ro_ratio : ℕ) → Option Ratios
unfolding ratios_with
thread_ratios ro_ratio = let c = int_of (ro_ratio * 10 % 2 ^ 32) in ratios_with c (from_thousand c)

-- The call of a round, from the number drawn below 1000 and the key.
unfoldable pub choose : Ratios → (op key id : ℕ) → Call
choose r op key id =
    if below op r.c_ratio
    then to_look_up key
    else if below op r.i_ratio
    then to_insert key id
    else to_remove key

pub choose-key : (r : Ratios) (op key id : ℕ) → call_key (choose r op key id) ≡ key
unfolding choose
choose-key r op key id = ground arith

abbrev is_look_up : Call → ℕ
is_look_up (to_look_up key) = 1
is_look_up (to_insert key value) = 0
is_look_up (to_remove key) = 0

abbrev is_insert : Call → ℕ
is_insert (to_look_up key) = 0
is_insert (to_insert key value) = 1
is_insert (to_remove key) = 0

abbrev is_remove : Call → ℕ
is_remove (to_look_up key) = 0
is_remove (to_insert key value) = 0
is_remove (to_remove key) = 1

-- For how many of the numbers below `n` the call is of a kind.
unfoldable pub count_below : (Call → ℕ) → Ratios → (n : ℕ) → ℕ
count_below kind r zero = 0
count_below kind r (suc n) = kind (choose r n 0 0) + count_below kind r n

pub record Mix : Type 0 where
  pub look_ups : ℕ
  pub inserts : ℕ
  pub removes : ℕ

unfoldable pub mix : Ratios → Mix
mix r = record {
  look_ups = count_below is_look_up r 1000;
  inserts = count_below is_insert r 1000;
  removes = count_below is_remove r 1000;
}

module _ (c i : ℕ) (le : c ≤ i) where
  abbrev both : Ratios
  both = record { c_ratio = pos c; i_ratio = pos i }

  counts :
      (n : ℕ)
      → (count_below is_look_up both n ≡ n - (n - c))
        × (count_below is_insert both n ≡ n - (n - i) - (n - (n - c)))
        × (count_below is_remove both n ≡ n - i)
  unfolding count_below choose
  counts zero = (omega arith, omega arith, omega arith)
  counts (suc n) =
      let (look, ins, rem) = counts n in
      elim (Bool-cases (ltb n c)) [
        | inl reads ↦
            rw reads (ground (arith, look), ground (arith, ins, reads), ground (arith, rem, reads))
        | inr no_read ↦ elim (Bool-cases (ltb n i)) [
          | inl writes ↦
              rw (no_read, writes)
                (
                  ground (arith, look, no_read),
                  ground (arith, ins, no_read, writes),
                  ground (arith, rem, writes),
                )
          | inr no_write ↦
              rw (no_read, no_write)
                (
                  ground (arith, look, no_read),
                  ground (arith, ins, no_read, no_write),
                  ground (arith, rem, no_write),
                )
        ]
      ]

-- The ratios for a RO_RATIO of at most 100.
abbrev pub percent : (ro_ratio : ℕ) → Ratios
percent ro_ratio = record {
  c_ratio = pos (ro_ratio * 10);
  i_ratio = pos (ro_ratio * 10 + (1000 - ro_ratio * 10) / 2);
}

pub thread_ratios-percent :
    (ro_ratio : ℕ) → ro_ratio ≤ 100 → thread_ratios ro_ratio ≡ some (percent ro_ratio)
unfolding thread_ratios ratios_with
thread_ratios-percent ro_ratio h =
    let small : ro_ratio * 10 % 2 ^ 32 ≡ ro_ratio * 10 = omega (arith, h) in
    let int : ltb (ro_ratio * 10) (2 ^ 31) ≡ true = ground (arith, h) in
    let rest : leb (ro_ratio * 10) 1000 ≡ true = ground (arith, h) in rw (small, int, rest) refl

abbrev mix_of : (look_ups inserts removes : ℕ) → Mix
mix_of look_ups inserts removes = record {
  look_ups = look_ups;
  inserts = inserts;
  removes = removes;
}

mix_of-eq : {a b c d e f : ℕ} → a ≡ d → b ≡ e → c ≡ f → some (mix_of a b c) ≡ some (mix_of d e f)
mix_of-eq h k l = rw (h, k, l) refl

-- The mix of the calls of a thread.
abbrev pub thread_mix : (ro_ratio : ℕ) → Option Mix
thread_mix ro_ratio = map mix (thread_ratios ro_ratio)

-- Of the thousand numbers that a thread of the benchmark draws from, RO_RATIO per cent lead to a
-- call of `contains`, and half of the others each to `insert` and to `remove`; no `int` overflows
-- on the way. The condition is that of the help text: RO_RATIO is at most 100.
pub thread_ratios_mix :
    (ro_ratio : ℕ)
    → ro_ratio ≤ 100
    → thread_mix ro_ratio
      ≡ some (record {
        look_ups = 10 * ro_ratio;
        inserts = 5 * (100 - ro_ratio);
        removes = 5 * (100 - ro_ratio);
      })
unfolding mix
thread_ratios_mix ro_ratio h =
    let half_eq : (1000 - ro_ratio * 10) / 2 ≡ 5 * (100 - ro_ratio) = omega (arith, h) in
    let (look, ins, rem) =
      counts (ro_ratio * 10) (ro_ratio * 10 + 5 * (100 - ro_ratio)) (omega arith) 1000 in
    rw (thread_ratios-percent ro_ratio h, half_eq)
      (mix_of-eq (omega (arith, look)) (omega (arith, ins)) (omega (arith, rem)))
