-- ===== src/Bench/Fill.antt =====
-- The loop of `benchOpsThread` that fills the set: it ends once the generator has drawn enough keys.
use efficient_lock_free_dura.Common.{
  ℕ, zero, suc, ◌+◌, ◌%◌, ◌^◌, ◌≤◌, ◌<◌, Option, ◌≡◌, ◌∙◌, subst, ◌≢◌, ◌⊎◌, refl, Bool, true, false,
  ◌==◌, not, if◌then◌else◌, Bool-cases, inl, inr, ==_iff, arith,
}
use native.Mathlib.Nat.{mod-lt}
use efficient_lock_free_dura.Common.Prog.{
  Prog, run, Returns, returns, Returns-bind, Returns-mono, run-bind-same, out_of_fuel,
}
use efficient_lock_free_dura.SetSpec.{Call, to_insert, Keys, set_after, Implements}
use efficient_lock_free_dura.Bench.Thread.{key_of, draw_key, prefill}

-- How many of the keys below `range` the set has.
unfoldable pub size_below : Keys → (range : ℕ) → ℕ
size_below s zero = 0
size_below s (suc range) = (if s (key_of range) then 1 else 0) + size_below s range

abbrev pub with_key : ℕ → Keys → Keys
with_key key s = set_after (to_insert key 0) s

key_of-inj : {a b : ℕ} → a < 2 ^ 32 → b < 2 ^ 32 → key_of a ≡ key_of b → a ≡ b
key_of-inj small small' same_key = ground arith

other_key : {a b : ℕ} → a < 2 ^ 32 → b < 2 ^ 32 → a ≢ b → (key_of a == key_of b) ≡ false
other_key {a} {b} small small' ne = go (Bool-cases (key_of a == key_of b))
  where
    go :
        ((key_of a == key_of b) ≡ true) ⊎ ((key_of a == key_of b) ≡ false)
        → (key_of a == key_of b) ≡ false
    go (inl e) = absurd (ne (key_of-inj small small' ((==_iff (key_of a) (key_of b)).0 e)))
    go (inr e) = e

size_below-above :
    (s : Keys) (k range : ℕ)
    → k < 2 ^ 32
    → range ≤ k
    → size_below (with_key (key_of k) s) range ≡ size_below s range
unfolding size_below
size_below-above s k zero small h = refl
size_below-above s k (suc range) small h =
    let other : (key_of k == key_of range) ≡ false =
      other_key small (omega (arith, small, h)) (omega (arith, h)) in
    rw (other, size_below-above s k range small (omega (arith, h))) refl

size_below-top :
    (s : Keys) (k : ℕ)
    → k < 2 ^ 32
    → size_below (with_key (key_of k) s) (suc k)
      ≡ (if s (key_of k) then 0 else 1) + size_below s (suc k)
unfolding size_below
size_below-top s k small =
    let self : (key_of k == key_of k) ≡ true = (==_iff (key_of k) (key_of k)).1 refl in
    rw (self, size_below-above s k k small (omega arith)) (ground arith)

size_below-with_key :
    (s : Keys) (k range : ℕ)
    → range ≤ 2 ^ 32
    → k < range
    → size_below (with_key (key_of k) s) range
      ≡ (if s (key_of k) then 0 else 1) + size_below s range
unfolding size_below
size_below-with_key s k zero small h = absurd (omega (arith, h))
size_below-with_key s k (suc range) small h = elim (Bool-cases (k == range)) [
  | inl top ↦
      subst
        (λ x.
          size_below (with_key (key_of k) s) (suc x)
          ≡ (if s (key_of k) then 0 else 1) + size_below s (suc x))
        ((==_iff k range).0 top) (size_below-top s k (omega (arith, small, h)))
  | inr lower ↦
      let ne : k ≢ range = λ e. ground (arith, lower, e) in
      let other : (key_of k == key_of range) ≡ false =
        other_key (omega (arith, small, h)) (omega (arith, small)) ne in
      let rest = size_below-with_key s k range (omega (arith, small)) (omega (arith, h, ne)) in
      rw other (ground (arith, rest))
]

module _ (rand_r_32 : ℕ → ℕ × ℕ) (key_range : ℕ) where
  -- How many of the next `fuel` draws hit a key that the set does not have and that was not drawn
  -- before.
  unfoldable pub new_draws : (fuel seed2 : ℕ) → Keys → ℕ
  new_draws zero seed2 s = 0
  new_draws (suc fuel) seed2 s =
      let key = draw_key rand_r_32 key_range seed2 in
      (if s key then 0 else 1) + new_draws fuel (rand_r_32 seed2).1 (with_key key s)

  module _ {S : Type 0} (usable : Keys → ℕ → S → Type 0) (s : Keys) (to_go budget : ℕ) where
    -- The set has `to_go` more keys of the range, has lost none, and can take `budget` calls and more.
    pub record Filled (m' : S) : Type 0 where
      pub keys : Keys
      pub left : ℕ
      pub usable_after : usable keys left m'
      pub enough : budget ≤ left
      pub size : size_below keys key_range ≡ to_go + size_below s key_range
      pub kept : (j : ℕ) → s j ≡ true → keys j ≡ true

  module _ {Op : Type 0} {Res : Op → Type 0} {S : Type 0}
      {perform : (o : Op) → S → Option (Res o × S)} {run_call : Call → Prog Op Res Bool}
      {usable : Keys → ℕ → S → Type 0} {allowed : Call → Type 0}
      (impl : Implements perform run_call usable allowed) (id : ℕ)
      (range_allowed : (k : ℕ) → k < key_range → allowed (to_insert (key_of k) id))
      (range_pos : 0 < key_range) (range_small : key_range ≤ 2 ^ 32) where
    abbrev key_at : ℕ → ℕ
    key_at seed2 = draw_key rand_r_32 key_range seed2

    more :
        (key : ℕ) {n n' budget : ℕ} {s : Keys} {m' : S}
        → Filled usable (with_key key s) n budget m'
        → n + size_below (with_key key s) key_range ≡ n' + size_below s key_range
        → Filled usable s n' budget m'
    more key f grows = record {
      keys = f.keys;
      left = f.left;
      usable_after = f.usable_after;
      enough = f.enough;
      size = f.size ∙ grows;
      kept = λ j has. f.kept j (ground (arith, has));
    }

    new_size :
        (seed2 : ℕ) (s : Keys)
        → let key = draw_key rand_r_32 key_range seed2 in
          size_below (with_key key s) key_range ≡ (if s key then 0 else 1) + size_below s key_range
    new_size seed2 s =
        size_below-with_key s ((rand_r_32 seed2).0 % key_range) key_range range_small
          (mod-lt (rand_r_32 seed2).0 range_pos)

    -- The rest of a round, with what the other rounds do.
    after_insert :
        (fuel to_go budget seed2 : ℕ) (s : Keys)
        → suc to_go
          ≤ (if s (key_at seed2) then 0 else 1)
            + new_draws fuel (rand_r_32 seed2).1 (with_key (key_at seed2) s)
        → (added : Bool) (m' : S) → added ≡ not (s (key_at seed2))
        → usable (with_key (key_at seed2) s) (fuel + budget) m'
        → ((n : ℕ)
            → n ≤ new_draws fuel (rand_r_32 seed2).1 (with_key (key_at seed2) s)
            → usable (with_key (key_at seed2) s) (fuel + budget) m'
            → Returns
                (λ seed' m''. Filled usable (with_key (key_at seed2) s) n budget m'')
                (run perform
                  (prefill rand_r_32 run_call key_range id fuel n (rand_r_32 seed2).1)
                  m'))
        → Returns
            (λ seed' m''. Filled usable s (suc to_go) budget m'')
            (run perform
              (prefill rand_r_32 run_call key_range id fuel
                (if added then to_go else suc to_go)
                (rand_r_32 seed2).1)
              m')
    after_insert fuel to_go budget seed2 s enough true m' eq u rest =
        Returns-mono (rest to_go (ground (arith, enough, eq)) u)
          λ seed' m'' f. more (key_at seed2) f (ground (arith, new_size seed2 s, eq))
    after_insert fuel to_go budget seed2 s enough false m' eq u rest =
        Returns-mono (rest (suc to_go) (ground (arith, enough, eq)) u)
          λ seed' m'' f. more (key_at seed2) f (ground (arith, new_size seed2 s, eq))

    -- The loop that fills the set ends, and returns: each key that the set did not have is counted, so the
    -- set has `to_go` more keys of the range. The conditions: of the keys that the generator draws in
    -- the rounds given, `to_go` are new; the set is usable for a call a round and allows the keys of
    -- the range; the range is not empty and a `uint32_t`.
    pub prefill-Filled :
        (fuel to_go budget seed2 : ℕ) (s : Keys) (m : S)
        → to_go ≤ new_draws fuel seed2 s
        → usable s (fuel + budget) m
        → Returns
            (λ seed' m'. Filled usable s to_go budget m')
            (run perform (prefill rand_r_32 run_call key_range id fuel to_go seed2) m)
    unfolding prefill new_draws
    prefill-Filled fuel zero budget seed2 s m enough u = returns (record {
      keys = s;
      left = fuel + budget;
      usable_after = u;
      enough = omega arith;
      size = omega arith;
      kept = λ j has. has;
    })
    prefill-Filled zero (suc to_go) budget seed2 s m enough u = absurd (omega (arith, enough))
    prefill-Filled (suc fuel) (suc to_go) budget seed2 s m enough u =
        let ready : usable s (suc (fuel + budget)) m = subst (λ n. usable s n m) (omega arith) u in
        let some_range : (key_range == 0) ≡ false = ground (arith, range_pos) in
        rw some_range (
          Returns-bind perform (run_call (to_insert (key_at seed2) id)) _ m
            (impl.serves (to_insert (key_at seed2) id) s (fuel + budget) m
              (range_allowed _ (mod-lt (rand_r_32 seed2).0 range_pos)) ready)
            λ added m' (eq, u').
              after_insert fuel to_go budget seed2 s (omega (arith, enough)) added m' eq u'
                λ n short u''.
                  prefill-Filled fuel n budget (rand_r_32 seed2).1 (with_key (key_at seed2) s) m'
                    short u'')

    short_insert :
        (fuel to_go budget seed2 : ℕ) (s : Keys)
        → (if s (key_at seed2) then 0 else 1)
            + new_draws fuel (rand_r_32 seed2).1 (with_key (key_at seed2) s)
          < suc to_go
        → (added : Bool) → added ≡ not (s (key_at seed2))
        → new_draws fuel (rand_r_32 seed2).1 (with_key (key_at seed2) s)
          < (if added then to_go else suc to_go)
    short_insert fuel to_go budget seed2 s few true eq = ground (arith, few, eq)
    short_insert fuel to_go budget seed2 s few false eq = ground (arith, few, eq)

    -- The loop goes on while new keys are missing: with fewer new draws it uses up its fuel.
    pub prefill-short :
        (fuel to_go budget seed2 : ℕ) (s : Keys) (m : S)
        → new_draws fuel seed2 s < to_go
        → usable s (fuel + budget) m
        → run perform (prefill rand_r_32 run_call key_range id fuel to_go seed2) m ≡ out_of_fuel
    unfolding prefill new_draws
    prefill-short fuel zero budget seed2 s m few u = absurd (omega (arith, few))
    prefill-short zero (suc to_go) budget seed2 s m few u = refl
    prefill-short (suc fuel) (suc to_go) budget seed2 s m few u =
        let ready : usable s (suc (fuel + budget)) m = subst (λ n. usable s n m) (omega arith) u in
        let some_range : (key_range == 0) ≡ false = ground (arith, range_pos) in
        rw some_range (
          run-bind-same perform (run_call (to_insert (key_at seed2) id)) _ m
            (impl.serves (to_insert (key_at seed2) id) s (fuel + budget) m
              (range_allowed _ (mod-lt (rand_r_32 seed2).0 range_pos)) ready)
            λ added m' (eq, u').
              prefill-short fuel (if added then to_go else suc to_go) budget (rand_r_32 seed2).1
                (with_key (key_at seed2) s) m' (short_insert fuel to_go budget seed2 s few added eq)
                u')
