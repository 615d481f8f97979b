-- ===== src/SetSpec.antt =====
-- What each of the sets of the repository promises its clients: calls of `insert`, `remove` and
-- `contains` act as on a mathematical set of keys. A list or a table fills the interface `Implements`,
-- and then serves any sequence of calls.
use efficient_lock_free_dura.Common.{
  ℕ, suc, ◌≡◌, refl, Bool, true, false, not, Option, List, [], ◌∷◌, All, length, ◌==◌,
  if◌then◌else◌,
}
use efficient_lock_free_dura.Common.Prog.{Prog, ret, ◌>>=◌, run, Returns, returns, Returns-bind}

-- A call of an operation, with its arguments.
pub data Call : Type 0 where
  to_insert : (key value : ℕ) → Call
  to_remove : (key : ℕ) → Call
  to_look_up : (key : ℕ) → Call

abbrev pub call_key : Call → ℕ
call_key (to_insert key value) = key
call_key (to_remove key) = key
call_key (to_look_up key) = key

-- A set of keys.
abbrev pub Keys : Type 0
Keys = ℕ → Bool

abbrev pub answer_of : Call → Keys → Bool
answer_of (to_insert key value) s = not (s key)
answer_of (to_remove key) s = s key
answer_of (to_look_up key) s = s key

abbrev pub set_after : Call → Keys → Keys
set_after (to_insert key value) s j = if key == j then true else s j
set_after (to_remove key) s j = if key == j then false else s j
set_after (to_look_up key) s j = s j

-- The answers to a sequence of calls, and the set after it.
abbrev pub answers : Keys → List Call → List Bool
answers s [] = []
answers s (c ∷ cs) = answer_of c s ∷ answers (set_after c s) cs

abbrev pub final_set : Keys → List Call → Keys
final_set s [] = s
final_set s (c ∷ cs) = final_set (set_after c s) cs

module _ {Op : Type 0} {Res : Op → Type 0} {S : Type 0}
    (perform : (o : Op) → S → Option (Res o × S)) (run_call : Call → Prog Op Res Bool) where
  -- A client that makes the calls one after the other.
  abbrev pub run_calls : List Call → Prog Op Res (List Bool)
  run_calls [] = ret []
  run_calls (c ∷ cs) = do b ← run_call c; bs ← run_calls cs; ret (b ∷ bs)

  -- `usable s budget m`: in the memory `m` the object holds the set `s` and can take `budget` calls.
  pub record Implements (usable : Keys → ℕ → S → Type 0) (allowed : Call → Type 0) : Type 0 where
    pub serves :
        (c : Call) (s : Keys) (budget : ℕ) (m : S)
        → allowed c
        → usable s (suc budget) m
        → Returns
            (λ b m'. (b ≡ answer_of c s) × usable (set_after c s) budget m')
            (run perform (run_call c) m)

  module _ {usable : Keys → ℕ → S → Type 0} {allowed : Call → Type 0}
      (impl : Implements usable allowed) where
    -- An object that implements the interface serves any sequence of calls within its budget.
    pub history :
        (cs : List Call) (s : Keys) (m : S)
        → All allowed cs
        → usable s (length cs) m
        → Returns
            (λ bs m'. (bs ≡ answers s cs) × usable (final_set s cs) 0 m')
            (run perform (run_calls cs) m)
    history [] s m ok u = returns (refl, u)
    history (c ∷ cs) s m (ok, oks) u =
        Returns-bind perform (run_call c) _ m (impl.serves c s (length cs) m ok u) λ b m' (eq, u').
          Returns-bind perform (run_calls cs) _ m' (history cs (set_after c s) m' oks u')
            λ bs m'' (eqs, u''). returns (rw (eq, eqs) refl, u'')
