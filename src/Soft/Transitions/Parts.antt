-- ===== src/Soft/Transitions/Parts.antt =====
-- SOFT/SOFTList.h and SOFT/PNode.h: how the parts of the operations change the state of a node, whatever
-- other threads do meanwhile.
use efficient_lock_free_dura.Common.{
  ℕ, zero, suc, ◌+◌, ◌-◌, ◌%◌, ◌<◌, ◌≡◌, ap, refl, Bool, true, leb, arith,
}
use efficient_lock_free_dura.Common.Prog.{Obeys, Obeys-bind, Obeys-if}
use efficient_lock_free_dura.Soft.Utilities.{
  State, code, to_state, get_ref, create_ref, get_state, is,
}
use efficient_lock_free_dura.Soft.Memory.{Ptr, Key, Op, cas_next}
use efficient_lock_free_dura.Soft.PersistentNode
use efficient_lock_free_dura.Soft.List

-- The states that may follow one another: a node is inserted in two steps and removed in two.
abbrev pub may_become : State → State → Bool
may_become State.intend_to_insert State.inserted = true
may_become State.inserted State.intend_to_delete = true
may_become State.intend_to_delete State.deleted = true
may_become s t = is s t

-- A compare-exchange changes the state in a link along one of those steps, or not at all.
abbrev pub Lawful : Op → Type 0
Lawful (cas_next p expected desired) = may_become (get_state expected) (get_state desired) ≡ true
Lawful o = Unit

digits_of : (q c : ℕ) → q % 4 ≡ 0 → c < 4 → (q + c) % 4 ≡ c
digits_of q c e lt = omega arith

to_state-code : (q : ℕ) (s : State) → q % 4 ≡ 0 → to_state ((q + code s) % 4) ≡ s
to_state-code q State.inserted e = ap to_state (digits_of q 0 e (omega arith))
to_state-code q State.intend_to_delete e = ap to_state (digits_of q 1 e (omega arith))
to_state-code q State.intend_to_insert e = ap to_state (digits_of q 2 e (omega arith))
to_state-code q State.deleted e = ap to_state (digits_of q 3 e (omega arith))

pub get_state-create_ref : (p : ℕ) (s : State) → get_state (create_ref p s) ≡ s
unfolding get_state create_ref get_ref
get_state-create_ref p s = to_state-code (p - p % 4) s (omega arith)

pub may_stay : (s : State) → may_become s s ≡ true
may_stay State.inserted = refl
may_stay State.intend_to_delete = refl
may_stay State.intend_to_insert = refl
may_stay State.deleted = refl

pub trim-Obeys : (prev curr : Ptr) → Obeys Lawful (List.trim prev curr)
unfolding List.trim List.load_next
trim-Obeys prev curr = (
  tt,
  λ n. (
    rw (get_state-create_ref (get_ref n.next) (get_state curr)) (may_stay (get_state curr)),
    λ result. Obeys-if Lawful result _ _ (tt, λ n'. (tt, λ u. tt)) tt,
  ),
)

find_loop-Obeys :
    (fuel : ℕ) (key : Key) (prev curr : Ptr) (prev_state : State)
    → Obeys Lawful (List.find_loop fuel key prev curr prev_state)
unfolding List.find_loop List.load_next List.load_key
find_loop-Obeys zero key prev curr prev_state = tt
find_loop-Obeys (suc fuel) key prev curr prev_state = (
  tt,
  λ n.
      Obeys-if Lawful (is (get_state n.next) State.deleted) _ _
        (Obeys-bind Lawful (List.trim prev curr) _ (trim-Obeys prev curr)
          λ r. find_loop-Obeys fuel key prev (create_ref (get_ref n.next) prev_state) prev_state)
        (
          tt,
          λ n'. Obeys-if Lawful (leb key n'.key) _ _ tt (
              find_loop-Obeys fuel key (get_ref curr)
                (create_ref (get_ref n.next) (get_state n.next)) (get_state n.next)),
        ),
)

pub find-Obeys : (fuel : ℕ) (head : Ptr) (key : Key) → Obeys Lawful (List.find fuel head key)
unfolding List.find List.load_next
find-Obeys fuel head key = (tt, λ n. find_loop-Obeys fuel key head n.next (get_state n.next))

pub state_cas-Obeys :
    (p : Ptr) (before after : State)
    → may_become before after ≡ true
    → Obeys Lawful (List.state_cas p before after)
unfolding List.state_cas List.load_next
state_cas-Obeys p before after step = (
  tt,
  λ n. (rw (get_state-create_ref n.next before, get_state-create_ref n.next after) step, λ r. tt),
)

pub advance-Obeys :
    (fuel : ℕ) (p : Ptr) (before after : State)
    → may_become before after ≡ true
    → Obeys Lawful (List.advance fuel p before after)
unfolding List.advance List.load_next
advance-Obeys zero p before after step = tt
advance-Obeys (suc fuel) p before after step = (
  tt,
  λ n.
      Obeys-if Lawful (is (get_state n.next) before) _ _
        (Obeys-bind Lawful (List.state_cas p before after) _ (state_cas-Obeys p before after step)
          λ r. advance-Obeys fuel p before after step)
        tt,
)

pub create-Obeys :
    (p : Ptr) (key : Key) (value : ℕ) (validity : Bool)
    → Obeys Lawful (PersistentNode.create p key value validity)
unfolding PersistentNode.create
create-Obeys p key value validity = (tt, λ a. (tt, λ b. (tt, λ c. (tt, λ d. (tt, λ e. tt)))))

pub destroy-Obeys : (p : Ptr) (validity : Bool) → Obeys Lawful (PersistentNode.destroy p validity)
unfolding PersistentNode.destroy
destroy-Obeys p validity = (tt, λ a. (tt, λ b. tt))
