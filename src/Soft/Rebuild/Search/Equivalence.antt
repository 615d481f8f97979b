-- ===== src/Soft/Rebuild/Search/Equivalence.antt =====
-- The search of `quickInsert` of SOFT/SOFTList.h beside the loop of `find`.
use efficient_lock_free_dura.Common.{
  ℕ, zero, suc, ◌<◌, ◌≡◌, ◌∙◌, sym, ap, refl, false, List, [], ◌∷◌, leb, Bool-cases, inl, inr,
  arith,
}
use efficient_lock_free_dura.Common.Prog.{Outcome, done, and_then}
use efficient_lock_free_dura.Soft.Utilities.{State, get_state}
use efficient_lock_free_dura.Soft.Memory.{Ptr, Key, Memory, is_wild, exec}
use efficient_lock_free_dura.Soft.List.{find_loop, int_max}
use efficient_lock_free_dura.Soft.Recovery.{quick_find}
use efficient_lock_free_dura.Soft.Shape.{
  Cell, has, At, Seg-sound, Seg-end, Seg-head, Seg-held, Seg-tail, get_state_sound,
}
use efficient_lock_free_dura.Soft.Find.{find_loop-stop, find_loop-pass}
use efficient_lock_free_dura.Soft.Rebuild.Search.{quick_find-stop, quick_find-pass}

-- The result of a search, with the state that `find` adds to it.
abbrev pub with_state : Outcome Memory (Ptr × Ptr) → Outcome Memory (Ptr × Ptr × State)
with_state r = and_then r λ found m. done (found.0, found.1, State.inserted) m

-- The search that `quickInsert` of the SOFT list repeats inline does the same as the loop of
-- `find`, with any fuel, but for the state INSERTED that `find` adds to its result: the same
-- result, in the same memory, or out of fuel alike, so that neither `assert` fails. The
-- conditions: from the node where both start the chain of inserted nodes leads to the tail in
-- order, none has the key, and the key is below that of the tail.
pub soft_quick_find-find_loop :
    (fuel : ℕ) (m : Memory) {tail curr : Ptr} (q : Cell) (cs : List Cell) (key : Key)
    → At m.nodes tail q curr cs
    → has key cs ≡ false
    → key < int_max
    → with_state (exec (quick_find fuel key q.ptr curr) m)
      ≡ exec (find_loop fuel key q.ptr curr State.inserted) m
unfolding quick_find find_loop
soft_quick_find-find_loop zero m q cs key here new small = refl
soft_quick_find-find_loop (suc fuel) m {tail} {curr} q [] key here new small =
    let e = Seg-end here.seg in
    let at_key = ap (λ x. (m.nodes x).key) e ∙ here.end.key_eq in
    let sound : is_wild curr ≡ false = rw e here.end.sound in
    let state : get_state (m.nodes curr).next ≡ State.inserted = rw e here.end.state in
    ap with_state (
      quick_find-stop fuel m key q.ptr curr sound state (ground (arith, at_key))
        (ground (arith, at_key)))
    ∙ sym (find_loop-stop fuel m key q.ptr curr sound state (ground (arith, at_key)))
soft_quick_find-find_loop (suc fuel) m {tail} {curr} q (c ∷ cs) key here new small =
    let held = Seg-held here.seg in
    let rest = Seg-tail here.seg in
    let next_sound = Seg-sound cs here.end.sound rest in
    let state = get_state_sound (m.nodes c.ptr).next next_sound in
    rw (Seg-head here.seg) (elim (Bool-cases (leb key c.key)) [
      | inl reached ↦
          ap with_state (
            quick_find-stop fuel m key q.ptr c.ptr held.sound state (ground (arith, held.key_eq))
              (ground (arith, held.key_eq, new)))
          ∙ sym (find_loop-stop fuel m key q.ptr c.ptr held.sound state (rw held.key_eq reached))
      | inr short ↦
          ap with_state
            (quick_find-pass fuel m key q.ptr c.ptr held.sound state (ground (arith, held.key_eq)))
          ∙ soft_quick_find-find_loop fuel m c cs key
              (record { held = held; next = refl; seg = rest; up = here.up.1; end = here.end })
              (ground (arith, new)) small
          ∙ sym (
              find_loop-pass fuel m key q.ptr c.ptr held.sound state (rw held.key_eq short)
                next_sound)
    ])
