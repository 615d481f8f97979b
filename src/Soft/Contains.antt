-- ===== src/Soft/Contains.antt =====
-- `contains` of SOFT/SOFTList.h, run by one thread: a search that writes nothing and ends.
pub mod Beyond
use efficient_lock_free_dura.Common.{
  ℕ, zero, suc, ◌<◌, ◌≡◌, ◌∙◌, sym, ap, refl, Bool, true, false, List, [], ◌∷◌, length, ltb, ◌==◌,
  ◌&&◌, ◌||◌, Bool-cases, inl, inr, arith,
}
use efficient_lock_free_dura.Common.Prog.{
  Returns, returns, Returns-bind, Returns-mono, done, ret, run-bind, ◌>>=◌,
}
use efficient_lock_free_dura.Soft.Utilities.{State, get_state, is}
use efficient_lock_free_dura.Soft.Memory.{Ptr, Key, Node, Memory, Cmd, is_wild, exec, perform}
use efficient_lock_free_dura.Soft.List.{contains, seek, load_next, load_key, int_min, int_max}
use efficient_lock_free_dura.Soft.Commands.{load_next_lem, load_key_lem}
use efficient_lock_free_dura.Soft.Shape.{
  Cell, Seg, Ascends, IsTail, has, Seg-sound, Seg-head, Seg-held, Seg-tail, Seg-end, get_ref_sound,
  get_state_sound,
}
use efficient_lock_free_dura.Soft.Cells.{has-Reached}
use efficient_lock_free_dura.Soft.Invariant.{IsList}

-- Where the search stops.
record StopAt (nodes : Ptr → Node) (key : Key) (cs : List Cell) (x : Ptr) : Type 0 where
  sound : is_wild x ≡ false
  state : get_state (nodes x).next ≡ State.inserted
  answer : ((nodes x).key == key) ≡ has key cs

module _ (fuel : ℕ) (m : Memory) (key : Key) (curr : Ptr) (sound : is_wild curr ≡ false) where
  pub seek-stop :
      ltb (m.nodes curr).key key ≡ false → exec (seek (suc fuel) key curr) m ≡ done curr m
  unfolding seek load_key perform
  seek-stop reached = ground arith

  pub seek-pass :
      ltb (m.nodes curr).key key ≡ true
      → is_wild (m.nodes curr).next ≡ false
      → exec (seek (suc fuel) key curr) m ≡ exec (seek fuel key (m.nodes curr).next) m
  unfolding seek load_key load_next perform
  seek-pass short next_sound = ground (arith, get_ref_sound _ next_sound)

-- The search ends within one round for each cell and one for the tail.
seek-StopAt :
    (fuel : ℕ) (m : Memory) {tail start : Ptr} (lo : Key) (cs : List Cell) (key : Key)
    → Seg m.nodes tail start cs
    → Ascends lo cs
    → IsTail m.nodes tail
    → length cs < fuel
    → key < int_max
    → Returns (λ x m'. (m' ≡ m) × StopAt m.nodes key cs x) (exec (seek fuel key start) m)
seek-StopAt zero m lo cs key s up end fuel small = absurd (omega arith)
seek-StopAt (suc n) m {tail} {start} lo [] key s up end fuel small =
    let e = Seg-end s in
    let at_key = ap (λ x. (m.nodes x).key) e ∙ end.key_eq in
    rw (seek-stop n m key start (rw e end.sound) (ground (arith, at_key))) (
      returns (
        refl,
        record { sound = rw e end.sound; state = rw e end.state; answer = ground (arith, at_key) },
      ))
seek-StopAt (suc n) m {tail} {start} lo (c ∷ cs) key s up end fuel small =
    let held = Seg-held s in
    let next_sound = Seg-sound cs end.sound (Seg-tail s) in
    rw (Seg-head s) (elim (Bool-cases (ltb c.key key)) [
      | inl short ↦ rw (seek-pass n m key c.ptr held.sound (rw held.key_eq short) next_sound) (
          Returns-mono (seek-StopAt n m c.key cs key (Seg-tail s) up.1 end (omega arith) small)
            λ x m' (same, stop). (
              same,
              record {
                sound = stop.sound;
                state = stop.state;
                answer = stop.answer ∙ ground (arith, short);
              },
            ))
      | inr reached ↦ rw (seek-stop n m key c.ptr held.sound (rw held.key_eq reached)) (
          returns (
            refl,
            record {
              sound = held.sound;
              state = get_state_sound _ next_sound;
              answer = rw held.key_eq (sym (has-Reached key c cs lo up (ground (arith, reached))));
            },
          ))
    ])

-- What `contains` does where its search stops.
abbrev pub answer_at : Key → Ptr → Cmd Bool
answer_at key curr = do
  next ← load_next curr
  curr_key ← load_key curr
  ret (
      curr_key == key
      && (is (get_state next) State.inserted || is (get_state next) State.intend_to_delete))

answered :
    (m : Memory) (key : Key) (cs : List Cell) (x : Ptr)
    → StopAt m.nodes key cs x
    → exec (answer_at key x) m ≡ done (has key cs) m
answered m key cs x stop =
    run-bind perform (load_next x) _ m
    ∙ rw (load_next_lem m x stop.sound, stop.state)
        (run-bind perform (load_key x) _ m
          ∙ rw (load_key_lem m x stop.sound, stop.answer) (ground arith))

-- A call of the SOFT list's `contains` alone returns, without a fault and without a write, and
-- answers whether the list has the key. The conditions: the list was in order, its nodes inserted,
-- the key lies below that of the tail, and the fuel of the walk exceeds the number of nodes.
pub soft_contains_answers :
    {m : Memory} {head tail : Ptr} {cs : List Cell} (walk : ℕ) (key : Key)
    → IsList m head tail cs
    → length cs < walk
    → key < int_max
    → Returns (λ found m'. (found ≡ has key cs) × (m' ≡ m)) (exec (contains walk head key) m)
unfolding contains load_next
soft_contains_answers {m} {head} {cs} walk key list enough small =
    rw
      (
        run-bind perform (load_next head) (λ first. seek walk key first >>= answer_at key) m,
        load_next_lem m head list.here.held.sound,
      )
      (Returns-bind perform (seek walk key (m.nodes head).next) (answer_at key) m
        (seek-StopAt walk m int_min cs key list.here.seg list.here.up list.here.end enough small)
        λ x m' (same, stop). rw (same, answered m key cs x stop) (returns (refl, refl)))
