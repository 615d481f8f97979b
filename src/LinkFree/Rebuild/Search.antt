-- ===== src/LinkFree/Rebuild/Search.antt =====
-- The search of `quickInsert`: on a chain without marked nodes and without the key it ends where `find`
-- ends.
use efficient_lock_free_dura.Common.{
  ℕ, zero, suc, ◌<◌, ◌≡◌, ◌∙◌, sym, refl, false, List, [], ◌∷◌, All, length, leb, Bool-cases, inl,
  inr, arith,
}
use efficient_lock_free_dura.Common.Prog.{Returns, done}
use efficient_lock_free_dura.LinkFree.Memory.{Ptr, Key, Memory, is_wild, exec, perform}
use efficient_lock_free_dura.LinkFree.Utilities.{is_marked, get_ref}
use efficient_lock_free_dura.LinkFree.Utilities.Marks.{get_ref_of_unmarked}
use efficient_lock_free_dura.LinkFree.List.{load_next, load_key, find_loop, int_max}
use efficient_lock_free_dura.LinkFree.Recovery.{quick_find}
use efficient_lock_free_dura.LinkFree.Shape.{Cell, has}
use efficient_lock_free_dura.LinkFree.Find.Rounds.{find_loop-stop, find_loop-pass}
use efficient_lock_free_dura.LinkFree.Find.Step.{At, held_c, Seg-head, Seg-end, At-pass}
use efficient_lock_free_dura.LinkFree.Find.Walk.{Searched, find_loop-Searched}

-- No cell is marked.
abbrev pub Unmarked : List Cell → Type 0
Unmarked = All (λ c. c.marked ≡ false)

module _ (fuel : ℕ) (m : Memory) (key : Key) (prev curr : Ptr) (sound : is_wild curr ≡ false)
    (unmarked : is_marked (m.cached curr).next ≡ false) where
  quick_find-stop :
      key < (m.cached curr).key → exec (quick_find (suc fuel) key prev curr) m ≡ done (prev, curr) m
  unfolding quick_find load_next load_key perform
  quick_find-stop above = ground arith

  quick_find-pass :
      (m.cached curr).key < key
      → exec (quick_find (suc fuel) key prev curr) m
        ≡ exec (quick_find fuel key curr (get_ref (m.cached curr).next)) m
  unfolding quick_find load_next load_key perform
  quick_find-pass below = ground (arith, get_ref_of_unmarked (m.cached curr).next unmarked)

-- The search that `quickInsert` of the link-free list repeats inline does the same as the loop of
-- `find`, with any fuel: the same result, in the same memory, or out of fuel alike, so that
-- neither `assert` fails. The conditions: from the node where both start the chain leads to the
-- tail in order, no node of it is marked, none has the key, and the key is below that of the tail.
pub quick_find-find_loop :
    (fuel : ℕ) (m : Memory) {tail curr : Ptr} (q : Cell) (cs : List Cell) (key : Key)
    → At m.cached tail q curr cs
    → Unmarked cs
    → has key cs ≡ false
    → key < int_max
    → exec (quick_find fuel key q.ptr curr) m ≡ exec (find_loop fuel key q.ptr curr) m
unfolding quick_find find_loop
quick_find-find_loop zero m q cs key here live new small = refl
quick_find-find_loop (suc fuel) m {tail} {curr} q [] key here live new small =
    rw (Seg-end here.seg) (
      quick_find-stop fuel m key q.ptr tail here.end.sound here.end.unmarked
        (rw here.end.key_eq small)
      ∙ sym (
          find_loop-stop fuel m key q.ptr tail here.end.sound here.end.unmarked
            (ground (arith, here.end.key_eq))))
quick_find-find_loop (suc fuel) m {tail} {curr} q (c ∷ cs) key here (live_c, live) new small =
    let held = held_c m here in
    let clear = held.mark_eq ∙ live_c in
    rw (Seg-head here.seg) (elim (Bool-cases (leb key c.key)) [
      | inl reached ↦
          quick_find-stop fuel m key q.ptr c.ptr held.sound clear (ground (arith, held.key_eq))
          ∙ sym (find_loop-stop fuel m key q.ptr c.ptr held.sound clear (rw held.key_eq reached))
      | inr short ↦
          quick_find-pass fuel m key q.ptr c.ptr held.sound clear (ground (arith, held.key_eq))
          ∙ quick_find-find_loop fuel m c cs key (At-pass m here live_c) live (ground arith) small
          ∙ sym (find_loop-pass fuel m key q.ptr c.ptr held.sound clear (rw held.key_eq short))
    ])

pub quick_find-Searched :
    (fuel : ℕ) (m : Memory) {tail curr : Ptr} (q : Cell) (cs : List Cell) (key : Key)
    → At m.cached tail q curr cs
    → Unmarked cs
    → has key cs ≡ false
    → length cs < fuel
    → q.key < key
    → key < int_max
    → Returns (Searched m tail key q cs) (exec (quick_find fuel key q.ptr curr) m)
quick_find-Searched fuel m q cs key here live new enough above small =
    rw (quick_find-find_loop fuel m q cs key here live new small)
      (find_loop-Searched fuel m q cs key here enough above (omega arith))
