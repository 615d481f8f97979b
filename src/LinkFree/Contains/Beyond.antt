-- ===== src/LinkFree/Contains/Beyond.antt =====
-- `contains` of LinkFree/LinkFreeList.h with a key that is not below that of the tail, which is INT_MAX.
use efficient_lock_free_dura.Common.{
  ℕ, zero, suc, ◌-◌, ◌+◌, ◌<◌, ◌≤◌, ◌≡◌, ◌∙◌, ap, refl, true, List, [], ◌∷◌, length, arith,
}
use efficient_lock_free_dura.Common.Prog.{done, fault, and_then, run-bind, ◌>>=◌}
use efficient_lock_free_dura.LinkFree.Memory.{Ptr, nullptr, Key, Memory, is_wild, exec, perform}
use efficient_lock_free_dura.LinkFree.Utilities.{get_ref}
use efficient_lock_free_dura.LinkFree.List.{
  load_key, load_next, seek, contains, contains_at, int_min, int_max,
}
use efficient_lock_free_dura.LinkFree.Commands.{load_next_lem}
use efficient_lock_free_dura.LinkFree.Help.{helped}
use efficient_lock_free_dura.LinkFree.Shape.{Cell, Seg, nil, cons, Ascends}
use efficient_lock_free_dura.LinkFree.Invariant.{IsList}
use efficient_lock_free_dura.LinkFree.Contains.{contains_at-live}
use efficient_lock_free_dura.LinkFree.Contains.Seek.{seek-stop, seek-pass}

Ascends-below : (lo : Key) (cs : List Cell) → Ascends lo cs → lo < int_max
Ascends-below lo [] up = up
Ascends-below lo (c ∷ cs) (h, hs) = omega (arith, h, Ascends-below c.key cs hs)

seek-tail :
    (fuel : ℕ) (m : Memory) {tail start : Ptr} (lo : Key) (cs : List Cell) (key : Key)
    → Seg m.cached tail start cs
    → Ascends lo cs
    → length cs < fuel
    → int_max ≤ key
    → exec (seek fuel key start) m ≡ exec (seek (fuel - length cs) key tail) m
seek-tail fuel m {tail} lo [] key (nil e) up short large =
    rw e (ap (λ n. exec (seek n key tail) m) (omega arith))
seek-tail zero m lo (c ∷ cs) key s up short large = absurd (omega (arith, short))
seek-tail (suc n) m {tail} lo (c ∷ cs) key (cons e held s) (h, hs) short large =
    rw
      (
        e,
        seek-pass n m key c.ptr held.sound
            (ground (arith, held.key_eq, Ascends-below c.key cs hs, large)),
      )
      (seek-tail n m c.key cs key s hs (omega (arith, short)) large
        ∙ ap (λ k. exec (seek k key tail) m) (omega arith))

seek_null :
    (fuel : ℕ) (m : Memory) (key : Key) → exec (seek (suc fuel) key (get_ref nullptr)) m ≡ fault
unfolding seek load_key perform is_wild get_ref
seek_null fuel m key = refl

module _ {m : Memory} {head tail : Ptr} {cs : List Cell} (is : IsList m head tail cs) where
  contains-tail :
      (walk : ℕ) (key : Key)
      → length cs < walk
      → int_max ≤ key
      → exec (contains walk head key) m
        ≡ and_then (exec (seek (walk - length cs) key tail) m) (λ x m'. exec (contains_at key x) m')
  unfolding contains load_next
  contains-tail walk key short large =
      run-bind perform (load_next head) (λ first. seek walk key first >>= contains_at key) m
      ∙ rw (load_next_lem m head is.here.held.sound) (
          run-bind perform (seek walk key (m.cached head).next) (contains_at key) m
          ∙ ap (λ r. and_then r (λ x m'. exec (contains_at key x) m'))
              (seek-tail walk m int_min cs key is.here.seg is.here.up short large))

  -- `contains` of the link-free list at and beyond the key of the tail, which is INT_MAX, whatever
  -- the list holds: for INT_MAX itself the search stops at the tail and the answer is yes, and the
  -- tail is made valid and flushed as if it were a node; for each larger key the search goes
  -- through the null pointer of the tail, a fault. The conditions: the list was in order, the tail
  -- ends it, and the fuel of the walk exceeds the number of nodes by two.
  pub contains-beyond :
      (walk : ℕ) (key : Key)
      → length cs + 1 < walk
      → (m.cached tail).next ≡ nullptr
      → int_max < key
      → (exec (contains walk head int_max) m ≡ done true (helped m tail))
        × (exec (contains walk head key) m ≡ fault)
  contains-beyond walk key short last large =
      let end = is.here.end in
      let left : walk - length cs ≡ suc (suc (walk - length cs - 2)) = omega (arith, short) in
      (
        contains-tail walk int_max (omega (arith, short)) (omega arith)
            ∙ rw
                (
                  left,
                  seek-stop (suc (walk - length cs - 2)) m int_max tail end.sound
                      (ground (arith, end.key_eq)),
                )
                (contains_at-live m tail int_max end.sound end.key_eq end.unmarked),
        contains-tail walk key (omega (arith, short)) (omega (arith, large))
            ∙ rw
                (
                  left,
                  seek-pass (suc (walk - length cs - 2)) m key tail end.sound
                      (ground (arith, end.key_eq, large)),
                  last,
                  seek_null (walk - length cs - 2) m key,
                )
                refl,
      )
