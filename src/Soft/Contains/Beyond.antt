-- ===== src/Soft/Contains/Beyond.antt =====
-- `contains` of SOFT/SOFTList.h with a key that is not below that of the tail, which is INT_MAX.
use efficient_lock_free_dura.Common.{
  ℕ, zero, suc, ◌-◌, ◌+◌, ◌<◌, ◌≤◌, ◌≡◌, ◌∙◌, ap, refl, true, false, List, [], ◌∷◌, length, arith,
}
use efficient_lock_free_dura.Common.Prog.{done, fault, and_then, run-bind, ◌>>=◌}
use efficient_lock_free_dura.Soft.Memory.{Ptr, nullptr, Key, Memory, is_wild, exec, perform}
use efficient_lock_free_dura.Soft.Utilities.{get_ref}
use efficient_lock_free_dura.Soft.List.{load_key, load_next, seek, contains, int_min, int_max}
use efficient_lock_free_dura.Soft.Commands.{load_next_lem, load_key_lem}
use efficient_lock_free_dura.Soft.Shape.{Cell, Seg, nil, cons, Ascends, Ascends-max, Seg-sound}
use efficient_lock_free_dura.Soft.Invariant.{IsList}
use efficient_lock_free_dura.Soft.Contains.{seek-stop, seek-pass, answer_at}

seek-tail :
    (fuel : ℕ) (m : Memory) {tail start : Ptr} (lo : Key) (cs : List Cell) (key : Key)
    → Seg m.nodes tail start cs
    → is_wild tail ≡ false
    → Ascends lo cs
    → length cs < fuel
    → int_max ≤ key
    → exec (seek fuel key start) m ≡ exec (seek (fuel - length cs) key tail) m
seek-tail fuel m {tail} lo [] key (nil e) sound up short large =
    rw e (ap (λ n. exec (seek n key tail) m) (omega arith))
seek-tail zero m lo (c ∷ cs) key s sound up short large = absurd (omega (arith, short))
seek-tail (suc n) m {tail} lo (c ∷ cs) key (cons e held s) sound (h, hs) short large =
    rw
      (
        e,
        seek-pass n m key c.ptr held.sound
            (ground (arith, held.key_eq, Ascends-max c.key cs hs, large)) (Seg-sound cs sound s),
      )
      (seek-tail n m c.key cs key s sound hs (omega (arith, short)) large
        ∙ ap (λ k. exec (seek k key tail) m) (omega arith))

null_wild : is_wild (get_ref nullptr) ≡ true
unfolding is_wild get_ref
null_wild = refl

seek-last :
    (fuel : ℕ) (m : Memory) (key : Key) (tail : Ptr)
    → is_wild tail ≡ false
    → (m.nodes tail).key < key
    → (m.nodes tail).next ≡ nullptr
    → exec (seek (suc (suc fuel)) key tail) m ≡ fault
unfolding seek load_key load_next perform
seek-last fuel m key tail sound below last =
    let wild : is_wild (get_ref (m.nodes tail).next) ≡ true =
      ap (λ p. is_wild (get_ref p)) last ∙ null_wild in
    ground (arith, sound, wild)

module _ {m : Memory} {head tail : Ptr} {cs : List Cell} (list : IsList m head tail cs) where
  contains-tail :
      (walk : ℕ) (key : Key)
      → length cs < walk
      → int_max ≤ key
      → exec (contains walk head key) m
        ≡ and_then (exec (seek (walk - length cs) key tail) m) (λ x m'. exec (answer_at key x) m')
  unfolding contains load_next
  contains-tail walk key short large =
      run-bind perform (load_next head) (λ first. seek walk key first >>= answer_at key) m
      ∙ rw (load_next_lem m head list.here.held.sound) (
          run-bind perform (seek walk key (m.nodes head).next) (answer_at key) m
          ∙ ap (λ r. and_then r (λ x m'. exec (answer_at key x) m'))
              (seek-tail walk m int_min cs key list.here.seg list.here.end.sound list.here.up short
                large))

  answer_at-tail : exec (answer_at int_max tail) m ≡ done true m
  answer_at-tail =
      let end = list.here.end in
      run-bind perform (load_next tail) _ m
      ∙ rw (load_next_lem m tail end.sound, end.state)
          (run-bind perform (load_key tail) _ m
            ∙ rw (load_key_lem m tail end.sound, end.key_eq) (ground arith))

  -- `contains` of the SOFT list at and beyond the key of the tail, which is INT_MAX, whatever the
  -- list holds: for INT_MAX itself the search stops at the tail and the answer is yes; for each
  -- larger key the search goes through the null pointer of the tail, a fault. The conditions: the
  -- list was in order, its nodes inserted, the tail ends it, and the fuel of the walk exceeds the
  -- number of nodes by two.
  pub soft_contains-beyond :
      (walk : ℕ) (key : Key)
      → length cs + 1 < walk
      → (m.nodes tail).next ≡ nullptr
      → int_max < key
      → (exec (contains walk head int_max) m ≡ done true m)
        × (exec (contains walk head key) m ≡ fault)
  soft_contains-beyond walk key short last large =
      let end = list.here.end in
      let left : walk - length cs ≡ suc (suc (walk - length cs - 2)) = omega (arith, short) in
      (
        contains-tail walk int_max (omega (arith, short)) (omega arith)
            ∙ rw
                (
                  left,
                  seek-stop (suc (walk - length cs - 2)) m int_max tail end.sound
                      (ground (arith, end.key_eq)),
                )
                answer_at-tail,
        contains-tail walk key (omega (arith, short)) (omega (arith, large))
            ∙ rw
                (
                  left,
                  seek-last (walk - length cs - 2) m key tail end.sound
                      (omega (arith, end.key_eq, large)) last,
                )
                refl,
      )
