-- ===== src/LinkFree/Contains/Seek.antt =====
-- The wait-free search of `contains`: it ends, writes nothing, and stops at the first node whose key is
-- not below the one that is sought, marked or not.
use efficient_lock_free_dura.Common.{
  ℕ, zero, suc, ◌<◌, ◌≤◌, ◌≡◌, ◌⊎◌, refl, true, false, List, [], ◌∷◌, not, length, ltb, ◌==◌, ◌&&◌,
  Bool-cases, inl, inr, arith,
}
use efficient_lock_free_dura.Common.Prog.{Returns, returns, Returns-mono, done}
use efficient_lock_free_dura.LinkFree.Memory.{Ptr, Key, Node, Memory, is_wild, exec, perform}
use efficient_lock_free_dura.LinkFree.Utilities.{get_ref}
use efficient_lock_free_dura.LinkFree.List.{load_key, load_next, seek, int_max}
use efficient_lock_free_dura.LinkFree.Shape.{Cell, Holds, Seg, nil, cons, Ascends, IsTail, has}
use efficient_lock_free_dura.LinkFree.Cells.{lists, has-above}
use efficient_lock_free_dura.LinkFree.Find.Step.{Seg-sound}

-- Where the search stops in the chain, and what that says about the key.
pub data StopAt (nodes : Ptr → Node) (tail : Ptr) (key : Key) (cs : List Cell) (x : Ptr)
    : Type 0 where
  at_tail : x ≡ tail → has key cs ≡ false → StopAt nodes tail key cs x
  at_cell :
      (c : Cell)
      → x ≡ c.ptr
      → Holds nodes c
      → is_wild (get_ref (nodes c.ptr).next) ≡ false
      → has key cs ≡ (not c.marked && c.key == key)
      → (c.marked ≡ true) ⊎ (lists c.ptr c.key cs ≡ true)
      → StopAt nodes tail key cs x

StopAt-cons :
    {nodes : Ptr → Node} {tail : Ptr} {key : Key} {cs : List Cell} {x : Ptr} (d : Cell)
    → d.key < key
    → StopAt nodes tail key cs x
    → StopAt nodes tail key (d ∷ cs) x
StopAt-cons d lt (at_tail e none) = at_tail e (ground (arith, none))
StopAt-cons d lt (at_cell c e held sound member listed) =
    at_cell c e held sound (ground (arith, member)) (ground (arith, listed))

pub seek-stop :
    (fuel : ℕ) (m : Memory) (key : Key) (curr : Ptr)
    → is_wild curr ≡ false
    → ltb (m.cached curr).key key ≡ false
    → exec (seek (suc fuel) key curr) m ≡ done curr m
unfolding seek load_key perform
seek-stop fuel m key curr sound reached = ground arith

pub seek-pass :
    (fuel : ℕ) (m : Memory) (key : Key) (curr : Ptr)
    → is_wild curr ≡ false
    → ltb (m.cached curr).key key ≡ true
    → exec (seek (suc fuel) key curr) m ≡ exec (seek fuel key (get_ref (m.cached curr).next)) m
unfolding seek load_key load_next perform
seek-pass fuel m key curr sound short = ground arith

-- The search ends within one round for each cell and one for the tail.
pub seek-StopAt :
    (fuel : ℕ) (m : Memory) {tail start : Ptr} (lo : Key) (cs : List Cell) (key : Key)
    → Seg m.cached tail start cs
    → Ascends lo cs
    → IsTail m.cached tail
    → length cs < fuel
    → key ≤ int_max
    → Returns (λ x m'. (m' ≡ m) × StopAt m.cached tail key cs x) (exec (seek fuel key start) m)
seek-StopAt zero m lo cs key s up end fuel small = absurd (omega arith)
seek-StopAt (suc n) m {tail} lo [] key (nil e) up end fuel small =
    rw (e, seek-stop n m key tail end.sound (ground (arith, end.key_eq)))
      (returns (refl, at_tail refl refl))
seek-StopAt (suc n) m lo (c ∷ cs) key (cons e held s) (h, hs) end fuel small =
    rw e (elim (Bool-cases (ltb c.key key)) [
      | inl short ↦ rw (seek-pass n m key c.ptr held.sound (rw held.key_eq short)) (
          Returns-mono (seek-StopAt n m c.key cs key s hs end (omega arith) small)
            λ x m' (same, stop). (same, StopAt-cons c (ground arith) stop))
      | inr reached ↦ rw (seek-stop n m key c.ptr held.sound (rw held.key_eq reached)) (
          returns (
            refl,
            at_cell c refl held (Seg-sound s end.sound) (ground (arith, has-above key c.key cs hs))
                (ground arith),
          ))
    ])
