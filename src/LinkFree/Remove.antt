-- ===== src/LinkFree/Remove.antt =====
-- `remove` of LinkFree/LinkFreeList.h, run by one thread.
pub mod Mark
pub mod Unlinked
use efficient_lock_free_dura.Common.{
  ℕ, suc, ◌<◌, ◌≡◌, ◌≢◌, ◌⊎◌, ◌∙◌, sym, ap, subst, refl, Bool, true, false, some, List, [], ◌∷◌,
  ◌++◌, not, length, ◌==◌, if◌then◌else◌, ==_iff, Bool-cases, inl, inr, arith,
}
use native.Mathlib.Decide.{ℕ_discrete}
use efficient_lock_free_dura.Common.Prog.{Returns, returns, Returns-bind}
use efficient_lock_free_dura.LinkFree.Memory.{Ptr, Key, Memory, Cmd, is_wild, exec, perform}
use efficient_lock_free_dura.LinkFree.List.{remove, remove_at, find, int_min, int_max}
use efficient_lock_free_dura.LinkFree.Shape.{Cell, Seg, has, persisted}
use efficient_lock_free_dura.LinkFree.Cells.{
  lists, lists-has, lists-sweep, remove_cell, has-remove_cell,
}
use efficient_lock_free_dura.LinkFree.Upkeep.{Upkeep, Upkeep-trans}
use efficient_lock_free_dura.LinkFree.Find.Step.{At, Seg-sound, Seg-end, Seg-head, Seg-held}
use efficient_lock_free_dura.LinkFree.Find.Walk.{sweep, swept, has-sweep, Reached, Found, Searched}
use efficient_lock_free_dura.LinkFree.Invariant.{IsList, head_cell, Searched-IsList}
use efficient_lock_free_dura.LinkFree.Lookup.{find-Searched, Found-has, Found-Hit}
use efficient_lock_free_dura.LinkFree.Remove.Mark.{remove_at-found, remove_at-absent}
use efficient_lock_free_dura.LinkFree.Remove.Unlinked.{
  removed-IsList, removed-freed, removed-pool, removed-Upkeep,
}

-- What was given to `ssmem_free`: the object with the key, if there was one, after those that the
-- search unlinked.
abbrev pub Freed : Memory → List Cell → Key → Bool → Memory → Type 0
Freed m cs key true m' = (x : Ptr) × (lists x key cs ≡ true) × (m'.freed ≡ x ∷ swept key cs m.freed)
Freed m cs key false m' = m'.freed ≡ swept key cs m.freed

-- What a call of `remove` leaves.
pub record Removed (m : Memory) (head tail : Ptr) (cs : List Cell) (key : Key) (gone : Bool)
    (m' : Memory) : Type 0 where
  pub answer : gone ≡ has key cs
  pub list : IsList m' head tail (if gone then remove_cell key (sweep key cs) else sweep key cs)
  pub durable : (x : Ptr) → (x ≡ head) ⊎ (persisted (m'.durable x) ≢ some key)
  pub freed : Freed m cs key gone m'
  pub pool : m'.pool ≡ m.pool
  pub upkeep : Upkeep m m'

-- A list without the key: NVRAM carries it in no object.
pub not_durable :
    {m : Memory} {head tail : Ptr} {cs : List Cell} (key : Key)
    → IsList m head tail cs
    → has key cs ≡ false
    → (x : Ptr) → (x ≡ head) ⊎ (persisted (m.durable x) ≢ some key)
not_durable {cs} key is none x = elim (ℕ_discrete x _) [
  | yes e ↦ inl e
  | no ne ↦ inr λ e.
      let listed = is.owned x key ne (sym (is.settled x ne) ∙ e) in
      clash (lists-has x key cs listed) none
]
  where
    clash : {b : Bool} → b ≡ true → b ≡ false → ⊥
    clash p q = cc

module _ {m m1 : Memory} {head tail : Ptr} {cs : List Cell} {found : Ptr × Ptr} (key : Key)
    (again : Cmd Bool) (is : IsList m head tail cs) (above : int_min < key) (small : key < int_max)
    (s : Searched m tail key (head_cell head) cs found m1) where
  abbrev f : Found m1 tail key (head_cell head) cs found.0 found.1
  f = s.found_at

  is1 : IsList m1 head tail (sweep key cs)
  is1 = Searched-IsList is s

  on_absent :
      has key cs ≡ false
      → Returns (Removed m head tail cs key) (exec (remove_at key found.0 found.1 again) m1)
  on_absent new =
      rw
        (remove_at-absent m1 found.0 found.1 key again (Seg-sound f.here.seg f.here.end.sound)
          (sym (Found-has cs key above small f) ∙ new))
        (returns (record {
          answer = sym new;
          list = is1;
          durable = not_durable key is1 (has-sweep key key cs ∙ new);
          freed = s.freed;
          pool = s.quiet.pool;
          upkeep = s.quiet.upkeep;
        }))

  -- The search stopped at the key: `curr` is the first cell behind the place.
  on_cell :
      (bs : List Cell)
      → f.bs ≡ bs
      → (m1.cached found.1).key ≡ key
      → has key cs ≡ true
      → Returns (Removed m head tail cs key) (exec (remove_at key found.0 found.1 again) m1)
  on_cell [] e key_c there = absurd (omega (arith, end.key_eq, ap (λ x. (m1.cached x).key) at_tail))
    where
      open f.here use {end}

      at_tail : found.1 ≡ tail
      at_tail = Seg-end (subst (Seg m1.cached tail found.1) e f.here.seg)
  on_cell (b ∷ bs) e key_c there =
      let place : At m1.cached tail f.r found.1 (b ∷ bs) =
        subst (At m1.cached tail f.r found.1) e f.here in
      let at_b : found.1 ≡ b.ptr = Seg-head place.seg in
      let place' : At m1.cached tail f.r b.ptr (b ∷ bs) =
        subst (λ x. At m1.cached tail f.r x (b ∷ bs)) at_b place in
      let key_b : (m1.cached b.ptr).key ≡ key = rw (← at_b) key_c in
      let reached : Reached key (b ∷ bs) = subst (Reached key) e f.reached in
      let hit = Found-Hit key is1 f above small key_c in
      let b_key : b.key ≡ key = sym (Seg-held place.seg).key_eq ∙ key_b in
      let split : f.fs ++ f.r ∷ b ∷ bs ≡ head_cell head ∷ sweep key cs =
        ap (λ l. f.fs ++ f.r ∷ l) (sym e) ∙ f.split in
      let listed : lists b.ptr key (sweep key cs) ≡ true = rw (← at_b) hit.listed in
      let left =
        removed-IsList is1 f.front f.below place' split reached.0 b_key above
          (rw (← at_b) hit.ne_head) listed in
      rw (f.ptr, at_b)
        (rw (remove_at-found m1 key again place' reached.0 key_b) (
          returns (record {
            answer = sym there;
            list = left;
            durable =
                not_durable key left
                  (has-remove_cell key key int_min (sweep key cs) is1.here.up ∙ ground arith);
            freed = (
              b.ptr,
              sym (lists-sweep b.ptr key key cs) ∙ listed,
              removed-freed m1 f.r b ∙ ap (λ l. b.ptr ∷ l) s.freed,
            );
            pool = removed-pool m1 f.r b ∙ s.quiet.pool;
            upkeep = Upkeep-trans s.quiet.upkeep (removed-Upkeep m1 f.r b);
          })))

-- A call of the link-free list's `remove` alone returns in the first round of its loop, without a
-- fault. It answers whether the list had the key; the list is in order and has no node with the
-- key afterwards, and no object of NVRAM but the head carries it; the marked nodes on the way are
-- unlinked and freed, and so is the node with the key, each once; if metadata was a byte
-- everywhere and no object had been flushed with its delete flag set, that stays so, and valid
-- objects stay valid. The conditions: the list was in order, the key lies strictly between those
-- of the sentinels, and the fuel of the walk exceeds the number of nodes.
pub remove-Removed :
    {m : Memory} {head tail : Ptr} {cs : List Cell} (rounds walk : ℕ) (key : Key)
    → IsList m head tail cs
    → length cs < walk
    → int_min < key
    → key < int_max
    → Returns (Removed m head tail cs key) (exec (remove (suc rounds) walk head key) m)
unfolding remove
remove-Removed {m} {head} {cs} rounds walk key is fuel above small =
    Returns-bind perform (find walk head key) _ m
      (find-Searched walk key is fuel above (omega arith))
      λ found m1 s. elim (Bool-cases (has key cs)) [
        | inl there ↦
            on_cell key _ is above small s s.found_at.bs refl
              ((==_iff _ _).0 (sym (Found-has cs key above small s.found_at) ∙ there)) there
        | inr new ↦ on_absent key _ is above small s new
      ]
