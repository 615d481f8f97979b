-- ===== src/Soft/Remove.antt =====
-- `remove` of SOFT/SOFTList.h, run by one thread.
pub mod Unlink
pub mod Place
use efficient_lock_free_dura.Common.{
  ℕ, suc, ◌<◌, ◌≡◌, ◌≢◌, ◌∙◌, sym, ap, subst, refl, Bool, true, false, none, some, List, [], ◌∷◌,
  ◌++◌, not, length, ◌==◌, ==_iff, Bool-cases, inl, inr, if◌then◌else◌, arith,
}
use efficient_lock_free_dura.Common.Prog.{Returns, returns, Returns-bind, done, ret, run-bind}
use efficient_lock_free_dura.Soft.Utilities.{State, get_ref, get_state, is}
use efficient_lock_free_dura.Soft.Memory.{Ptr, nullptr, Key, Memory, Cmd, is_wild, exec, perform}
use efficient_lock_free_dura.Soft.PersistentNode.{is_deleted}
use efficient_lock_free_dura.Soft.PersistentNode.Lifecycle.{recovered}
use efficient_lock_free_dura.Soft.List.{remove, remove_at, find, int_min, int_max}
use efficient_lock_free_dura.Soft.Shape.{
  Cell, has, lists, At, Seg, Seg-sound, Seg-head, Seg-held, Seg-tail, Seg-end,
}
use efficient_lock_free_dura.Soft.Cells.{remove_cell, has-remove_cell, lists-has}
use efficient_lock_free_dura.Soft.Find.{Found, Searched, Reached, find-Searched}
use efficient_lock_free_dura.Soft.Invariant.{IsList, Found-has, head_cell}
use efficient_lock_free_dura.Soft.Remove.Unlink.{after_remove, remove_at-found, remove_at-absent}
use efficient_lock_free_dura.Soft.Remove.Place.{
  pred_ne, Written-b, listed, wiped, still_free, removed-IsList,
}

-- What a call of `remove` changes: nothing if the key was missing; else the persistent node of the key is
-- given to `ssmem_free`, in a state in which `alloc` and `create` may use it again.
abbrev pub Freed : Memory → List Cell → Key → Bool → Memory → Type 0
Freed m cs key true m' =
    (x : Ptr) × (lists x key cs ≡ true)
    × (m'.freed_pnodes ≡ x ∷ m.freed_pnodes)
    × (is_deleted (m'.cached x) ≡ true)
Freed m cs key false m' = m' ≡ m

pub record Removed (m : Memory) (head tail : Ptr) (cs : List Cell) (key : Key) (gone : Bool)
    (m' : Memory) : Type 0 where
  pub answer : gone ≡ has key cs
  pub list : IsList m' head tail (if gone then remove_cell key cs else cs)
  pub freed : Freed m cs key gone m'
  pub durable : (x : Ptr) (v : ℕ) → recovered (m'.durable x) ≢ some (key, v)
  pub node_pool : m'.node_pool ≡ m.node_pool
  pub pnode_pool : m'.pnode_pool ≡ m.pnode_pool
  pub free : (x : Ptr) → is_deleted (m.cached x) ≡ true → is_deleted (m'.cached x) ≡ true

-- A list without the key: NVRAM carries it in no persistent node.
pub not_durable :
    {m : Memory} {head tail : Ptr} {cs : List Cell} {key : Key}
    → IsList m head tail cs
    → has key cs ≡ false
    → (x : Ptr) (v : ℕ) → recovered (m.durable x) ≢ some (key, v)
not_durable {cs} {key} is absent x v e =
    clash (lists-has x key cs (is.owned x key v (sym (is.settled x) ∙ e))) absent
  where
    clash : {b : Bool} → b ≡ true → b ≡ false → ⊥
    clash p q = cc

module _ {m : Memory} {head tail : Ptr} {cs : List Cell} (fuel : ℕ) (key : Key)
    (is : IsList m head tail cs) (above : int_min < key) (small : key < int_max) where
  missed :
      (pred curr : Ptr)
      → Found m.nodes tail key (head_cell head) cs pred curr
      → has key cs ≡ false
      → Returns
          (Removed m head tail cs key)
          (exec (remove_at (suc (suc fuel)) key pred curr State.inserted) m)
  missed pred curr f absent =
      rw
        (remove_at-absent m pred curr key (suc (suc fuel))
          (Seg-sound f.bs f.here.end.sound f.here.seg)
          (sym (Found-has cs key above small f) ∙ absent))
        (returns (record {
          answer = sym absent;
          list = is;
          freed = refl;
          durable = not_durable is absent;
          node_pool = refl;
          pnode_pool = refl;
          free = λ x h. h;
        }))

  -- The search stopped at the key: `curr` is the first cell behind the place.
  hit :
      (pred curr : Ptr)
      → (f : Found m.nodes tail key (head_cell head) cs pred curr) → (bs : List Cell) → f.bs ≡ bs
      → (m.nodes curr).key ≡ key
      → has key cs ≡ true
      → Returns
          (Removed m head tail cs key)
          (exec (remove_at (suc (suc fuel)) key pred curr State.inserted) m)
  hit pred curr f [] e key_c there =
      absurd (omega (arith, end.key_eq, ap (λ x. (m.nodes x).key) at_tail))
    where
      open f.here use {end}

      at_tail : curr ≡ tail
      at_tail = Seg-end (subst (Seg m.nodes tail curr) e f.here.seg)
  hit pred curr f (b ∷ bs) e key_c there =
      let place : At m.nodes tail f.r curr (b ∷ bs) = subst (At m.nodes tail f.r curr) e f.here in
      let at_b : curr ≡ b.ptr = Seg-head place.seg in
      let here : At m.nodes tail f.r b.ptr (b ∷ bs) =
        subst (λ x. At m.nodes tail f.r x (b ∷ bs)) at_b place in
      let held = Seg-held here.seg in
      let key_b : (m.nodes b.ptr).key ≡ key = rw (← at_b) key_c in
      let b_key : b.key ≡ key = sym held.key_eq ∙ key_b in
      let split : f.fs ++ f.r ∷ b ∷ bs ≡ head_cell head ∷ cs =
        ap (λ l. f.fs ++ f.r ∷ l) (sym e) ∙ f.split in
      let left = removed-IsList is f.front f.below here split b_key above in
      let sound_next = Seg-sound bs here.end.sound (Seg-tail here.seg) in
      let w = Written-b is f.front f.below here split b_key above in
      rw
        (
          f.ptr,
          at_b,
          remove_at-found m f.r.ptr b.ptr (m.nodes b.ptr).next here.held.sound held.sound sound_next
              (rw held.pptr_eq w.sound) (pred_ne is f.front f.below here split b_key above)
              here.next refl fuel key key_b,
        )
        (returns (record {
          answer = sym there;
          list = left;
          freed = (
            b.pptr,
            listed is f.front f.below here split b_key above,
            ap (λ x. x ∷ m.freed_pnodes) held.pptr_eq,
            wiped is f.front f.below here split b_key above,
          );
          durable = not_durable left (has-remove_cell key key int_min cs is.here.up ∙ ground arith);
          node_pool = refl;
          pnode_pool = refl;
          free = still_free is f.front f.below here split b_key above;
        }))

-- A call of the SOFT list's `remove` alone returns, without a fault. It answers whether the list
-- had the key; the list has no node with the key afterwards and is in order, and no persistent
-- node in NVRAM carries the key; if the key was there, its persistent node is given to
-- `ssmem_free` ready to be used again, and if it was missing, memory is as it was. The conditions:
-- the list was in order, its nodes inserted, the key lies strictly between those of the sentinels,
-- the fuel of the walk exceeds the number of nodes, and that of the state loops is two at least.
pub soft_remove-Removed :
    {m : Memory} {head tail : Ptr} {cs : List Cell} (walk fuel : ℕ) (key : Key)
    → IsList m head tail cs
    → length cs < walk
    → int_min < key
    → key < int_max
    → Returns (Removed m head tail cs key) (exec (remove walk (suc (suc fuel)) head key) m)
unfolding remove
soft_remove-Removed {m} {head} {tail} {cs} walk fuel key is enough above small =
    Returns-bind perform (find walk head key) _ m
      (find-Searched {q = head_cell head} walk key is.here enough above (omega arith))
      λ (pred, curr, state) m1 (same, (f, inserted_state)).
        rw (same, inserted_state)
          (elim (Bool-cases (has key cs)) [
            | inl there ↦
                hit fuel key is above small pred curr f f.bs refl
                  ((==_iff _ _).0 (sym (Found-has cs key above small f) ∙ there)) there
            | inr absent ↦ missed fuel key is above small pred curr f absent
          ])
