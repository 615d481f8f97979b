-- ===== src/LinkFree/Construct.antt =====
-- The constructor of `LinkFreeList`: the two sentinels.
use efficient_lock_free_dura.Common.{◌<◌, ◌≡◌, ◌≢◌, ◌∙◌, sym, refl, false, none, some, [], arith}
use efficient_lock_free_dura.LinkFree.Memory.{
  Ptr, nullptr, Key, Node, Memory, is_wild, write, with_node,
}
use efficient_lock_free_dura.LinkFree.Utilities.{is_marked}
use efficient_lock_free_dura.LinkFree.List.{int_min, int_max}
use efficient_lock_free_dura.LinkFree.Shape.{persisted, nil, write_self, write_ne}
use efficient_lock_free_dura.LinkFree.Find.Step.{At, clean}
use efficient_lock_free_dura.LinkFree.Invariant.{IsList, head_cell}

-- `Node(key, 0, next)`, which leaves `metaData` as the memory held it.
abbrev pub sentinel : Node → Key → Ptr → Node
sentinel old key next = record {
  meta_data = old.meta_data;
  insert_flag = false;
  delete_flag = false;
  key = key;
  value = 0;
  next = next;
}

-- `min` and `max` are the addresses that `new` returns.
unfoldable pub construct : (min max : Ptr) → Memory → Memory
construct min max m =
    let m' = with_node m max (sentinel (m.cached max) int_max nullptr) in
    with_node m' min (sentinel (m'.cached min) int_min max)

-- Nothing in memory would be inserted by `recover`.
pub record IsBlank (m : Memory) : Type 0 where
  pub cached : (x : Ptr) → persisted (m.cached x) ≡ none
  pub durable : (x : Ptr) → persisted (m.durable x) ≡ none

null_unmarked : is_marked nullptr ≡ false
unfolding is_marked
null_unmarked = refl

none-some : {k : Key} → none ≡ some k → ⊥
none-some h = cc

pub construct-persisted :
    (m : Memory) (min max x : Ptr)
    → persisted (m.cached x) ≡ none
    → x ≢ min
    → persisted ((construct min max m).cached x) ≡ none
unfolding construct write persisted
construct-persisted m min max x old ne = ground arith

-- The sentinels: the head is linked to the tail.
pub construct-At :
    (m : Memory) (min max : Ptr)
    → is_wild min ≡ false
    → is_wild max ≡ false
    → min ≢ max
    → (m.cached min).meta_data < 256
    → (let m' = construct min max m in At m'.cached max (head_cell min) (m'.cached min).next [])
unfolding construct
construct-At m min max sound_min sound_max ne byte =
    let last = sentinel (m.cached max) int_max nullptr in
    let m' = with_node m max last in
    let first = sentinel (m'.cached min) int_min max in
    let at_min = write_self m'.cached min first in
    let old_min = write_ne m.cached max last min ne in
    let at_max =
      write_ne m'.cached min first max (λ e. ne (sym e)) ∙ write_self m.cached max last in
    record {
      held = record {
        sound = sound_min;
        key_eq = rw at_min refl;
        mark_eq = rw at_min (clean max sound_max);
        byte = rw (at_min, old_min) byte;
        valid_of_marked = λ dead. cc;
        undeleted = λ live. rw at_min refl;
        inserted = rw at_min (λ set. cc);
      };
      live = refl;
      next = refl;
      seg = nil (rw at_min refl);
      up = omega arith;
      end = record {
        sound = sound_max;
        key_eq = rw at_max refl;
        unmarked = rw at_max null_unmarked;
      };
    }

-- The constructor makes the empty list, if `new` returns two different addresses, neither null nor
-- odd, the metadata there is a byte, and nothing in memory is a node that `recover` would insert.
pub construct-IsList :
    {m : Memory} (min max : Ptr)
    → IsBlank m
    → is_wild min ≡ false
    → is_wild max ≡ false
    → min ≢ max
    → (m.cached min).meta_data < 256
    → IsList (construct min max m) min max []
unfolding construct
construct-IsList {m} min max blank sound_min sound_max ne byte =
    let content =
      λ (x : Ptr) (ne_x : x ≢ min). construct-persisted m min max x (blank.cached x) ne_x in
    record {
      here = construct-At m min max sound_min sound_max ne byte;
      settled = λ x ne_x. blank.durable x ∙ sym (content x ne_x);
      owned = λ x k ne_x e. absurd (none-some (sym (content x ne_x) ∙ e));
    }
