-- ===== src/LinkFree/SkipList/Memory.antt =====
-- LinkFree/LinkFreeSkipList.h: `class Node`, a tower of links, and the memory of a link-free skip list.
use efficient_lock_free_dura.Common.{
  ℕ, ◌-◌, ◌+◌, ◌^◌, Bool, true, false, Option, none, some, List, [], ◌∷◌, ltb, ◌==◌, ◌||◌,
  if◌then◌else◌,
}
use efficient_lock_free_dura.Common.Prog.{Prog, Outcome, run}
use efficient_lock_free_dura.LinkFree.Utilities.{is_marked}

abbrev pub Ptr : Type 0
Ptr = ℕ

abbrev pub nullptr : Ptr
nullptr = 0

-- An `intptr_t` by its distance from INTPTR_MIN, so that the order is that of the numbers.
abbrev pub Key : Type 0
Key = ℕ

-- `MAX_LEVEL` of include/common.h
abbrev pub max_level : ℕ
max_level = 21

-- `class Node`; `next` gives the link of each level.
pub record Tower : Type 0 where
  pub meta_data : ℕ
  pub insert_flag : Bool
  pub delete_flag : Bool
  pub top_level : ℕ
  pub key : Key
  pub value : ℕ
  pub next : ℕ → Ptr

-- `pool` holds the objects that `ssmem_alloc` will return, in order; `freed` those given to
-- `ssmem_free`, the last one first.
pub record Memory : Type 0 where
  pub cached : Ptr → Tower
  pub durable : Ptr → Tower
  pub pool : List Ptr
  pub freed : List Ptr

unfoldable pub write {ℓ} : {A : Type ℓ} → (ℕ → A) → ℕ → A → ℕ → A
write f p a q = if q == p then a else f q

abbrev pub set_next : Tower → ℕ → Ptr → Tower
set_next n i p = record n { next = write n.next i p }

-- A flush writes back the cache line of its address, the first 64 bytes of the node, which is aligned:
-- the metadata, the flags, the key and the value, 24 bytes in all with a value of a word, and five links.
abbrev pub line_links : ℕ
line_links = 5

abbrev pub line_of : (cached durable : Tower) → Tower
line_of cached durable = record cached {
  next = λ i. if ltb i line_links then cached.next i else durable.next i;
}

-- An atomic access to one field of a node is `load`, whose caller reads that field alone, or
-- `store` with the function that sets it. `cas_next` is on the link of one level.
pub data Op : Type 0 where
  load : Ptr → Op
  store : Ptr → (Tower → Tower) → Op
  cas_next : Ptr → (i : ℕ) → (expected desired : Ptr) → Op
  flush : Ptr → Op
  alloc : Op
  free : Ptr → Op

abbrev pub Res : Op → Type 0
Res (load p) = Tower
Res (store p f) = Unit {0}
Res (cas_next p i expected desired) = Bool
Res (flush p) = Unit {0}
Res alloc = Ptr
Res (free p) = Unit {0}

abbrev pub Cmd : Type 0 → Type 0
Cmd = Prog Op Res

-- The pointers through which no access is possible: null, and one with its mark bit set.
unfoldable pub is_wild : Ptr → Bool
is_wild p = p == nullptr || is_marked p

abbrev pub guarded : {A : Type 0} → Ptr → A × Memory → Option (A × Memory)
guarded p r = if is_wild p then none else some r

abbrev pub take_object : Memory → List Ptr → Option (Ptr × Memory)
take_object m [] = none
take_object m (p ∷ rest) = some (p, record m { pool = rest })

unfoldable pub perform : (o : Op) → Memory → Option (Res o × Memory)
perform (load p) m = guarded p (m.cached p, m)
perform (store p f) m = guarded p (tt, record m { cached = write m.cached p (f (m.cached p)) })
perform (cas_next p i expected desired) m = guarded p (
    if (m.cached p).next i == expected
    then (true, record m { cached = write m.cached p (set_next (m.cached p) i desired) })
    else (false, m))
perform (flush p) m =
    guarded p (tt, record m { durable = write m.durable p (line_of (m.cached p) (m.durable p)) })
perform alloc m = take_object m m.pool
perform (free p) m = some (tt, record m { freed = p ∷ m.freed })

abbrev pub exec : {A : Type 0} → Cmd A → Memory → Outcome Memory A
exec = run perform

-- The constructor of the list: the two sentinels, with the addresses that `new` returns. The levels
-- above `MAX_LEVEL` do not exist.
abbrev pub sentinel : Tower → Key → (ℕ → Ptr) → Tower
sentinel old key next = record {
  meta_data = old.meta_data;
  insert_flag = false;
  delete_flag = false;
  top_level = max_level;
  key = key;
  value = 0;
  next = next;
}

unfoldable pub construct : (head last : Ptr) → Memory → Memory
construct head last m =
    let m' = record m {
      cached = write m.cached head (sentinel (m.cached head) (2 ^ 63 - 2 ^ 31) (λ i. last));
    } in
    record m' {
      cached =
          write m'.cached last (sentinel (m'.cached last) (2 ^ 63 + 2 ^ 31 - 1) (λ i. nullptr));
    }
