-- ===== src/Soft/SkipList/Memory.antt =====
-- SOFT/SOFTSkipList.h: `class Node`, a tower of links with the validity bits, and the memory of a SOFT
-- skip list.
use efficient_lock_free_dura.Common.{
  ℕ, ◌-◌, ◌%◌, ◌^◌, Bool, true, false, not, Option, none, some, List, [], ◌∷◌, ltb, ◌==◌, ◌||◌,
  if◌then◌else◌,
}
use efficient_lock_free_dura.Common.Prog.{Prog, Outcome, run}

abbrev pub Ptr : Type 0
Ptr = ℕ

abbrev pub nullptr : Ptr
nullptr = 0

-- An `intptr_t` by its distance from INTPTR_MIN, so that the order is that of the numbers.
abbrev pub Key : Type 0
Key = ℕ

-- `MAX_LEVEL` of include/common.h
abbrev pub max_level : ℕ
max_level = 21

-- `class Node`; `next` gives the link of each level.
pub record Tower : Type 0 where
  pub key : Key
  pub value : ℕ
  pub p_validity : Bool
  pub valid_start : Bool
  pub valid_end : Bool
  pub deleted : Bool
  pub top_level : ℕ
  pub next : ℕ → Ptr

-- `pool` holds the objects that `ssmem_alloc` will return, in order; `freed` those given to
-- `ssmem_free`, the last one first.
pub record Memory : Type 0 where
  pub cached : Ptr → Tower
  pub durable : Ptr → Tower
  pub pool : List Ptr
  pub freed : List Ptr

unfoldable pub write {ℓ} : {A : Type ℓ} → (ℕ → A) → ℕ → A → ℕ → A
write f p a q = if q == p then a else f q

abbrev pub set_next : Tower → ℕ → Ptr → Tower
set_next n i p = record n { next = write n.next i p }

-- A flush writes back the cache line of its address, the first 64 bytes of the node, which is aligned:
-- the key, the value and the validity bits, 24 bytes in all with a value of a word, and five links.
abbrev pub line_links : ℕ
line_links = 5

abbrev pub line_of : (cached durable : Tower) → Tower
line_of cached durable = record cached {
  next = λ i. if ltb i line_links then cached.next i else durable.next i;
}

-- An atomic access to one field of a node is `load`, whose caller reads that field alone, or
-- `store` with the function that sets it. `cas_next` is on the link of one level.
pub data Op : Type 0 where
  load : Ptr → Op
  store : Ptr → (Tower → Tower) → Op
  cas_next : Ptr → (i : ℕ) → (expected desired : Ptr) → Op
  flush : Ptr → Op
  alloc : Op
  free : Ptr → Op

abbrev pub Res : Op → Type 0
Res (load p) = Tower
Res (store p f) = Unit {0}
Res (cas_next p i expected desired) = Bool
Res (flush p) = Unit {0}
Res alloc = Ptr
Res (free p) = Unit {0}

abbrev pub Cmd : Type 0 → Type 0
Cmd = Prog Op Res

-- The pointers through which no access is possible: null, and one with a state digit set.
unfoldable pub is_wild : Ptr → Bool
is_wild p = p == nullptr || not (p % 4 == 0)

abbrev pub guarded : {A : Type 0} → Ptr → A × Memory → Option (A × Memory)
guarded p r = if is_wild p then none else some r

abbrev pub take_object : Memory → List Ptr → Option (Ptr × Memory)
take_object m [] = none
take_object m (p ∷ rest) = some (p, record m { pool = rest })

unfoldable pub perform : (o : Op) → Memory → Option (Res o × Memory)
perform (load p) m = guarded p (m.cached p, m)
perform (store p f) m = guarded p (tt, record m { cached = write m.cached p (f (m.cached p)) })
perform (cas_next p i expected desired) m = guarded p (
    if (m.cached p).next i == expected
    then (true, record m { cached = write m.cached p (set_next (m.cached p) i desired) })
    else (false, m))
perform (flush p) m =
    guarded p (tt, record m { durable = write m.durable p (line_of (m.cached p) (m.durable p)) })
perform alloc m = take_object m m.pool
perform (free p) m = some (tt, record m { freed = p ∷ m.freed })

abbrev pub exec : {A : Type 0} → Cmd A → Memory → Outcome Memory A
exec = run perform

-- The constructor of the list: the two sentinels, with the addresses that `new` returns and the keys
-- INTPTR_MIN and INTPTR_MAX. The levels above `MAX_LEVEL` do not exist.
abbrev pub sentinel : Key → (ℕ → Ptr) → Tower
sentinel key next = record {
  key = key;
  value = 0;
  p_validity = false;
  valid_start = false;
  valid_end = false;
  deleted = false;
  top_level = max_level;
  next = next;
}

unfoldable pub construct : (min max : Ptr) → Memory → Memory
construct min max m =
    let first = sentinel 0 (λ i. max) in
    let last = sentinel (2 ^ 64 - 1) (λ i. nullptr) in
    record m { cached = write (write m.cached max last) min first }
