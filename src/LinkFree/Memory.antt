-- ===== src/LinkFree/Memory.antt =====
-- LinkFree/LinkFreeList.h: `class Node`, and the memory of a link-free list: its nodes as the processor sees them, what NVRAM holds of each,
-- and the calls of the allocator of the thread. A program is a tree of atomic accesses.
use efficient_lock_free_dura.Common.{
  ℕ, Bool, true, false, Option, none, some, List, [], ◌∷◌, ◌==◌, ◌||◌, if◌then◌else◌,
}
use efficient_lock_free_dura.Common.Prog.{Prog, Outcome, run}
use efficient_lock_free_dura.LinkFree.Utilities.{is_marked}

-- The number of an address, with the mark bit where a `next` field holds one.
abbrev pub Ptr : Type 0
Ptr = ℕ

abbrev pub nullptr : Ptr
nullptr = 0

-- An `intptr_t` by its distance from INTPTR_MIN, so that the order is that of the numbers.
abbrev pub Key : Type 0
Key = ℕ

-- `class Node`, with the value type of the benchmarks, `intptr_t`.
pub record Node : Type 0 where
  pub meta_data : ℕ
  pub insert_flag : Bool
  pub delete_flag : Bool
  pub key : Key
  pub value : ℕ
  pub next : Ptr

-- `pool` holds the objects that `ssmem_alloc` will return, in order; `freed` those given to
-- `ssmem_free`, the last one first.
pub record Memory : Type 0 where
  pub cached : Ptr → Node
  pub durable : Ptr → Node
  pub pool : List Ptr
  pub freed : List Ptr

unfoldable pub write : (Ptr → Node) → Ptr → Node → Ptr → Node
write nodes p n q = if q == p then n else nodes q

-- An atomic access to one field of a node is `load`, whose caller reads that field alone, or
-- `store` with the function that sets it.
pub data Op : Type 0 where
  load : Ptr → Op
  store : Ptr → (Node → Node) → Op
  cas_next : Ptr → (expected desired : Ptr) → Op
  flush : Ptr → Op
  alloc : Op
  free : Ptr → Op

abbrev pub Res : Op → Type 0
Res (load p) = Node
Res (store p f) = Unit {0}
Res (cas_next p expected desired) = Bool
Res (flush p) = Unit {0}
Res alloc = Ptr
Res (free p) = Unit {0}

abbrev pub Cmd : Type 0 → Type 0
Cmd = Prog Op Res

-- The pointers through which no access is possible: null, and one with its mark bit set.
unfoldable pub is_wild : Ptr → Bool
is_wild p = p == nullptr || is_marked p

abbrev pub guarded : {A : Type 0} → Ptr → A × Memory → Option (A × Memory)
guarded p r = if is_wild p then none else some r

abbrev pub with_node : Memory → Ptr → Node → Memory
with_node m p n = record m { cached = write m.cached p n }

abbrev pub take_object : Memory → List Ptr → Option (Ptr × Memory)
take_object m [] = none
take_object m (p ∷ rest) = some (p, record m { pool = rest })

unfoldable pub perform : (o : Op) → Memory → Option (Res o × Memory)
perform (load p) m = guarded p (m.cached p, m)
perform (store p f) m = guarded p (tt, with_node m p (f (m.cached p)))
perform (cas_next p expected desired) m = guarded p (
    if (m.cached p).next == expected
    then (true, with_node m p (record (m.cached p) { next = desired }))
    else (false, m))
perform (flush p) m = guarded p (tt, record m { durable = write m.durable p (m.cached p) })
perform alloc m = take_object m m.pool
perform (free p) m = some (tt, record m { freed = p ∷ m.freed })

abbrev pub exec : {A : Type 0} → Cmd A → Memory → Outcome Memory A
exec = run perform
