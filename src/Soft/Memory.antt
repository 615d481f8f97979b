-- ===== src/Soft/Memory.antt =====
-- SOFT/PNode.h and SOFT/VolatileNode.h: the two kinds of nodes, and the memory of a SOFT list.
use efficient_lock_free_dura.Common.{
  ℕ, ◌%◌, Bool, true, false, not, Option, none, some, List, [], ◌∷◌, ◌==◌, ◌||◌, if◌then◌else◌,
}
use efficient_lock_free_dura.Common.Prog.{Prog, Outcome, run}

-- The number of an address, with the state digits where a `next` field holds one.
abbrev pub Ptr : Type 0
Ptr = ℕ

abbrev pub nullptr : Ptr
nullptr = 0

-- An `intptr_t` by its distance from INTPTR_MIN, so that the order is that of the numbers.
abbrev pub Key : Type 0
Key = ℕ

-- `class PNode`
pub record PNode : Type 0 where
  pub valid_start : Bool
  pub valid_end : Bool
  pub deleted : Bool
  pub key : Key
  pub value : ℕ

-- `class Node`
pub record Node : Type 0 where
  pub key : Key
  pub value : ℕ
  pub pptr : Ptr
  pub p_validity : Bool
  pub next : Ptr

-- `nodes` are volatile; of the persistent nodes there is what the caches hold and what NVRAM holds.
-- The pools hold the objects that the allocator will return, in order; the freed ones stand with the
-- last one first.
pub record Memory : Type 0 where
  pub nodes : Ptr → Node
  pub cached : Ptr → PNode
  pub durable : Ptr → PNode
  pub node_pool : List Ptr
  pub pnode_pool : List Ptr
  pub freed_nodes : List Ptr
  pub freed_pnodes : List Ptr

unfoldable pub write {ℓ} : {A : Type ℓ} → (Ptr → A) → Ptr → A → Ptr → A
write f p a q = if q == p then a else f q

-- An atomic access to one field is `load` or `load_pnode`, whose caller reads that field alone, or
-- `store` or `store_pnode` with the function that sets it.
pub data Op : Type 0 where
  load : Ptr → Op
  store : Ptr → (Node → Node) → Op
  cas_next : Ptr → (expected desired : Ptr) → Op
  load_pnode : Ptr → Op
  store_pnode : Ptr → (PNode → PNode) → Op
  flush_pnode : Ptr → Op
  alloc_node : Op
  alloc_pnode : Op
  free_node : Ptr → Op
  free_pnode : Ptr → Op

abbrev pub Res : Op → Type 0
Res (load p) = Node
Res (store p f) = Unit {0}
Res (cas_next p expected desired) = Bool
Res (load_pnode p) = PNode
Res (store_pnode p f) = Unit {0}
Res (flush_pnode p) = Unit {0}
Res alloc_node = Ptr
Res alloc_pnode = Ptr
Res (free_node p) = Unit {0}
Res (free_pnode p) = Unit {0}

abbrev pub Cmd : Type 0 → Type 0
Cmd = Prog Op Res

-- The pointers through which no access is possible: null, and one with a state digit set.
unfoldable pub is_wild : Ptr → Bool
is_wild p = p == nullptr || not (p % 4 == 0)

abbrev pub guarded : {A : Type 0} → Ptr → A × Memory → Option (A × Memory)
guarded p r = if is_wild p then none else some r

abbrev pub take_node : Memory → List Ptr → Option (Ptr × Memory)
take_node m [] = none
take_node m (p ∷ rest) = some (p, record m { node_pool = rest })

abbrev pub take_pnode : Memory → List Ptr → Option (Ptr × Memory)
take_pnode m [] = none
take_pnode m (p ∷ rest) = some (p, record m { pnode_pool = rest })

unfoldable pub perform : (o : Op) → Memory → Option (Res o × Memory)
perform (load p) m = guarded p (m.nodes p, m)
perform (store p f) m = guarded p (tt, record m { nodes = write m.nodes p (f (m.nodes p)) })
perform (cas_next p expected desired) m = guarded p (
    if (m.nodes p).next == expected
    then (true, record m { nodes = write m.nodes p (record (m.nodes p) { next = desired }) })
    else (false, m))
perform (load_pnode p) m = guarded p (m.cached p, m)
perform (store_pnode p f) m =
    guarded p (tt, record m { cached = write m.cached p (f (m.cached p)) })
perform (flush_pnode p) m = guarded p (tt, record m { durable = write m.durable p (m.cached p) })
perform alloc_node m = take_node m m.node_pool
perform alloc_pnode m = take_pnode m m.pnode_pool
perform (free_node p) m = some (tt, record m { freed_nodes = p ∷ m.freed_nodes })
perform (free_pnode p) m = some (tt, record m { freed_pnodes = p ∷ m.freed_pnodes })

abbrev pub exec : {A : Type 0} → Cmd A → Memory → Outcome Memory A
exec = run perform
