-- ===== src/Soft/Recovery.antt =====
-- SOFT/SOFTList.h: `quickInsert` and `recovery`, which rebuild the volatile list after a crash.
-- Recovery runs alone.
use efficient_lock_free_dura.Common.{
  ℕ, zero, suc, ◌+◌, false, not, member, List, [], ◌∷◌, ltb, ◌==◌, ◌||◌, if◌then◌else◌,
}
use efficient_lock_free_dura.Common.Prog.{ret, stop, abort, atomic, ◌>>=◌, ◌>>◌}
use efficient_lock_free_dura.Soft.Utilities.{State, get_ref, create_ref, get_state, is}
use efficient_lock_free_dura.Soft.Memory.{
  Ptr, nullptr, Key, PNode, Memory, Cmd, store, cas_next, load_pnode, store_pnode, alloc_node,
  free_pnode,
}
use efficient_lock_free_dura.Soft.PersistentNode.{is_valid, is_deleted, recovery_validity}
use efficient_lock_free_dura.Soft.List.{load_next, load_key, volatile_node}

-- The inlined search: a deleted node and a second node with the key fail an `assert`. `curr` is a
-- reference without its state, `word` what its predecessor's `next` field held.
unfoldable pub quick_find : ℕ → Key → (pred word : Ptr) → Cmd (Ptr × Ptr)
unfolding load_next load_key
quick_find zero key pred word = stop
quick_find (suc fuel) key pred word = do
  succ ← load_next (get_ref word)
  if is (get_state succ) State.deleted then abort else do
    curr_key ← load_key (get_ref word)
    if ltb curr_key key
        then quick_find fuel key (get_ref word) succ
        else if curr_key == key
        then abort
        else ret (pred, word)

unfoldable pub quick_insert_loop : ℕ → ℕ → Ptr → Ptr → Key → Cmd (Unit {0})
unfolding load_next
quick_insert_loop zero walk head new_node key = stop
quick_insert_loop (suc rounds) walk head new_node key = do
  first ← load_next head
  (pred, curr) ← quick_find walk key head first
  atomic (store new_node λ n. record n { next = create_ref (get_ref curr) State.inserted })
  linked ← atomic (cas_next pred curr (create_ref new_node State.inserted))
  if linked then ret tt else quick_insert_loop rounds walk head new_node key

-- The node is made by `new`, which takes its memory from the same pool of addresses here.
unfoldable pub quick_insert : ℕ → ℕ → Ptr → Ptr → Cmd (Unit {0})
quick_insert rounds walk head new_pnode = do
  p_valid ← recovery_validity new_pnode
  n ← atomic (load_pnode new_pnode)
  new_node ← atomic alloc_node
  atomic (store new_node λ x. volatile_node n.key n.value new_pnode p_valid)
  quick_insert_loop rounds walk head new_node n.key

-- The body of the inner loop of `recovery`, for one node of a chunk.
unfoldable pub recover_node : ℕ → ℕ → Ptr → Ptr → Cmd (Unit {0})
recover_node rounds walk head curr_node = do
  n ← atomic (load_pnode curr_node)
  if not (is_valid n) || is_deleted n
      then (do
        atomic (store_pnode curr_node λ x. record x { valid_start = n.valid_end })
        atomic (free_pnode curr_node))
      else quick_insert rounds walk head curr_node

-- The inner loop, `count` nodes of `size` bytes from `curr_node` on.
unfoldable pub recover_chunk : ℕ → ℕ → Ptr → (size count : ℕ) → Ptr → Cmd (Unit {0})
recover_chunk rounds walk head size zero curr_node = ret tt
recover_chunk rounds walk head size (suc count) curr_node = do
  recover_node rounds walk head curr_node
  recover_chunk rounds walk head size count (curr_node + size)

-- The outer loop, over `alloc->mem_chunks`.
unfoldable pub recovery : ℕ → ℕ → Ptr → (size count : ℕ) → List Ptr → Cmd (Unit {0})
recovery rounds walk head size count [] = ret tt
recovery rounds walk head size count (chunk ∷ rest) = do
  recover_chunk rounds walk head size count chunk
  recovery rounds walk head size count rest

-- A crash and the restart: what NVRAM holds of the objects of the chunks is what memory holds. The
-- volatile nodes and the lists of the allocators are gone; `fresh` are the objects that `volatileAlloc`
-- and `new` will give then.
abbrev pub lost : PNode
lost = record { valid_start = false; valid_end = false; deleted = false; key = 0; value = 0 }

unfoldable pub crash : (objs fresh : List Ptr) → Memory → Memory
crash objs fresh m =
    let image : Ptr → PNode = λ x. if member x objs then m.durable x else lost in
    record {
      nodes = λ x. volatile_node 0 0 nullptr false;
      cached = image;
      durable = image;
      node_pool = fresh;
      pnode_pool = [];
      freed_nodes = [];
      freed_pnodes = [];
    }
