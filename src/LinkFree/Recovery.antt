-- ===== src/LinkFree/Recovery.antt =====
-- LinkFree/LinkFreeList.h: `quickInsert` and `recover`, which rebuild the list after a crash.
-- Recovery runs alone: the reads of one node are one load.
use efficient_lock_free_dura.Common.{
  ℕ, zero, suc, ◌+◌, false, not, member, List, [], ◌∷◌, ltb, ◌==◌, ◌&&◌, ◌||◌, if◌then◌else◌,
}
use efficient_lock_free_dura.Common.Prog.{ret, stop, abort, atomic, ◌>>=◌, ◌>>◌}
use efficient_lock_free_dura.LinkFree.Memory.{
  Ptr, nullptr, Key, Node, Memory, Cmd, load, store, cas_next,
}
use efficient_lock_free_dura.LinkFree.Utilities.{is_valid, is_marked, get_ref}
use efficient_lock_free_dura.LinkFree.List.{load_next, load_key, discard}

-- The inlined search: a marked node and a second node with the key fail an `assert`.
unfoldable pub quick_find : ℕ → Key → (pred curr : Ptr) → Cmd (Ptr × Ptr)
unfolding load_next load_key
quick_find zero key pred curr = stop
quick_find (suc fuel) key pred curr = do
  succ ← load_next curr
  if is_marked succ then abort else do
    curr_key ← load_key curr
    if ltb curr_key key
        then quick_find fuel key curr succ
        else if curr_key == key
        then abort
        else ret (pred, curr)

unfoldable pub quick_insert_loop : ℕ → ℕ → Ptr → Ptr → Key → Cmd (Unit {0})
unfolding load_next
quick_insert_loop zero walk head new_node key = stop
quick_insert_loop (suc rounds) walk head new_node key = do
  first ← load_next head
  (pred, curr) ← quick_find walk key head (get_ref first)
  atomic (store new_node λ n. record n { next = curr })
  linked ← atomic (cas_next pred curr new_node)
  if linked then ret tt else quick_insert_loop rounds walk head new_node key

unfoldable pub quick_insert : ℕ → ℕ → Ptr → Ptr → Cmd (Unit {0})
unfolding load_key
quick_insert rounds walk head new_node = do
  key ← load_key new_node
  quick_insert_loop rounds walk head new_node key

-- The body of the inner loop of `recover`, for one node of a chunk.
unfoldable pub recover_node : ℕ → ℕ → Ptr → Ptr → Cmd (Unit {0})
recover_node rounds walk head curr_node = do
  n ← atomic (load curr_node)
  if n.next == nullptr && is_valid n.meta_data
      then ret tt
      else if not (is_valid n.meta_data) || is_marked n.next
      then discard curr_node
      else quick_insert rounds walk head curr_node

-- The inner loop, `count` nodes of `size` bytes from `curr_node` on.
unfoldable pub recover_chunk : ℕ → ℕ → Ptr → (size count : ℕ) → Ptr → Cmd (Unit {0})
recover_chunk rounds walk head size zero curr_node = ret tt
recover_chunk rounds walk head size (suc count) curr_node = do
  recover_node rounds walk head curr_node
  recover_chunk rounds walk head size count (curr_node + size)

-- The outer loop, over `alloc->mem_chunks`.
unfoldable pub recover : ℕ → ℕ → Ptr → (size count : ℕ) → List Ptr → Cmd (Unit {0})
recover rounds walk head size count [] = ret tt
recover rounds walk head size count (chunk ∷ rest) = do
  recover_chunk rounds walk head size count chunk
  recover rounds walk head size count rest

-- A crash and the restart: what NVRAM holds of the objects of the chunks is what memory holds. The
-- volatile memory around them, the sentinels and the lists of the allocator, is gone.
abbrev pub lost : Node
lost = record {
  meta_data = 0;
  insert_flag = false;
  delete_flag = false;
  key = 0;
  value = 0;
  next = nullptr;
}

unfoldable pub crash : (objs : List Ptr) → Memory → Memory
crash objs m =
    let image : Ptr → Node = λ x. if member x objs then m.durable x else lost in
    record { cached = image; durable = image; pool = []; freed = [] }
