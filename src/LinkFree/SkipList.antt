-- ===== src/LinkFree/SkipList.antt =====
-- LinkFree/LinkFreeSkipList.h: the operations of `LinkFreeSkipList`, one atomic access after the other.
-- The loops run on fuel; `stop` is a loop that has used it up.
pub mod Memory
pub mod Search
mod Tests
use efficient_lock_free_dura.Common.{
  ℕ, zero, suc, ◌+◌, ◌-◌, ◌^◌, Bool, true, false, not, Option, none, some, leb, ltb, ◌==◌, ◌&&◌,
  if◌then◌else◌,
}
use efficient_lock_free_dura.Common.Prog.{ret, stop, atomic, ◌>>=◌, ◌>>◌}
use efficient_lock_free_dura.LinkFree.Utilities.{
  flip_v1, is_valid, make_valid, is_marked, get_ref, mark,
}
use efficient_lock_free_dura.LinkFree.SkipList.Memory.{
  Ptr, nullptr, Key, Tower, Cmd, load, store, cas_next, flush, alloc, free, max_level, set_next,
}
use efficient_lock_free_dura.LinkFree.SkipList.Search.{
  Route, load_next, load_key, make_valid_of, flush_delete, flush_insert, find, find_no_cleanup,
  find_succs_no_cleanup,
}

unfoldable pub alloc_node : Key → ℕ → ℕ → Cmd Ptr
alloc_node key value top_level = do
  new_node ← atomic alloc
  old ← atomic (load new_node)
  atomic (store new_node λ n. record n { meta_data = flip_v1 old.meta_data })
  atomic (store new_node λ n. record n { insert_flag = false })
  atomic (store new_node λ n. record n { delete_flag = false })
  atomic (store new_node λ n. record n { key = key })
  atomic (store new_node λ n. record n { value = value })
  atomic (store new_node λ n. record n { top_level = top_level })
  ret new_node

-- The inner loop of `markNode`: whether this thread marked the level.
unfoldable pub mark_level : ℕ → Ptr → ℕ → Cmd Bool
unfolding load_next
mark_level zero node i = stop
mark_level (suc fuel) node i = do
  next ← load_next node i
  if is_marked next then ret false else do
    result ← atomic (cas_next node i (get_ref next) (mark next))
    if result then ret true else mark_level fuel node i

-- The outer loop, `count` levels left; the result is that of the lowest level.
unfoldable pub mark_levels : ℕ → Ptr → (count : ℕ) → Bool → Cmd Bool
mark_levels fuel node zero result = ret result
mark_levels fuel node (suc i) result = do
  marked ← mark_level fuel node i
  mark_levels fuel node i marked

unfoldable pub mark_node : ℕ → Ptr → Cmd Bool
mark_node fuel node = do n ← atomic (load node); mark_levels fuel node n.top_level false

-- `newNode->next[i].store(succs[i])` from level `i` on, `count` levels.
unfoldable pub store_levels : Ptr → (ℕ → Ptr) → (count i : ℕ) → Cmd (Unit {0})
store_levels new_node succs zero i = ret tt
store_levels new_node succs (suc count) i = do
  atomic (store new_node λ n. set_next n i (succs i))
  store_levels new_node succs count (suc i)

-- The loop that links the node on level `i`; `none` if `insert` returns from it, since the node has been
-- marked.
unfoldable pub link_level :
    (fuel rounds walk : ℕ) → Ptr → Key → Ptr → ℕ → Route → Cmd (Option Route)
unfolding load_next
link_level zero rounds walk head k new_node i path = stop
link_level (suc fuel) rounds walk head k new_node i path = do
  next ← load_next new_node i
  if is_marked next then ret none else do
    set ←
        (if path.succs i == next
          then ret true
          else atomic (cas_next new_node i next (path.succs i)))
    if not set then ret none else do
      linked ← atomic (cas_next (path.preds i) i (path.succs i) new_node)
      if linked then ret (some path) else do
        (found, path') ← find rounds walk head k
        link_level fuel rounds walk head k new_node i path'

-- The upper levels of a node that is linked on level 0, `count` levels from `i` on.
unfoldable pub link_levels :
    (fuel rounds walk : ℕ) → Ptr → Key → Ptr → (count i : ℕ) → Route → Cmd Bool
link_levels fuel rounds walk head k new_node zero i path = ret true
link_levels fuel rounds walk head k new_node (suc count) i path = do
  linked ← link_level fuel rounds walk head k new_node i path
  elim linked [
    | none ↦ ret true
    | some path' ↦ link_levels fuel rounds walk head k new_node count (suc i) path'
  ]

-- A round of `insert` that found no node with the key. `again` is the next round.
unfoldable pub link_new :
    (fuel rounds walk : ℕ) → Ptr → Key → ℕ → (top_level : ℕ) → Route → Cmd Bool → Cmd Bool
link_new fuel rounds walk head k item top_level path again = do
  new_node ← alloc_node k item top_level
  store_levels new_node path.succs top_level 0
  linked ← atomic (cas_next (path.preds 0) 0 (get_ref (path.succs 0)) new_node)
  if linked
      then (do
        make_valid_of new_node
        flush_insert new_node
        link_levels fuel rounds walk head k new_node (top_level - 1) 1 path)
      else do
        atomic (store new_node λ n. set_next n 0 (mark nullptr))
        make_valid_of new_node
        atomic (free new_node)
        again

-- `level` gives what `get_random_level` returns in each round, counted down.
unfoldable pub insert : (tries fuel rounds walk : ℕ) → (level : ℕ → ℕ) → Ptr → Key → ℕ → Cmd Bool
insert zero fuel rounds walk level head k item = stop
insert (suc tries) fuel rounds walk level head k item = do
  (found, path) ← find_no_cleanup walk head k
  if found
      then (do make_valid_of (path.succs 0); flush_insert (path.succs 0); ret false)
      else link_new fuel rounds walk head k item (level tries) path
          (insert tries fuel rounds walk level head k item)

unfoldable pub remove : (fuel rounds walk : ℕ) → Ptr → Key → Cmd Bool
remove fuel rounds walk head k = do
  (found, succs) ← find_succs_no_cleanup walk head k
  if not found then ret false else do
    make_valid_of (succs 0)
    result ← mark_node fuel (succs 0)
    flush_delete (succs 0)
    if result then (do find rounds walk head k; atomic (free (succs 0)); ret true) else ret false

-- The inner loop of `contains` on level `i`; `none` if it returns false from there.
unfoldable pub contains_level : ℕ → ℕ → Key → (pred curr : Ptr) → Cmd (Option (Ptr × Ptr))
unfolding load_next load_key
contains_level zero i k pred curr = stop
contains_level (suc fuel) i k pred curr = do
  curr_key ← load_key curr
  enter ← (if ltb curr_key k then ret true else (do next ← load_next curr i; ret (is_marked next)))
  if not enter then ret (some (pred, curr)) else do
    next ← load_next curr i
    if not (is_marked next)
        then (do after ← load_next curr i; contains_level fuel i k curr (get_ref after))
        else if i == 0 && curr_key == k
        then (do flush_delete curr; ret none)
        else do after ← load_next curr i; contains_level fuel i k pred (get_ref after)

-- The levels of `contains`, `count` left.
unfoldable pub contains_levels : (walk count : ℕ) → Key → Ptr → Cmd Bool
unfolding load_next load_key
contains_levels walk zero k pred = ret false
contains_levels walk (suc i) k pred = do
  first ← load_next pred i
  place ← contains_level walk i k pred (get_ref first)
  elim place [
    | none ↦ ret false
    | some (pred', curr) ↦ do
      curr_key ← load_key curr
      if curr_key == k
          then (do make_valid_of curr; flush_insert curr; ret true)
          else contains_levels walk i k pred'
  ]

unfoldable pub contains : (walk : ℕ) → Ptr → Key → Cmd Bool
contains walk head k = contains_levels walk max_level k head
