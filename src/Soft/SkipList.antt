-- ===== src/Soft/SkipList.antt =====
-- SOFT/SOFTSkipList.h: the operations of `SOFTSkipList`, one atomic access after the other.
-- The loops run on fuel; `stop` is a loop that has used it up.
pub mod Memory
pub mod Search
pub mod Lifecycle
mod Tests
use efficient_lock_free_dura.Common.{
  ℕ, zero, suc, ◌-◌, Bool, true, false, not, Option, none, some, ltb, ◌==◌, if◌then◌else◌,
}
use efficient_lock_free_dura.Common.Prog.{ret, stop, atomic, ◌>>=◌, ◌>>◌}
use efficient_lock_free_dura.Soft.Utilities.{State, get_ref, create_ref, get_state, is, is_out}
use efficient_lock_free_dura.Soft.SkipList.Memory.{
  Ptr, Key, Tower, Cmd, load, store, cas_next, free, max_level, set_next,
}
use efficient_lock_free_dura.Soft.SkipList.Search.{
  Route, load_next, load_key, help, destroy, state_cas, alloc_node, find, find_no_cleanup,
  find_succs_no_cleanup,
}

-- The inner loop of `markNodes` on level `i`.
unfoldable pub mark_level : ℕ → Ptr → ℕ → Cmd (Unit {0})
unfolding load_next
mark_level zero n i = stop
mark_level (suc fuel) n i = do
  next ← load_next n i
  if is (get_state next) State.deleted then ret tt else do
    result ← atomic (cas_next n i (get_ref next) (create_ref next State.deleted))
    if result then ret tt else mark_level fuel n i

-- The levels above the lowest, `count` left.
unfoldable pub mark_levels : ℕ → Ptr → (count : ℕ) → Cmd (Unit {0})
mark_levels fuel n zero = ret tt
mark_levels fuel n (suc i) = do mark_level fuel n (suc i); mark_levels fuel n i

unfoldable pub mark_nodes : ℕ → Ptr → Cmd Bool
mark_nodes fuel n = do
  x ← atomic (load n)
  mark_levels fuel n (x.top_level - 1)
  state_cas fuel n State.inserted State.intend_to_delete

-- The loop of `contains` on level `i`, with `isOut` on a link.
unfoldable pub contains_level : ℕ → ℕ → Key → (pred curr : Ptr) → Cmd (Ptr × Ptr)
unfolding load_next load_key
contains_level zero i key pred curr = stop
contains_level (suc fuel) i key pred curr = do
  curr_key ← load_key curr
  enter ←
      (if ltb curr_key key
        then ret true
        else (do next ← load_next curr i; ret (is_out (get_state next))))
  if not enter then ret (pred, curr) else do
    next ← load_next curr i
    after ← load_next curr i
    contains_level fuel i key (if is_out (get_state next) then pred else curr) (get_ref after)

-- The levels of `contains`, `count` left.
unfoldable pub contains_levels : (walk count : ℕ) → Key → Ptr → Cmd Bool
unfolding load_next load_key
contains_levels walk zero key pred = ret false
contains_levels walk (suc i) key pred = do
  first ← load_next pred i
  (pred', curr) ← contains_level walk i key pred (get_ref first)
  curr_key ← load_key curr
  if curr_key == key then ret true else contains_levels walk i key pred'

unfoldable pub contains : (walk : ℕ) → Ptr → Key → Cmd Bool
contains walk head key = contains_levels walk max_level key head

unfoldable pub remove : (fuel rounds walk : ℕ) → Ptr → Key → Cmd Bool
remove fuel rounds walk head key = do
  (found, path) ← find_succs_no_cleanup walk head key
  if not found
      then ret false
      else let node = get_ref (path.succs 0) in
        if is_out (path.succ_states 0) then ret false else do
          result ← mark_nodes fuel node
          destroy node
          state_cas fuel node State.intend_to_delete State.deleted
          if result then (do find rounds walk head key; atomic (free node); ret true) else ret false

-- The stores of the links above the lowest, `count` levels from `i` on.
unfoldable pub store_levels : Ptr → (ℕ → Ptr) → (count i : ℕ) → Cmd (Unit {0})
store_levels new_node succs zero i = ret tt
store_levels new_node succs (suc count) i = do
  atomic (store new_node λ n. set_next n i (create_ref (get_ref (succs i)) State.inserted))
  store_levels new_node succs count (suc i)

-- The loop that links the node on level `i`; `none` if `insert` returns from it.
unfoldable pub link_level :
    (fuel rounds walk : ℕ) → Ptr → Key → Ptr → ℕ → Route → Cmd (Option Route)
unfolding load_next
link_level zero rounds walk head key new_node i path = stop
link_level (suc fuel) rounds walk head key new_node i path = do
  next ← load_next new_node i
  if is_out (get_state next) then ret none else do
    set ←
        (if path.succs i == next
          then ret true
          else atomic (cas_next new_node i next (path.succs i)))
    if not set then ret none else do
      linked ← atomic (cas_next (path.preds i) i (path.succs i) new_node)
      if linked then ret (some path) else do
        (found, path') ← find rounds walk head key
        link_level fuel rounds walk head key new_node i path'

-- The upper levels of a node that is linked on level 0, `count` levels from `i` on.
unfoldable pub link_levels :
    (fuel rounds walk : ℕ) → Ptr → Key → Ptr → (count i : ℕ) → Route → Cmd Bool
link_levels fuel rounds walk head key new_node zero i path = ret true
link_levels fuel rounds walk head key new_node (suc count) i path = do
  linked ← link_level fuel rounds walk head key new_node i path
  elim linked [
    | none ↦ ret true
    | some path' ↦ link_levels fuel rounds walk head key new_node count (suc i) path'
  ]

-- A round of `insert` that found no node with the key. `again` is the next round.
unfoldable pub link_new :
    (fuel rounds walk : ℕ) → Ptr → Key → ℕ → (top_level : ℕ) → Route → Cmd Bool → Cmd Bool
link_new fuel rounds walk head key value top_level path again = do
  new_node ← alloc_node key value top_level
  atomic (
      store new_node λ n. set_next n 0 (create_ref (get_ref (path.succs 0)) State.intend_to_insert))
  store_levels new_node path.succs (top_level - 1) 1
  linked ←
      atomic
        (cas_next (path.preds 0) 0 (path.succs 0) (create_ref new_node (get_state (path.succs 0))))
  if linked
      then (do
        help new_node
        state_cas fuel new_node State.intend_to_insert State.inserted
        link_levels fuel rounds walk head key new_node (top_level - 1) 1 path)
      else do
        n ← atomic (load new_node)
        atomic (store new_node λ x. record x { valid_start = not n.p_validity })
        atomic (free new_node)
        again

-- A round of `insert` that found a node with the key.
unfoldable pub help_found : ℕ → Route → Cmd Bool
help_found fuel path =
    if not (is (path.succ_states 0) State.intend_to_insert) then ret false else do
      help (get_ref (path.succs 0))
      state_cas fuel (get_ref (path.succs 0)) State.intend_to_insert State.inserted
      ret false

-- `level` gives what `get_random_level` returns in each round, counted down.
unfoldable pub insert : (tries fuel rounds walk : ℕ) → (level : ℕ → ℕ) → Ptr → Key → ℕ → Cmd Bool
insert zero fuel rounds walk level head key value = stop
insert (suc tries) fuel rounds walk level head key value = do
  (found, path) ← find_no_cleanup walk head key
  if found
      then help_found fuel path
      else link_new fuel rounds walk head key value (level tries) path
          (insert tries fuel rounds walk level head key value)
