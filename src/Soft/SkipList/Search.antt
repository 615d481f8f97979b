-- ===== src/Soft/SkipList/Search.antt =====
-- SOFT/SOFTSkipList.h: the methods of the nodes, and the searches.
use efficient_lock_free_dura.Common.{
  ℕ, zero, suc, Bool, true, false, not, same, leb, ◌==◌, ◌&&◌, if◌then◌else◌,
}
use efficient_lock_free_dura.Common.Prog.{ret, stop, atomic, ◌>>=◌, ◌>>◌}
use efficient_lock_free_dura.Soft.Utilities.{State, get_ref, create_ref, get_state, is}
use efficient_lock_free_dura.Soft.SkipList.Memory.{
  Ptr, nullptr, Key, Tower, Cmd, load, store, cas_next, flush, alloc, max_level, write,
}

-- The arrays that a search fills, by level.
pub record Route : Type 0 where
  pub preds : ℕ → Ptr
  pub succs : ℕ → Ptr
  pub succ_states : ℕ → State

-- The arrays before the search has written them; it writes each level before it ends.
abbrev pub unset : Route
unset = record { preds = λ i. nullptr; succs = λ i. nullptr; succ_states = λ i. State.inserted }

abbrev pub set_path : Route → ℕ → (pred succ : Ptr) → State → Route
set_path path i pred succ succ_state = record {
  preds = write path.preds i pred;
  succs = write path.succs i succ;
  succ_states = write path.succ_states i succ_state;
}

unfoldable pub load_next : Ptr → ℕ → Cmd Ptr
load_next p i = do n ← atomic (load p); ret (n.next i)

unfoldable pub load_key : Ptr → Cmd Key
load_key p = do n ← atomic (load p); ret n.key

-- The methods of `Node`; `isValid` and `isDeleted` on a node that no other thread changes.
unfoldable pub is_valid : Tower → Bool
is_valid n = same n.valid_start n.valid_end && not (same n.valid_end n.deleted)

unfoldable pub is_deleted : Tower → Bool
is_deleted n = same n.valid_start n.valid_end && same n.valid_end n.deleted

unfoldable pub create : Ptr → Key → ℕ → ℕ → Bool → Cmd (Unit {0})
create p key value top_level validity = do
  atomic (store p λ n. record n { valid_start = validity })
  atomic (store p λ n. record n { key = key })
  atomic (store p λ n. record n { value = value })
  atomic (store p λ n. record n { top_level = top_level })
  atomic (store p λ n. record n { p_validity = validity })

unfoldable pub help : Ptr → Cmd (Unit {0})
help p = do
  n ← atomic (load p)
  atomic (store p λ x. record x { valid_end = n.p_validity })
  atomic (flush p)

unfoldable pub destroy : Ptr → Cmd (Unit {0})
destroy p = do
  n ← atomic (load p)
  atomic (store p λ x. record x { deleted = n.p_validity })
  atomic (flush p)

-- `Node::stateCAS`, with `softUtils::stateCAS` on the link of level 0 as its body
unfoldable pub state_cas : ℕ → Ptr → (expected new_state : State) → Cmd Bool
unfolding load_next
state_cas zero p expected new_state = stop
state_cas (suc fuel) p expected new_state = do
  next ← load_next p 0
  if not (is (get_state next) expected) then ret false else do
    before ← load_next p 0
    result ← atomic (cas_next p 0 (create_ref before expected) (create_ref before new_state))
    if result then ret true else state_cas fuel p expected new_state

unfoldable pub alloc_node : Key → ℕ → ℕ → Cmd Ptr
alloc_node key value top_level = do
  node ← atomic alloc
  old ← atomic (load node)
  create node key value top_level (not old.valid_start)
  ret node

-- The loop of `find` over the deleted nodes: `succ`, and what its link holds.
unfoldable pub skip_deleted : ℕ → ℕ → (succ succ_next : Ptr) → Cmd (Ptr × Ptr)
unfolding load_next
skip_deleted zero i succ succ_next = stop
skip_deleted (suc fuel) i succ succ_next =
    if is (get_state succ_next) State.deleted
    then (do next ← load_next (get_ref succ_next) i; skip_deleted fuel i (get_ref succ_next) next)
    else ret (succ, succ_next)

-- The loop of `find` on level `i`: `pred`, the link that it held (a reference and a state), the node to
-- stand behind it and that node's state.
unfoldable pub find_level :
    ℕ
    → ℕ
    → Key
    → (pred pred_next : Ptr) → State
    → (succ : Ptr) → Cmd (Ptr × (Ptr × (State × (Ptr × State))))
unfolding load_next load_key
find_level zero i key pred pred_next pred_state succ = stop
find_level (suc fuel) i key pred pred_next pred_state succ = do
  first ← load_next succ i
  (succ', succ_next) ← skip_deleted (suc fuel) i succ first
  succ_key ← load_key succ'
  if leb key succ_key
      then ret (pred, (pred_next, (pred_state, (succ', get_state succ_next))))
      else find_level fuel i key succ' (get_ref succ_next) (get_state succ_next) (get_ref succ_next)

-- The levels of `find`, `count` left. `again` starts the search anew.
unfoldable pub find_levels :
    (walk count : ℕ) → Key → (pred succ : Ptr) → Route → Cmd (Bool × Route) → Cmd (Bool × Route)
unfolding load_next load_key
find_levels walk zero key pred succ path again = do
  succ_key ← load_key succ
  ret (succ_key == key, path)
find_levels walk (suc i) key pred succ path again = do
  first ← load_next pred i
  if is (get_state first) State.deleted then again else do
    (pred', (pred_next, (pred_state, (succ', succ_state)))) ←
        find_level walk i key pred (get_ref first) (get_state first) (get_ref first)
    let after = create_ref succ' pred_state in
        do
          linked ←
              (if pred_next == succ'
                then ret true
                else atomic (cas_next pred' i (create_ref pred_next pred_state) after))
          if linked
              then find_levels walk i key pred' succ' (set_path path i pred' after succ_state) again
              else again

unfoldable pub find : (rounds walk : ℕ) → Ptr → Key → Cmd (Bool × Route)
find zero walk head key = stop
find (suc rounds) walk head key =
    find_levels walk max_level key head nullptr unset (find rounds walk head key)

-- The loop of `findNoCleanup` and `findSuccsNoCleanup` on level `i`: the last node passed with its
-- state, the node where it stops with its own.
unfoldable pub pass_level :
    ℕ → ℕ → Key → (pred : Ptr) → State → (succ : Ptr) → Cmd (Ptr × (State × (Ptr × State)))
unfolding load_next load_key
pass_level zero i key pred pred_state succ = stop
pass_level (suc fuel) i key pred pred_state succ = do
  next ← load_next succ i
  if is (get_state next) State.deleted
      then (do after ← load_next succ i; pass_level fuel i key pred pred_state (get_ref after))
      else do
        succ_key ← load_key succ
        if leb key succ_key then ret (pred, (pred_state, (succ, get_state next))) else do
          after ← load_next succ i
          pass_level fuel i key succ (get_state next) (get_ref after)

-- The levels, `count` left. The state of the first link is read from the reference, whose digits have
-- been cleared.
unfoldable pub pass_levels : (walk count : ℕ) → Key → (pred succ : Ptr) → Route → Cmd (Bool × Route)
unfolding load_next load_key
pass_levels walk zero key pred succ path = do succ_key ← load_key succ; ret (succ_key == key, path)
pass_levels walk (suc i) key pred succ path = do
  first ← load_next pred i
  (pred', (pred_state, (succ', succ_state))) ←
      pass_level walk i key pred (get_state (get_ref first)) (get_ref (get_ref first))
  pass_levels walk i key pred' succ'
      (set_path path i pred' (create_ref succ' pred_state) succ_state)

unfoldable pub find_no_cleanup : (walk : ℕ) → Ptr → Key → Cmd (Bool × Route)
find_no_cleanup walk head key = pass_levels walk max_level key head nullptr unset

-- The same accesses; the predecessors are not kept, and the successors are kept without a state.
unfoldable pub find_succs_no_cleanup : (walk : ℕ) → Ptr → Key → Cmd (Bool × Route)
find_succs_no_cleanup walk head key = do
  (found, path) ← find_no_cleanup walk head key
  ret (found, record path { succs = λ i. get_ref (path.succs i) })
