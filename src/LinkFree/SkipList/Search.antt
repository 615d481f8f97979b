-- ===== src/LinkFree/SkipList/Search.antt =====
-- LinkFree/LinkFreeSkipList.h: the flushes and the searches.
use efficient_lock_free_dura.Common.{ℕ, zero, suc, Bool, true, leb, ◌==◌, if◌then◌else◌}
use efficient_lock_free_dura.Common.Prog.{ret, stop, atomic, ◌>>=◌, ◌>>◌}
use efficient_lock_free_dura.LinkFree.Utilities.{is_valid, make_valid, is_marked, get_ref}
use efficient_lock_free_dura.LinkFree.SkipList.Memory.{
  Ptr, nullptr, Key, Cmd, load, store, cas_next, flush, max_level, write,
}

-- The arrays that a search fills, by level.
pub record Route : Type 0 where
  pub preds : ℕ → Ptr
  pub succs : ℕ → Ptr

-- The arrays before the search has written them; it writes each level before it ends.
abbrev pub unset : Route
unset = record { preds = λ i. nullptr; succs = λ i. nullptr }

abbrev pub set_path : Route → ℕ → (pred succ : Ptr) → Route
set_path path i pred succ = record {
  preds = write path.preds i pred;
  succs = write path.succs i succ;
}

unfoldable pub load_next : Ptr → ℕ → Cmd Ptr
load_next p i = do n ← atomic (load p); ret (n.next i)

unfoldable pub load_key : Ptr → Cmd Key
load_key p = do n ← atomic (load p); ret n.key

-- `linkFreeUtils::makeValid(&n->metaData)`
unfoldable pub make_valid_of : Ptr → Cmd (Unit {0})
make_valid_of p = do
  n ← atomic (load p)
  if is_valid n.meta_data
      then ret tt
      else atomic (store p λ x. record x { meta_data = make_valid n.meta_data })

unfoldable pub flush_delete : Ptr → Cmd (Unit {0})
flush_delete p = do
  n ← atomic (load p)
  if n.delete_flag
      then ret tt
      else do atomic (flush p); atomic (store p λ x. record x { delete_flag = true })

unfoldable pub flush_insert : Ptr → Cmd (Unit {0})
flush_insert p = do
  n ← atomic (load p)
  if n.insert_flag
      then ret tt
      else do atomic (flush p); atomic (store p λ x. record x { insert_flag = true })

-- The loop of `find` over the marked nodes from `succ` on.
unfoldable pub skip_marked : ℕ → ℕ → (succ succ_next : Ptr) → Cmd (Ptr × Ptr)
unfolding load_next
skip_marked zero i succ succ_next = stop
skip_marked (suc fuel) i succ succ_next =
    if is_marked succ_next
    then (do
      (if i == 0 then flush_delete succ else ret tt)
      next ← load_next (get_ref succ_next) i
      skip_marked fuel i (get_ref succ_next) next)
    else ret (succ, succ_next)

-- The loop of `find` on level `i`: `pred`, what its link held, and the node to stand behind it.
unfoldable pub find_level : ℕ → ℕ → Key → (pred pred_next succ : Ptr) → Cmd (Ptr × (Ptr × Ptr))
unfolding load_next load_key
find_level zero i key pred pred_next succ = stop
find_level (suc fuel) i key pred pred_next succ = do
  first ← load_next succ i
  (succ', succ_next) ← skip_marked (suc fuel) i succ first
  succ_key ← load_key succ'
  if leb key succ_key
      then ret (pred, (pred_next, succ'))
      else find_level fuel i key succ' succ_next succ_next

-- The levels of `find`, `count` left. `again` starts the search anew.
unfoldable pub find_levels :
    (walk count : ℕ) → Key → (pred succ : Ptr) → Route → Cmd (Bool × Route) → Cmd (Bool × Route)
unfolding load_next load_key
find_levels walk zero key pred succ path again = do
  succ_key ← load_key succ
  ret (succ_key == key, path)
find_levels walk (suc i) key pred succ path again = do
  first ← load_next pred i
  if is_marked first then again else do
    (pred', (pred_next, succ')) ← find_level walk i key pred first first
    linked ← (if pred_next == succ' then ret true else atomic (cas_next pred' i pred_next succ'))
    if linked then find_levels walk i key pred' succ' (set_path path i pred' succ') again else again

unfoldable pub find : (rounds walk : ℕ) → Ptr → Key → Cmd (Bool × Route)
find zero walk head key = stop
find (suc rounds) walk head key =
    find_levels walk max_level key head nullptr unset (find rounds walk head key)

-- The loop of `findNoCleanup` and `findSuccsNoCleanup` on level `i`.
unfoldable pub pass_level : ℕ → ℕ → Key → (pred succ : Ptr) → Cmd (Ptr × Ptr)
unfolding load_next load_key
pass_level zero i key pred succ = stop
pass_level (suc fuel) i key pred succ = do
  next ← load_next succ i
  if is_marked next
      then (do after ← load_next succ i; pass_level fuel i key pred (get_ref after))
      else do
        succ_key ← load_key succ
        if leb key succ_key
            then ret (pred, succ)
            else do after ← load_next succ i; pass_level fuel i key succ (get_ref after)

-- The levels, `count` left.
unfoldable pub pass_levels : (walk count : ℕ) → Key → (pred succ : Ptr) → Route → Cmd (Bool × Route)
unfolding load_next load_key
pass_levels walk zero key pred succ path = do succ_key ← load_key succ; ret (succ_key == key, path)
pass_levels walk (suc i) key pred succ path = do
  first ← load_next pred i
  (pred', succ') ← pass_level walk i key pred (get_ref first)
  pass_levels walk i key pred' succ' (set_path path i pred' succ')

unfoldable pub find_no_cleanup : (walk : ℕ) → Ptr → Key → Cmd (Bool × Route)
find_no_cleanup walk head key = pass_levels walk max_level key head nullptr unset

-- The same accesses; the predecessors are not kept.
unfoldable pub find_succs_no_cleanup : (walk : ℕ) → Ptr → Key → Cmd (Bool × (ℕ → Ptr))
find_succs_no_cleanup walk head key = do
  (found, path) ← find_no_cleanup walk head key
  ret (found, path.succs)
