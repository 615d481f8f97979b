-- ===== src/LinkFree/List.antt =====
-- LinkFree/LinkFreeList.h: the operations of `LinkFreeList`, one atomic access after the other.
-- The loops run on fuel; `stop` is a loop that has used it up.
use efficient_lock_free_dura.Common.{
  ℕ, zero, suc, ◌+◌, ◌-◌, ◌^◌, Bool, true, false, not, leb, ltb, ◌==◌, if◌then◌else◌,
}
use efficient_lock_free_dura.Common.Prog.{ret, stop, atomic, ◌>>=◌, ◌>>◌}
use efficient_lock_free_dura.LinkFree.Memory.{
  Ptr, nullptr, Key, Node, Cmd, load, store, cas_next, flush, alloc, free,
}
use efficient_lock_free_dura.LinkFree.Utilities.{
  flip_v1, is_valid, make_valid, is_marked, get_ref, mark,
}

-- The keys of the sentinels, as distances from INTPTR_MIN.
abbrev pub int_min : Key
int_min = 2 ^ 63 - 2 ^ 31

abbrev pub int_max : Key
int_max = 2 ^ 63 + 2 ^ 31 - 1

unfoldable pub load_next : Ptr → Cmd Ptr
load_next p = do n ← atomic (load p); ret n.next

unfoldable pub load_key : Ptr → Cmd Key
load_key p = do n ← atomic (load p); ret n.key

abbrev pub set_meta_data : ℕ → Node → Node
set_meta_data b n = record n { meta_data = b }

-- `linkFreeUtils::flipV1(&n->metaData)`, a load and a store
unfoldable pub flip_v1_of : Ptr → Cmd (Unit {0})
flip_v1_of p = do n ← atomic (load p); atomic (store p (set_meta_data (flip_v1 n.meta_data)))

-- `linkFreeUtils::makeValid(&n->metaData)`
unfoldable pub make_valid_of : Ptr → Cmd (Unit {0})
make_valid_of p = do
  n ← atomic (load p)
  if is_valid n.meta_data then ret tt else atomic (store p (set_meta_data (make_valid n.meta_data)))

unfoldable pub alloc_node : Key → ℕ → Ptr → Cmd Ptr
alloc_node key value next = do
  new_node ← atomic alloc
  flip_v1_of new_node
  atomic (store new_node λ n. record n { insert_flag = false })
  atomic (store new_node λ n. record n { delete_flag = false })
  atomic (store new_node λ n. record n { key = key })
  atomic (store new_node λ n. record n { value = value })
  atomic (store new_node λ n. record n { next = next })
  ret new_node

unfoldable pub flush_delete : Ptr → Cmd (Unit {0})
flush_delete p = do
  n ← atomic (load p)
  if n.delete_flag
      then ret tt
      else do atomic (flush p); atomic (store p λ n. record n { delete_flag = true })

unfoldable pub flush_insert : Ptr → Cmd (Unit {0})
flush_insert p = do
  n ← atomic (load p)
  if n.insert_flag
      then ret tt
      else do atomic (flush p); atomic (store p λ n. record n { insert_flag = true })

unfoldable pub trim : Ptr → Ptr → Cmd Bool
unfolding load_next
trim pred curr = do
  flush_delete curr
  next ← load_next curr
  result ← atomic (cas_next pred curr (get_ref next))
  if result then (do atomic (free curr); ret result) else ret result

-- The loop of `find`: the last unmarked node before `curr`, and `curr`.
unfoldable pub find_loop : ℕ → Key → (prev curr : Ptr) → Cmd (Ptr × Ptr)
unfolding load_next load_key
find_loop zero key prev curr = stop
find_loop (suc fuel) key prev curr = do
  next ← load_next curr
  if is_marked next
      then (do trim prev curr; next ← load_next curr; find_loop fuel key prev (get_ref next))
      else do
        curr_key ← load_key curr
        if leb key curr_key
            then ret (prev, curr)
            else do next ← load_next curr; find_loop fuel key curr (get_ref next)

unfoldable pub find : ℕ → Ptr → Key → Cmd (Ptr × Ptr)
unfolding load_next
find fuel head key = do curr ← load_next head; find_loop fuel key head curr

-- What `insert` does with its node after it lost the compare-exchange: "freeing newNode in a deleted
-- and valid state".
unfoldable pub discard : Ptr → Cmd (Unit {0})
discard new_node = do
  atomic (store new_node λ n. record n { next = mark nullptr })
  make_valid_of new_node
  atomic (free new_node)

-- The rest of a round of `insert` that found no node with the key. `again` is the next round.
unfoldable pub link_new : Key → ℕ → (pred curr : Ptr) → Cmd Bool → Cmd Bool
link_new key value pred curr again = do
  new_node ← alloc_node key value curr
  linked ← atomic (cas_next pred curr new_node)
  if linked
      then (do make_valid_of new_node; flush_insert new_node; ret true)
      else do discard new_node; again

-- A round of the loop of `insert`, after `find`.
unfoldable pub insert_at : Key → ℕ → (pred curr : Ptr) → Cmd Bool → Cmd Bool
insert_at key value pred curr again = do
  curr_key ← load_key curr
  if curr_key == key
      then (do make_valid_of curr; flush_insert curr; ret false)
      else link_new key value pred curr again

-- The loop of `insert`, a round for each compare-exchange that it tries.
unfoldable pub insert : (rounds walk : ℕ) → Ptr → Key → ℕ → Cmd Bool
insert zero walk head key value = stop
insert (suc rounds) walk head key value = do
  (pred, curr) ← find walk head key
  insert_at key value pred curr (insert rounds walk head key value)

-- A round of the loop of `remove`, after `find`, and the `trim` that follows the loop.
unfoldable pub remove_at : Key → (pred curr : Ptr) → Cmd Bool → Cmd Bool
remove_at key pred curr again = do
  curr_key ← load_key curr
  if not (curr_key == key) then ret false else do
    next ← load_next curr
    make_valid_of curr
    result ← atomic (cas_next curr (get_ref next) (mark (get_ref next)))
    if result then (do trim pred curr; ret true) else again

unfoldable pub remove : (rounds walk : ℕ) → Ptr → Key → Cmd Bool
remove zero walk head key = stop
remove (suc rounds) walk head key = do
  (pred, curr) ← find walk head key
  remove_at key pred curr (remove rounds walk head key)

-- The search of `contains`: the first node whose key is not below `key`, marked or not.
unfoldable pub seek : ℕ → Key → (curr : Ptr) → Cmd Ptr
unfolding load_key load_next
seek zero key curr = stop
seek (suc fuel) key curr = do
  curr_key ← load_key curr
  if ltb curr_key key then (do next ← load_next curr; seek fuel key (get_ref next)) else ret curr

-- What `contains` does where its search stops.
unfoldable pub contains_at : Key → Ptr → Cmd Bool
contains_at key curr = do
  curr_key ← load_key curr
  if not (curr_key == key) then ret false else do
    next ← load_next curr
    if is_marked next
        then (do flush_delete curr; ret false)
        else do make_valid_of curr; flush_insert curr; ret true

unfoldable pub contains : (walk : ℕ) → Ptr → Key → Cmd Bool
unfolding load_next
contains walk head key = do first ← load_next head; curr ← seek walk key first; contains_at key curr
