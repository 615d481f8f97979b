-- ===== src/Soft/List.antt =====
-- SOFT/SOFTList.h: the operations of `SOFTList`, one atomic access after the other.
-- The loops run on fuel; `stop` is a loop that has used it up.
use efficient_lock_free_dura.Common.{
  ℕ, zero, suc, ◌+◌, ◌-◌, ◌^◌, Bool, true, false, not, leb, ltb, ◌==◌, ◌&&◌, ◌||◌, if◌then◌else◌,
}
use efficient_lock_free_dura.Common.Prog.{ret, stop, atomic, ◌>>=◌, ◌>>◌}
use efficient_lock_free_dura.Soft.Utilities.{State, get_ref, create_ref, get_state, is}
use efficient_lock_free_dura.Soft.Memory.{
  Ptr, nullptr, Key, Node, Memory, Cmd, write, load, store, cas_next, alloc_node, alloc_pnode,
  free_node, free_pnode,
}
use efficient_lock_free_dura.Soft.PersistentNode

-- The keys of the sentinels, as distances from INTPTR_MIN.
abbrev pub int_min : Key
int_min = 2 ^ 63 - 2 ^ 31

abbrev pub int_max : Key
int_max = 2 ^ 63 + 2 ^ 31 - 1

-- The constructor of `Node`
abbrev pub volatile_node : Key → ℕ → Ptr → Bool → Node
volatile_node key value pptr p_validity = record {
  key = key;
  value = value;
  pptr = pptr;
  p_validity = p_validity;
  next = nullptr;
}

-- The constructor of the list. `min` and `max` are the addresses that `new` returns.
unfoldable pub construct : (min max : Ptr) → Memory → Memory
construct min max m =
    let first = record (volatile_node int_min 0 nullptr false) { next = max } in
    let last = volatile_node int_max 0 nullptr false in
    record m { nodes = write (write m.nodes max last) min first }

unfoldable pub load_next : Ptr → Cmd Ptr
load_next p = do n ← atomic (load p); ret n.next

-- `key`, `pptr`, `value` and `pValidity` do not change once the node is linked.
unfoldable pub load_key : Ptr → Cmd Key
load_key p = do n ← atomic (load p); ret n.key

-- `softUtils::stateCAS(p->next, expected, new_val)`
unfoldable pub state_cas : Ptr → (expected new_val : State) → Cmd Bool
unfolding load_next
state_cas p expected new_val = do
  next ← load_next p
  atomic (cas_next p (create_ref next expected) (create_ref next new_val))

unfoldable pub alloc_new_volatile_node : Key → ℕ → Ptr → Bool → Cmd Ptr
alloc_new_volatile_node key value pptr p_validity = do
  n ← atomic alloc_node
  atomic (store n λ x. record x { key = key })
  atomic (store n λ x. record x { value = value })
  atomic (store n λ x. record x { pptr = pptr })
  atomic (store n λ x. record x { p_validity = p_validity })
  ret n

unfoldable pub trim : (prev curr : Ptr) → Cmd Bool
unfolding load_next
trim prev curr = do
  next ← load_next (get_ref curr)
  result ← atomic (cas_next prev curr (create_ref (get_ref next) (get_state curr)))
  if result
      then (do n ← atomic (load (get_ref curr)); atomic (free_pnode n.pptr); ret result)
      else ret result

-- The loop of `find`: the last node before the key that is not deleted; the node that it stops at, with the
-- state of the former; the state of the latter.
unfoldable pub find_loop : ℕ → Key → (prev curr : Ptr) → State → Cmd (Ptr × Ptr × State)
unfolding load_next load_key
find_loop zero key prev curr prev_state = stop
find_loop (suc fuel) key prev curr prev_state = do
  succ ← load_next (get_ref curr)
  if is (get_state succ) State.deleted
      then (do
        trim prev curr
        find_loop fuel key prev (create_ref (get_ref succ) prev_state) prev_state)
      else do
        curr_key ← load_key (get_ref curr)
        if leb key curr_key
            then ret (prev, curr, get_state succ)
            else find_loop fuel key (get_ref curr) (create_ref (get_ref succ) (get_state succ))
                (get_state succ)

unfoldable pub find : ℕ → Ptr → Key → Cmd (Ptr × Ptr × State)
unfolding load_next
find fuel head key = do curr ← load_next head; find_loop fuel key head curr (get_state curr)

-- `while (getState(p->next) == before) stateCAS(p->next, before, after)`
unfoldable pub advance : ℕ → Ptr → (before after : State) → Cmd (Unit {0})
unfolding load_next
advance zero p before after = stop
advance (suc fuel) p before after = do
  next ← load_next p
  if is (get_state next) before
      then (do state_cas p before after; advance fuel p before after)
      else ret tt

-- The end of `insert`: the persistent node is written and flushed, then the node becomes inserted.
unfoldable pub finish_insert : ℕ → Ptr → Bool → Cmd Bool
finish_insert fuel result_node result = do
  n ← atomic (load result_node)
  PersistentNode.create n.pptr n.key n.value n.p_validity
  advance fuel result_node State.intend_to_insert State.inserted
  ret result

-- A round of `insert` that found no node with the key. `again` is the next round.
unfoldable pub link_new : ℕ → Key → ℕ → (pred curr : Ptr) → Cmd Bool → Cmd Bool
link_new fuel key value pred curr again = do
  new_pnode ← atomic alloc_pnode
  p_valid ← PersistentNode.alloc new_pnode
  new_node ← alloc_new_volatile_node key value new_pnode p_valid
  atomic (store new_node λ n. record n { next = create_ref (get_ref curr) State.intend_to_insert })
  linked ← atomic (cas_next pred curr (create_ref new_node (get_state curr)))
  if linked
      then finish_insert fuel new_node true
      else do atomic (free_node new_node); atomic (free_pnode new_pnode); again

-- A round of `insert`, after `find`.
unfoldable pub insert_at : ℕ → Key → ℕ → (pred curr : Ptr) → State → Cmd Bool → Cmd Bool
unfolding load_key
insert_at fuel key value pred curr curr_state again = do
  curr_key ← load_key (get_ref curr)
  if curr_key == key
      then (if not (is curr_state State.intend_to_insert)
          then ret false
          else finish_insert fuel (get_ref curr) false)
      else link_new fuel key value pred curr again

unfoldable pub insert : (rounds walk fuel : ℕ) → Ptr → Key → ℕ → Cmd Bool
insert zero walk fuel head key value = stop
insert (suc rounds) walk fuel head key value = do
  (pred, curr, curr_state) ← find walk head key
  insert_at fuel key value pred curr curr_state (insert rounds walk fuel head key value)

-- `while (!casResult && getState(p->next) == INSERTED) casResult = stateCAS(...)`: whether the
-- compare-exchange of this thread marked the node.
unfoldable pub claim : ℕ → Ptr → Cmd Bool
unfolding load_next
claim zero p = stop
claim (suc fuel) p = do
  next ← load_next p
  if is (get_state next) State.inserted
      then (do
        cas_result ← state_cas p State.inserted State.intend_to_delete
        if cas_result then ret true else claim fuel p)
      else ret false

-- `remove`, after `find`.
unfoldable pub remove_at : ℕ → Key → (pred curr : Ptr) → State → Cmd Bool
unfolding load_key
remove_at fuel key pred curr curr_state = do
  curr_key ← load_key (get_ref curr)
  if not (curr_key == key)
      then ret false
      else if is curr_state State.intend_to_insert || is curr_state State.deleted
      then ret false
      else do
        cas_result ← claim fuel (get_ref curr)
        n ← atomic (load (get_ref curr))
        PersistentNode.destroy n.pptr n.p_validity
        advance fuel (get_ref curr) State.intend_to_delete State.deleted
        if cas_result then (do trim pred curr; ret cas_result) else ret cas_result

unfoldable pub remove : (walk fuel : ℕ) → Ptr → Key → Cmd Bool
remove walk fuel head key = do
  (pred, curr, curr_state) ← find walk head key
  remove_at fuel key pred curr curr_state

-- The search of `contains`: the first node whose key is not below `key`.
unfoldable pub seek : ℕ → Key → (curr : Ptr) → Cmd Ptr
unfolding load_key load_next
seek zero key curr = stop
seek (suc fuel) key curr = do
  curr_key ← load_key curr
  if ltb curr_key key then (do next ← load_next curr; seek fuel key (get_ref next)) else ret curr

unfoldable pub contains : (walk : ℕ) → Ptr → Key → Cmd Bool
unfolding load_next load_key
contains walk head key = do
  first ← load_next head
  curr ← seek walk key first
  next ← load_next curr
  curr_key ← load_key curr
  ret (
      curr_key == key
      && (is (get_state next) State.inserted || is (get_state next) State.intend_to_delete))
