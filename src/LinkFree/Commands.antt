-- ===== src/LinkFree/Commands.antt =====
-- What each short command of LinkFree/LinkFreeList.h leaves in memory, run by one thread.
use efficient_lock_free_dura.Common.{
  ℕ, ◌≡◌, fun_ext, true, false, some, List, ◌∷◌, ◌==◌, if◌then◌else◌, arith,
}
use efficient_lock_free_dura.Common.Prog.{done, atomic, run-bind}
use efficient_lock_free_dura.LinkFree.Memory.{
  Ptr, nullptr, Key, Node, Memory, write, is_wild, with_node, exec, perform, cas_next, free,
}
use efficient_lock_free_dura.LinkFree.Utilities.{flip_v1, is_valid, make_valid, get_ref, mark}
use efficient_lock_free_dura.LinkFree.List.{
  load_next, load_key, flip_v1_of, make_valid_of, alloc_node, flush_delete, flush_insert, trim,
  discard, set_meta_data,
}
use efficient_lock_free_dura.LinkFree.Shape.{write_self}

abbrev pub flushed : Memory → Ptr → Memory
flushed m p = record m { durable = write m.durable p (m.cached p) }

abbrev pub after_flush_delete : Memory → Ptr → Memory
after_flush_delete m p =
    if (m.cached p).delete_flag
    then m
    else with_node (flushed m p) p (record (m.cached p) { delete_flag = true })

abbrev pub after_flush_insert : Memory → Ptr → Memory
after_flush_insert m p =
    if (m.cached p).insert_flag
    then m
    else with_node (flushed m p) p (record (m.cached p) { insert_flag = true })

abbrev pub after_make_valid : Memory → Ptr → Memory
after_make_valid m p =
    if is_valid (m.cached p).meta_data
    then m
    else with_node m p (set_meta_data (make_valid (m.cached p).meta_data) (m.cached p))

abbrev pub new_content : Node → Key → ℕ → Ptr → Node
new_content n key value next = record {
  meta_data = flip_v1 n.meta_data;
  insert_flag = false;
  delete_flag = false;
  key = key;
  value = value;
  next = next;
}

module _ (m : Memory) (p : Ptr) (sound : is_wild p ≡ false) where
  pub flush_delete_lem : exec (flush_delete p) m ≡ done tt (after_flush_delete m p)
  unfolding flush_delete perform
  flush_delete_lem = ground arith

  pub flush_insert_lem : exec (flush_insert p) m ≡ done tt (after_flush_insert m p)
  unfolding flush_insert perform
  flush_insert_lem = ground arith

  pub make_valid_lem : exec (make_valid_of p) m ≡ done tt (after_make_valid m p)
  unfolding make_valid_of perform
  make_valid_lem = ground arith

  pub load_next_lem : exec (load_next p) m ≡ done (m.cached p).next m
  unfolding load_next perform
  load_next_lem = ground arith

pub load_key_lem :
    (m : Memory) (p : Ptr) → is_wild p ≡ false → exec (load_key p) m ≡ done (m.cached p).key m
unfolding load_key perform
load_key_lem m p sound = ground arith

write-write :
    (nodes : Ptr → Node) (p : Ptr) (a b : Node) → write (write nodes p a) p b ≡ write nodes p b
unfolding write
write-write nodes p a b = fun_ext λ q. ground arith

abbrev pub detached : Memory → (pred curr : Ptr) → Memory
detached m pred curr =
    record (with_node m pred (record (m.cached pred) { next = get_ref (m.cached curr).next })) {
      freed = curr ∷ m.freed;
    }

pub trim_lem :
    (m : Memory) (pred curr : Ptr)
    → is_wild pred ≡ false
    → is_wild curr ≡ false
    → exec (trim pred curr) m ≡ (
        let m' = after_flush_delete m curr in
        if (m'.cached pred).next == curr then done true (detached m' pred curr) else done false m')
unfolding trim load_next perform
trim_lem m pred curr sound_pred sound_curr =
    rw (run-bind perform, flush_delete_lem m curr sound_curr) (ground arith)

pub alloc_node_lem :
    (m : Memory) (p : Ptr) (rest : List Ptr) (key : Key) (value : ℕ) (next : Ptr)
    → is_wild p ≡ false
    → m.pool ≡ p ∷ rest
    → exec (alloc_node key value next) m
      ≡ done p (with_node (record m { pool = rest }) p (new_content (m.cached p) key value next))
unfolding alloc_node flip_v1_of perform
alloc_node_lem m p rest key value next sound e = rw e (simp (sound, write_self, write-write))

abbrev pub discarded : Memory → Ptr → Memory
discarded m p =
    let m' = after_make_valid (with_node m p (record (m.cached p) { next = mark nullptr })) p in
    record m' { freed = p ∷ m'.freed }

pub discard_lem :
    (m : Memory) (p : Ptr) → is_wild p ≡ false → exec (discard p) m ≡ done tt (discarded m p)
unfolding discard perform
discard_lem m p sound =
    let m' = with_node m p (record (m.cached p) { next = mark nullptr }) in
    ground (
      arith,
      run-bind perform (make_valid_of p) (λ _. atomic (free p)) m',
      make_valid_lem m' p sound,
    )

pub cas_next_lem :
    (m : Memory) (p expected desired : Ptr)
    → is_wild p ≡ false
    → (m.cached p).next ≡ expected
    → perform (cas_next p expected desired) m
      ≡ some (true, with_node m p (record (m.cached p) { next = desired }))
unfolding perform
cas_next_lem m p expected desired sound e = ground arith
