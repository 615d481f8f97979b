-- ===== src/LinkFree/Remove/Mark.antt =====
-- `makeValid`, the compare-exchange that marks a node, and the `trim` that unlinks it.
use efficient_lock_free_dura.Common.{
  ◌<◌, ◌≡◌, ◌≢◌, ◌∙◌, sym, ap, refl, Bool, true, false, List, ◌∷◌, ◌==◌, ==_iff, if◌then◌else◌,
  arith,
}
use efficient_lock_free_dura.Common.Prog.{done, ret, atomic, run-bind, ◌>>=◌, ◌>>◌}
use efficient_lock_free_dura.LinkFree.Memory.{
  Ptr, Key, Node, Memory, Cmd, exec, perform, is_wild, write, with_node, cas_next,
}
use efficient_lock_free_dura.LinkFree.Utilities.{is_marked, get_ref, mark}
use efficient_lock_free_dura.LinkFree.Utilities.Marks.{
  get_ref_of_unmarked, is_marked-mark, get_ref-mark,
}
use efficient_lock_free_dura.LinkFree.List.{load_key, load_next, make_valid_of, trim, remove_at}
use efficient_lock_free_dura.LinkFree.Commands.{
  after_make_valid, make_valid_lem, load_key_lem, load_next_lem, cas_next_lem, trim_lem,
}
use efficient_lock_free_dura.LinkFree.Shape.{
  Cell, Holds, cons, Seg-write, Holds-write, write_self, write_ne,
}
use efficient_lock_free_dura.LinkFree.Help.{after_make_valid-At, after_make_valid-valid}
use efficient_lock_free_dura.LinkFree.Find.Step.{
  At, IsTail-ne, Seg-head, held_c, rest, q_ne_c, c_out, after_trim, link_after_flush, Ascends-max,
}

-- After `makeValid` and the compare-exchange that marks the node.
abbrev pub marked : Memory → Ptr → Memory
marked m c =
    let m' = after_make_valid m c in
    with_node m' c (record (m'.cached c) { next = mark (m.cached c).next })

abbrev pub dead_cell : Cell → Cell
dead_cell c = record c { marked = true }

module _ {tail curr : Ptr} {r c : Cell} {cs : List Cell} (m : Memory)
    (here : At m.cached tail r curr (c ∷ cs)) (live : c.marked ≡ false) where
  abbrev m' : Memory
  m' = after_make_valid m c.ptr

  byte : (m.cached c.ptr).meta_data < 256
  byte = (held_c m here).byte

  here' : At m'.cached tail r curr (c ∷ cs)
  here' = after_make_valid-At m c.ptr byte here

  same_next : (m'.cached c.ptr).next ≡ (m.cached c.ptr).next
  unfolding write
  same_next = ground arith

  unmarked : is_marked (m.cached c.ptr).next ≡ false
  unmarked = (held_c m here).mark_eq ∙ live

  abbrev content : Node
  content = record (m'.cached c.ptr) { next = mark (m.cached c.ptr).next }

  abbrev nodes3 : Ptr → Node
  nodes3 = write m'.cached c.ptr content

  self : nodes3 c.ptr ≡ content
  self = write_self m'.cached c.ptr content

  tail_ne : tail ≢ c.ptr
  tail_ne e = absurd (
      omega (
        arith,
        here.end.key_eq,
        (held_c m here).key_eq,
        ap (λ x. (m.cached x).key) e,
        Ascends-max c.key cs here.up.1,
      ))

  dead-Holds : Holds nodes3 (dead_cell c)
  dead-Holds =
      let h = held_c m' here' in
      record {
        sound = h.sound;
        key_eq = rw self h.key_eq;
        mark_eq = rw self (is_marked-mark _);
        byte = rw self h.byte;
        valid_of_marked = λ dead. rw self (after_make_valid-valid m c.ptr byte);
        undeleted = λ l. cc;
        inserted = rw self h.inserted;
      }

  next3 : get_ref (nodes3 c.ptr).next ≡ get_ref (m'.cached c.ptr).next
  next3 =
      ap (λ x. get_ref x.next) self
      ∙ get_ref-mark (m.cached c.ptr).next unmarked
      ∙ sym (ap get_ref same_next ∙ get_ref_of_unmarked (m.cached c.ptr).next unmarked)

  pub marked-At : At (marked m c.ptr).cached tail r curr (dead_cell c ∷ cs)
  marked-At = record {
    held = Holds-write c.ptr content (q_ne_c m' here') here'.held;
    live = here.live;
    next = ap (λ x. x.next) (write_ne m'.cached c.ptr content r.ptr (q_ne_c m' here')) ∙ here'.next;
    seg =
        cons (Seg-head here'.seg) dead-Holds
          (rw next3 (Seg-write c.ptr content (rest m' here') (c_out m' here')));
    up = here.up;
    end = IsTail-ne c.ptr content tail_ne here'.end;
  }

module _ (m : Memory) {tail : Ptr} {r b : Cell} {bs : List Cell} (key : Key) (again : Cmd Bool)
    (here : At m.cached tail r b.ptr (b ∷ bs)) (live : b.marked ≡ false)
    (hit : (m.cached b.ptr).key ≡ key) where
  abbrev next : Ptr
  next = (m.cached b.ptr).next

  sound : is_wild b.ptr ≡ false
  sound = (held_c m here).sound

  clean_next : get_ref next ≡ next
  clean_next = get_ref_of_unmarked next ((held_c m here).mark_eq ∙ live)

  unlink : Bool → Cmd Bool
  unlink result = if result then trim r.ptr b.ptr >> ret true else again

  swap : Cmd Bool
  unfolding unlink
  swap = atomic (cas_next b.ptr (get_ref next) (mark (get_ref next))) >>= unlink

  trimmed :
      exec (trim r.ptr b.ptr) (marked m b.ptr)
      ≡ done true (after_trim (marked m b.ptr) r (dead_cell b))
  trimmed =
      let here3 = marked-At m here live in
      trim_lem (marked m b.ptr) r.ptr b.ptr here.held.sound sound
      ∙ rw ((==_iff _ _).1 (link_after_flush (marked m b.ptr) here3 refl))

  swapped :
      exec swap (after_make_valid m b.ptr) ≡ done true (after_trim (marked m b.ptr) r (dead_cell b))
  unfolding swap unlink
  swapped =
      rw
        (
          clean_next,
          cas_next_lem (after_make_valid m b.ptr) b.ptr next (mark next) sound
              (same_next m here live),
        )
        (run-bind perform (trim r.ptr b.ptr) (λ _. ret true) (marked m b.ptr) ∙ rw trimmed)

  pub remove_at-found :
      exec (remove_at key r.ptr b.ptr again) m
      ≡ done true (after_trim (marked m b.ptr) r (dead_cell b))
  unfolding remove_at swap
  remove_at-found =
      run-bind perform (load_key b.ptr) _ m
      ∙ rw (load_key_lem m b.ptr sound, (==_iff _ _).1 hit)
          (run-bind perform (load_next b.ptr) _ m
            ∙ rw (load_next_lem m b.ptr sound) (
                run-bind perform (make_valid_of b.ptr) (λ _. swap) m
                ∙ rw (make_valid_lem m b.ptr sound) swapped))

pub remove_at-absent :
    (m : Memory) (pred curr : Ptr) (key : Key) (again : Cmd Bool)
    → is_wild curr ≡ false
    → ((m.cached curr).key == key) ≡ false
    → exec (remove_at key pred curr again) m ≡ done false m
unfolding remove_at
remove_at-absent m pred curr key again sound e =
    run-bind perform (load_key curr) _ m ∙ rw (load_key_lem m curr sound, e) refl
