-- ===== src/LinkFree/Insert/Absent.antt =====
-- A round of `insert` that finds no node with the key: what it leaves in memory.
use efficient_lock_free_dura.Common.{
  ℕ, ◌<◌, ◌≡◌, ◌≢◌, ◌∙◌, sym, ap, subst, refl, Bool, true, false, some, some-eq, List, ◌∷◌,
  if◌then◌else◌, arith,
}
use native.Mathlib.Decide.{ℕ_discrete}
use efficient_lock_free_dura.Common.Prog.{done, ret, atomic, run-bind, ◌>>=◌, ◌>>◌}
use efficient_lock_free_dura.LinkFree.Memory.{
  Ptr, Key, Node, Memory, Cmd, exec, perform, is_wild, write, with_node, cas_next,
}
use efficient_lock_free_dura.LinkFree.List.{
  alloc_node, make_valid_of, flush_insert, discard, link_new, int_min, int_max,
}
use efficient_lock_free_dura.LinkFree.Commands.{alloc_node_lem, cas_next_lem, new_content}
use efficient_lock_free_dura.LinkFree.Shape.{Cell, has, persisted, write_self, write_ne}
use efficient_lock_free_dura.LinkFree.Help.{
  helped, helped_lem, helped_ne, helped-At, helped-Settled_unflushed, helped-persisted,
  helped-Upkeep, after_make_valid-valid,
}
use efficient_lock_free_dura.LinkFree.Upkeep.{Clean, Upkeep}
use efficient_lock_free_dura.LinkFree.Find.Step.{At, Seg-sound, clean, not_null}
use efficient_lock_free_dura.LinkFree.Find.Walk.{sweep, Found}
use efficient_lock_free_dura.LinkFree.Invariant.{IsList, IsSpare, head_cell}
use efficient_lock_free_dura.LinkFree.Insert.Link.{linked, new_cell}
use efficient_lock_free_dura.LinkFree.Utilities.Validity.{flip_v1-lt}
use efficient_lock_free_dura.LinkFree.Utilities.{is_valid}
use efficient_lock_free_dura.LinkFree.Insert.Place.{place-pred_ne, place-At}
use efficient_lock_free_dura.LinkFree.Cells.{insert_cell, lists, lists-insert_cell}

-- After `allocNode` and the compare-exchange.
abbrev pub after_link : Memory → List Ptr → (p pred curr : Ptr) → Key → ℕ → Memory
after_link m rest p pred curr key value = record m {
  cached = linked m.cached pred p (new_content (m.cached p) key value curr);
  pool = rest;
}

pub link_new_lem :
    (m : Memory) (rest : List Ptr) (p pred curr : Ptr) (key : Key) (value : ℕ) (again : Cmd Bool)
    → m.pool ≡ p ∷ rest
    → is_wild p ≡ false
    → is_wild pred ≡ false
    → pred ≢ p
    → (m.cached pred).next ≡ curr
    → exec (link_new key value pred curr again) m
      ≡ done true (helped (after_link m rest p pred curr key value) p)
unfolding link_new
link_new_lem m rest p pred curr key value again pool sound sound_pred ne at_curr =
    run-bind perform (alloc_node key value curr) (λ q. atomic (cas_next pred curr q) >>= finish q) m
    ∙ rw (alloc_node_lem m p rest key value curr sound pool)
        (step ∙ helped_lem m3 p (ret true) sound)
  where
    m2 : Memory
    m2 = with_node (record m { pool = rest }) p (new_content (m.cached p) key value curr)

    m3 : Memory
    m3 = after_link m rest p pred curr key value

    publish : Ptr → Cmd Bool
    publish q = make_valid_of q >> (flush_insert q >> ret true)

    finish : Ptr → Bool → Cmd Bool
    finish q won = if won then publish q else discard q >> again

    same_next : (m2.cached pred).next ≡ curr
    same_next =
        ap (λ n. n.next) (write_ne m.cached p (new_content (m.cached p) key value curr) pred ne)
        ∙ at_curr

    step : exec (atomic (cas_next pred curr p) >>= finish p) m2 ≡ exec (publish p) m3
    step = rw (cas_next_lem m2 pred curr p sound_pred same_next)

module _ {m : Memory} {head tail : Ptr} {key : Key} {cs cells : List Cell} {pred curr p : Ptr}
    (rest : List Ptr) (value : ℕ) (is : IsList m head tail cells)
    (spare : IsSpare m.cached head tail cells p)
    (f : Found m tail key (head_cell head) cs pred curr) (same_cells : sweep key cs ≡ cells)
    (new : has key cells ≡ false) (above : int_min < key) (small : key < int_max) where
  abbrev n : Node
  n = new_content (m.cached p) key value curr

  abbrev m3 : Memory
  m3 = after_link m rest p f.r.ptr curr key value

  abbrev cells' : List Cell
  cells' = insert_cell (new_cell p key) cells

  unset : n.insert_flag ≡ true → is_valid n.meta_data ≡ true
  unset set = cc

  pub pred_ne : f.r.ptr ≢ p
  pred_ne =
      place-pred_ne n is.here.up spare.sound spare.ne_tail spare.outside f same_cells new above
        small

  head_ne : head ≢ p
  head_ne = spare.outside.0

  curr_sound : is_wild curr ≡ false
  curr_sound = Seg-sound f.here.seg f.here.end.sound

  chain : At m3.cached tail (head_cell head) (m3.cached head).next cells'
  chain =
      place-At n is.here.up spare.sound spare.ne_tail spare.outside f same_cells new above small
        refl refl unset (flip_v1-lt (m.cached p).meta_data spare.byte)

  new_node : m3.cached p ≡ n
  new_node = write_ne _ f.r.ptr _ p (λ e. pred_ne (sym e)) ∙ write_self m.cached p n

  new_byte : (m3.cached p).meta_data < 256
  new_byte = rw new_node (flip_v1-lt (m.cached p).meta_data spare.byte)

  old_content : (x : Ptr) → x ≢ p → persisted (m3.cached x) ≡ persisted (m.cached x)
  unfolding write persisted
  old_content x ne = ground (
    arith,
    f.here.next,
    not_null curr curr_sound,
    clean curr curr_sound,
    not_null p spare.sound,
    clean p spare.sound,
  )

  new_persisted : persisted ((helped m3 p).cached p) ≡ some key
  new_persisted =
      helped-persisted m3 p new_byte (rw new_node (clean curr curr_sound))
        (rw new_node (not_null curr curr_sound))
      ∙ rw new_node

  listed : lists p key cells' ≡ true
  listed = lists-insert_cell p key (new_cell p key) cells refl ∙ ground arith

  pub inserted-IsList : IsList (helped m3 p) head tail cells'
  inserted-IsList = record {
    here = rw (ap (λ x. x.next) (helped_ne m3 p head head_ne).0) (helped-At m3 p new_byte chain);
    settled = λ x ne. elim (ℕ_discrete x p) [
      | yes e ↦ rw e (helped-Settled_unflushed m3 p (rw new_node))
      | no far ↦
          rw (helped_ne m3 p x far).0
            (rw (helped_ne m3 p x far).1 (is.settled x ne ∙ sym (old_content x far)))
    ];
    owned = λ x k ne e. elim (ℕ_discrete x p) [
      | yes here ↦
          let same : key ≡ k = some-eq (sym new_persisted ∙ (rw here at e)) in
          subst (λ z. lists x z cells' ≡ true) same (rw here listed)
      | no far ↦
          let old : lists x k cells ≡ true =
            is.owned x k ne
              (sym (old_content x far) ∙ ap persisted (sym (helped_ne m3 p x far).0) ∙ e) in
          lists-insert_cell x k (new_cell p key) cells refl ∙ ground arith
    ];
  }

  pub inserted_durable : persisted ((helped m3 p).durable p) ≡ some key
  inserted_durable = helped-Settled_unflushed m3 p (rw new_node) ∙ new_persisted

  linked-Clean : Clean m → Clean m3
  unfolding write
  linked-Clean c x =
      ground (arith, c x, c f.r.ptr, flip_v1-lt (m.cached p).meta_data spare.byte, pred_ne)

  helped_valid : is_valid ((helped m3 p).cached p).meta_data ≡ true
  unfolding write
  helped_valid = ground (arith, after_make_valid-valid m3 p new_byte)

  old_valid :
      (x : Ptr)
      → x ≢ p
      → is_valid (m.cached x).meta_data ≡ true
      → is_valid (m3.cached x).meta_data ≡ true
  unfolding write
  old_valid x ne v = ground arith

  pub inserted-Upkeep : Upkeep m (helped m3 p)
  inserted-Upkeep =
      let up = helped-Upkeep m3 p (rw new_node) in
      record {
        clean = λ c. up.clean (linked-Clean c);
        valid = λ c x v. elim (ℕ_discrete x p) [
          | yes e ↦ rw e helped_valid
          | no far ↦ up.valid (linked-Clean c) x (old_valid x far v)
        ];
      }
