-- ===== src/Soft/Remove/Unlink.antt =====
-- The part of `remove` of SOFT/SOFTList.h after its search has hit the key, and what it leaves in memory.
use efficient_lock_free_dura.Common.{
  ℕ, suc, ◌≡◌, ◌≢◌, ◌∙◌, sym, ap, refl, Bool, true, false, ◌∷◌, ◌==◌, ==_iff, if◌then◌else◌, arith,
}
use efficient_lock_free_dura.Common.Prog.{done, ret, atomic, run-bind, ◌>>=◌, ◌>>◌}
use efficient_lock_free_dura.Soft.Utilities.{State, create_ref}
use efficient_lock_free_dura.Soft.Memory.{
  Ptr, Key, Node, Memory, Cmd, is_wild, write, exec, perform, load,
}
use efficient_lock_free_dura.Soft.PersistentNode
use efficient_lock_free_dura.Soft.List.{load_key, load_next, claim, advance, trim, remove_at}
use efficient_lock_free_dura.Soft.Commands.{
  write_self, write_ne, write-write, with_pnode, destroyed, destroy_lem, load_lem, load_key_lem,
}
use efficient_lock_free_dura.Soft.Shape.{get_ref_sound, get_state_sound, create_ref_sound}
use efficient_lock_free_dura.Soft.States.{with_next, claim_lem, advance_lem, get_ref-create_ref}

module _ (m : Memory) (pred b next : Ptr) where
  abbrev pub deleted_node : Node
  deleted_node = record (m.nodes b) { next = create_ref next State.deleted }

  -- After `claim`, `destroy` and the loop that makes the node deleted.
  abbrev pub marked : Memory
  marked =
      let n = m.nodes b in
      with_pnode (record m { nodes = write m.nodes b deleted_node }) n.pptr
        (destroyed (m.cached n.pptr) n.p_validity)

  -- After `trim`.
  abbrev pub after_remove : Memory
  after_remove = record marked {
    nodes = write (write m.nodes b deleted_node) pred (record (m.nodes pred) { next = next });
    freed_pnodes = (m.nodes b).pptr ∷ m.freed_pnodes;
  }

  module _ (sound_pred : is_wild pred ≡ false) (sound : is_wild b ≡ false)
      (sound_next : is_wild next ≡ false) (sound_p : is_wild (m.nodes b).pptr ≡ false)
      (ne : pred ≢ b) (at_b : (m.nodes pred).next ≡ b) (at_next : (m.nodes b).next ≡ next) where
    at_pred : marked.nodes pred ≡ m.nodes pred
    at_pred = write_ne m.nodes b deleted_node pred ne

    own : marked.nodes b ≡ deleted_node
    own = write_self m.nodes b deleted_node

    still : after_remove.nodes b ≡ deleted_node
    still = write_ne _ pred _ b (λ e. ne (sym e)) ∙ own

    trim_lem : exec (trim pred b) marked ≡ done true after_remove
    unfolding trim load_next perform
    trim_lem = ground (
      arith,
      get_ref_sound b sound,
      get_state_sound b sound,
      own,
      get_ref-create_ref next sound_next State.deleted,
      create_ref_sound next sound_next,
      at_pred,
      still,
    )

    module _ (fuel : ℕ) where
      abbrev finish : Bool → Cmd Bool
      finish won = if won then trim pred b >> ret won else ret won

      abbrev bury : Bool → Cmd Bool
      bury won = advance (suc (suc fuel)) b State.intend_to_delete State.deleted >> finish won

      abbrev destroy_then : Bool → Cmd Bool
      destroy_then won = do
        n ← atomic (load b)
        PersistentNode.destroy n.pptr n.p_validity
        bury won

      abbrev claimed : Memory
      claimed = with_next m b (create_ref next State.intend_to_delete)

      abbrev wiped : Memory
      wiped =
          let n = m.nodes b in with_pnode claimed n.pptr (destroyed (m.cached n.pptr) n.p_validity)

      own_claimed :
          claimed.nodes b ≡ record (m.nodes b) { next = create_ref next State.intend_to_delete }
      own_claimed = write_self m.nodes b _

      buried : exec (bury true) wiped ≡ done true after_remove
      buried =
          run-bind perform (advance (suc (suc fuel)) b State.intend_to_delete State.deleted)
            (λ u. finish true) wiped
          ∙ rw
              (
                advance_lem wiped b next sound sound_next fuel State.intend_to_delete State.deleted
                    (ap (λ x. x.next) own_claimed) refl refl,
                own_claimed,
                write-write m.nodes b
                    (record (m.nodes b) { next = create_ref next State.intend_to_delete })
                    deleted_node,
              )
              (run-bind perform (trim pred b) (λ u. ret true) marked ∙ rw trim_lem refl)

      destroyed_then : exec (destroy_then true) claimed ≡ done true after_remove
      destroyed_then =
          run-bind perform (atomic (load b)) _ claimed
          ∙ rw (load_lem claimed b sound, own_claimed)
              (run-bind perform (PersistentNode.destroy (m.nodes b).pptr (m.nodes b).p_validity)
                  (λ u. bury true) claimed
                ∙ rw (destroy_lem claimed (m.nodes b).pptr sound_p (m.nodes b).p_validity) buried)

      pub remove_at-found :
          (key : Key)
          → (m.nodes b).key ≡ key
          → exec (remove_at (suc (suc fuel)) key pred b State.inserted) m ≡ done true after_remove
      unfolding remove_at
      remove_at-found key hit = rw (get_ref_sound b sound) (
          run-bind perform (load_key b) _ m
          ∙ rw (load_key_lem m b sound, (==_iff _ _).1 hit)
              (run-bind perform (claim (suc (suc fuel)) b) destroy_then m
                ∙ rw (claim_lem m b next sound sound_next (suc fuel) at_next) destroyed_then))

pub remove_at-absent :
    (m : Memory) (pred curr : Ptr) (key : Key) (fuel : ℕ)
    → is_wild curr ≡ false
    → ((m.nodes curr).key == key) ≡ false
    → exec (remove_at fuel key pred curr State.inserted) m ≡ done false m
unfolding remove_at
remove_at-absent m pred curr key fuel sound miss =
    rw (get_ref_sound curr sound)
      (run-bind perform (load_key curr) _ m ∙ rw (load_key_lem m curr sound, miss) refl)
