-- ===== src/Soft/Transitions.antt =====
-- SOFT/SOFTList.h: how the operations change the state of a node, whatever other threads do meanwhile.
pub mod Parts
use efficient_lock_free_dura.Common.{
  ℕ, zero, suc, ◌+◌, ◌-◌, ◌%◌, ◌<◌, ◌≡◌, ap, refl, Bool, true, false, not, leb, ltb, ◌==◌, ◌||◌,
  arith,
}
use efficient_lock_free_dura.Common.Prog.{Obeys, Obeys-bind, Obeys-if}
use efficient_lock_free_dura.Soft.Utilities.{
  State, code, to_state, get_ref, create_ref, get_state, is,
}
use efficient_lock_free_dura.Soft.Memory.{Ptr, Key, Op, Cmd, cas_next}
use efficient_lock_free_dura.Soft.PersistentNode
use efficient_lock_free_dura.Soft.List
use efficient_lock_free_dura.Soft.Transitions.Parts.{
  Lawful, get_state-create_ref, may_stay, trim-Obeys, find-Obeys, state_cas-Obeys, advance-Obeys,
  create-Obeys, destroy-Obeys,
}

finish_insert-Obeys :
    (fuel : ℕ) (p : Ptr) (result : Bool) → Obeys Lawful (List.finish_insert fuel p result)
unfolding List.finish_insert
finish_insert-Obeys fuel p result = (
  tt,
  λ n.
      Obeys-bind Lawful (PersistentNode.create n.pptr n.key n.value n.p_validity) _
        (create-Obeys n.pptr n.key n.value n.p_validity)
        λ u.
          Obeys-bind Lawful (List.advance fuel p State.intend_to_insert State.inserted) _
            (advance-Obeys fuel p State.intend_to_insert State.inserted refl) λ v. tt,
)

link_new-Obeys :
    (fuel : ℕ) (key : Key) (value : ℕ) (pred curr : Ptr) (again : Cmd Bool)
    → Obeys Lawful again
    → Obeys Lawful (List.link_new fuel key value pred curr again)
unfolding List.link_new PersistentNode.alloc List.alloc_new_volatile_node
link_new-Obeys fuel key value pred curr again rest = (
  tt,
  λ q. (
    tt,
    λ x. (
      tt,
      λ n. (
        tt,
        λ a. (
          tt,
          λ b. (
            tt,
            λ c. (
              tt,
              λ d. (
                tt,
                λ e. (
                  rw (get_state-create_ref n (get_state curr)) (may_stay (get_state curr)),
                  λ linked.
                      Obeys-if Lawful linked _ _ (finish_insert-Obeys fuel n true)
                        (tt, λ f. (tt, λ g. rest)),
                ),
              ),
            ),
          ),
        ),
      ),
    ),
  ),
)

insert_at-Obeys :
    (fuel : ℕ) (key : Key) (value : ℕ) (pred curr : Ptr) (curr_state : State) (again : Cmd Bool)
    → Obeys Lawful again
    → Obeys Lawful (List.insert_at fuel key value pred curr curr_state again)
unfolding List.insert_at List.load_key
insert_at-Obeys fuel key value pred curr curr_state again rest = (
  tt,
  λ n.
      Obeys-if Lawful (n.key == key) _ _
        (Obeys-if Lawful (not (is curr_state State.intend_to_insert)) _ _ tt
          (finish_insert-Obeys fuel (get_ref curr) false))
        (link_new-Obeys fuel key value pred curr again rest),
)

insert-Obeys :
    (rounds walk fuel : ℕ) (head : Ptr) (key : Key) (value : ℕ)
    → Obeys Lawful (List.insert rounds walk fuel head key value)
unfolding List.insert
insert-Obeys zero walk fuel head key value = tt
insert-Obeys (suc rounds) walk fuel head key value =
    Obeys-bind Lawful (List.find walk head key) _ (find-Obeys walk head key) λ found.
      insert_at-Obeys fuel key value found.0 found.1 found.2
        (List.insert rounds walk fuel head key value) (insert-Obeys rounds walk fuel head key value)

claim-Obeys : (fuel : ℕ) (p : Ptr) → Obeys Lawful (List.claim fuel p)
unfolding List.claim List.load_next
claim-Obeys zero p = tt
claim-Obeys (suc fuel) p = (
  tt,
  λ n.
      Obeys-if Lawful (is (get_state n.next) State.inserted) _ _
        (Obeys-bind Lawful (List.state_cas p State.inserted State.intend_to_delete) _
          (state_cas-Obeys p State.inserted State.intend_to_delete refl)
          λ won. Obeys-if Lawful won _ _ tt (claim-Obeys fuel p))
        tt,
)

remove_at-Obeys :
    (fuel : ℕ) (key : Key) (pred curr : Ptr) (curr_state : State)
    → Obeys Lawful (List.remove_at fuel key pred curr curr_state)
unfolding List.remove_at List.load_key
remove_at-Obeys fuel key pred curr curr_state = (
  tt,
  λ n. Obeys-if Lawful (not (n.key == key)) _ _ tt (
      Obeys-if Lawful (is curr_state State.intend_to_insert || is curr_state State.deleted) _ _ tt (
        Obeys-bind Lawful (List.claim fuel (get_ref curr)) _ (claim-Obeys fuel (get_ref curr))
          λ won. (
            tt,
            λ x.
                Obeys-bind Lawful (PersistentNode.destroy x.pptr x.p_validity) _
                  (destroy-Obeys x.pptr x.p_validity)
                  λ u.
                    Obeys-bind Lawful
                      (List.advance fuel (get_ref curr) State.intend_to_delete State.deleted) _
                      (advance-Obeys fuel (get_ref curr) State.intend_to_delete State.deleted refl)
                      λ v.
                        Obeys-if Lawful won _ _
                          (Obeys-bind Lawful (List.trim pred curr) _ (trim-Obeys pred curr) λ r. tt)
                          tt,
          ))),
)

remove-Obeys :
    (walk fuel : ℕ) (head : Ptr) (key : Key) → Obeys Lawful (List.remove walk fuel head key)
unfolding List.remove
remove-Obeys walk fuel head key =
    Obeys-bind Lawful (List.find walk head key) _ (find-Obeys walk head key)
      λ found. remove_at-Obeys fuel key found.0 found.1 found.2

seek-Obeys : (fuel : ℕ) (key : Key) (curr : Ptr) → Obeys Lawful (List.seek fuel key curr)
unfolding List.seek List.load_next List.load_key
seek-Obeys zero key curr = tt
seek-Obeys (suc fuel) key curr = (
  tt,
  λ n. Obeys-if Lawful (ltb n.key key) _ _ (tt, λ x. seek-Obeys fuel key (get_ref x.next)) tt,
)

contains-Obeys : (walk : ℕ) (head : Ptr) (key : Key) → Obeys Lawful (List.contains walk head key)
unfolding List.contains List.load_next List.load_key
contains-Obeys walk head key = (
  tt,
  λ n.
      Obeys-bind Lawful (List.seek walk key n.next) _ (seek-Obeys walk key n.next)
        λ curr. (tt, λ x. (tt, λ y. tt)),
)

-- Whatever other threads do meanwhile, each compare-exchange that `insert`, `remove` or `contains` tries
-- on a link keeps the state in it, or changes it by one of three steps: from INTEND_TO_INSERT to
-- INSERTED, from INSERTED to INTEND_TO_DELETE, from INTEND_TO_DELETE to DELETED.
pub operations-Obeys :
    (rounds walk fuel : ℕ) (head : Ptr) (key : Key) (value : ℕ)
    → Obeys Lawful (List.insert rounds walk fuel head key value)
      × (Obeys Lawful (List.remove walk fuel head key) × Obeys Lawful (List.contains walk head key))
operations-Obeys rounds walk fuel head key value = (
  insert-Obeys rounds walk fuel head key value,
  (remove-Obeys walk fuel head key, contains-Obeys walk head key),
)
