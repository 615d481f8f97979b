-- ===== src/Soft/States.antt =====
-- The state digits of SOFT/utilities.h on a pointer through which an access is possible, and the loops of
-- SOFT/SOFTList.h that move a node from one state to the next, run by one thread.
use efficient_lock_free_dura.Common.{ℕ, suc, ◌%◌, ◌+◌, ◌≡◌, ◌∙◌, sym, ap, refl, true, false, arith}
use efficient_lock_free_dura.Common.Prog.{done, run-bind}
use efficient_lock_free_dura.Soft.Utilities.{
  State, code, to_state, get_ref, create_ref, get_state, is,
}
use efficient_lock_free_dura.Soft.Memory.{Ptr, Memory, is_wild, write, exec, perform}
use efficient_lock_free_dura.Soft.List.{load_next, state_cas, advance, claim}
use efficient_lock_free_dura.Soft.Commands.{write_self, load_next_lem}
use efficient_lock_free_dura.Soft.Shape.{get_ref_sound, get_state_sound, create_ref_sound}

to_state-code : (s : State) → to_state (code s) ≡ s
to_state-code State.inserted = refl
to_state-code State.intend_to_delete = refl
to_state-code State.intend_to_insert = refl
to_state-code State.deleted = refl

code-digit : (p : Ptr) (s : State) → is_wild p ≡ false → (p + code s) % 4 ≡ code s
unfolding is_wild
code-digit p State.inserted sound = ground arith
code-digit p State.intend_to_delete sound = ground arith
code-digit p State.intend_to_insert sound = ground arith
code-digit p State.deleted sound = ground arith

module _ (p : Ptr) (sound : is_wild p ≡ false) where
  pub create_ref_eq : (s : State) → create_ref p s ≡ p + code s
  unfolding create_ref get_ref is_wild
  create_ref_eq s = ground arith

  pub get_state-create_ref : (s : State) → get_state (create_ref p s) ≡ s
  unfolding get_state
  get_state-create_ref s =
      rw (create_ref_eq s) (ap to_state (code-digit p s sound) ∙ to_state-code s)

  pub get_ref-create_ref : (s : State) → get_ref (create_ref p s) ≡ p
  unfolding get_ref
  get_ref-create_ref s = rw (create_ref_eq s) (ground (arith, code-digit p s sound))

  pub create_ref-create_ref : (s t : State) → create_ref (create_ref p s) t ≡ create_ref p t
  unfolding create_ref
  create_ref-create_ref s t =
      ap (λ x. x + code t) (get_ref-create_ref s ∙ sym (get_ref_sound p sound))

abbrev pub with_next : Memory → Ptr → Ptr → Memory
with_next m p next = record m { nodes = write m.nodes p (record (m.nodes p) { next = next }) }

module _ (m : Memory) (p next : Ptr) (sound : is_wild p ≡ false)
    (sound_next : is_wild next ≡ false) where
  state_cas_lem :
      (before after : State)
      → (m.nodes p).next ≡ create_ref next before
      → exec (state_cas p before after) m ≡ done true (with_next m p (create_ref next after))
  unfolding state_cas load_next perform
  state_cas_lem before after e = ground (
    arith,
    create_ref-create_ref next sound_next before before,
    create_ref-create_ref next sound_next before after,
  )

  -- One compare-exchange moves the node, and the second test ends the loop.
  pub advance_lem :
      (fuel : ℕ) (before after : State)
      → (m.nodes p).next ≡ create_ref next before
      → is before before ≡ true
      → is after before ≡ false
      → exec (advance (suc (suc fuel)) p before after) m
        ≡ done tt (with_next m p (create_ref next after))
  unfolding advance
  advance_lem fuel before after e same other =
      rw
        (
          run-bind perform (load_next p) _ m,
          load_next_lem m p sound,
          e,
          get_state-create_ref next sound_next before,
          same,
          run-bind perform (state_cas p before after) _ m,
          state_cas_lem before after e,
          run-bind perform (load_next p) _ (with_next m p (create_ref next after)),
          load_next_lem (with_next m p (create_ref next after)) p sound,
          write_self m.nodes p (record (m.nodes p) { next = create_ref next after }),
          get_state-create_ref next sound_next after,
          other,
        )
        refl

  pub claim_lem :
      (fuel : ℕ)
      → (m.nodes p).next ≡ next
      → exec (claim (suc fuel) p) m
        ≡ done true (with_next m p (create_ref next State.intend_to_delete))
  unfolding claim
  claim_lem fuel e =
      rw
        (
          run-bind perform (load_next p) _ m,
          load_next_lem m p sound,
          e,
          get_state_sound next sound_next,
          run-bind perform (state_cas p State.inserted State.intend_to_delete) _ m,
          state_cas_lem State.inserted State.intend_to_delete
              (e ∙ sym (create_ref_sound next sound_next)),
        )
        refl
