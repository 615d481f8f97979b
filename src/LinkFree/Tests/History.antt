-- ===== src/LinkFree/Tests/History.antt =====
-- The theorems on sequences of calls at a concrete memory: a new list in zeroed memory, with a chunk of
-- three objects.
use efficient_lock_free_dura.Common.{Distinct, ◌+◌, ◌≡◌, refl, false, List, [], ◌∷◌, All, arith}
use efficient_lock_free_dura.Common.Prog.{Returns}
use efficient_lock_free_dura.SetSpec.{Call, to_insert, to_remove, answers, final_set, run_calls}
use efficient_lock_free_dura.LinkFree.Memory.{Ptr, Memory, is_wild, exec, perform}
use efficient_lock_free_dura.LinkFree.Utilities.{is_valid, is_marked}
use efficient_lock_free_dura.LinkFree.List.{int_min}
use efficient_lock_free_dura.LinkFree.Shape.{persisted}
use efficient_lock_free_dura.LinkFree.Recovery.{crash, recover, lost}
use efficient_lock_free_dura.LinkFree.Construct.{construct, IsBlank}
use efficient_lock_free_dura.Common.Objects.{objects}
use efficient_lock_free_dura.LinkFree.History.{Serving, run_call, history-Refines}
use efficient_lock_free_dura.LinkFree.Upkeep.{Clean}
use efficient_lock_free_dura.LinkFree.History.Crash.{crash-recover}
use efficient_lock_free_dura.LinkFree.History.Start.{
  IsFresh, construct-Serving, history-crash-recover,
}

abbrev pub chunk : List Ptr
chunk = objects 32 3 (64 ∷ [])

abbrev pub zeroed : Memory
zeroed = record { cached = λ x. lost; durable = λ x. lost; pool = chunk; freed = [] }

zeroed-IsBlank : IsBlank zeroed
unfolding persisted is_valid is_marked
zeroed-IsBlank = record { cached = λ x. refl; durable = λ x. refl }

zeroed-Clean : Clean zeroed
zeroed-Clean x = (omega arith, omega arith, refl)

fresh : All (IsFresh zeroed chunk 16 48) chunk
unfolding is_wild is_marked is_valid
fresh = (
  (record {
    sound = refl;
    ne_min = omega arith;
    ne_max = omega arith;
    valid = refl;
    inside = refl;
  }),
  (
    (record {
      sound = refl;
      ne_min = omega arith;
      ne_max = omega arith;
      valid = refl;
      inside = refl;
    }),
    (
      (record {
        sound = refl;
        ne_min = omega arith;
        ne_max = omega arith;
        valid = refl;
        inside = refl;
      }),
      tt,
    ),
  ),
)

distinct : Distinct chunk
distinct = ((omega arith, (omega arith, tt)), ((omega arith, tt), (tt, tt)))

-- The new list, for the theorems below.
pub ready : Serving chunk 16 48 9 (λ k. false) 3 (construct 16 48 zeroed)
unfolding is_wild is_marked
ready =
    construct-Serving {m = zeroed} 16 48 9 zeroed-IsBlank zeroed-Clean refl refl (omega arith) fresh
      distinct (omega arith)

construct-Serving_example : Serving chunk 16 48 4 (λ k. false) 3 (construct 16 48 zeroed)
unfolding is_wild is_marked
construct-Serving_example =
    construct-Serving {m = zeroed} 16 48 4 zeroed-IsBlank zeroed-Clean refl refl (omega arith) fresh
      distinct (omega arith)

abbrev calls : List Call
calls = to_insert (int_min + 7) 1 ∷ to_insert (int_min + 3) 2 ∷ to_remove (int_min + 7) ∷ []

history-Refines_example :
    Returns
      (λ bs m'.
        (bs ≡ answers (λ k. false) calls)
        × Serving chunk 16 48 9 (final_set (λ k. false) calls) 0 m')
      (exec (run_calls perform (run_call 1 9 16) calls) (construct 16 48 zeroed))
history-Refines_example =
    history-Refines {objs = chunk} {tail = 48} 0 9 calls
      ((omega arith, omega arith), ((omega arith, omega arith), ((omega arith, omega arith), tt)))
      ready

crash-recover_example :
    Returns
      (λ u m'. Serving chunk 200 232 9 (λ k. false) 0 m')
      (exec
        (recover 1 9 200 32 3 (64 ∷ []))
        (construct 200 232 (crash chunk (construct 16 48 zeroed))))
unfolding is_wild is_marked
crash-recover_example =
    crash-recover 0 9 32 3 (64 ∷ []) 200 232 ready (refl, (refl, (refl, tt))) distinct refl refl
      refl refl refl (omega arith) (omega arith)

history-crash-recover_example :
    Returns
      (λ bs m'.
        (bs ≡ answers (λ k. false) calls)
        × Returns
            (λ u m''. Serving chunk 200 232 9 (final_set (λ k. false) calls) 0 m'')
            (exec (recover 1 9 200 32 3 (64 ∷ [])) (construct 200 232 (crash chunk m'))))
      (exec (run_calls perform (run_call 1 9 16) calls) (construct 16 48 zeroed))
unfolding is_wild is_marked
history-crash-recover_example =
    history-crash-recover {tail = 48} 0 9 9 32 3 (64 ∷ []) 200 232 calls
      ((omega arith, omega arith), ((omega arith, omega arith), ((omega arith, omega arith), tt)))
      ready (refl, (refl, (refl, tt))) distinct refl refl refl refl refl (omega arith) (omega arith)
