-- ===== src/Soft/Tests/History.antt =====
-- The theorems on the calls of the SOFT list at a concrete memory: a new list in zeroed memory, with a
-- chunk of three persistent nodes and three volatile nodes.
use efficient_lock_free_dura.Common.{◌+◌, ◌≡◌, refl, false, List, [], ◌∷◌, All, Distinct, arith}
use efficient_lock_free_dura.Common.Prog.{Returns}
use efficient_lock_free_dura.Common.Objects.{objects}
use efficient_lock_free_dura.SetSpec.{Call, to_insert, to_remove, answers, final_set, run_calls}
use efficient_lock_free_dura.Soft.Memory.{Ptr, nullptr, Memory, is_wild, exec, perform}
use efficient_lock_free_dura.Soft.PersistentNode.{is_valid, is_deleted}
use efficient_lock_free_dura.Soft.List.{int_min, construct, volatile_node}
use efficient_lock_free_dura.Soft.Recovery.{lost, crash, recovery}
use efficient_lock_free_dura.Soft.Invariant.{IsSpare, IsFree}
use efficient_lock_free_dura.Soft.History.{Serving, run_call, soft_history-Refines}
use efficient_lock_free_dura.Soft.History.Start.{IsBlank, soft_construct-Serving}
use efficient_lock_free_dura.Soft.History.Crash.{crash-recovery, history-crash-recovery}

abbrev chunk : List Ptr
chunk = objects 32 3 (64 ∷ [])

abbrev pool : List Ptr
pool = 256 ∷ 288 ∷ 320 ∷ []

abbrev zeroed : Memory
zeroed = record {
  nodes = λ x. volatile_node 0 0 nullptr false;
  cached = λ x. lost;
  durable = λ x. lost;
  node_pool = pool;
  pnode_pool = chunk;
  freed_nodes = [];
  freed_pnodes = [];
}

zeroed-IsBlank : IsBlank zeroed
unfolding is_valid is_deleted
zeroed-IsBlank = record { cached = λ x. refl; durable = λ x. refl; tidy = λ x. refl }

spares : All (IsSpare 16 48 []) pool
unfolding is_wild
spares = (
  (record { sound = refl; ne_tail = omega arith; outside = (omega arith, tt) }),
  (
    (record { sound = refl; ne_tail = omega arith; outside = (omega arith, tt) }),
    ((record { sound = refl; ne_tail = omega arith; outside = (omega arith, tt) }), tt),
  ),
)

frees : All (IsFree zeroed) chunk
unfolding is_wild is_deleted
frees = ((refl, refl), ((refl, refl), ((refl, refl), tt)))

Distinct-pool : Distinct pool
Distinct-pool = ((omega arith, (omega arith, tt)), ((omega arith, tt), (tt, tt)))

Distinct-chunk : Distinct chunk
Distinct-chunk = ((omega arith, (omega arith, tt)), ((omega arith, tt), (tt, tt)))

-- The new list, for the theorems below.
ready : Serving chunk 16 48 9 (λ k. false) 3 (construct 16 48 zeroed)
unfolding is_wild
ready =
    soft_construct-Serving {m = zeroed} 16 48 9 3 zeroed-IsBlank refl refl (omega arith) spares
      Distinct-pool frees Distinct-chunk (refl, (refl, (refl, tt))) (omega arith) (omega arith)
      (omega arith)

soft_construct-Serving_example : Serving chunk 16 48 4 (λ k. false) 2 (construct 16 48 zeroed)
unfolding is_wild
soft_construct-Serving_example =
    soft_construct-Serving {m = zeroed} 16 48 4 2 zeroed-IsBlank refl refl (omega arith) spares
      Distinct-pool frees Distinct-chunk (refl, (refl, (refl, tt))) (omega arith) (omega arith)
      (omega arith)

abbrev calls : List Call
calls = to_insert (int_min + 7) 1 ∷ to_insert (int_min + 3) 2 ∷ to_remove (int_min + 7) ∷ []

soft_history-Refines_example :
    Returns
      (λ bs m'.
        (bs ≡ answers (λ k. false) calls)
        × Serving chunk 16 48 9 (final_set (λ k. false) calls) 0 m')
      (exec (run_calls perform (run_call 1 9 2 16) calls) (construct 16 48 zeroed))
soft_history-Refines_example =
    soft_history-Refines {objs = chunk} {tail = 48} 0 9 0 calls
      ((omega arith, omega arith), ((omega arith, omega arith), ((omega arith, omega arith), tt)))
      ready

crash-recovery_example :
    Returns
      (λ u m'. Serving chunk 16 48 9 (λ k. false) 0 m')
      (exec
        (recovery 1 9 16 32 3 (64 ∷ []))
        (construct 16 48 (crash chunk pool (construct 16 48 zeroed))))
unfolding is_wild
crash-recovery_example =
    crash-recovery 0 9 32 3 (64 ∷ []) pool 16 48 ready (refl, (refl, (refl, tt))) Distinct-chunk
      refl refl (omega arith) spares Distinct-pool (omega arith) (omega arith)

history-crash-recovery_example :
    Returns
      (λ bs m'.
        (bs ≡ answers (λ k. false) calls)
        × Returns
            (λ u m''. Serving chunk 16 48 9 (final_set (λ k. false) calls) 0 m'')
            (exec (recovery 1 9 16 32 3 (64 ∷ [])) (construct 16 48 (crash chunk pool m'))))
      (exec (run_calls perform (run_call 1 9 2 16) calls) (construct 16 48 zeroed))
unfolding is_wild
history-crash-recovery_example =
    history-crash-recovery {tail = 48} 0 9 9 0 32 3 (64 ∷ []) pool 16 48 calls
      ((omega arith, omega arith), ((omega arith, omega arith), ((omega arith, omega arith), tt)))
      ready (refl, (refl, (refl, tt))) Distinct-chunk refl refl (omega arith) spares Distinct-pool
      (omega arith) (omega arith)
