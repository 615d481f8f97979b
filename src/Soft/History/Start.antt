-- ===== src/Soft/History/Start.antt =====
-- The constructor of `SOFTList` makes a list that is ready for calls.
use efficient_lock_free_dura.Common.{
  ℕ, ◌<◌, ◌≤◌, ◌≡◌, ◌≢◌, ◌∙◌, sym, refl, true, false, none, List, [], All, Distinct, member, length,
  arith,
}
use efficient_lock_free_dura.Soft.Memory.{Ptr, Memory, is_wild}
use efficient_lock_free_dura.Soft.PersistentNode.{is_deleted}
use efficient_lock_free_dura.Soft.PersistentNode.Lifecycle.{recovered, repaired}
use efficient_lock_free_dura.Soft.List.{construct}
use efficient_lock_free_dura.Soft.Invariant.{IsSpare, IsFree}
use efficient_lock_free_dura.Soft.Insert.Place.{none-some}
use efficient_lock_free_dura.Soft.History.{Serving}
use efficient_lock_free_dura.Soft.History.Crash.{construct-At}

-- Nothing in memory would be inserted by `recovery`, and each object is ready for `alloc` once
-- `recovery` has set its start bit.
pub record IsBlank (m : Memory) : Type 0 where
  pub cached : (x : Ptr) → recovered (m.cached x) ≡ none
  pub durable : (x : Ptr) → recovered (m.durable x) ≡ none
  pub tidy : (x : Ptr) → is_deleted (repaired (m.durable x)) ≡ true

-- The constructor of the SOFT list makes a list that is ready for calls and holds no key, if `new`
-- returns two different addresses, neither null nor with a state digit, nothing in memory is a
-- node that `recovery` would insert or one half written, and the objects that the two allocators
-- will hand out are different: spare nodes apart from the sentinels, and free persistent nodes of
-- the chunks, no fewer than the budget of calls, which is below the fuel of a walk.
pub soft_construct-Serving :
    {m : Memory} {objs : List Ptr} (min max : Ptr) (walk budget : ℕ)
    → IsBlank m
    → is_wild min ≡ false
    → is_wild max ≡ false
    → min ≢ max
    → All (IsSpare min max []) m.node_pool
    → Distinct m.node_pool
    → All (IsFree m) m.pnode_pool
    → Distinct m.pnode_pool
    → All (λ p. member p objs ≡ true) m.pnode_pool
    → budget ≤ length m.node_pool
    → budget ≤ length m.pnode_pool
    → budget < walk
    → Serving objs min max walk (λ k. false) budget (construct min max m)
unfolding construct
soft_construct-Serving {m} {objs} min max walk budget blank sound_min sound_max ne spares distinct
      frees pnode_distinct inside room pnode_room fuel =
    record {
      cells = [];
      usable = record {
        list = record {
          here = construct-At m min max sound_min sound_max ne;
          written = tt;
          tidy = λ x e. blank.tidy x;
          settled = λ x. blank.durable x ∙ sym (blank.cached x);
          owned = λ x k v e. absurd (none-some (sym (blank.cached x) ∙ e));
        };
        within = λ x k l. cc;
        spares = spares;
        distinct = distinct;
        frees = frees;
        pnode_distinct = pnode_distinct;
        pnode_within = inside;
      };
      keys = refl;
      fuel = omega arith;
      room = room;
      pnode_room = pnode_room;
    }
