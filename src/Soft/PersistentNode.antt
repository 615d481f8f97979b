-- ===== src/Soft/PersistentNode.antt =====
-- SOFT/PNode.h: the methods of `PNode`, one atomic access after the other.
pub mod Lifecycle
use efficient_lock_free_dura.Common.{ℕ, Bool, not, same, ◌&&◌}
use efficient_lock_free_dura.Common.Prog.{ret, atomic, ◌>>=◌, ◌>>◌}
use efficient_lock_free_dura.Soft.Memory.{
  Ptr, Key, PNode, Cmd, load_pnode, store_pnode, flush_pnode,
}

-- `PNode::isValid` and `PNode::isDeleted`, on a node that no other thread changes: the loads of its
-- fields agree.
unfoldable pub is_valid : PNode → Bool
is_valid n = same n.valid_start n.valid_end && not (same n.valid_end n.deleted)

unfoldable pub is_deleted : PNode → Bool
is_deleted n = same n.valid_start n.valid_end && same n.valid_end n.deleted

unfoldable pub alloc : Ptr → Cmd Bool
alloc p = do n ← atomic (load_pnode p); ret (not n.valid_start)

unfoldable pub create : Ptr → Key → ℕ → Bool → Cmd (Unit {0})
create p key value validity = do
  atomic (store_pnode p λ n. record n { valid_start = validity })
  atomic (store_pnode p λ n. record n { key = key })
  atomic (store_pnode p λ n. record n { value = value })
  atomic (store_pnode p λ n. record n { valid_end = validity })
  atomic (flush_pnode p)

unfoldable pub destroy : Ptr → Bool → Cmd (Unit {0})
destroy p validity = do
  atomic (store_pnode p λ n. record n { deleted = validity })
  atomic (flush_pnode p)

unfoldable pub recovery_validity : Ptr → Cmd Bool
recovery_validity p = do n ← atomic (load_pnode p); ret n.valid_start
