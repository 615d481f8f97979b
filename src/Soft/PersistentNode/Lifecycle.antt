-- ===== src/Soft/PersistentNode/Lifecycle.antt =====
-- SOFT/PNode.h: what a crash leaves of a persistent node while it is written and while it is destroyed.
-- A node lies in one cache line, so what NVRAM holds of it after a crash is what the cache held at some
-- moment since the last flush: the states of the run are the crashes.
use efficient_lock_free_dura.Common.{
  ℕ, ◌≡◌, ◌⊎◌, inl, inr, true, false, not, ◌||◌, Option, none, some, All, map, List, [], ◌∷◌,
  if◌then◌else◌, arith,
}
use efficient_lock_free_dura.Common.Prog.{Returns, returns, trace, run-bind, ◌>>=◌}
use efficient_lock_free_dura.Soft.Memory.{Ptr, Key, PNode, Memory, is_wild, write, exec, perform}
use efficient_lock_free_dura.Soft.PersistentNode.{
  is_valid, is_deleted, alloc, create, destroy, recovery_validity,
}
use efficient_lock_free_dura.Soft.Commands.{
  write_self, started, keyed, filled, created, destroyed, alloc_lem, create_lem, destroy_lem,
}

-- The key and the value that `recovery` reads from a node, if it inserts the node at all.
abbrev pub recovered : PNode → Option (Key × ℕ)
recovered n = if not (is_valid n) || is_deleted n then none else some (n.key, n.value)

-- What `recovery` leaves of a node that it frees.
abbrev pub repaired : PNode → PNode
repaired n = record n { valid_start = n.valid_end }

-- `recovery` inserts the node with this content, or frees it and leaves it ready for `alloc`.
abbrev pub AllOrNothing : Key → ℕ → PNode → Type 0
AllOrNothing key value n =
    (recovered n ≡ some (key, value)) ⊎ ((recovered n ≡ none) × (is_deleted (repaired n) ≡ true))

from_map :
    {A B : Type 0} (P : B → Type 0) (f : A → B) (xs : List A)
    → All P (map f xs)
    → All (λ x. P (f x)) xs
from_map P f [] all = all
from_map P f (x ∷ xs) (h, all) = (h, from_map P f xs all)

create-trace :
    (m : Memory) (p : Ptr) (key : Key) (value : ℕ)
    → is_wild p ≡ false
    → map (λ m'. m'.cached p) (trace perform (alloc p >>= create p key value) m) ≡ (
        let n = m.cached p in
        let v = not n.valid_start in
        n
        ∷ n
        ∷ started n v
        ∷ keyed n v key
        ∷ filled n v key value
        ∷ created n v key value
        ∷ created n v key value
        ∷ [])
unfolding alloc create perform write
create-trace m p key value sound = ground arith

idle : (key : Key) (value : ℕ) (n : PNode) → is_deleted n ≡ true → AllOrNothing key value n
unfolding is_valid is_deleted
idle key value n free = inr (ground arith, ground arith)

half_written :
    (key k : Key) (value v : ℕ) (n : PNode)
    → is_deleted n ≡ true
    → AllOrNothing key value (record n { valid_start = not n.valid_start; key = k; value = v })
unfolding is_valid is_deleted
half_written key k value v n free = inr (ground arith, ground arith)

pub written :
    (key : Key) (value : ℕ) (n : PNode)
    → is_deleted n ≡ true
    → recovered (created n (not n.valid_start) key value) ≡ some (key, value)
unfolding is_valid is_deleted
written key value n free = ground arith

created_run :
    (m : Memory) (p : Ptr) (key : Key) (value : ℕ)
    → is_wild p ≡ false
    → is_deleted (m.cached p) ≡ true
    → Returns
        (λ a m'. (m'.cached p ≡ m'.durable p) × (recovered (m'.durable p) ≡ some (key, value)))
        (exec (alloc p >>= create p key value) m)
created_run m p key value sound free =
    rw
      (
        run-bind perform (alloc p) (create p key value) m,
        alloc_lem m p sound,
        create_lem m p sound key value (not (m.cached p).valid_start),
      )
      (returns (
        simp write_self,
        rw (write_self m.durable p (created (m.cached p) (not (m.cached p).valid_start) key value))
            (written key value (m.cached p) free),
      ))

-- A free node is allocated and created. A crash, at whatever moment and with whatever part of the node
-- in NVRAM: recovery reads the new key and value from the node, or frees it in a state from which
-- `alloc` and `create` work again. When `create` returns, NVRAM has the key and the value.
pub create-AllOrNothing :
    (m : Memory) (p : Ptr) (key : Key) (value : ℕ)
    → is_wild p ≡ false
    → is_deleted (m.cached p) ≡ true
    → All
        (λ m'. AllOrNothing key value (m'.cached p))
        (trace perform (alloc p >>= create p key value) m)
      × Returns
          (λ a m'. (m'.cached p ≡ m'.durable p) × (recovered (m'.durable p) ≡ some (key, value)))
          (exec (alloc p >>= create p key value) m)
create-AllOrNothing m p key value sound free =
    let n = m.cached p in
    let last = inl (written key value n free) in
    (
      from_map (AllOrNothing key value) (λ m'. m'.cached p)
          (trace perform (alloc p >>= create p key value) m)
          (rw (create-trace m p key value sound) (
            idle key value n free,
            (
              idle key value n free,
              (
                half_written key n.key value n.value n free,
                (
                  half_written key key value n.value n free,
                  (half_written key key value value n free, (last, (last, tt))),
                ),
              ),
            ),
          )),
      created_run m p key value sound free,
    )

destroy-trace :
    (m : Memory) (p : Ptr)
    → is_wild p ≡ false
    → map (λ m'. m'.cached p) (trace perform (recovery_validity p >>= destroy p) m)
      ≡ (let n = m.cached p in n ∷ n ∷ destroyed n n.valid_start ∷ destroyed n n.valid_start ∷ [])
unfolding recovery_validity destroy perform write
destroy-trace m p sound = ground arith

pub gone :
    (key : Key) (value : ℕ) (n : PNode)
    → recovered n ≡ some (key, value)
    → is_deleted (destroyed n n.valid_start) ≡ true
unfolding is_valid is_deleted
gone key value n live = ground arith

destroyed_run :
    (m : Memory) (p : Ptr) (key : Key) (value : ℕ)
    → is_wild p ≡ false
    → recovered (m.cached p) ≡ some (key, value)
    → Returns
        (λ a m'. (m'.cached p ≡ m'.durable p) × (is_deleted (m'.durable p) ≡ true))
        (exec (recovery_validity p >>= destroy p) m)
unfolding recovery_validity perform
destroyed_run m p key value sound live =
    let n = m.cached p in
    rw (sound, destroy_lem m p sound n.valid_start)
      (returns (
        simp write_self,
        rw (write_self m.durable p (destroyed n n.valid_start)) (gone key value n live),
      ))

-- The node of a key is destroyed, with the validity that recovery or `alloc` gave for it. A crash, at
-- whatever moment: recovery still reads the key and the value, or frees the node in a state from which
-- `alloc` and `create` work again. When `destroy` returns, it is deleted in NVRAM.
pub destroy-AllOrNothing :
    (m : Memory) (p : Ptr) (key : Key) (value : ℕ)
    → is_wild p ≡ false
    → recovered (m.cached p) ≡ some (key, value)
    → All
        (λ m'. AllOrNothing key value (m'.cached p))
        (trace perform (recovery_validity p >>= destroy p) m)
      × Returns
          (λ a m'. (m'.cached p ≡ m'.durable p) × (is_deleted (m'.durable p) ≡ true))
          (exec (recovery_validity p >>= destroy p) m)
destroy-AllOrNothing m p key value sound live =
    let n = m.cached p in
    let last = idle key value (destroyed n n.valid_start) (gone key value n live) in
    (
      from_map (AllOrNothing key value) (λ m'. m'.cached p)
          (trace perform (recovery_validity p >>= destroy p) m)
          (rw (destroy-trace m p sound) (inl live, (inl live, (last, (last, tt))))),
      destroyed_run m p key value sound live,
    )
