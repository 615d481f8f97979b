-- ===== src/Soft/SkipList/Lifecycle.antt =====
-- SOFT/SOFTSkipList.h: what a crash leaves of the fields of a node while it is written, published and
-- destroyed. They lie in the first cache line of the node, so what NVRAM holds of them after a crash is
-- what the cache held at some moment since the last flush.
use efficient_lock_free_dura.Common.{
  ℕ, ◌≡◌, ◌≢◌, refl, ◌⊎◌, inl, inr, Bool, true, false, not, Option, none, some, All, map, List, [],
  ◌∷◌, if◌then◌else◌, arith,
}
use efficient_lock_free_dura.Common.Prog.{Returns, returns, trace, ◌>>=◌}
use efficient_lock_free_dura.Soft.SkipList.Memory.{
  Ptr, Key, Tower, Memory, is_wild, line_of, write, exec, perform,
}
use efficient_lock_free_dura.Soft.SkipList.Search.{is_valid, is_deleted, alloc_node, create, help}

-- The key and the value of a node that is valid and not deleted.
abbrev pub recovered : Tower → Option (Key × ℕ)
recovered n = if is_valid n then some (n.key, n.value) else none

-- The node with `validStart` set back, which makes it free again.
abbrev pub repaired : Tower → Tower
repaired n = record n { valid_start = n.valid_end }

-- A node has this content in NVRAM, or is none and can be made free.
abbrev pub AllOrNothing : Key → ℕ → Tower → Type 0
AllOrNothing key value n =
    (recovered n ≡ some (key, value)) ⊎ ((recovered n ≡ none) × (is_deleted (repaired n) ≡ true))

from_map :
    {A B : Type 0} (P : B → Type 0) (f : A → B) (xs : List A)
    → All P (map f xs)
    → All (λ x. P (f x)) xs
from_map P f [] all = all
from_map P f (x ∷ xs) (h, all) = (h, from_map P f xs all)

write_self : {A : Type 0} (f : Ptr → A) (p : Ptr) (a : A) → write f p a p ≡ a
unfolding write
write_self f p a = ground arith

write_ne : {A : Type 0} (f : Ptr → A) (p : Ptr) (a : A) (q : Ptr) → q ≢ p → write f p a q ≡ f q
unfolding write
write_ne f p a q h = ground arith

-- The node while it is written, with the validity `v`, and when it has been helped.
abbrev partial_node : Tower → Bool → Key → ℕ → ℕ → Bool → Tower
partial_node n v key value top_level p_validity = record n {
  valid_start = v;
  key = key;
  value = value;
  top_level = top_level;
  p_validity = p_validity;
}

abbrev published : Tower → Bool → Key → ℕ → ℕ → Tower
published n v key value top_level = record (partial_node n v key value top_level v) {
  valid_end = v;
}

publish-trace :
    (m : Memory) (p : Ptr) (rest : List Ptr) (key : Key) (value top_level : ℕ)
    → is_wild p ≡ false
    → m.pool ≡ p ∷ rest
    → map (λ m'. m'.cached p) (trace perform (alloc_node key value top_level >>= help) m) ≡ (
        let n = m.cached p in
        let v = not n.valid_start in
        let q = published n v key value top_level in
        n
        ∷ n
        ∷ n
        ∷ partial_node n v n.key n.value n.top_level n.p_validity
        ∷ partial_node n v key n.value n.top_level n.p_validity
        ∷ partial_node n v key value n.top_level n.p_validity
        ∷ partial_node n v key value top_level n.p_validity
        ∷ partial_node n v key value top_level v
        ∷ partial_node n v key value top_level v
        ∷ q
        ∷ q
        ∷ [])
unfolding alloc_node create help perform
publish-trace m p rest key value top_level sound pool = rw pool (simp (sound, write_self))

idle : (key : Key) (value : ℕ) (n : Tower) → is_deleted n ≡ true → AllOrNothing key value n
unfolding is_valid is_deleted
idle key value n free = inr (ground arith, ground arith)

half_written :
    (key k : Key) (value v top_level : ℕ) (p_validity : Bool) (n : Tower)
    → is_deleted n ≡ true
    → AllOrNothing key value (partial_node n (not n.valid_start) k v top_level p_validity)
unfolding is_valid is_deleted
half_written key k value v top_level p_validity n free = inr (ground arith, ground arith)

written :
    (key : Key) (value top_level : ℕ) (n : Tower)
    → is_deleted n ≡ true
    → recovered (published n (not n.valid_start) key value top_level) ≡ some (key, value)
unfolding is_valid is_deleted
written key value top_level n free = ground arith

-- What the calls leave: the node is in NVRAM with its key and value, and so is its first line as the
-- cache has it; no other node is touched, and one object is used up.
pub record Published (m : Memory) (p : Ptr) (rest : List Ptr) (key : Key) (value : ℕ) (m' : Memory)
    : Type 0 where
  pub durable : recovered (m'.durable p) ≡ some (key, value)
  pub line : m'.durable p ≡ line_of (m'.cached p) (m.durable p)
  pub pool : m'.pool ≡ rest
  pub others : (q : Ptr) → q ≢ p → (m'.cached q ≡ m.cached q) × (m'.durable q ≡ m.durable q)

run-Published :
    (m : Memory) (p : Ptr) (rest : List Ptr) (key : Key) (value top_level : ℕ)
    → is_wild p ≡ false
    → m.pool ≡ p ∷ rest
    → is_deleted (m.cached p) ≡ true
    → Returns
        (λ u m'. Published m p rest key value m')
        (exec (alloc_node key value top_level >>= help) m)
unfolding alloc_node create help perform is_valid
run-Published m p rest key value top_level sound pool free =
    rw (pool, sound)
      (returns (record {
        durable = simp write_self (written key value top_level (m.cached p) free);
        line = simp write_self;
        pool = refl;
        others = λ q ne.
            let other : (f : Ptr → Tower) (a : Tower) → write f p a q ≡ f q =
              λ f a. write_ne f p a q ne in
            (simp other, simp other);
      }))

-- A free node of the SOFT skip list is allocated, written and published by `help`, by one thread.
-- After a crash, at whatever moment and with whatever part of the fields of its first cache line
-- in NVRAM, the node is valid with the new key and value, or is not valid and becomes deleted, so
-- free, once `validStart` is set back. When `help` returns, the node is valid in NVRAM with the
-- new key and value, its first cache line there is as the cache has it, no other node has changed,
-- and one object of the allocator is used up. The conditions: the allocator hands out the node,
-- its address is sound, and it is in the deleted state.
pub publish-AllOrNothing :
    (m : Memory) (p : Ptr) (rest : List Ptr) (key : Key) (value top_level : ℕ)
    → is_wild p ≡ false
    → m.pool ≡ p ∷ rest
    → is_deleted (m.cached p) ≡ true
    → All
        (λ m'. AllOrNothing key value (m'.cached p))
        (trace perform (alloc_node key value top_level >>= help) m)
      × Returns
          (λ u m'. Published m p rest key value m')
          (exec (alloc_node key value top_level >>= help) m)
publish-AllOrNothing m p rest key value top_level sound pool free =
    let n = m.cached p in
    let none_yet = idle key value n free in
    let last = inl (written key value top_level n free) in
    let half = λ (k : Key) (v t : ℕ) (b : Bool). half_written key k value v t b n free in
    (
      from_map (AllOrNothing key value) (λ m'. m'.cached p)
          (trace perform (alloc_node key value top_level >>= help) m)
          (rw (publish-trace m p rest key value top_level sound pool) (
            none_yet,
            (
              none_yet,
              (
                none_yet,
                (
                  half n.key n.value n.top_level n.p_validity,
                  (
                    half key n.value n.top_level n.p_validity,
                    (
                      half key value n.top_level n.p_validity,
                      (
                        half key value top_level n.p_validity,
                        (
                          half key value top_level (not n.valid_start),
                          (half key value top_level (not n.valid_start), (last, (last, tt))),
                        ),
                      ),
                    ),
                  ),
                ),
              ),
            ),
          )),
      run-Published m p rest key value top_level sound pool free,
    )
