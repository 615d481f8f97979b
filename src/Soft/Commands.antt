-- ===== src/Soft/Commands.antt =====
-- What each short command of SOFT/PNode.h and SOFT/SOFTList.h leaves in memory, run by one thread.
use efficient_lock_free_dura.Common.{
  ℕ, ◌≡◌, ◌≢◌, refl, fun_ext, Bool, true, false, not, List, ◌∷◌, arith,
}
use efficient_lock_free_dura.Common.Prog.{done, atomic}
use efficient_lock_free_dura.Soft.Memory.{
  Ptr, Key, PNode, Memory, write, is_wild, exec, perform, load, store, cas_next, alloc_pnode, Node,
}
use efficient_lock_free_dura.Soft.PersistentNode.{alloc, create, destroy}
use efficient_lock_free_dura.Soft.List.{load_next, load_key}

module _ {A : Type 0} (f : Ptr → A) (p : Ptr) (a : A) where
  pub write_self : write f p a p ≡ a
  unfolding write
  write_self = ground arith

  pub write_ne : (q : Ptr) → q ≢ p → write f p a q ≡ f q
  unfolding write
  write_ne q h = ground arith

pub write-write :
    {A : Type 0} (f : Ptr → A) (p : Ptr) (a b : A) → write (write f p a) p b ≡ write f p b
unfolding write
write-write f p a b = fun_ext λ q. ground arith

-- A persistent node with this content, in the cache and in NVRAM.
abbrev pub with_pnode : Memory → Ptr → PNode → Memory
with_pnode m p n = record m { cached = write m.cached p n; durable = write m.durable p n }

-- The content of a persistent node after each store of `create`.
abbrev pub started : PNode → Bool → PNode
started n validity = record n { valid_start = validity }

abbrev pub keyed : PNode → Bool → Key → PNode
keyed n validity key = record (started n validity) { key = key }

abbrev pub filled : PNode → Bool → Key → ℕ → PNode
filled n validity key value = record (keyed n validity key) { value = value }

abbrev pub created : PNode → Bool → Key → ℕ → PNode
created n validity key value = record (filled n validity key value) { valid_end = validity }

abbrev pub destroyed : PNode → Bool → PNode
destroyed n validity = record n { deleted = validity }

module _ (m : Memory) (p : Ptr) (sound : is_wild p ≡ false) where
  pub alloc_lem : exec (alloc p) m ≡ done (not (m.cached p).valid_start) m
  unfolding alloc perform
  alloc_lem = ground arith

  pub create_lem :
      (key : Key) (value : ℕ) (validity : Bool)
      → exec (create p key value validity) m
        ≡ done tt (with_pnode m p (created (m.cached p) validity key value))
  unfolding create perform
  create_lem key value validity = simp (sound, write_self, write-write)

  pub destroy_lem :
      (validity : Bool)
      → exec (destroy p validity) m ≡ done tt (with_pnode m p (destroyed (m.cached p) validity))
  unfolding destroy perform
  destroy_lem validity = simp (sound, write_self)

  pub load_next_lem : exec (load_next p) m ≡ done (m.nodes p).next m
  unfolding load_next perform
  load_next_lem = ground arith

  pub load_key_lem : exec (load_key p) m ≡ done (m.nodes p).key m
  unfolding load_key perform
  load_key_lem = ground arith

  pub load_lem : exec (atomic (load p)) m ≡ done (m.nodes p) m
  unfolding perform
  load_lem = ground arith

  pub store_lem :
      (f : Node → Node)
      → exec (atomic (store p f)) m ≡ done tt (record m { nodes = write m.nodes p (f (m.nodes p)) })
  unfolding perform
  store_lem f = ground arith

  pub cas_next_lem :
      (expected desired : Ptr)
      → (m.nodes p).next ≡ expected
      → exec (atomic (cas_next p expected desired)) m
        ≡ done true (record m { nodes = write m.nodes p (record (m.nodes p) { next = desired }) })
  unfolding perform
  cas_next_lem expected desired e = ground arith

pub alloc_pnode_lem :
    (m : Memory) (p : Ptr) (rest : List Ptr)
    → m.pnode_pool ≡ p ∷ rest
    → exec (atomic alloc_pnode) m ≡ done p (record m { pnode_pool = rest })
unfolding perform
alloc_pnode_lem m p rest e = rw e refl
