-- ===== src/LinkFree/Find/Quiet.antt =====
-- What a search leaves as it was: each object's key and metadata, what `recover` would make of it,
-- and that NVRAM agrees with the caches about that.
use efficient_lock_free_dura.Common.{◌≡◌, ◌≢◌, false, arith, ◌∙◌, refl}
use efficient_lock_free_dura.LinkFree.Memory.{Ptr, Memory, nullptr, write}
use efficient_lock_free_dura.LinkFree.Utilities.{is_marked, get_ref}
use efficient_lock_free_dura.LinkFree.Shape.{persisted}
use efficient_lock_free_dura.LinkFree.Upkeep.{
  Upkeep, Upkeep-refl, Upkeep-trans, after_flush_delete-Upkeep, detached-Upkeep,
}
use efficient_lock_free_dura.LinkFree.Commands.{after_flush_delete, detached}

-- NVRAM and the caches agree about the object.
abbrev pub Settled : Memory → Ptr → Type 0
Settled m x = persisted (m.durable x) ≡ persisted (m.cached x)

pub record Quiet (m m' : Memory) : Type 0 where
  pub key : (x : Ptr) → (m'.cached x).key ≡ (m.cached x).key
  pub meta_data : (x : Ptr) → (m'.cached x).meta_data ≡ (m.cached x).meta_data
  pub content : (x : Ptr) → persisted (m'.cached x) ≡ persisted (m.cached x)
  pub settled : (x : Ptr) → Settled m x → Settled m' x
  pub pool : m'.pool ≡ m.pool
  pub upkeep : Upkeep m m'

pub Quiet-refl : (m : Memory) → Quiet m m
Quiet-refl m = record {
  key = λ x. refl;
  meta_data = λ x. refl;
  content = λ x. refl;
  settled = λ x s. s;
  pool = refl;
  upkeep = Upkeep-refl m;
}

pub Quiet-trans : {m m' m'' : Memory} → Quiet m m' → Quiet m' m'' → Quiet m m''
Quiet-trans p q = record {
  key = λ x. q.key x ∙ p.key x;
  meta_data = λ x. q.meta_data x ∙ p.meta_data x;
  content = λ x. q.content x ∙ p.content x;
  settled = λ x s. q.settled x (p.settled x s);
  pool = q.pool ∙ p.pool;
  upkeep = Upkeep-trans p.upkeep q.upkeep;
}

pub after_flush_delete-Quiet : (m : Memory) (p : Ptr) → Quiet m (after_flush_delete m p)
unfolding write persisted
after_flush_delete-Quiet m p = record {
  key = λ x. ground arith;
  meta_data = λ x. ground arith;
  content = λ x. ground arith;
  settled = λ x s. ground arith;
  pool = ground arith;
  upkeep = after_flush_delete-Upkeep m p;
}

-- The link goes from one successor to another: neither is null nor marked.
pub detached-Quiet :
    (m : Memory) (pred curr : Ptr)
    → (m.cached pred).next ≢ nullptr
    → is_marked (m.cached pred).next ≡ false
    → get_ref (m.cached curr).next ≢ nullptr
    → is_marked (get_ref (m.cached curr).next) ≡ false
    → Quiet m (detached m pred curr)
unfolding write persisted
detached-Quiet m pred curr old old_clean new new_clean = record {
  key = λ x. ground arith;
  meta_data = λ x. ground arith;
  content = λ x. ground arith;
  settled = λ x s. ground arith;
  pool = refl;
  upkeep = detached-Upkeep m pred curr;
}
