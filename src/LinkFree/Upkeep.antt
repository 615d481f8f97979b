-- ===== src/LinkFree/Upkeep.antt =====
-- What the commands of LinkFree/LinkFreeList.h keep of all nodes at once: their metadata and the flags
-- in NVRAM.
use efficient_lock_free_dura.Common.{◌<◌, ◌≡◌, true, false, arith}
use efficient_lock_free_dura.LinkFree.Memory.{Ptr, Memory, write, with_node}
use efficient_lock_free_dura.LinkFree.Utilities.{is_valid}
use efficient_lock_free_dura.LinkFree.Utilities.Validity.{make_valid-lt}
use efficient_lock_free_dura.LinkFree.Commands.{
  after_flush_delete, after_make_valid, after_flush_insert, detached,
}

-- Metadata is a byte, and no node was flushed with its delete flag set.
abbrev pub Clean : Memory → Type 0
Clean m =
    (x : Ptr)
    → ((m.cached x).meta_data < 256)
      × ((m.durable x).meta_data < 256)
      × ((m.durable x).delete_flag ≡ false)

pub record Upkeep (m m' : Memory) : Type 0 where
  pub clean : Clean m → Clean m'
  pub valid :
      Clean m
      → (x : Ptr) → is_valid (m.cached x).meta_data ≡ true
      → is_valid (m'.cached x).meta_data ≡ true

pub Upkeep-refl : (m : Memory) → Upkeep m m
Upkeep-refl m = record { clean = λ c. c; valid = λ c x v. v }

pub Upkeep-trans : {m m' m'' : Memory} → Upkeep m m' → Upkeep m' m'' → Upkeep m m''
Upkeep-trans p q = record {
  clean = λ c. q.clean (p.clean c);
  valid = λ c x v. q.valid (p.clean c) x (p.valid c x v);
}

pub after_flush_delete-Upkeep : (m : Memory) (p : Ptr) → Upkeep m (after_flush_delete m p)
unfolding write
after_flush_delete-Upkeep m p = record {
  clean = λ c x. ground (arith, c x, c p);
  valid = λ c x v. ground arith;
}

pub detached-Upkeep : (m : Memory) (pred curr : Ptr) → Upkeep m (detached m pred curr)
unfolding write
detached-Upkeep m pred curr = record {
  clean = λ c x. ground (arith, c x, c pred);
  valid = λ c x v. ground arith;
}

pub after_make_valid-Upkeep : (m : Memory) (p : Ptr) → Upkeep m (after_make_valid m p)
unfolding write
after_make_valid-Upkeep m p = record {
  clean = λ c x. ground (arith, c x, make_valid-lt (m.cached p).meta_data (c p).0);
  valid = λ c x v. ground arith;
}

pub after_flush_insert-Upkeep :
    (m : Memory) (p : Ptr) → (m.cached p).delete_flag ≡ false → Upkeep m (after_flush_insert m p)
unfolding write
after_flush_insert-Upkeep m p unset = record {
  clean = λ c x. ground (arith, c x, c p);
  valid = λ c x v. ground arith;
}

-- Another link.
pub link-Upkeep :
    (m : Memory) (p : Ptr) (next : Ptr)
    → Upkeep m (with_node m p (record (m.cached p) { next = next }))
unfolding write
link-Upkeep m p next = record {
  clean = λ c x. ground (arith, c x, c p);
  valid = λ c x v. ground arith;
}
