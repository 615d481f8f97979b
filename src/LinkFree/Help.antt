-- ===== src/LinkFree/Help.antt =====
-- `makeValid` and `FLUSH_INSERT`, one after the other: what `insert` and `contains` do to a node with
-- the key before they return, whoever inserted it.
use efficient_lock_free_dura.Common.{
  ◌<◌, ◌≡◌, ◌≢◌, ◌∙◌, sym, ap, subst, some-eq, refl, true, false, some, List, Bool-cases, inl, inr,
  arith,
}
use efficient_lock_free_dura.Common.Prog.{run-bind, ◌>>◌}
use efficient_lock_free_dura.LinkFree.Memory.{
  Ptr, nullptr, Key, Node, Memory, is_wild, write, exec, perform, Cmd,
}
use efficient_lock_free_dura.LinkFree.Utilities.{is_valid, is_marked, make_valid}
use efficient_lock_free_dura.LinkFree.Utilities.Validity.{is_valid-make_valid, make_valid-lt}
use efficient_lock_free_dura.LinkFree.List.{make_valid_of, flush_insert, set_meta_data}
use efficient_lock_free_dura.LinkFree.Shape.{Cell, Holds, Keeps, persisted}
use efficient_lock_free_dura.LinkFree.Commands.{
  after_make_valid, after_flush_insert, make_valid_lem, flush_insert_lem,
}
use efficient_lock_free_dura.LinkFree.Find.Quiet.{Settled}
use efficient_lock_free_dura.LinkFree.Upkeep.{
  Upkeep, Upkeep-trans, after_make_valid-Upkeep, after_flush_insert-Upkeep,
}
use efficient_lock_free_dura.LinkFree.Find.Step.{At, At-touch}
use efficient_lock_free_dura.LinkFree.Cells.{lists}
use efficient_lock_free_dura.LinkFree.Invariant.{IsList}
use native.Mathlib.Decide.{ℕ_discrete}

abbrev pub helped : Memory → Ptr → Memory
helped m p = after_flush_insert (after_make_valid m p) p

pub helped_lem :
    {A : Type 0} (m : Memory) (p : Ptr) (rest : Cmd A)
    → is_wild p ≡ false
    → exec (make_valid_of p >> (flush_insert p >> rest)) m ≡ exec rest (helped m p)
helped_lem m p rest sound =
    run-bind perform (make_valid_of p) (λ _. flush_insert p >> rest) m
    ∙ rw (make_valid_lem m p sound) (
        run-bind perform (flush_insert p) (λ _. rest) (after_make_valid m p)
        ∙ rw (flush_insert_lem (after_make_valid m p) p sound))

set_meta_data-Keeps :
    (n : Node) → n.meta_data < 256 → Keeps n (set_meta_data (make_valid n.meta_data) n)
set_meta_data-Keeps n byte = record {
  key = refl;
  next = refl;
  byte = λ b. make_valid-lt n.meta_data byte;
  valid = λ v. is_valid-make_valid n.meta_data byte;
  flag = λ live f. f;
  inserted = λ h set. is_valid-make_valid n.meta_data byte;
}

set_insert_flag-Keeps :
    (n : Node) → is_valid n.meta_data ≡ true → Keeps n (record n { insert_flag = true })
set_insert_flag-Keeps n valid = record {
  key = refl;
  next = refl;
  byte = λ b. b;
  valid = λ v. v;
  flag = λ live f. f;
  inserted = λ h set. valid;
}

module _ (m : Memory) (p : Ptr) (byte : (m.cached p).meta_data < 256) where
  pub after_make_valid-valid : is_valid ((after_make_valid m p).cached p).meta_data ≡ true
  unfolding write
  after_make_valid-valid = ground (arith, is_valid-make_valid (m.cached p).meta_data byte)

  pub after_make_valid-At :
      {tail curr : Ptr} {q : Cell} {cs : List Cell}
      → At m.cached tail q curr cs
      → At (after_make_valid m p).cached tail q curr cs
  after_make_valid-At here = elim (Bool-cases (is_valid (m.cached p).meta_data)) [
    | inl v ↦ rw v here
    | inr v ↦ simp v (At-touch p _ (set_meta_data-Keeps (m.cached p) byte) here)
  ]

  pub helped-At :
      {tail curr : Ptr} {q : Cell} {cs : List Cell}
      → At m.cached tail q curr cs
      → At (helped m p).cached tail q curr cs
  helped-At here =
      let m' = after_make_valid m p in
      elim (Bool-cases (m'.cached p).insert_flag) [
        | inl set ↦ rw set (after_make_valid-At here)
        | inr unset ↦ simp unset (
            At-touch p _ (set_insert_flag-Keeps (m'.cached p) after_make_valid-valid)
              (after_make_valid-At here))
      ]

  -- The node is in NVRAM as it is in the caches, and valid in both.
  pub helped-Settled :
      ((m.cached p).insert_flag ≡ true → is_valid (m.cached p).meta_data ≡ true)
      → Settled m p
      → Settled (helped m p) p
  unfolding write persisted
  helped-Settled inserted settled = ground (arith, inserted)

  pub helped-persisted :
      is_marked (m.cached p).next ≡ false
      → (m.cached p).next ≢ nullptr
      → persisted ((helped m p).cached p) ≡ some (m.cached p).key
  unfolding write persisted
  helped-persisted live linked = ground (arith, is_valid-make_valid (m.cached p).meta_data byte)

module _ (m : Memory) (p x : Ptr) (ne : x ≢ p) where
  pub helped_ne : ((helped m p).cached x ≡ m.cached x) × ((helped m p).durable x ≡ m.durable x)
  unfolding write
  helped_ne = ground arith

pub helped-Upkeep :
    (m : Memory) (p : Ptr) → (m.cached p).delete_flag ≡ false → Upkeep m (helped m p)
unfolding write
helped-Upkeep m p unset =
    Upkeep-trans (after_make_valid-Upkeep m p)
      (after_flush_insert-Upkeep (after_make_valid m p) p (ground arith))

pub helped-pool : (m : Memory) (p : Ptr) → (helped m p).pool ≡ m.pool
helped-pool m p = ground arith

pub helped-freed : (m : Memory) (p : Ptr) → (helped m p).freed ≡ m.freed
helped-freed m p = ground arith

-- A node that was never flushed is flushed.
pub helped-Settled_unflushed :
    (m : Memory) (p : Ptr) → (m.cached p).insert_flag ≡ false → Settled (helped m p) p
unfolding write persisted
helped-Settled_unflushed m p fresh = ground arith

-- Help for an unmarked node of the list leaves a list with the same cells.
pub helped-IsList :
    {m : Memory} {head tail : Ptr} {cs : List Cell} (x : Ptr)
    → IsList m head tail cs
    → x ≢ head
    → Holds m.cached (record { ptr = x; key = (m.cached x).key; marked = false })
    → (m.cached x).next ≢ nullptr
    → lists x (m.cached x).key cs ≡ true
    → IsList (helped m x) head tail cs
helped-IsList {m} {head} {tail} {cs} x is ne held linked member = record {
  here =
      rw (ap (λ n. n.next) (helped_ne m x head (λ e. ne (sym e))).0)
        (helped-At m x held.byte is.here);
  settled = λ y ne_y. elim (ℕ_discrete y x) [
    | yes e ↦ rw e (helped-Settled m x held.byte held.inserted (is.settled x ne))
    | no far ↦ rw (helped_ne m x y far).0 (rw (helped_ne m x y far).1 (is.settled y ne_y))
  ];
  owned = λ y k ne_y p. elim (ℕ_discrete y x) [
    | yes e ↦
        let same : some (m.cached x).key ≡ some k =
          sym (helped-persisted m x held.byte held.mark_eq linked) ∙ (rw e at p) in
        subst (λ z. lists y z cs ≡ true) (some-eq same) (rw e member)
    | no far ↦ is.owned y k ne_y (rw (helped_ne m x y far).0 at p)
  ];
}

-- NVRAM carries the key of the node that was helped.
pub helped_durable :
    (m : Memory) (x : Ptr) (key : Key)
    → Holds m.cached (record { ptr = x; key = key; marked = false })
    → (m.cached x).next ≢ nullptr
    → Settled m x
    → persisted ((helped m x).durable x) ≡ some key
helped_durable m x key held linked settled =
    helped-Settled m x held.byte held.inserted settled
    ∙ helped-persisted m x held.byte held.mark_eq linked
    ∙ ap some held.key_eq
