-- ===== src/LinkFree/Utilities/Validity.antt =====
-- What `flipV1`, `makeValid` and `isValid` of LinkFree/utilities.h do to each other.
use efficient_lock_free_dura.Common.{
  ℕ, ◌<◌, ◌≡◌, refl, Bool, true, false, bit_and, ltb, ◌==◌, ==_iff, if◌then◌else◌, holds_below,
  holds_below-at, arith,
}
use efficient_lock_free_dura.LinkFree.Utilities.{flip_v1, is_valid, make_valid}

-- A test that holds of each byte by evaluation holds of a byte.
module _ (b : ℕ) (byte : b < 256) where
  of_table : (test : ℕ → Bool) → holds_below 256 test ≡ true → test b ≡ true
  of_table test table = holds_below-at 256 test b table byte

  pub is_valid-make_valid : is_valid (make_valid b) ≡ true
  is_valid-make_valid = of_table (λ x. is_valid (make_valid x)) table
    where
      table : holds_below 256 (λ x. is_valid (make_valid x)) ≡ true
      table = unfold is_valid make_valid holds_below in refl

  pub make_valid-lt : make_valid b < 256
  make_valid-lt = ground (arith, of_table (λ x. ltb (make_valid x) 256) table)
    where
      table : holds_below 256 (λ x. ltb (make_valid x) 256) ≡ true
      table = unfold make_valid holds_below in refl

  pub flip_v1-lt : flip_v1 b < 256
  flip_v1-lt = ground (arith, of_table (λ x. ltb (flip_v1 x) 256) table)
    where
      table : holds_below 256 (λ x. ltb (flip_v1 x) 256) ≡ true
      table = unfold flip_v1 holds_below in refl

  pub is_valid-flip_v1 : is_valid b ≡ true → is_valid (flip_v1 b) ≡ false
  is_valid-flip_v1 h = ground (
    arith,
    of_table (λ x. if is_valid x then (if is_valid (flip_v1 x) then false else true) else true)
        table,
  )
    where
      table :
          holds_below 256
            (λ x. if is_valid x then (if is_valid (flip_v1 x) then false else true) else true)
          ≡ true
      table = unfold is_valid flip_v1 holds_below in refl

  make_valid-v1 : bit_and (make_valid b) 0x80 ≡ bit_and b 0x80
  make_valid-v1 =
      (==_iff _ _).0 (of_table (λ x. bit_and (make_valid x) 0x80 == bit_and x 0x80) table)
    where
      table : holds_below 256 (λ x. bit_and (make_valid x) 0x80 == bit_and x 0x80) ≡ true
      table = unfold make_valid holds_below in refl

  make_valid-rest : bit_and (make_valid (flip_v1 b)) 0x7e ≡ bit_and b 0x7e
  make_valid-rest =
      (==_iff _ _).0 (of_table (λ x. bit_and (make_valid (flip_v1 x)) 0x7e == bit_and x 0x7e) table)
    where
      table : holds_below 256 (λ x. bit_and (make_valid (flip_v1 x)) 0x7e == bit_and x 0x7e) ≡ true
      table = unfold make_valid flip_v1 holds_below in refl

  flip_v1-rest : bit_and (flip_v1 b) 0x7f ≡ bit_and b 0x7f
  flip_v1-rest = (==_iff _ _).0 (of_table (λ x. bit_and (flip_v1 x) 0x7f == bit_and x 0x7f) table)
    where
      table : holds_below 256 (λ x. bit_and (flip_v1 x) 0x7f == bit_and x 0x7f) ≡ true
      table = unfold flip_v1 holds_below in refl

-- For each byte of metadata that is valid: `flipV1` makes it invalid, and changes no bit but v1;
-- `makeValid` then makes it valid again, keeps v1, and leaves the bits other than v1 and v2 as they
-- were at the start.
pub validity_cycle :
    (b : ℕ)
    → b < 256
    → is_valid b ≡ true
    → (is_valid (flip_v1 b) ≡ false)
      × (is_valid (make_valid (flip_v1 b)) ≡ true)
      × (bit_and (flip_v1 b) 0x7f ≡ bit_and b 0x7f)
      × (bit_and (make_valid (flip_v1 b)) 0x80 ≡ bit_and (flip_v1 b) 0x80)
      × (bit_and (make_valid (flip_v1 b)) 0x7e ≡ bit_and b 0x7e)
validity_cycle b byte valid = (
  is_valid-flip_v1 b byte valid,
  is_valid-make_valid (flip_v1 b) (flip_v1-lt b byte),
  flip_v1-rest b byte,
  make_valid-v1 (flip_v1 b) (flip_v1-lt b byte),
  make_valid-rest b byte,
)
