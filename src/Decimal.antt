-- ===== src/Decimal.antt =====
-- `Amount` of libs/symm-core/src/core/bits.rs is `rust_decimal::Decimal`, whose value is an
-- integer multiple of 10^-28: it stands for that integer. The checked operations of the crate are a
-- parameter, an instance; `safe!` of proc-macros/safe-math/src/lib.rs expands to calls of them.
use index_maker.Prelude.{ltb, if◌then◌else◌, ℕ, ◌^◌, ◌≡◌, ◌&&◌, Option, none, some, arith}
use index_maker.Prelude.Int.{ℤ, pos, pos_part, neg_part, ◌+ℤ◌, ◌-ℤ◌, -ℤ◌}

abbrev pub Amount : Type 0
Amount = ℤ

-- `Amount::ZERO`
abbrev pub zero_amount : Amount
zero_amount = pos 0

pub record Decimal : Type 0 where
  pub checked_add : Amount → Amount → Option Amount
  pub checked_sub : Amount → Amount → Option Amount
  pub checked_mul : Amount → Amount → Option Amount
  pub checked_div : Amount → Amount → Option Amount

-- What the crate documents of sums and differences that do not overflow, for amounts whose
-- result needs no rounding.
pub record IsExact (d : Decimal) : Type 0 where
  pub add_exact : (a b c : Amount) → d.checked_add a b ≡ some c → c ≡ a +ℤ b
  pub sub_exact : (a b c : Amount) → d.checked_sub a b ≡ some c → c ≡ a -ℤ b

module _ ⦃d : Decimal⦄ where
  abbrev pub safe_add : Amount → Amount → Option Amount
  safe_add a b = d.checked_add a b

  abbrev pub safe_sub : Amount → Amount → Option Amount
  safe_sub a b = d.checked_sub a b

  abbrev pub safe_mul : Amount → Amount → Option Amount
  safe_mul a b = d.checked_mul a b

  abbrev pub safe_div : Amount → Amount → Option Amount
  safe_div a b = d.checked_div a b

  -- `safe!(left += right)` on an optional amount: the new value, and `none` on an overflow, which
  -- leaves the old value.
  abbrev pub safe_add_assign : Option Amount → Amount → Option Amount
  safe_add_assign none b = some b
  safe_add_assign (some a) b = safe_add a b

-- The largest magnitude that the 96 bits of a decimal hold.
abbrev largest : ℕ
largest = 2 ^ 96

unfoldable pub bounded : ℤ → Option ℤ
bounded a = if ltb (pos_part a) largest && ltb (neg_part a) largest then some a else none

bounded-eq : (a c : ℤ) → bounded a ≡ some c → c ≡ a
unfolding bounded
bounded-eq a c h = ground arith

-- Amounts of one scale, as a concrete instance for tests: sums and differences are exact or
-- overflow, products and quotients are not used.
unfoldable pub fixed_scale : Decimal
fixed_scale = record {
  checked_add = λ a b. bounded (a +ℤ b);
  checked_sub = λ a b. bounded (a -ℤ b);
  checked_mul = λ a b. none;
  checked_div = λ a b. none;
}

pub fixed_scale-IsExact : IsExact fixed_scale
unfolding fixed_scale bounded ◌+ℤ◌ ◌-ℤ◌
fixed_scale-IsExact = record {
  add_exact = λ a b c h. bounded-eq (a +ℤ b) c h;
  sub_exact = λ a b c h. bounded-eq (a -ℤ b) c h;
}
