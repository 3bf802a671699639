-- ===== src/Image/Rounding.antt =====
-- Rounding up to a block size or to 32 bytes, and the padding that makes up for it.
use native.Mathlib.Nat.{div-eq_of_lt-le, div-add-mod', mod-lt, mul-mod_left}
use go_erofs.Prelude.{ℕ, ◌+◌, ◌-◌, ◌/◌, ◌%◌, ◌==◌, ◌≤◌, ◌<◌, ◌≡◌, ◌≢◌, arith, Bool-cases, inl, inr}
use go_erofs.Image.{align_up, padded}

module _ (a x : ℕ) (pos : 0 < a) where
  quotient_up : x % a ≢ 0 → (x + a - 1) / a ≡ x / a + 1
  quotient_up h =
      div-eq_of_lt-le a (omega (arith, div-add-mod' x a, mod-lt x pos))
        (omega (arith, div-add-mod' x a, mod-lt x pos))

  quotient_up_exact : x % a ≡ 0 → (x + a - 1) / a ≡ x / a
  quotient_up_exact h =
      div-eq_of_lt-le a (omega (arith, div-add-mod' x a, mod-lt x pos))
        (omega (arith, div-add-mod' x a, mod-lt x pos))

  -- Padding by the missing bytes is rounding up.
  pub add_padding : x % a ≢ 0 → x + (a - x % a) ≡ align_up a x
  add_padding h = rw (quotient_up h) (omega (arith, div-add-mod' x a, mod-lt x pos))

  pub align_up_exact : x % a ≡ 0 → align_up a x ≡ x
  align_up_exact h = rw (quotient_up_exact h) (omega (arith, div-add-mod' x a))

  pub le-align_up : x ≤ align_up a x
  le-align_up = elim (Bool-cases (x % a == 0)) [
    | inl e ↦ omega (arith, align_up_exact (ground arith))
    | inr e ↦ omega (arith, add_padding (ground arith))
  ]

  pub align_up-lt : align_up a x < x + a
  align_up-lt = elim (Bool-cases (x % a == 0)) [
    | inl e ↦ omega (arith, align_up_exact (ground arith))
    | inr e ↦ omega (arith, add_padding (ground arith), mod-lt x pos)
  ]

  pub align_up-mod : align_up a x % a ≡ 0
  align_up-mod = mul-mod_left ((x + a - 1) / a) a

pub padded_bounds : (x : ℕ) → (x ≤ padded x) × (padded x < x + 32) × (padded x % 32 ≡ 0)
padded_bounds x = ground arith

-- The padding that writeMetadataInodes adds.
pub padded-add : (x : ℕ) → x % 32 ≢ 0 → padded x ≡ x + (32 - x % 32)
padded-add x h = ground arith
