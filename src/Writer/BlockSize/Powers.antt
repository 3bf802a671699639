-- ===== src/Writer/BlockSize/Powers.antt =====
-- The block sizes that setBlockSize of mkfs.go accepts.
use go_erofs.Prelude.{
  ℕ, zero, suc, ◌/◌, ◌%◌, ◌^◌, ◌==◌, ◌≡◌, ◌≤◌, ◌<◌, refl, ap, ◌∙◌, Bool-cases, inl, inr, ◌-◌, ltb,
  if◌then◌else◌, Bool, true, false, not, ◌||◌, arith,
}
use native.Mathlib.Nat.{pow-suc, pow-le-pow_right}
use go_erofs.Image.Plan.Placement.{IsBlockSize}
use go_erofs.Writer.{
  Failure, block_size_range, block_size_power, block_size_conflict, Reply, failed, done, Writer,
}
use go_erofs.Writer.BlockSize.{ones_count, set_block_size}

no_ones : (fuel n : ℕ) → n < 2 ^ fuel → ones_count fuel n ≡ 0 → n ≡ 0
unfolding ones_count
no_ones zero n b h = omega arith
no_ones (suc fuel) n b h =
    omega (arith, no_ones fuel (n / 2) (omega (arith, pow-suc 2 fuel)) (omega arith))

-- A number with one binary digit set is a power of two.
one_one : (fuel n : ℕ) → n < 2 ^ fuel → ones_count fuel n ≡ 1 → (k : ℕ) × (n ≡ 2 ^ k)
unfolding ones_count
one_one zero n b h = absurd (omega arith)
one_one (suc fuel) n b h =
    let half : n / 2 < 2 ^ fuel = omega (arith, pow-suc 2 fuel) in
    elim (Bool-cases (n % 2 == 0)) [
      | inl e ↦
          let even : n % 2 ≡ 0 = ground arith in
          let (k, p) = one_one fuel (n / 2) half (omega arith) in
          (suc k, omega (arith, pow-suc 2 k))
      | inr e ↦
          let odd : n % 2 ≡ 1 = ground arith in
          (0, omega (arith, no_ones fuel (n / 2) half (omega arith)))
    ]

-- A block size from 512 to 65536 that is a power of two.
pub record IsPower (n : ℕ) : Type 0 where
  pub exponent : ℕ
  pub power : n ≡ 2 ^ exponent
  pub min : 9 ≤ exponent
  pub max : exponent ≤ 16

power_bounds : (n k : ℕ) → n ≡ 2 ^ k → 512 ≤ n → n ≤ 65536 → (9 ≤ k) × (k ≤ 16)
power_bounds n k e lo hi = (
  elim (Bool-cases (ltb k 9)) [
    | inl h ↦
        absurd
          (omega (arith, pow-le-pow_right {n = 2} (omega arith) {i = k} {j = 8} (ground arith)))
    | inr h ↦ ground arith
  ],
  elim (Bool-cases (ltb 16 k)) [
    | inl h ↦
        absurd
          (omega (arith, pow-le-pow_right {n = 2} (omega arith) {i = 17} {j = k} (ground arith)))
    | inr h ↦ ground arith
  ],
)

counted-IsPower : (n : ℕ) → 512 ≤ n → n ≤ 65536 → ones_count 64 n ≡ 1 → IsPower n
counted-IsPower n lo hi h =
    let (k, e) = one_one 64 n (omega arith) h in
    let b = power_bounds n k e lo hi in record { exponent = k; power = e; min = b.0; max = b.1 }

-- What follows from a test having let a call pass.
passed :
    (b : Bool) (f : Failure) (w : Writer) (next : Reply (Unit {0}) × Writer)
    → (if b then (failed f, w) else next).0 ≡ done tt
    → (b ≡ false) × (next.0 ≡ done tt) × ((if b then (failed f, w) else next) ≡ next)
passed true f w next h = cc
passed false f w next h = (refl, h, refl)

set_once : ℕ → Writer → Reply (Unit {0}) × Writer
set_once n w =
    if w.block_size == 0
    then (done tt, record w { block_size = n })
    else if not (w.block_size == n)
    then (failed block_size_conflict, w)
    else (done tt, w)

set_once_taken : (n : ℕ) (w : Writer) → (set_once n w).0 ≡ done tt → (set_once n w).1.block_size ≡ n
unfolding set_once
set_once_taken n w h = ground arith

accepted :
    (n : ℕ) (w : Writer)
    → (set_block_size n w).0 ≡ done tt
    → (512 ≤ n) × (n ≤ 65536) × (ones_count 64 n ≡ 1) × ((set_block_size n w).1.block_size ≡ n)
unfolding set_block_size set_once
accepted n w h =
    let sized = not (ones_count 64 n == 1) in
    let rest = if sized then (failed block_size_power, w) else set_once n w in
    let a = passed (ltb n 512 || ltb 65536 n) block_size_range w rest h in
    let b = passed sized block_size_power w (set_once n w) a.1 in
    let e = a.0 in
    let f = b.0 in
    (
      ground arith,
      ground arith,
      ground arith,
      ap (λ x. x.1.block_size) (a.2 ∙ b.2) ∙ set_once_taken n w b.1,
    )

-- If setBlockSize returns no error, the Writer has the block size that was asked for, and that is a
-- power of two from 512 to 65536.
pub set_block_size-IsPower :
    (n : ℕ) (w : Writer)
    → (set_block_size n w).0 ≡ done tt
    → IsPower n × ((set_block_size n w).1.block_size ≡ n)
set_block_size-IsPower n w h = let a = accepted n w h in (counted-IsPower n a.0 a.1 a.2, a.3)

pub power-IsBlockSize : (n : ℕ) → IsPower n → IsBlockSize n
power-IsBlockSize n h = record {
  units = 2 ^ (h.exponent - 5);
  in_units =
      let k = h.exponent - 5 in
      let e : h.exponent ≡ suc (suc (suc (suc (suc k)))) = omega (arith, h.min) in
      omega (
        arith,
        h.power,
        ap (λ x. 2 ^ x) e,
        pow-suc 2 k,
        pow-suc 2 (suc k),
        pow-suc 2 (suc (suc k)),
        pow-suc 2 (suc (suc (suc k))),
        pow-suc 2 (suc (suc (suc (suc k)))),
      );
  min =
      omega (arith, h.power, pow-le-pow_right {n = 2} (omega arith) {i = 9} {j = h.exponent} h.min);
}
