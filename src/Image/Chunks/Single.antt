-- ===== src/Image/Chunks/Single.antt =====
-- minChunkBits of writer.go, and the one index that an entry marked as contiguous gets.
use native.Mathlib.Nat.{pow-le-pow_right, div-eq_of_lt-le, mod-eq_of_lt, mul-le-mul}
use go_erofs.Prelude.{
  ℕ, zero, suc, ◌+◌, ◌-◌, ◌*◌, ◌/◌, ◌%◌, ◌^◌, ◌≤◌, ◌<◌, ◌≡◌, ap, ltb, ◌&&◌, List, ◌∷◌, arith,
  Bool-cases, inl, inr,
}
use go_erofs.Image.{
  Chunk, ErofsEntry, ErofsWriter, entry_chunk_bits, entry_chunk_size, min_chunk_bits_loop,
  min_chunk_bits,
}
use go_erofs.Image.Chunks.{chunk_index, chunk_indexes_loop, write_chunk_indexes}

module _ (bs size : ℕ) (small : bs ≤ 2 ^ 16) where
  no_wrap : (bits : ℕ) → bits ≤ 31 → bs * 2 ^ bits % 2 ^ 64 ≡ bs * 2 ^ bits
  no_wrap bits h = mod-eq_of_lt (bound (2 ^ bits) (pow-le-pow_right (omega arith) h))
    where
      bound : (p : ℕ) → p ≤ 2 ^ 31 → bs * p < 2 ^ 64
      bound p k = omega (arith, mul-le-mul small k)

  min_chunk_bits_loop_covers :
      (fuel bits : ℕ)
      → bits + fuel ≡ 31
      → size ≤ bs * 2 ^ 31
      → (size ≤ bs * 2 ^ min_chunk_bits_loop fuel bs size bits)
        × (bits ≤ min_chunk_bits_loop fuel bs size bits)
        × (min_chunk_bits_loop fuel bs size bits ≤ 31)
  unfolding min_chunk_bits_loop
  min_chunk_bits_loop_covers zero bits e h =
      let b : bits ≡ 31 = omega arith in (rw b h, omega arith, omega arith)
  min_chunk_bits_loop_covers (suc fuel) bits e h =
      elim (Bool-cases (ltb (bs * 2 ^ bits % 2 ^ 64) size && ltb bits 31)) [
        | inl t ↦
            let (a, b, c) = min_chunk_bits_loop_covers fuel (bits + 1) (omega arith) h in
            rw (t, min_chunk_bits_loop) (a, omega arith, c)
        | inr f ↦
            rw (f, min_chunk_bits_loop)
              (ground (arith, no_wrap bits (omega arith)), omega arith, omega arith)
      ]

-- Where minChunkBits may go up to 31 bits, a chunk covers the file.
min_chunk_bits_covers :
    (w : ErofsWriter) (size : ℕ)
    → w.block_size ≤ 2 ^ 16
    → w.chunk_bits ≤ 31
    → size ≤ w.block_size * 2 ^ 31
    → (size ≤ w.block_size * 2 ^ min_chunk_bits w size) × (w.chunk_bits ≤ min_chunk_bits w size)
unfolding min_chunk_bits
min_chunk_bits_covers w size small cb h =
    let (a, b, c) =
      min_chunk_bits_loop_covers w.block_size size small (31 - w.chunk_bits) w.chunk_bits
        (omega arith) h in
    (a, b)

entry_chunk_size_contiguous :
    (w : ErofsWriter) (e : ErofsEntry)
    → e.chunk_bits ≡ min_chunk_bits w e.size
    → w.chunk_bits ≤ min_chunk_bits w e.size
    → entry_chunk_size w e ≡ w.block_size * 2 ^ min_chunk_bits w e.size
unfolding entry_chunk_size
entry_chunk_size_contiguous w e be le = ap (λ b. w.block_size * 2 ^ b) same
  where
    same : entry_chunk_bits w e ≡ min_chunk_bits w e.size
    same = unfold entry_chunk_bits in ground arith

one_index :
    (bpc : ℕ) (c : Chunk) (cs : List Chunk)
    → chunk_indexes_loop bpc 1 (c ∷ cs) 0 ≡ chunk_index c.device_id (c.physical_block % 2 ^ 64)
unfolding chunk_indexes_loop
one_index bpc c cs = let z : c.physical_block + 0 ≡ c.physical_block = omega arith in rw z

-- An entry that is not empty, has chunks, and has the chunk bits that planLayout gives to one that
-- is marked as contiguous gets one index, that of its first chunk, whatever its other chunks are,
-- if a block has at most 64 KiB, the writer's chunk bits are at most 31, and a chunk of 2^31
-- blocks can cover the file.
pub write_chunk_indexes_contiguous :
    (w : ErofsWriter) (e : ErofsEntry) (c : Chunk) (cs : List Chunk)
    → e.chunks ≡ c ∷ cs
    → e.chunk_bits ≡ min_chunk_bits w e.size
    → 0 < w.block_size
    → w.block_size ≤ 2 ^ 16
    → w.chunk_bits ≤ 31
    → 0 < e.size
    → e.size ≤ w.block_size * 2 ^ 31
    → write_chunk_indexes w e ≡ chunk_index c.device_id (c.physical_block % 2 ^ 64)
unfolding write_chunk_indexes
write_chunk_indexes_contiguous w e c cs ce be pos small cb some_size h =
    let (covers, le) = min_chunk_bits_covers w e.size small cb h in
    let cs_size = w.block_size * 2 ^ min_chunk_bits w e.size in
    let one_chunk : (e.size + cs_size - 1) / cs_size ≡ 1 =
      div-eq_of_lt-le cs_size (omega arith) (omega arith) in
    rw (entry_chunk_size_contiguous w e be le, one_chunk, ce)
      (one_index (cs_size / w.block_size) c cs)
