-- ===== src/Writer/Files/Chunks.antt =====
-- The chunks that closeDataFile of mkfs.go records.
use go_erofs.Prelude.{
  ℕ, zero, suc, ◌+◌, ◌-◌, ◌/◌, ◌%◌, ◌^◌, ◌≡◌, ◌≤◌, ◌<◌, refl, sym, ap, ltb, if◌then◌else◌, lt→ltb,
  ◌∙◌, [], ◌∷◌, ◌++◌, All, arith,
}
use go_erofs.Image.{Chunk}
use go_erofs.Image.Data.{blocks_for}
use go_erofs.Image.Chunks.Parse.{run, run-add, blocks_of}
use go_erofs.Writer.Files.{chunk_loop, data_file_chunks}

abbrev round : ℕ → ℕ
round total = if ltb 65535 total then 65535 else total

round_bounds :
    (total : ℕ) → 0 < total → (round total ≤ total) × (0 < round total) × (round total ≤ 65535)
round_bounds total h = ground arith

chunk_loop_end : (fuel start : ℕ) → chunk_loop fuel start 0 ≡ []
unfolding chunk_loop
chunk_loop_end zero start = refl
chunk_loop_end (suc fuel) start = refl

abbrev chunk_of : ℕ → ℕ → Chunk
chunk_of start total = record {
  physical_block = start;
  count = round total % 2 ^ 16;
  device_id = 1;
}

chunk_loop_next :
    (fuel start total : ℕ)
    → 0 < total
    → chunk_loop (suc fuel) start total
      ≡ chunk_of start total ∷ chunk_loop fuel (start + round total) (total - round total)
unfolding chunk_loop
chunk_loop_next fuel start total h = rw (lt→ltb 0 total h) refl

blocks_of-chunk_loop :
    (fuel start total : ℕ)
    → total ≤ fuel
    → blocks_of (chunk_loop fuel start total) ≡ run 1 start total
unfolding blocks_of run
blocks_of-chunk_loop fuel start zero h = rw (chunk_loop_end fuel start) refl
blocks_of-chunk_loop zero start (suc total) h = absurd (omega arith)
blocks_of-chunk_loop (suc fuel) start (suc t) h =
    let total = suc t in
    let b = round_bounds total (omega arith) in
    let whole : round total + (total - round total) ≡ total = omega (arith, b.0) in
    let fits : round total % 2 ^ 16 ≡ round total = omega (arith, b.2) in
    let rest =
      blocks_of-chunk_loop fuel (start + round total) (total - round total)
        (omega (arith, b.0, b.1)) in
    ap blocks_of (chunk_loop_next fuel start total (omega arith))
    ∙ ap (λ l. run 1 start (round total % 2 ^ 16) ++ l) rest
    ∙ ap (λ n. run 1 start n ++ run 1 (start + round total) (total - round total)) fits
    ∙ sym (run-add 1 start (round total) (total - round total))
    ∙ ap (λ n. run 1 start n) whole

abbrev pub IsStored : Chunk → Type 0
IsStored c = (c.device_id ≡ 1) × (0 < c.count) × (c.count ≤ 65535)

chunk_loop-IsStored : (fuel start total : ℕ) → All IsStored (chunk_loop fuel start total)
chunk_loop-IsStored fuel start zero = rw (chunk_loop_end fuel start) tt
chunk_loop-IsStored zero start (suc t) = unfold chunk_loop in tt
chunk_loop-IsStored (suc fuel) start (suc t) =
    let total = suc t in
    let b = round_bounds total (omega arith) in
    rw (chunk_loop_next fuel start total (omega arith)) (
      (refl, omega (arith, b.1, b.2), omega (arith, b.2)),
      chunk_loop-IsStored fuel (start + round total) (total - round total),
    )

-- The chunks that closeDataFile records for `written` bytes at the offset `off` of the data file map, in
-- order, the blocks from off / bs on that the bytes need, on device 1; each has between 1 and 65535
-- blocks, so that its count fits 16 bits, and the loop takes no more rounds than there are blocks.
pub data_file_chunks-IsStored :
    (bs off written : ℕ)
    → (blocks_of (data_file_chunks bs off written) ≡ run 1 (off / bs) (blocks_for bs written))
      × All IsStored (data_file_chunks bs off written)
unfolding data_file_chunks
data_file_chunks-IsStored bs off written = (
  blocks_of-chunk_loop (blocks_for bs written) (off / bs) (blocks_for bs written) (omega arith),
  chunk_loop-IsStored (blocks_for bs written) (off / bs) (blocks_for bs written),
)
