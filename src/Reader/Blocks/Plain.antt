-- ===== src/Reader/Blocks/Plain.antt =====
-- loadBlock of erofs.go on data that lies in consecutive blocks.
use native.Mathlib.Nat.{
  lt_of_mul-lt-mul_right, mul-le-mul_right, mul-div_left, div-add-mod', mod-lt, add-mul,
  mul-mod_left, one-le-pow,
}
use go_erofs.Prelude.{
  ℕ, zero, suc, ◌+◌, ◌-◌, ◌*◌, ◌/◌, ◌%◌, ◌^◌, ◌≤◌, ◌<◌, ◌==◌, ◌≡◌, ◌≢◌, refl, ap, ◌∙◌, ltb, leb,
  le→ltb, le→leb, true, false, ◌++◌, length, length-append, drop, arith, Bool-cases, inl, inr,
  drop-append_within, take-append_within, length-drop, drop-append_exact, drop-add,
}
use go_erofs.Prelude.Bytes.{Bytes, slice}
use go_erofs.Disk.{layout_flat_plain}
use go_erofs.Reader.{Image, Inode, ok, bytes_reader, block_size}
use go_erofs.Reader.Blocks.{calculate_blocks, block_end, read_bounded, load_plain, load_block}

-- Some bytes of the middle part of an image.
pub bytes_reader-slice :
    (pre d post : Bytes) (at n : ℕ)
    → at + n ≤ length d
    → bytes_reader (pre ++ (d ++ post)) (length pre + at) n ≡ ok (slice at (at + n) d)
unfolding bytes_reader
bytes_reader-slice pre d post at n h =
    let room : leb (length pre + at + n) (length (pre ++ (d ++ post))) ≡ true =
      le→leb (length pre + at + n) (length (pre ++ (d ++ post)))
        (omega (arith, length-append pre (d ++ post), length-append d post)) in
    let same : at + n - at ≡ n = omega arith in
    rw (
      room,
      drop-add (length pre) at (pre ++ (d ++ post)),
      drop-append_exact (length pre) pre (d ++ post) refl,
      drop-append_within at d post (omega arith),
      take-append_within n (drop at d) post (omega (arith, length-drop at d)),
      same,
    )

pub lt→leb : (a b : ℕ) → a < b → leb b a ≡ false
lt→leb a b h = ground arith

pred_mul : (q p : ℕ) → 0 < q * p → (q - 1) * p + p ≡ q * p
pred_mul zero p h = absurd (omega arith)
pred_mul (suc q) p h =
    let less : suc q - 1 ≡ q = omega arith in
    let more : suc q ≡ q + 1 = omega arith in rw (less, more, add-mul q 1 p) (omega arith)

-- Of `n` blocks of `p` bytes for `size` bytes, one before the last lies in the file, and the last
-- ends with it.
block_in_file :
    (n p size bn : ℕ)
    → size ≤ n * p
    → (n - 1) * p < size
    → bn * p < size
    → (bn < n) × (bn ≢ n - 1 → bn * p + p ≤ size) × (bn ≡ n - 1 → size ≤ bn * p + p)
block_in_file n p size bn cover least h =
    let inside : bn < n = lt_of_mul-lt-mul_right p (omega arith) in
    (
      inside,
      λ ne.
          omega (arith, mul-le-mul_right {m = bn + 1} {n = n - 1} p (omega arith), add-mul bn 1 p),
      λ e. omega (arith, pred_mul n p (omega arith), ap (λ b. b * p) e),
    )

-- The number of blocks is the least that covers the size.
pub calculate_blocks_bounds :
    (bits size : ℕ)
    → (size ≤ calculate_blocks bits size * 2 ^ bits)
      × (0 < size → (calculate_blocks bits size - 1) * 2 ^ bits < size)
unfolding calculate_blocks
calculate_blocks_bounds bits size =
    let q = size / 2 ^ bits in
    let parts = div-add-mod' size (2 ^ bits) in
    let small = mod-lt size (one-le-pow bits 2 (omega arith)) in
    elim (Bool-cases (ltb (q * 2 ^ bits) size)) [
      | inl b ↦
          let less : q + 1 - 1 ≡ q = omega arith in
          rw (b, add-mul q 1 (2 ^ bits), less) (omega arith, λ pos. ground arith)
      | inr b ↦ rw b (
        ground arith,
        λ pos. omega (arith, pred_mul q (2 ^ bits) (ground arith), one-le-pow bits 2 (omega arith)),
      )
    ]

module _ (img : Image) (fi : Inode) where
  -- The end of the block's bytes, counted from the file's start.
  abbrev pub end_of : ℕ → ℕ
  end_of bn = bn * block_size img + block_end img fi bn

  pub block_bounds :
      (bn : ℕ)
      → bn * block_size img < fi.size
      → (bn < calculate_blocks img.sb.blk_size_bits fi.size)
        × (0 < block_end img fi bn)
        × (block_end img fi bn ≤ block_size img)
        × (end_of bn ≤ fi.size)
  unfolding block_end block_size
  block_bounds bn h =
      let n = calculate_blocks img.sb.blk_size_bits fi.size in
      let p = 2 ^ img.sb.blk_size_bits in
      let (cover, least) = calculate_blocks_bounds img.sb.blk_size_bits fi.size in
      let (inside, before, last) = block_in_file n p fi.size bn cover (least (omega arith)) h in
      elim (Bool-cases (bn == n - 1)) [
        | inl b ↦
            let e : bn ≡ n - 1 = ground arith in
            rw b (inside, omega arith, omega (arith, last e), omega arith)
        | inr b ↦
            let ne : bn ≢ n - 1 = ground arith in
            rw b (
              inside,
              one-le-pow img.sb.blk_size_bits 2 (omega arith),
              omega arith,
              omega (arith, before ne),
            )
      ]

  load_block-load_plain :
      (bn : ℕ)
      → bn * block_size img / block_size img ≡ bn
      → bn < calculate_blocks img.sb.blk_size_bits fi.size
      → fi.inode_layout ≡ layout_flat_plain
      → load_block img fi (bn * block_size img)
        ≡ load_plain img fi (bn * block_size img) (block_end img fi bn)
  unfolding load_block
  load_block-load_plain bn index inside lay =
      rw (index, lt→leb bn (calculate_blocks img.sb.blk_size_bits fi.size) inside, lay)

  load_plain-ok :
      (bn end : ℕ) (b : Bytes)
      → bn * block_size img / block_size img ≡ bn
      → bn * block_size img % block_size img ≡ 0
      → 0 < end
      → end ≤ block_size img
      → img.meta ((fi.inode_data + bn) * block_size img) end ≡ ok b
      → load_plain img fi (bn * block_size img) end ≡ ok b
  unfolding load_plain read_bounded
  load_plain-ok bn end b index start pos fits read =
      let whole : end - 0 ≡ end = omega arith in
      let at : (fi.inode_data + bn) * block_size img + 0 ≡ (fi.inode_data + bn) * block_size img =
        omega arith in
      rw (index, start, le→ltb end (block_size img) fits, lt→leb 0 end pos, whole, at, read)

  -- A block of a file in consecutive blocks is the file's bytes from the block's start to its end or
  -- to the end of the file, whatever stands around them in the image.
  pub load_block_plain :
      (pre d post : Bytes) (bn : ℕ)
      → img.meta ≡ bytes_reader (pre ++ (d ++ post))
      → length pre ≡ fi.inode_data * block_size img
      → fi.inode_layout ≡ layout_flat_plain
      → length d ≡ fi.size
      → bn * block_size img < fi.size
      → load_block img fi (bn * block_size img) ≡ ok (slice (bn * block_size img) (end_of bn) d)
  load_block_plain pre d post bn dev at lay size h =
      let (inside, pos, fits, whole) = block_bounds bn h in
      let bs_pos : 0 < block_size img = omega arith in
      let index : bn * block_size img / block_size img ≡ bn = mul-div_left bn bs_pos in
      let start : bn * block_size img % block_size img ≡ 0 = mul-mod_left bn (block_size img) in
      let here : (fi.inode_data + bn) * block_size img ≡ length pre + bn * block_size img =
        rw at (add-mul fi.inode_data bn (block_size img)) in
      let read : img.meta (length pre + bn * block_size img) (block_end img fi bn)
          ≡ ok (slice (bn * block_size img) (end_of bn) d) =
        ap (λ r. r (length pre + bn * block_size img) (block_end img fi bn)) dev
        ∙ bytes_reader-slice pre d post (bn * block_size img) (block_end img fi bn) (omega arith) in
      load_block-load_plain bn index inside lay
      ∙ load_plain-ok bn (block_end img fi bn) (slice (bn * block_size img) (end_of bn) d) index
          start pos fits (rw here read)
