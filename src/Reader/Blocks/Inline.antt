-- ===== src/Reader/Blocks/Inline.antt =====
-- loadBlock of erofs.go on data that lies behind its inode.
use native.Mathlib.Nat.{lt_of_mul-lt-mul_right, zero-div, div-add-mod'}
use go_erofs.Prelude.{
  ℕ, ◌+◌, ◌-◌, ◌*◌, ◌/◌, ◌%◌, ◌^◌, ◌≤◌, ◌<◌, ◌≡◌, ◌≢◌, ap, ◌∙◌, le→ltb, ◌++◌, length, take-all,
  arith,
}
use go_erofs.Prelude.Bytes.{Bytes}
use go_erofs.Disk.{layout_flat_inline, size_inode_compact}
use go_erofs.Reader.{Image, Inode, ok, bytes_reader, block_size, flat_data_offset, meta_start_pos}
use go_erofs.Reader.Blocks.{calculate_blocks, load_block, load_inline_tail, read_bounded}
use go_erofs.Reader.Blocks.Plain.{bytes_reader-slice, calculate_blocks_bounds, lt→leb}

pub one_block : (bits size : ℕ) → 0 < size → size ≤ 2 ^ bits → calculate_blocks bits size ≡ 1
one_block bits size pos small =
    let (cover, least) = calculate_blocks_bounds bits size in
    let n = calculate_blocks bits size in
    let few : n - 1 < 1 =
      lt_of_mul-lt-mul_right (2 ^ bits) {m = n - 1} {n = 1} (omega (arith, least pos)) in
    let some_block : n ≢ 0 = λ z. absurd (omega (arith, ap (λ k. k * 2 ^ bits) z)) in omega arith

-- Where the data of an inode with inline data is.
abbrev pub inline_at : Image → Inode → ℕ
inline_at img fi = meta_start_pos img + fi.nid * size_inode_compact + flat_data_offset fi

module _ (img : Image) (fi : Inode) (pre d post : Bytes)
    (dev : img.meta ≡ bytes_reader (pre ++ (d ++ post))) (at : length pre ≡ inline_at img fi)
    (size : length d ≡ fi.size) (pos : 0 < fi.size)
    (fits : inline_at img fi % block_size img + fi.size ≤ block_size img) where
  abbrev in_block : ℕ
  in_block = inline_at img fi % block_size img

  in_one_block : fi.size ≤ 2 ^ img.sb.blk_size_bits
  in_one_block = let e : fi.size ≤ block_size img = omega arith in unfold block_size in e

  read_inline : img.meta (inline_at img fi) fi.size ≡ ok d
  read_inline =
      let start : length pre + 0 ≡ inline_at img fi = omega arith in
      let whole : 0 + length d - 0 ≡ length d = omega arith in
      ap (λ r. r (inline_at img fi) fi.size) dev
      ∙ rw (← start, ← size)
          (bytes_reader-slice pre d post 0 (length d) (omega arith)
            ∙ rw whole (ap ok (take-all (length d) d (omega arith))))

  tail-ok : load_inline_tail img fi 0 ≡ ok d
  unfolding load_inline_tail read_bounded
  tail-ok =
      let first : 0 / block_size img ≡ 0 = zero-div (block_size img) in
      let none_before : 0 * block_size img ≡ 0 = omega arith in
      let all : fi.size - 0 + in_block ≡ fi.size + in_block = omega arith in
      let here : in_block + 0 ≡ in_block = omega arith in
      let count : fi.size + in_block - in_block ≡ fi.size = omega arith in
      let whole : inline_at img fi - in_block + in_block ≡ inline_at img fi =
        omega (arith, div-add-mod' (inline_at img fi) (block_size img)) in
      rw (
        first,
        none_before,
        all,
        le→ltb (fi.size + in_block) (block_size img) (omega arith),
        here,
        lt→leb in_block (fi.size + in_block) (omega arith),
        count,
        whole,
        read_inline,
      )

  block_is_last :
      fi.inode_layout ≡ layout_flat_inline → load_block img fi 0 ≡ load_inline_tail img fi 0
  unfolding load_block
  block_is_last lay =
      let first : 0 / block_size img ≡ 0 = zero-div (block_size img) in
      let one = one_block img.sb.blk_size_bits fi.size pos (in_one_block) in rw (first, one, lay)

  -- Inline data that does not cross the end of a block is loaded from behind its inode and its
  -- attributes, whatever stands around it in the image, if it is not empty.
  pub load_block_inline : fi.inode_layout ≡ layout_flat_inline → load_block img fi 0 ≡ ok d
  load_block_inline lay = block_is_last lay ∙ tail-ok
