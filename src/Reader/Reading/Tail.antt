-- ===== src/Reader/Reading/Tail.antt =====
-- Inline data serves reading.
use native.Mathlib.Nat.{div-eq_of_lt, div-add-mod'}
use go_erofs.Prelude.{
  ℕ, ◌+◌, ◌-◌, ◌*◌, ◌/◌, ◌%◌, ◌^◌, ◌≤◌, ◌<◌, ◌≡◌, refl, ap, ◌∙◌, le→ltb, ◌++◌, length, arith,
}
use go_erofs.Prelude.Bytes.{Bytes, slice}
use go_erofs.Disk.{layout_flat_inline}
use go_erofs.Reader.{Image, Inode, ok, bytes_reader, block_size}
use go_erofs.Reader.Blocks.{load_block, load_inline_tail, read_bounded}
use go_erofs.Reader.Blocks.Plain.{bytes_reader-slice, lt→leb}
use go_erofs.Reader.Blocks.Inline.{inline_at, one_block}
use go_erofs.Reader.Reading.Serves.{Loaded, Serves}

module _ (img : Image) (fi : Inode) (pre d post : Bytes)
    (dev : img.meta ≡ bytes_reader (pre ++ (d ++ post))) (at : length pre ≡ inline_at img fi)
    (lay : fi.inode_layout ≡ layout_flat_inline) (size : length d ≡ fi.size)
    (fits : inline_at img fi % block_size img + fi.size ≤ block_size img) where
  abbrev in_block : ℕ
  in_block = inline_at img fi % block_size img

  read_from :
      (pos : ℕ)
      → pos < length d
      → img.meta (inline_at img fi + pos) (fi.size - pos) ≡ ok (slice pos (length d) d)
  read_from pos h =
      let start : length pre + pos ≡ inline_at img fi + pos = omega arith in
      let stop : pos + (fi.size - pos) ≡ length d = omega arith in
      ap (λ r. r (inline_at img fi + pos) (fi.size - pos)) dev
      ∙ rw (← start)
          (bytes_reader-slice pre d post pos (fi.size - pos) (omega arith) ∙ rw stop refl)

  tail_from :
      (pos : ℕ)
      → pos / block_size img ≡ 0
      → pos < length d
      → load_inline_tail img fi pos ≡ ok (slice pos (length d) d)
  unfolding load_inline_tail read_bounded
  tail_from pos first h =
      let none_before : 0 * block_size img ≡ 0 = omega arith in
      let all : fi.size - 0 + in_block ≡ fi.size + in_block = omega arith in
      let here : in_block + (pos - 0) ≡ in_block + pos = omega arith in
      let count : fi.size + in_block - (in_block + pos) ≡ fi.size - pos = omega arith in
      let whole : inline_at img fi - in_block + (in_block + pos) ≡ inline_at img fi + pos =
        omega (arith, div-add-mod' (inline_at img fi) (block_size img)) in
      rw
        (
          first,
          none_before,
          all,
          le→ltb (fi.size + in_block) (block_size img) (omega arith),
          here,
          lt→leb (in_block + pos) (fi.size + in_block) (omega arith),
          count,
          whole,
          read_from pos h,
        )
        refl

  block_is_tail :
      (pos : ℕ)
      → pos / block_size img ≡ 0
      → pos < length d
      → load_block img fi pos ≡ load_inline_tail img fi pos
  unfolding load_block
  block_is_tail pos first h =
      let small : fi.size ≤ 2 ^ img.sb.blk_size_bits =
        let e : fi.size ≤ block_size img = omega arith in unfold block_size in e in
      let one = one_block img.sb.blk_size_bits fi.size (omega arith) small in rw (first, one, lay)

  tail_loaded : (pos : ℕ) → pos < length d → Loaded img fi d pos
  tail_loaded pos h =
      let first : pos / block_size img ≡ 0 = div-eq_of_lt (omega arith) in
      record {
        end = length d;
        after = h;
        within = omega arith;
        loads = block_is_tail pos first h ∙ tail_from pos first h;
      }

  -- Data behind an inode and its attributes.
  pub inline-Serves : Serves img fi d
  inline-Serves = record { size = size; load = tail_loaded }
