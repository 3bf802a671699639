-- ===== src/Reader/Reading/Serves.antt =====
-- What reading needs of loadBlock: from each position in the file, the data from there to some end.
use native.Mathlib.Nat.{div-add-mod', mod-lt, one-le-pow, add-mul}
use go_erofs.Prelude.{
  ℕ, ◌==◌, Bool, Bool-cases, inl, inr, ◌+◌, ◌-◌, ◌*◌, ◌/◌, ◌%◌, ◌≡◌, ◌<◌, ◌≤◌, refl, ap, ◌∙◌, ◌++◌,
  length, le→ltb, arith,
}
use go_erofs.Prelude.Bytes.{Bytes, slice}
use go_erofs.Disk.{layout_flat_plain}
use go_erofs.Reader.{Image, Inode, ok, bytes_reader, block_size}
use go_erofs.Reader.Blocks.{calculate_blocks, load_block, load_plain, read_bounded, block_end}
use go_erofs.Reader.Blocks.Plain.{bytes_reader-slice, lt→leb, end_of, block_bounds}

-- The block that is loaded at a position.
pub record Loaded (img : Image) (fi : Inode) (d : Bytes) (pos : ℕ) : Type 0 where
  pub end : ℕ
  pub after : pos < end
  pub within : end ≤ length d
  pub loads : load_block img fi pos ≡ ok (slice pos end d)

-- The interface: an inode whose data is `d`.
pub record Serves (img : Image) (fi : Inode) (d : Bytes) : Type 0 where
  pub size : length d ≡ fi.size
  pub load : (pos : ℕ) → pos < length d → Loaded img fi d pos

module _ (img : Image) (fi : Inode) (bn : ℕ) where
  abbrev is_last : Bool
  is_last = bn == calculate_blocks img.sb.blk_size_bits fi.size - 1

  -- A position in the block and in the file is before the end of the block's bytes.
  before_end :
      (r : ℕ) → r < block_size img → bn * block_size img + r < fi.size → r < block_end img fi bn
  unfolding block_end
  before_end r h k = elim (Bool-cases is_last) [ inl e ↦ rw e (omega arith) | inr e ↦ rw e h ]

module _ (img : Image) (fi : Inode) (pre d post : Bytes)
    (dev : img.meta ≡ bytes_reader (pre ++ (d ++ post)))
    (at : length pre ≡ fi.inode_data * block_size img) (lay : fi.inode_layout ≡ layout_flat_plain)
    (size : length d ≡ fi.size) where
  load_plain_at :
      (pos end : ℕ)
      → end ≤ block_size img
      → pos % block_size img < end
      → pos / block_size img * block_size img + end ≤ length d
      → load_plain img fi pos end ≡ ok (slice pos (pos / block_size img * block_size img + end) d)
  unfolding load_plain read_bounded
  load_plain_at pos end fits room within =
      let bs = block_size img in
      let bn = pos / bs in
      let r = pos % bs in
      let split = div-add-mod' pos bs in
      let here : (fi.inode_data + bn) * bs + r ≡ length pre + pos =
        omega (arith, add-mul fi.inode_data bn bs, split, at) in
      let stop : pos + (end - r) ≡ bn * bs + end = omega (arith, split) in
      let read : img.meta (length pre + pos) (end - r) ≡ ok (slice pos (pos + (end - r)) d) =
        ap (λ m. m (length pre + pos) (end - r)) dev
        ∙ bytes_reader-slice pre d post pos (end - r) (omega arith) in
      rw (le→ltb end bs fits, lt→leb r end room, here, read, stop) refl

  load_block_at :
      (pos : ℕ)
      → pos / block_size img < calculate_blocks img.sb.blk_size_bits fi.size
      → load_block img fi pos ≡ load_plain img fi pos (block_end img fi (pos / block_size img))
  unfolding load_block
  load_block_at pos inside =
      rw (lt→leb (pos / block_size img) (calculate_blocks img.sb.blk_size_bits fi.size) inside, lay)
        refl

  plain_loaded : (pos : ℕ) → pos < length d → Loaded img fi d pos
  plain_loaded pos h =
      let bs = block_size img in
      let bs_pos : 0 < bs = unfold block_size in one-le-pow img.sb.blk_size_bits 2 (omega arith) in
      let bn = pos / bs in
      let split = div-add-mod' pos bs in
      let small = mod-lt pos bs_pos in
      let b = block_bounds img fi bn (omega arith) in
      let room = before_end img fi bn (pos % bs) small (omega arith) in
      record {
        end = end_of img fi bn;
        after = omega arith;
        within = omega (arith, b.3);
        loads =
            load_block_at pos b.0
            ∙ load_plain_at pos (block_end img fi bn) b.2 room (omega (arith, b.3));
      }

  -- Data in consecutive blocks of the image.
  pub plain-Serves : Serves img fi d
  plain-Serves = record { size = size; load = plain_loaded }
