-- ===== src/Reader/Reading/Stored.antt =====
-- Reading what writeMetadataInodes of writer.go put behind an inode.
use native.Mathlib.Nat.{mod-lt, mul-add-mod_self_right, mod-add-mod, mod-eq_of_lt, one-le-pow}
use go_erofs.Prelude.{
  ℕ, ◌+◌, ◌*◌, ◌%◌, ◌≤◌, ◌<◌, ◌≡◌, refl, sym, ap, ◌∙◌, ◌++◌, length, arith, append_assoc, ltb,
  Bool-cases, inl, inr, length-append,
}
use go_erofs.Prelude.Bytes.{Bytes, zeros}
use go_erofs.Disk.{layout_flat_inline}
use go_erofs.Image.{ErofsEntry, ErofsWriter, inode_core_size}
use go_erofs.Image.Inode.{write_inode, file_size}
use go_erofs.Image.Plan.Placement.{IsPlaced, offset_of}
use go_erofs.Image.Metadata.{entry_bytes, xattr_bytes, trailing_bytes, entry_padding}
use go_erofs.Image.Metadata.Positions.{StandsIn, length-xattr_bytes}
use go_erofs.Reader.{Image, bytes_reader, block_size, meta_start_pos, flat_data_offset}
use go_erofs.Reader.Blocks.Inline.{inline_at}
use go_erofs.Reader.Info.RoundTrip.{expected, length-write_inode}
use go_erofs.Reader.Reading.Serves.{Serves}
use go_erofs.Reader.Reading.Tail.{inline-Serves}

-- A part of a block that fits into it ends in it, wherever the block is.
end_in_block : (k b o c n : ℕ) → 0 < b → o % b + c + n ≤ b → (k * b + o + c) % b + n ≤ b
end_in_block k b o c n pos h =
    let r = o % b + c in
    let near : (k * b + o + c) % b ≡ r % b =
      ap (λ x. x % b) {x = k * b + o + c} {y = k * b + (o + c)} (omega arith)
      ∙ mul-add-mod_self_right k b (o + c)
      ∙ sym (mod-add-mod o b c) in
    elim (Bool-cases (ltb r b)) [
      | inl within ↦ let small : r < b = ground arith in rw (near, mod-eq_of_lt small) (omega arith)
      | inr all ↦ let whole : b ≤ r = ground arith in rw near (omega (arith, mod-lt r pos))
    ]

module _ (img : Image) (w : ErofsWriter) (front out tail : Bytes)
    (dev : img.meta ≡ bytes_reader (front ++ (out ++ tail)))
    (start : length front ≡ meta_start_pos img) (same : block_size img ≡ w.block_size) where
  module _ (e : ErofsEntry) (off : ℕ) (p : IsPlaced w off e) (stands : StandsIn w out e)
      (lay : e.layout ≡ layout_flat_inline) (size : length (trailing_bytes w e) ≡ file_size w e)
      (planned : length (trailing_bytes w e) ≡ e.trailing_size) where
    before : Bytes
    before = front ++ (stands.0 ++ (write_inode w e ++ xattr_bytes e))

    behind : Bytes
    behind = zeros (entry_padding e) ++ (stands.1 ++ tail)

    device_split : img.meta ≡ bytes_reader (before ++ (trailing_bytes w e ++ behind))
    unfolding before behind entry_bytes
    device_split = dev ∙ ap bytes_reader (rw (stands.2) (simp append_assoc))

    data_at :
        meta_start_pos img + offset_of e + (inode_core_size e + e.xattr_size)
        ≡ inline_at img (expected img.sb w e)
    unfolding flat_data_offset
    data_at = omega arith

    length-before : length before ≡ inline_at img (expected img.sb w e)
    unfolding before
    length-before =
        rw
          (
            length-append,
            length-append,
            length-append,
            length-write_inode,
            length-xattr_bytes e p.attributes,
          )
          (omega (arith, start, stands.3, data_at))

    data_in_block :
        inline_at img (expected img.sb w e) % block_size img + file_size w e ≤ block_size img
    data_in_block =
        let k = img.sb.meta_blk_addr in
        let header = inode_core_size e + e.xattr_size in
        let here : k * block_size img + offset_of e + header ≡ inline_at img (expected img.sb w e) =
          let base : k * block_size img ≡ meta_start_pos img =
            unfold block_size meta_start_pos in refl in
          ap (λ m. m + offset_of e + header) base ∙ data_at in
        let some_block : 0 < block_size img =
          unfold block_size in one-le-pow img.sb.blk_size_bits 2 (omega arith) in
        let room : offset_of e % block_size img + header + file_size w e ≤ block_size img =
          rw same (omega (arith, p.inline_in_block lay, size, planned)) in
        rw (← here)
          (end_in_block k (block_size img) (offset_of e) header (file_size w e) some_block room)

    -- Inline data is served.
    pub stored-Serves : Serves img (expected img.sb w e) (trailing_bytes w e)
    stored-Serves =
        inline-Serves img (expected img.sb w e) before (trailing_bytes w e) behind device_split
          length-before lay size data_in_block
