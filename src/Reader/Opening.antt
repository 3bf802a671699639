-- ===== src/Reader/Opening.antt =====
-- Open of erofs.go, with roundupPowerOfTwo and decodeSuperBlock.
pub mod RoundTrip
pub mod Slots
use Prim.Native.Nat.{bit_and, bit_or}
use go_erofs.Prelude.{
  ℕ, zero, suc, ◌+◌, ◌-◌, ◌*◌, ◌/◌, ◌%◌, ◌^◌, ◌==◌, ltb, if◌then◌else◌, ◌||◌, not, List, [], ◌∷◌,
  length,
}
use go_erofs.Prelude.Bytes.{Bytes}
use go_erofs.Disk.{
  SuperBlock, magic_number, super_block_offset, size_super_block, size_device_slot,
  feature_lz4_0_padding, feature_chunked_file, feature_device_table, feature_fragments,
  feature_xattr_prefixes,
}
use go_erofs.Disk.Codec.{decode_super_block_fields, decode_device_slot}
use go_erofs.Reader.{
  ReaderAt, Image, DeviceInfo, Error, Result, ok, err, invalid_super_block, not_implemented, other,
  ◌>>=◌,
}

-- v |= v >> 1, 2, 4, 8 and 16 between v-- and v++, on uint32s
unfoldable pub roundup_power_of_two : ℕ → ℕ
roundup_power_of_two v =
    let a = (v + 2 ^ 32 - 1) % 2 ^ 32 in
    let b = bit_or a (a / 2) in
    let c = bit_or b (b / 4) in
    let d = bit_or c (c / 16) in let e = bit_or d (d / 256) in (bit_or e (e / 65536) + 1) % 2 ^ 32

-- FeatureIncompatAll
abbrev feature_all : ℕ
feature_all =
    feature_lz4_0_padding + feature_chunked_file + feature_device_table + feature_fragments
    + feature_xattr_prefixes

unfoldable pub decode_super_block : Bytes → Result SuperBlock
decode_super_block b =
    let sb = decode_super_block_fields b in if sb.magic == magic_number then ok sb else err other

-- The loop over the device table, whose slot `idx` is that of the first of `extra`.
unfoldable pub read_slots : ReaderAt → ℕ → ℕ → List ReaderAt → Result (List DeviceInfo)
read_slots r table idx [] = ok []
read_slots r table idx (dev ∷ extra) = do
  buf ← r (table + idx * size_device_slot) size_device_slot
  later ← read_slots r table (idx + 1) extra
  let slot = decode_device_slot buf
  ok (record { device = dev; mapped_blk_addr = slot.mapped_blk_addr; blocks = slot.blocks } ∷ later)

-- The checks and the device table, once the superblock is decoded.
unfoldable pub open_with : ReaderAt → List ReaderAt → SuperBlock → Result Image
unfolding read_slots roundup_power_of_two
open_with r extra sb =
    let has_table = not (bit_and sb.feature_incompat feature_device_table == 0) in
    let on_disk = if has_table then sb.extra_devices else 0 in
    let mask =
      if has_table then (roundup_power_of_two (sb.extra_devices + 1) - 1) % 2 ^ 16 else 0 in
    if ltb sb.blk_size_bits 9 || ltb 16 sb.blk_size_bits
    then err invalid_super_block
    else if not (sb.feature_incompat - bit_and sb.feature_incompat feature_all == 0)
    then err not_implemented
    else if not (on_disk == length extra)
    then err other
    else (read_slots r (sb.devt_slot_off * size_device_slot) 0 extra >>= λ devices.
        if not (bit_and sb.feature_incompat feature_lz4_0_padding == 0) || not (sb.compr_algs == 0)
        then err not_implemented
        else ok (record { sb = sb; meta = r; devices = devices; device_id_mask = mask }))

unfoldable pub open_image : ReaderAt → List ReaderAt → Result Image
unfolding decode_super_block open_with
open_image r extra = do
  buf ← r super_block_offset size_super_block
  sb ← decode_super_block buf
  open_with r extra sb
