-- ===== src/Image/Data.antt =====
-- The data blocks, block 0 and the whole image: assignDataBlocks, writeDataBlocks, sbAreaSize,
-- metadataBytes, writeBlock0 and writeSeekable of writer.go, blkBits of mkfs.go. An error is `none`.
pub mod Area
pub mod Contents
pub mod Addresses
use go_erofs.Prelude.{
  ℕ, zero, suc, ◌+◌, ◌-◌, ◌*◌, ◌/◌, ◌%◌, ◌^◌, ◌==◌, ltb, leb, if◌then◌else◌, Bool, ◌&&◌, ◌||◌, not,
  Option, none, some, List, [], ◌∷◌, ◌++◌, length, is_empty,
}
use go_erofs.Prelude.Bytes.{Bytes, zeros}
use go_erofs.Disk.{
  SuperBlock, magic_number, size_super_block, size_device_slot, super_block_offset,
  feature_chunked_file, feature_device_table, layout_flat_plain,
}
use go_erofs.Disk.Codec.{encode_super_block, encode_device_slot}
use go_erofs.Mode.{stat_type, stat_type_reg, stat_type_dir, stat_type_symlink}
use go_erofs.Image.{ErofsEntry, ErofsWriter, is_some, inode_core_size, padded}
use go_erofs.Image.Dirents.{dirent_data_size, write_dirents}
use go_erofs.Image.Plan.{child_names}
use go_erofs.Image.Metadata.{child_infos, limited, write_metadata_inodes, ◌>>=◌}

unfoldable pub flat_plain_data_size : ErofsWriter → ErofsEntry → ℕ
flat_plain_data_size w e =
    let t = stat_type e.mode in
    if not (e.layout == layout_flat_plain)
    then 0
    else if t == stat_type_reg
    then (if ltb 0 e.size && is_some e.contents then e.size else 0)
    else if t == stat_type_dir
    then dirent_data_size w.block_size (child_names e)
    else if t == stat_type_symlink
    then length e.sym_target
    else 0

-- (n + w.blockSize - 1) / w.blockSize
abbrev pub blocks_for : ℕ → ℕ → ℕ
blocks_for bs n = (n + bs - 1) / bs

unfoldable pub sb_area_size : ErofsWriter → ℕ
sb_area_size w =
    let n = super_block_offset + size_super_block + length w.devices * size_device_slot in
    blocks_for w.block_size n * w.block_size

unfoldable pub sb_area_blocks : ErofsWriter → ℕ
unfolding sb_area_size
sb_area_blocks w = sb_area_size w / w.block_size

-- The loop of assignDataBlocks from a block on, with the block behind the data. Block addresses are
-- uint32s.
unfoldable pub assign_blocks_loop : ErofsWriter → ℕ → List ErofsEntry → List ErofsEntry × ℕ
assign_blocks_loop w addr [] = ([], addr)
assign_blocks_loop w addr (e ∷ es) =
    let ds = flat_plain_data_size w e in
    let skipped = assign_blocks_loop w addr es in
    let later = assign_blocks_loop w ((addr + blocks_for w.block_size ds % 2 ^ 32) % 2 ^ 32) es in
    if ltb 0 ds
    then (record e { data_blk_addr = addr } ∷ later.0, later.1)
    else (e ∷ skipped.0, skipped.1)

-- assignDataBlocks as writeSeekable calls it, after setting metaBlkAddr to a block that it is not:
-- the data goes before the metadata.
unfoldable pub assign_data_blocks : ErofsWriter → ErofsWriter
unfolding assign_blocks_loop
assign_data_blocks w =
    let assigned = assign_blocks_loop w (sb_area_blocks w % 2 ^ 32) w.entries in
    record w { entries = assigned.0; meta_blk_addr = assigned.1 }

-- What writeDataBlocks writes for an entry, where a file's source has to deliver its size.
unfoldable pub data_bytes : ErofsWriter → ErofsEntry → Option Bytes
data_bytes w e =
    let t = stat_type e.mode in
    let ds = flat_plain_data_size w e in
    if t == stat_type_reg
    then (if length (limited e.contents ds) == ds then some (limited e.contents ds) else none)
    else if t == stat_type_dir
    then some (write_dirents w.block_size e.nid e.parent_nid (child_infos w e.children))
    else if t == stat_type_symlink
    then some e.sym_target
    else some []

unfoldable pub data_padding : ErofsWriter → ℕ → Bytes
data_padding w n = if n % w.block_size == 0 then [] else zeros (w.block_size - n % w.block_size)

unfoldable pub write_data_loop : ErofsWriter → List ErofsEntry → Option Bytes
write_data_loop w [] = some []
write_data_loop w (e ∷ es) =
    let later = write_data_loop w es in
    if flat_plain_data_size w e == 0
    then later
    else (data_bytes w e >>= λ d. later >>= λ rest. some (d ++ (data_padding w (length d) ++ rest)))

unfoldable pub write_data_blocks : ErofsWriter → Option Bytes
unfolding write_data_loop
write_data_blocks w = write_data_loop w w.entries

unfoldable pub metadata_bytes_loop : ℕ → List ErofsEntry → ℕ
metadata_bytes_loop cur [] = cur
metadata_bytes_loop cur (e ∷ es) =
    let at = if ltb cur (e.nid * 32) then e.nid * 32 else cur in
    let sz = inode_core_size e + e.xattr_size + e.trailing_size in
    metadata_bytes_loop (at + (if sz % 32 == 0 then sz else sz + (32 - sz % 32))) es

unfoldable pub metadata_bytes : ErofsWriter → ℕ
metadata_bytes w = metadata_bytes_loop 0 w.entries

unfoldable pub data_blocks : ErofsWriter → List ErofsEntry → ℕ
data_blocks w [] = 0
data_blocks w (e ∷ es) =
    (if ltb 0 (flat_plain_data_size w e)
      then blocks_for w.block_size (flat_plain_data_size w e)
      else 0)
    + data_blocks w es

abbrev pub has_chunks : List ErofsEntry → Bool
has_chunks [] = mathlib.Core.Bool.Bool.false
has_chunks (e ∷ es) = not (is_empty e.chunks) || has_chunks es

-- bits.TrailingZeros of the block size, which is a power of two: the loop runs 64 times at most.
unfoldable pub blk_bits_loop : ℕ → ℕ → ℕ
blk_bits_loop zero n = 0
blk_bits_loop (suc fuel) n =
    let more = blk_bits_loop fuel (n / 2) in if n % 2 == 0 then 1 + more else 0

unfoldable pub blk_bits : ℕ → ℕ
blk_bits n = blk_bits_loop 64 n

-- The superblock of writeBlock0. The two feature bits differ, so that or'ing them is adding them.
unfoldable pub super_block_of : ErofsWriter → SuperBlock
super_block_of w =
    let has_devices = ltb 0 (length w.devices) in
    record {
      magic = magic_number;
      blk_size_bits = blk_bits w.block_size;
      root_nid = w.root_nid % 2 ^ 16;
      inos = w.total_inodes;
      build_time = w.build_time;
      build_time_ns = w.build_time_ns;
      blocks =
          (sb_area_blocks w + blocks_for w.block_size (metadata_bytes w) + data_blocks w w.entries)
          % 2 ^ 32;
      meta_blk_addr = w.meta_blk_addr;
      xattr_blk_addr = 0;
      feature_incompat =
          (if has_devices then feature_device_table else 0)
          + (if has_chunks w.entries then feature_chunked_file else 0);
      compr_algs = 0;
      extra_devices = if has_devices then length w.devices % 2 ^ 16 else 0;
      devt_slot_off = if has_devices then size_super_block / 16 else 0;
      xattr_prefix_count = 0;
      xattr_prefix_start = 0;
      packed_nid = 0;
    }

unfoldable pub device_slots : List ℕ → Option Bytes
device_slots [] = some []
device_slots (blocks ∷ later) =
    let rest = device_slots later in
    if ltb 0xFFFFFFFF blocks
    then none
    else (rest >>= λ r.
        some (encode_device_slot (record { blocks = blocks; mapped_blk_addr = 0 }) ++ r))

-- The bytes of the superblock area: what is copied into the zeroed slice leaves the rest zero.
unfoldable pub write_block0 : ErofsWriter → Option Bytes
unfolding device_slots super_block_of
write_block0 w =
    let used = super_block_offset + size_super_block + length w.devices * size_device_slot in
    device_slots w.devices >>= λ slots. some (
      zeros super_block_offset
      ++ (encode_super_block (super_block_of w) ++ (slots ++ zeros (sb_area_size w - used))))

-- writeSeekable: a placeholder of the superblock area's size, the data, the metadata, and then the
-- real superblock area in the place of the placeholder.
unfoldable pub write_seekable : ErofsWriter → Option Bytes
write_seekable w =
    let assigned = assign_data_blocks w in
    write_data_blocks assigned >>= λ written. write_metadata_inodes assigned >>= λ meta.
    write_block0 assigned >>= λ block0. some (block0 ++ (written ++ meta))
