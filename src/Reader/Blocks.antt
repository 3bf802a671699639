-- ===== src/Reader/Blocks.antt =====
-- loadBlock and mapDev of erofs.go, calculateBlocks of block.go. A block is the bytes between its
-- offset and its end.
pub mod Plain
pub mod Inline
pub mod Written
use Prim.Native.Nat.{bit_and}
use go_erofs.Prelude.{
  ℕ, zero, suc, ◌+◌, ◌-◌, ◌*◌, ◌/◌, ◌%◌, ◌^◌, ◌==◌, ltb, leb, if◌then◌else◌, ◌&&◌, ◌||◌, not,
  Option, none, some, List, [], ◌∷◌, length,
}
use go_erofs.Prelude.Bytes.{Bytes, field, zeros}
use go_erofs.Disk.{
  layout_flat_plain, layout_flat_inline, layout_chunk_based, layout_compressed_full,
  layout_compressed_compact, size_inode_compact,
}
use go_erofs.Image.{align_up}
use go_erofs.Image.Chunks.{null_addr}
use go_erofs.Reader.{
  ReaderAt, Image, Inode, DeviceInfo, Error, Result, ok, err, eof, invalid, not_implemented, other,
  ◌>>=◌, meta_start_pos, block_size, flat_data_offset,
}

unfoldable pub calculate_blocks : ℕ → ℕ → ℕ
calculate_blocks block_bits size =
    let block_num = size / 2 ^ block_bits in
    if ltb (block_num * 2 ^ block_bits) size then block_num + 1 else block_num

-- The loop of mapDev over the devices.
unfoldable pub map_devices : Image → List DeviceInfo → ℕ → ReaderAt × ℕ
map_devices img [] pa = (img.meta, pa)
map_devices img (d ∷ ds) pa =
    let start_off = d.mapped_blk_addr * block_size img in
    let length_ = d.blocks * block_size img in
    let later = map_devices img ds pa in
    if d.mapped_blk_addr == 0
    then later
    else if leb start_off pa && ltb pa (start_off + length_)
    then (d.device, pa - start_off)
    else later

abbrev device_at : List DeviceInfo → ℕ → ℕ → Result (ReaderAt × ℕ)
device_at [] i pa = err other
device_at (d ∷ ds) zero pa = ok (d.device, pa)
device_at (d ∷ ds) (suc i) pa = device_at ds i pa

unfoldable pub map_dev : Image → ℕ → ℕ → Result (ReaderAt × ℕ)
unfolding map_devices
map_dev img zero pa = ok (map_devices img img.devices pa)
map_dev img (suc i) pa = device_at img.devices i pa

-- The end of a block's bytes: that of the file in its last block.
unfoldable pub block_end : Image → Inode → ℕ → ℕ
block_end img fi bn =
    if bn == calculate_blocks img.sb.blk_size_bits fi.size - 1
    then fi.size - bn * block_size img
    else block_size img

-- The bounds check and the read at the end of loadBlock.
unfoldable pub read_bounded : Image → ReaderAt → ℕ → ℕ → ℕ → Result Bytes
read_bounded img reader addr block_offset block_end =
    if ltb (block_size img) block_end || leb block_end block_offset
    then err invalid
    else reader (addr + block_offset) (block_end - block_offset)

unfoldable pub load_plain : Image → Inode → ℕ → ℕ → Result Bytes
load_plain img fi pos end =
    let bn = pos / block_size img in
    read_bounded img img.meta ((fi.inode_data + bn) * block_size img) (pos % block_size img) end

-- The last block of an inode with inline data.
unfoldable pub load_inline_tail : Image → Inode → ℕ → Result Bytes
load_inline_tail img fi pos =
    let bs = block_size img in
    let bn = pos / bs in
    let data_at = meta_start_pos img + fi.nid * size_inode_compact + flat_data_offset fi in
    let end = fi.size - bn * bs + data_at % bs in
    if ltb bs end
    then err invalid
    else read_bounded img img.meta (data_at - data_at % bs) (data_at % bs + (pos - bn * bs)) end

-- An entry of the index area: the block, if it is not a hole, and the device.
unfoldable pub chunk_entry : Image → ℕ → Bytes → Option ℕ × ℕ
chunk_entry img unit entry =
    let lo = if unit == 8 then field 4 4 entry else field 0 4 entry in
    let device_id = if unit == 8 then bit_and (field 2 2 entry) img.device_id_mask else 0 in
    if lo == null_addr then (none, 0) else (some lo, device_id)

-- A hole is a block of zeros. No caller asks for a position behind the file's end.
abbrev load_chunk : Image → Inode → ℕ → ℕ → Option ℕ × ℕ → Result Bytes
load_chunk img fi pos chunkbits (none, device_id) =
    let bs = block_size img in ok (zeros (block_end img fi (pos / bs) - pos % bs))
load_chunk img fi pos chunkbits (some lo, device_id) =
    let bs = block_size img in
    let bn = pos / bs in
    let cn = pos / 2 ^ chunkbits in
    map_dev img device_id (lo * bs + (bn * bs - cn * 2 ^ chunkbits)) >>= λ mapped.
    read_bounded img mapped.0 mapped.1 (pos % bs) (block_end img fi bn)

-- The case of a chunk-based inode: bit 6 of the format marks 48-bit block addresses, bit 5 indexes
-- of eight bytes, and the low five bits add to the block's bits.
unfoldable pub load_chunked : Image → Inode → ℕ → Result Bytes
load_chunked img fi pos =
    let format = fi.inode_data % 2 ^ 16 in
    let chunkbits = (img.sb.blk_size_bits + format % 32) % 2 ^ 8 in
    let chunkn = (fi.size - 1) / 2 ^ chunkbits + 1 in
    let cn = pos / 2 ^ chunkbits in
    let base = meta_start_pos img + fi.nid * size_inode_compact + flat_data_offset fi in
    let unit = if format / 32 % 2 == 1 then 8 else 4 in
    let start = if unit == 8 then (if base % 8 == 0 then base else align_up 8 base) else base in
    if format / 64 % 2 == 1
    then err not_implemented
    else if not (format / 64 == 0)
    then err invalid
    else if leb chunkn cn
    then err invalid
    else (img.meta (start + cn * unit) unit >>= λ entry.
        load_chunk img fi pos chunkbits (chunk_entry img unit entry))

unfoldable pub load_block : Image → Inode → ℕ → Result Bytes
unfolding load_plain load_inline_tail load_chunked block_end
load_block img fi pos =
    let nblocks = calculate_blocks img.sb.blk_size_bits fi.size in
    let bn = pos / block_size img in
    if leb nblocks bn
    then err eof
    else if fi.inode_layout == layout_flat_plain
    then load_plain img fi pos (block_end img fi bn)
    else if fi.inode_layout == layout_flat_inline
    then (if bn == nblocks - 1
        then load_inline_tail img fi pos
        else load_plain img fi pos (block_size img))
    else if fi.inode_layout == layout_chunk_based
    then load_chunked img fi pos
    else if fi.inode_layout == layout_compressed_full
        || fi.inode_layout == layout_compressed_compact
    then err not_implemented
    else err invalid
