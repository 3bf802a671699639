-- ===== src/Image.antt =====
-- The state of the image writer: builder.Chunk (internal/builder/entry.go), erofsEntry (mkfs.go) and
-- erofsWriter (writer.go), with the small methods of writer.go and format.go that size things.
-- Sizes are Go ints and uint64s that stay below 2^63, so that int(e.size) is e.size; block sizes are
-- powers of two, so that `& ^(blockSize-1)` rounds down to a multiple of the block size.
pub mod Rounding
pub mod Dirents
pub mod Plan
pub mod Inode
pub mod Chunks
pub mod Metadata
pub mod Data
use go_erofs.Prelude.{
  ℕ, zero, suc, ◌+◌, ◌-◌, ◌*◌, ◌/◌, ◌%◌, ◌^◌, ◌==◌, ltb, leb, if◌then◌else◌, Bool, true, false,
  ◌&&◌, Option, none, some, List, [], ◌∷◌, length, is_empty,
}
use go_erofs.Prelude.Bytes.{Bytes}
use go_erofs.Disk.{size_inode_compact, size_inode_extended, layout_flat_plain}
use go_erofs.Mode.{stat_type, stat_type_reg, stat_type_dir, stat_type_symlink}

pub record Chunk : Type 0 where
  pub physical_block : ℕ
  pub count : ℕ
  pub device_id : ℕ

-- What a directory uses of a child: the child is the entry at `index` in erofsWriter.entries.
pub record Child : Type 0 where
  pub name : Bytes
  pub file_type : ℕ
  pub index : ℕ

-- `data` is what the entry's reader will deliver, `none` for a nil reader; `xattrs` is a map, a
-- list with one pair for each key.
pub record ErofsEntry : Type 0 where
  pub mode : ℕ
  pub uid : ℕ
  pub gid : ℕ
  pub mtime : ℕ
  pub mtime_ns : ℕ
  pub nlink : ℕ
  pub size : ℕ
  pub rdev : ℕ
  pub children : List Child
  pub sym_target : Bytes
  pub chunks : List Chunk
  pub contiguous : Bool
  pub chunk_bits : ℕ
  pub metadata_only : Bool
  pub contents : Option Bytes
  pub xattrs : List (Bytes × Bytes)
  pub nid : ℕ
  pub parent_nid : ℕ
  pub layout : ℕ
  pub compact : Bool
  pub xattr_size : ℕ
  pub trailing_size : ℕ
  pub data_blk_addr : ℕ

pub record ErofsWriter : Type 0 where
  pub entries : List ErofsEntry
  pub root_nid : ℕ
  pub meta_blk_addr : ℕ
  pub total_inodes : ℕ
  pub build_time : ℕ
  pub build_time_ns : ℕ
  pub devices : List ℕ
  pub block_size : ℕ
  pub chunk_bits : ℕ

abbrev pub is_some {ℓ} : {A : Type ℓ} → Option A → Bool
is_some none = false
is_some (some a) = true

-- (x + a - 1) / a * a, which is also (x + a - 1) & ^(a - 1) for a power of two
abbrev pub align_up : ℕ → ℕ → ℕ
align_up a x = (x + a - 1) / a * a

-- if sz%32 != 0 { sz = (sz + 31) & ^31 }
abbrev pub padded : ℕ → ℕ
padded sz = if sz % 32 == 0 then sz else align_up 32 sz

unfoldable pub inode_core_size : ErofsEntry → ℕ
inode_core_size e = if e.compact then size_inode_compact else size_inode_extended

unfoldable pub entry_chunk_bits : ErofsWriter → ErofsEntry → ℕ
entry_chunk_bits w e = if ltb 0 e.chunk_bits then e.chunk_bits else w.chunk_bits

unfoldable pub entry_chunk_size : ErofsWriter → ErofsEntry → ℕ
unfolding entry_chunk_bits
entry_chunk_size w e = w.block_size * 2 ^ entry_chunk_bits w e

-- The loop of minChunkBits. Its test fails at 31 bits, so 31 rounds are enough.
unfoldable pub min_chunk_bits_loop : ℕ → ℕ → ℕ → ℕ → ℕ
min_chunk_bits_loop zero bs size bits = bits
min_chunk_bits_loop (suc fuel) bs size bits =
    let next = min_chunk_bits_loop fuel bs size (bits + 1) in
    if ltb (bs * 2 ^ bits % 2 ^ 64) size && ltb bits 31 then next else bits

unfoldable pub min_chunk_bits : ErofsWriter → ℕ → ℕ
unfolding min_chunk_bits_loop
min_chunk_bits w size = min_chunk_bits_loop (31 - w.chunk_bits) w.block_size size w.chunk_bits
