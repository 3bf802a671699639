-- ===== src/Disk.antt =====
-- internal/disk/types.go: the constants and the records of the on-disk format.
pub mod Codec
use go_erofs.Prelude.{ℕ, ◌+◌}
use go_erofs.Prelude.Bytes.{Bytes}

abbrev pub magic_number : ℕ
magic_number = 0xe0f5e1e2

abbrev pub super_block_offset : ℕ
super_block_offset = 1024

-- FeatureIncompatLZ4_0Padding and its siblings are bits; each is named here by its bit's value.
abbrev pub feature_lz4_0_padding : ℕ
feature_lz4_0_padding = 0x1

abbrev pub feature_chunked_file : ℕ
feature_chunked_file = 0x4

abbrev pub feature_device_table : ℕ
feature_device_table = 0x8

abbrev pub feature_fragments : ℕ
feature_fragments = 0x20

abbrev pub feature_xattr_prefixes : ℕ
feature_xattr_prefixes = 0x40

abbrev pub size_super_block : ℕ
size_super_block = 128

abbrev pub size_inode_compact : ℕ
size_inode_compact = 32

abbrev pub size_inode_extended : ℕ
size_inode_extended = 64

abbrev pub size_dirent : ℕ
size_dirent = 12

abbrev pub size_xattr_body_header : ℕ
size_xattr_body_header = 12

abbrev pub size_xattr_entry : ℕ
size_xattr_entry = 4

abbrev pub size_device_slot : ℕ
size_device_slot = 128

abbrev pub size_chunk_index : ℕ
size_chunk_index = 8

abbrev pub layout_flat_plain : ℕ
layout_flat_plain = 0

abbrev pub layout_compressed_full : ℕ
layout_compressed_full = 1

abbrev pub layout_flat_inline : ℕ
layout_flat_inline = 2

abbrev pub layout_compressed_compact : ℕ
layout_compressed_compact = 3

abbrev pub layout_chunk_based : ℕ
layout_chunk_based = 4

-- The byte arrays and the reserved fields that no code reads or writes are left out of the records;
-- the codec keeps their places.
pub record SuperBlock : Type 0 where
  pub magic : ℕ
  pub blk_size_bits : ℕ
  pub root_nid : ℕ
  pub inos : ℕ
  pub build_time : ℕ
  pub build_time_ns : ℕ
  pub blocks : ℕ
  pub meta_blk_addr : ℕ
  pub xattr_blk_addr : ℕ
  pub feature_incompat : ℕ
  pub compr_algs : ℕ
  pub extra_devices : ℕ
  pub devt_slot_off : ℕ
  pub xattr_prefix_count : ℕ
  pub xattr_prefix_start : ℕ
  pub packed_nid : ℕ

pub record InodeCompact : Type 0 where
  pub format : ℕ
  pub xattr_count : ℕ
  pub mode : ℕ
  pub nlink : ℕ
  pub size : ℕ
  pub inode_data : ℕ
  pub uid : ℕ
  pub gid : ℕ

pub record InodeExtended : Type 0 where
  pub format : ℕ
  pub xattr_count : ℕ
  pub mode : ℕ
  pub size : ℕ
  pub inode_data : ℕ
  pub uid : ℕ
  pub gid : ℕ
  pub mtime : ℕ
  pub mtime_ns : ℕ
  pub nlink : ℕ

pub record Dirent : Type 0 where
  pub nid : ℕ
  pub name_off : ℕ
  pub file_type : ℕ

pub record XattrEntry : Type 0 where
  pub name_len : ℕ
  pub name_index : ℕ
  pub value_len : ℕ

pub record DeviceSlot : Type 0 where
  pub blocks : ℕ
  pub mapped_blk_addr : ℕ
