-- ===== src/Tests/Blocks.antt =====
-- Blocks of data that are loaded from an image.
use go_erofs.Prelude.{ℕ, refl, ◌≡◌, ◌+◌, ◌*◌, ◌++◌, some, [], length, length-replicate, arith, inr}
use go_erofs.Prelude.Bytes.{Bytes, slice, zeros}
use go_erofs.Image.{ErofsEntry}
use go_erofs.Image.Data.{data_bytes, flat_plain_data_size}
use go_erofs.Image.Data.Addresses.{HasData}
use go_erofs.Image.Metadata.{limited}
use go_erofs.Reader.{Image, Inode, ok, block_size, bytes_reader}
use go_erofs.Reader.Blocks.{load_block}
use go_erofs.Prelude.{◌%◌, ◌≤◌}
use go_erofs.Reader.{flat_data_offset, meta_start_pos}
use go_erofs.Reader.Blocks.Inline.{inline_at, load_block_inline}
use go_erofs.Reader.Blocks.Plain.{end_of}
use go_erofs.Reader.Blocks.Written.{Describes, load_block-HasData}
use go_erofs.Tests.Inodes.{super_block}
use go_erofs.Tests.{hello}
use go_erofs.Tests.Images.{blocks_file, blocks_writer}

-- The file at block 3 of an image.
abbrev placed_file : ErofsEntry
placed_file = record blocks_file { data_blk_addr = 3 }

abbrev first_blocks : Bytes
first_blocks = zeros 1536

abbrev data_image : Bytes
data_image = first_blocks ++ (hello ++ zeros 507)

placed_file-HasData : HasData blocks_writer data_image placed_file
unfolding flat_plain_data_size data_bytes limited
placed_file-HasData =
    inr (first_blocks, hello, zeros 507, refl, refl, refl, length-replicate {A = ℕ} 1536 0)

abbrev inode : Inode
inode = record {
  nid = 0;
  icsize = 32;
  xsize = 0;
  inode_layout = 0;
  inode_data = 3;
  size = 5;
  raw_mode = 0o100644;
  uid = 1000;
  gid = 1000;
  nlink = 1;
  mtime = 100;
  mtime_ns = 0;
}

abbrev reader_image : Image
reader_image = record {
  sb = super_block;
  meta = bytes_reader (data_image ++ []);
  devices = [];
  device_id_mask = 0;
}

inode-Describes : Describes reader_image blocks_writer placed_file inode
unfolding flat_plain_data_size block_size
inode-Describes = record { same_blocks = refl; address = refl; layout = refl; size = refl }

load_block-HasData_example :
    (d : Bytes) × (data_bytes blocks_writer placed_file ≡ some d)
    × (length d ≡ 5)
    × (load_block reader_image inode (0 * block_size reader_image)
        ≡ ok (slice (0 * block_size reader_image) (end_of reader_image inode 0) d))
load_block-HasData_example =
    load_block-HasData reader_image blocks_writer placed_file inode data_image [] 0
      placed_file-HasData inode-Describes refl (omega arith)

-- The file behind an inode of 32 bytes at the start of block 4.
abbrev inline_inode : Inode
inline_inode = record inode { inode_layout = 2 }

abbrev inline_image : Image
inline_image = record {
  sb = super_block;
  meta = bytes_reader (zeros 2080 ++ (hello ++ zeros 27));
  devices = [];
  device_id_mask = 0;
}

length-before_inline : length (zeros 2080) ≡ inline_at inline_image inline_inode
unfolding meta_start_pos flat_data_offset
length-before_inline = length-replicate {A = ℕ} 2080 0

inline_fits :
    inline_at inline_image inline_inode % block_size inline_image + 5 ≤ block_size inline_image
unfolding meta_start_pos flat_data_offset block_size
inline_fits = omega arith

load_block_inline_example : load_block inline_image inline_inode 0 ≡ ok hello
load_block_inline_example =
    load_block_inline inline_image inline_inode (zeros 2080) hello (zeros 27) refl
      length-before_inline refl (omega arith) inline_fits refl
