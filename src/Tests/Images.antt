-- ===== src/Tests/Images.antt =====
-- Images with data blocks and devices, as they are written and opened.
use go_erofs.Prelude.{refl, ◌≡◌, ◌+◌, ◌*◌, ◌^◌, ◌<◌, ◌++◌, some, true, [], ◌∷◌, length, All, arith}
use go_erofs.Prelude.Bytes.{Bytes, zeros}
use go_erofs.Disk.Codec.{encode_device_slot}
use go_erofs.Image.{ErofsEntry, ErofsWriter, inode_core_size}
use go_erofs.Image.Data.{
  assign_blocks_loop, assign_data_blocks, data_blocks, device_slots, flat_plain_data_size,
  metadata_bytes, metadata_bytes_loop, sb_area_blocks, sb_area_size, super_block_of, write_block0,
  write_seekable, blk_bits, blk_bits_loop,
}
use go_erofs.Image.Data.Contents.{Delivers}
use go_erofs.Image.Data.Addresses.{HasData}
use go_erofs.Image.Data.Area.{write_seekable-HasData}
use go_erofs.Image.Metadata.{limited}
use go_erofs.Image.Metadata.Positions.{write_metadata_inodes-StandsIn}
use go_erofs.Image.Plan.{calc_trailing_size}
use go_erofs.Image.Plan.Placement.{ArePlaced, IsBlockSize}
use go_erofs.Reader.{ReaderAt, err, io_error, ok, bytes_reader}
use go_erofs.Prelude.{◌<◌}
use go_erofs.Reader.Opening.{open_image, read_slots}
use go_erofs.Reader.Opening.RoundTrip.{IsSuperBlock, image_bytes, open_image-super_block_of}
use go_erofs.Reader.Opening.Slots.{listed, read_slots_shifted, table_bytes}
use go_erofs.Xattr.{calc_xattr_size}
use go_erofs.Image.Metadata.Trailing.{IsComplete}
use go_erofs.Tests.{file_entry, writer, writer-IsBlockSize}

-- A file without attributes that has a block of its own.
abbrev pub blocks_file : ErofsEntry
blocks_file = record file_entry { layout = 0; compact = true; xattrs = [] }

abbrev pub blocks_writer : ErofsWriter
blocks_writer = record writer { entries = blocks_file ∷ [] }

blocks_writer_few :
    sb_area_blocks blocks_writer + data_blocks blocks_writer blocks_writer.entries < 2 ^ 32
unfolding sb_area_blocks sb_area_size data_blocks flat_plain_data_size
blocks_writer_few = omega arith

blocks_file-Delivers : All Delivers blocks_writer.entries
unfolding limited
blocks_file-Delivers = ((λ r c. omega arith), tt)

assigned-ArePlaced :
    ArePlaced (assign_data_blocks blocks_writer) 0 (assign_data_blocks blocks_writer).entries
unfolding assign_data_blocks assign_blocks_loop flat_plain_data_size inode_core_size
    calc_trailing_size calc_xattr_size sb_area_blocks sb_area_size
assigned-ArePlaced = (
  record {
    behind = omega arith;
    near = omega arith;
    core_in_block = omega arith;
    inline_in_block = λ i. absurd (omega arith);
    trailing = refl;
    attributes = refl;
  },
  tt,
)

assigned-IsBlockSize : IsBlockSize (assign_data_blocks blocks_writer).block_size
unfolding assign_data_blocks
assigned-IsBlockSize = writer-IsBlockSize

assigned-IsComplete : All IsComplete (assign_data_blocks blocks_writer).entries
unfolding assign_data_blocks assign_blocks_loop flat_plain_data_size sb_area_blocks sb_area_size
assigned-IsComplete = ((λ r l p. absurd (omega arith)), tt)

abbrev meta : Bytes
meta =
    (write_metadata_inodes-StandsIn (assign_data_blocks blocks_writer) assigned-IsBlockSize
      assigned-ArePlaced assigned-IsComplete).0

no_slots : device_slots blocks_writer.devices ≡ some []
unfolding device_slots
no_slots = refl

write_seekable-HasData_example :
    (front : Bytes) × (written : Bytes) × (write_seekable blocks_writer
      ≡ some (front ++ (written ++ meta)))
    × (write_block0 (assign_data_blocks blocks_writer) ≡ some front)
    × All
        (HasData (assign_data_blocks blocks_writer) (front ++ written))
        (assign_data_blocks blocks_writer).entries
    × (length (front ++ written) ≡ (assign_data_blocks blocks_writer).meta_blk_addr * 512)
write_seekable-HasData_example =
    write_seekable-HasData blocks_writer [] meta (omega arith) blocks_writer_few
      blocks_file-Delivers no_slots
      (write_metadata_inodes-StandsIn (assign_data_blocks blocks_writer) assigned-IsBlockSize
        assigned-ArePlaced assigned-IsComplete).1

super_block_of-IsSuperBlock : IsSuperBlock (super_block_of blocks_writer)
unfolding super_block_of blk_bits blk_bits_loop sb_area_blocks sb_area_size metadata_bytes
    metadata_bytes_loop data_blocks flat_plain_data_size inode_core_size
super_block_of-IsSuperBlock = record {
  magic = omega arith;
  blk_size_bits = omega arith;
  root_nid = omega arith;
  inos = omega arith;
  build_time = omega arith;
  build_time_ns = omega arith;
  blocks = omega arith;
  meta_blk_addr = omega arith;
  xattr_blk_addr = omega arith;
  feature_incompat = omega arith;
  compr_algs = omega arith;
  extra_devices = omega arith;
  devt_slot_off = omega arith;
  xattr_prefix_count = omega arith;
  xattr_prefix_start = omega arith;
  packed_nid = omega arith;
}

nine_bits : (super_block_of blocks_writer).blk_size_bits ≡ 9
unfolding super_block_of blk_bits blk_bits_loop
nine_bits = refl

open_image-super_block_of_example :
    open_image (bytes_reader (image_bytes blocks_writer (zeros 384))) []
    ≡ ok (record {
      sb = super_block_of blocks_writer;
      meta = bytes_reader (image_bytes blocks_writer (zeros 384));
      devices = [];
      device_id_mask = 0;
    })
open_image-super_block_of_example =
    open_image-super_block_of blocks_writer super_block_of-IsSuperBlock (zeros 384) refl
      (omega (arith, nine_bits)) (omega (arith, nine_bits))

abbrev devices_writer : ErofsWriter
devices_writer = record blocks_writer { devices = 10 ∷ 20 ∷ [] }

abbrev slots : Bytes
slots =
    encode_device_slot (record { blocks = 10; mapped_blk_addr = 0 })
    ++ (encode_device_slot (record { blocks = 20; mapped_blk_addr = 0 }) ++ [])

two_slots : device_slots devices_writer.devices ≡ some slots
unfolding device_slots
two_slots = refl

abbrev no_device : ReaderAt
no_device off n = err io_error

read_slots_shifted_example :
    read_slots
      (bytes_reader (table_bytes devices_writer slots (zeros 128)))
      ((super_block_of devices_writer).devt_slot_off * 128)
      0
      (no_device ∷ no_device ∷ [])
    ≡ ok (listed (no_device ∷ no_device ∷ []) (0 ∷ 10 ∷ 20 ∷ []))
read_slots_shifted_example =
    read_slots_shifted devices_writer slots (zeros 128) no_device (no_device ∷ []) two_slots refl
