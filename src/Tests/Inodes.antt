-- ===== src/Tests/Inodes.antt =====
-- Inodes that are written and read back.
use go_erofs.Prelude.{ℕ, refl, ◌≡◌, ◌≢◌, ◌∙◌, ◌++◌, true, [], length, length-replicate, All, arith}
use go_erofs.Prelude.Bytes.{Bytes, zeros}
use go_erofs.Disk.{SuperBlock}
use go_erofs.Image.{ErofsEntry, inode_core_size, entry_chunk_bits, entry_chunk_size}
use go_erofs.Image.Dirents.{
  dirent_data_size, dirent_data_size_loop, dirent_names, sort_by, insert_by, next_block, fit,
  padded_used,
}
use go_erofs.Image.Inode.{file_size, inode_data, write_inode}
use go_erofs.Image.Plan.{
  calc_trailing_size, choose_layout, fits_compact, keep_in_block, plan_entries, plan_entry,
  plan_layout,
}
use go_erofs.Image.Metadata.Planned.{write_metadata_inodes-plan_layout}
use go_erofs.Reader.{Image, err, eof, block_size, bytes_reader, meta_start_pos}
use go_erofs.Reader.Info.{inode_addr, parse_inode, read_info}
use go_erofs.Reader.Info.Access.{read_info_at_end}
use go_erofs.Reader.Info.RoundTrip.{
  IsEncodable, expected, parse_inode-write_inode, compact_mtime_ns_lost,
}
use go_erofs.Reader.Info.Whole.{Holds, IsReadBack, read_info-write_metadata_inodes}
use go_erofs.Xattr.{
  calc_xattr_size, entries_size, xattr_entry_size, xattr_split, split_by, strip_prefix,
}
use go_erofs.Prelude.Bytes.{compare_bytes}
use go_erofs.Tests.{file_entry, writer, writer-IsBlockSize}
use go_erofs.Tests.Layout.{writer-IsSourced}

abbrev pub super_block : SuperBlock
super_block = record {
  magic = 0xe0f5e1e2;
  blk_size_bits = 9;
  root_nid = 0;
  inos = 2;
  build_time = 100;
  build_time_ns = 7;
  blocks = 7;
  meta_blk_addr = 4;
  xattr_blk_addr = 0;
  feature_incompat = 0;
  compr_algs = 0;
  extra_devices = 0;
  devt_slot_off = 0;
  xattr_prefix_count = 0;
  xattr_prefix_start = 0;
  packed_nid = 0;
}

abbrev pub image_of : Bytes → Image
image_of b = record { sb = super_block; meta = bytes_reader b; devices = []; device_id_mask = 0 }

-- The file as planLayout leaves it behind 64 bytes of metadata.
abbrev planned_file : ErofsEntry
planned_file = record file_entry {
  compact = true;
  xattr_size = 20;
  layout = 2;
  nid = 2;
  trailing_size = 5;
}

planned_file-IsEncodable : IsEncodable writer planned_file
unfolding fits_compact calc_xattr_size entries_size xattr_entry_size xattr_split split_by
    strip_prefix file_size inode_data
planned_file-IsEncodable = record {
  planned_compact = refl;
  planned_xattrs = refl;
  few_xattrs = omega arith;
  layout = omega arith;
  mode = omega arith;
  uid = omega arith;
  gid = omega arith;
  nlink = omega arith;
  size = omega arith;
  small = λ n. omega arith;
  data_fits = omega arith;
  mtime = omega arith;
  mtime_ns = omega arith;
}

parse_inode-write_inode_example :
    parse_inode super_block 2 (write_inode writer planned_file ++ zeros 32)
    ≡ expected super_block writer planned_file
parse_inode-write_inode_example =
    parse_inode-write_inode super_block writer planned_file (zeros 32) planned_file-IsEncodable refl

seven : writer.build_time_ns ≢ 0
seven e = omega arith

compact_mtime_ns_lost_example :
    (parse_inode super_block 2 (write_inode writer planned_file ++ zeros 32)).mtime_ns ≢ 0
compact_mtime_ns_lost_example =
    compact_mtime_ns_lost super_block writer planned_file (zeros 32) planned_file-IsEncodable refl
      refl seven refl

abbrev front : Bytes
front = zeros 2112

abbrev last_image : Image
last_image = image_of (front ++ write_inode writer planned_file)

length-front : length front ≡ inode_addr last_image 2
unfolding inode_addr meta_start_pos
length-front = length-replicate {A = ℕ} 2112 0

read_info_at_end_example : read_info last_image 2 ≡ err eof
read_info_at_end_example =
    read_info_at_end last_image writer planned_file planned_file-IsEncodable front refl length-front
      refl

abbrev out : Bytes
out = (write_metadata_inodes-plan_layout writer writer-IsBlockSize writer-IsSourced).0

abbrev start : Bytes
start = zeros 2048

abbrev tail : Bytes
tail = zeros 1024

abbrev image : Image
image = image_of (start ++ (out ++ tail))

image-Holds : Holds image start out tail
image-Holds = record {
  device = refl;
  start = length-replicate {A = ℕ} 2048 0 ∙ (unfold meta_start_pos in refl);
  room = unfold block_size in omega (arith, length-replicate {A = ℕ} 1024 0);
}

planned_entries-IsEncodable : All (IsEncodable (plan_layout writer)) (plan_layout writer).entries
unfolding plan_layout plan_entries plan_entry choose_layout keep_in_block calc_trailing_size
    fits_compact calc_xattr_size entries_size xattr_entry_size xattr_split split_by strip_prefix
    file_size inode_data dirent_data_size dirent_data_size_loop dirent_names sort_by insert_by
    next_block fit padded_used compare_bytes inode_core_size entry_chunk_size entry_chunk_bits
planned_entries-IsEncodable = (
  record {
    planned_compact = refl;
    planned_xattrs = refl;
    few_xattrs = omega arith;
    layout = omega arith;
    mode = omega arith;
    uid = omega arith;
    gid = omega arith;
    nlink = omega arith;
    size = omega arith;
    small = λ n. omega arith;
    data_fits = omega arith;
    mtime = omega arith;
    mtime_ns = omega arith;
  },
  (
    record {
      planned_compact = refl;
      planned_xattrs = refl;
      few_xattrs = omega arith;
      layout = omega arith;
      mode = omega arith;
      uid = omega arith;
      gid = omega arith;
      nlink = omega arith;
      size = omega arith;
      small = λ n. omega arith;
      data_fits = omega arith;
      mtime = omega arith;
      mtime_ns = omega arith;
    },
    tt,
  ),
)

same_build_time : (plan_layout writer).build_time ≡ 100
unfolding plan_layout
same_build_time = refl

read_info-write_metadata_inodes_example :
    All (IsReadBack image (plan_layout writer)) (plan_layout writer).entries
read_info-write_metadata_inodes_example =
    read_info-write_metadata_inodes image writer start out tail writer-IsBlockSize writer-IsSourced
      planned_entries-IsEncodable same_build_time
      (write_metadata_inodes-plan_layout writer writer-IsBlockSize writer-IsSourced).1 image-Holds
