-- ===== src/Tests/Readings.antt =====
-- Files and symbolic links that are read.
use go_erofs.Prelude.{
  ◌∙◌, All, ◌∷◌, ℕ, refl, ◌≡◌, ◌++◌, ◌*◌, [], true, false, none, length, length-replicate,
  if◌then◌else◌, ltb, arith,
}
use go_erofs.Prelude.Bytes.{Bytes, zeros}
use go_erofs.Image.{ErofsEntry, ErofsWriter, inode_core_size}
use go_erofs.Image.Inode.{write_inode, file_size, inode_data}
use go_erofs.Image.Plan.{
  fits_compact, plan_layout, plan_entries, plan_entry, choose_layout, keep_in_block,
  calc_trailing_size,
}
use go_erofs.Xattr.{calc_xattr_size, entries_size, xattr_entry_size}
use go_erofs.Reader.{Image, Inode, ok, err, invalid, block_size, meta_start_pos}
use go_erofs.Reader.Info.RoundTrip.{IsEncodable}
use go_erofs.Reader.Info.RoundTrip.{expected as written_inode}
use go_erofs.Image.Metadata.Planned.{IsSourced, write_metadata_inodes-plan_layout}
use go_erofs.Reader.Info.Whole.{Holds}
use go_erofs.Reader.Reading.Links.{read_link-write_metadata_inodes}
use go_erofs.Reader.Reading.{max_symlink_size, read_at, read_link}
use go_erofs.Reader.Reading.Serves.{Serves, plain-Serves}
use go_erofs.Reader.Reading.Loop.{expected, read_at-Serves}
use go_erofs.Tests.{hello, writer, writer-IsBlockSize}
use go_erofs.Tests.Images.{blocks_writer}
use go_erofs.Tests.Inodes.{super_block, image_of}

-- Three blocks, the target of a link in block 3, and its inode in block 4.
abbrev link : ErofsEntry
link = record {
  mode = 0o120777;
  uid = 0;
  gid = 0;
  mtime = 100;
  mtime_ns = 0;
  nlink = 1;
  size = 5;
  rdev = 0;
  children = [];
  sym_target = hello;
  chunks = [];
  contiguous = false;
  chunk_bits = 0;
  metadata_only = false;
  contents = none;
  xattrs = [];
  nid = 0;
  parent_nid = 0;
  layout = 0;
  compact = true;
  xattr_size = 0;
  trailing_size = 0;
  data_blk_addr = 3;
}

abbrev first_blocks : Bytes
first_blocks = zeros 1536

abbrev behind : Bytes
behind = zeros 507 ++ (write_inode blocks_writer link ++ zeros 1024)

abbrev link_image : Image
link_image = image_of (first_blocks ++ (hello ++ behind))

abbrev link_inode : Inode
link_inode = written_inode super_block blocks_writer link

length-first_blocks : length first_blocks ≡ 3 * block_size link_image
unfolding block_size
length-first_blocks = length-replicate {A = ℕ} 1536 0

link_inode-Serves : Serves link_image link_inode hello
unfolding file_size inode_data
link_inode-Serves =
    plain-Serves link_image link_inode first_blocks hello behind refl length-first_blocks refl refl

read_at-Serves_example : read_at link_image link_inode 2 4 ≡ expected hello 2 4
read_at-Serves_example = read_at-Serves link_image link_inode hello link_inode-Serves 2 4

-- A link that is planned and written behind its inode.
abbrev unplanned : ErofsEntry
unplanned = record link { compact = false; data_blk_addr = 0 }

abbrev planned : ErofsEntry
planned = record unplanned { compact = true; layout = 2; trailing_size = 5 }

abbrev link_writer : ErofsWriter
link_writer = record writer { entries = unplanned ∷ [] }

link_writer-IsSourced : All IsSourced link_writer.entries
link_writer-IsSourced = ((λ reg c m. absurd (omega arith)), tt)

link_planned : (plan_layout link_writer).entries ≡ [] ++ (planned ∷ [])
unfolding plan_layout plan_entries plan_entry choose_layout keep_in_block calc_trailing_size
    fits_compact calc_xattr_size entries_size xattr_entry_size inode_core_size
link_planned = refl

planned-IsEncodable : IsEncodable (plan_layout link_writer) planned
unfolding plan_layout fits_compact calc_xattr_size entries_size file_size inode_data
planned-IsEncodable = record {
  planned_compact = refl;
  planned_xattrs = refl;
  few_xattrs = omega arith;
  layout = omega arith;
  mode = omega arith;
  uid = omega arith;
  gid = omega arith;
  nlink = omega arith;
  size = omega arith;
  small = λ n. omega arith;
  data_fits = omega arith;
  mtime = omega arith;
  mtime_ns = omega arith;
}

abbrev out : Bytes
out = (write_metadata_inodes-plan_layout link_writer writer-IsBlockSize link_writer-IsSourced).0

abbrev written_image : Image
written_image = image_of (zeros 2048 ++ (out ++ zeros 1024))

written_image-Holds : Holds written_image (zeros 2048) out (zeros 1024)
written_image-Holds = record {
  device = refl;
  start = length-replicate {A = ℕ} 2048 0 ∙ (unfold meta_start_pos in refl);
  room = unfold block_size in omega (arith, length-replicate {A = ℕ} 1024 0);
}

same_build_time : (plan_layout link_writer).build_time ≡ 100
unfolding plan_layout
same_build_time = refl

same_block_size : block_size written_image ≡ (plan_layout link_writer).block_size
unfolding plan_layout block_size
same_block_size = refl

read_link-write_metadata_inodes_example :
    read_link written_image 0
    ≡ (if ltb max_symlink_size (length hello) then err invalid else ok hello)
read_link-write_metadata_inodes_example =
    read_link-write_metadata_inodes written_image link_writer (zeros 2048) out (zeros 1024) [] []
      planned writer-IsBlockSize link_writer-IsSourced link_planned planned-IsEncodable
      same_build_time same_block_size
      (write_metadata_inodes-plan_layout link_writer writer-IsBlockSize link_writer-IsSourced).1
      written_image-Holds refl refl
