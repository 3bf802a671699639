-- ===== src/Tests/Resolving.antt =====
-- Paths that are resolved.
use go_erofs.Prelude.{
  zero, suc, ◌<◌, ltb, length, arith, ℕ, refl, ◌≡◌, ◌++◌, [], ◌∷◌, true, false, take, if◌then◌else◌,
  ◌==◌, ◌&&◌,
}
use go_erofs.Prelude.Bytes.{Bytes, zeros, compare_bytes}
use go_erofs.Mode.{erofs_ftype_to_file_mode, mode_dir, mode_symlink}
use go_erofs.Reader.Directory.{
  find_block_loop, block_first_name, lookup_block, lookup_block_loop, block_dirent,
}
use go_erofs.Reader.Info.{parse_inode}
use go_erofs.Reader.Blocks.{calculate_blocks, read_bounded}
use go_erofs.Disk.Codec.{decode_dirent}
use go_erofs.Writer.Paths.{segments, path_clean}
use go_erofs.Reader.Reading.{read_link}
use go_erofs.Reader.Resolving.Found.{
  Leads, here, into, walked, last_of, resolve-Leads, resolve_cycle,
}
use go_erofs.Reader.Resolving.Reached.{Reaches, resolve-IsReached}
use go_erofs.Reader.{Image, ok, err, loop, block_size, meta_start_pos}
use go_erofs.Reader.Resolving.{
  is_symlink, name_or_empty, Place, lookup_in_dir, resolve, walk_name, root_place, link,
  follow_target,
}
use go_erofs.Reader.{Inode, invalid}
use go_erofs.Reader.Info.{read_info}
use go_erofs.Reader.Blocks.{load_block}
use go_erofs.Reader.Reading.Serves.{Loaded}
use go_erofs.Reader.Resolving.{max_read_file_size, read_file}
use go_erofs.Reader.Resolving.Contents.{read_file-Leads}
use go_erofs.Xattr.{xattr_size_of_count}
use go_erofs.Tests.Inodes.{super_block}

-- ".", "..", the file "a" and the link "b"
abbrev dir_block : Bytes
dir_block =
    (0 ∷ 0 ∷ 0 ∷ 0 ∷ 0 ∷ 0 ∷ 0 ∷ 0 ∷ 48 ∷ 0 ∷ 2 ∷ 0 ∷ [])
    ++ ((0 ∷ 0 ∷ 0 ∷ 0 ∷ 0 ∷ 0 ∷ 0 ∷ 0 ∷ 49 ∷ 0 ∷ 2 ∷ 0 ∷ [])
        ++ ((2 ∷ 0 ∷ 0 ∷ 0 ∷ 0 ∷ 0 ∷ 0 ∷ 0 ∷ 51 ∷ 0 ∷ 1 ∷ 0 ∷ [])
            ++ ((4 ∷ 0 ∷ 0 ∷ 0 ∷ 0 ∷ 0 ∷ 0 ∷ 0 ∷ 52 ∷ 0 ∷ 7 ∷ 0 ∷ [])
                ++ (b'.' ∷ b'.' ∷ b'.' ∷ b'a' ∷ b'b' ∷ []))))

abbrev inode_bytes : ℕ → ℕ → Bytes
inode_bytes size block =
    (0 ∷ 0 ∷ 0 ∷ 0 ∷ 0 ∷ 0 ∷ 1 ∷ 0 ∷ size ∷ 0 ∷ 0 ∷ 0 ∷ 0 ∷ 0 ∷ 0 ∷ 0 ∷ block ∷ 0 ∷ 0 ∷ 0 ∷ [])
    ++ zeros 12

-- The root directory is inode 0, with its block 3; the file is inode 2, with its data in block 6; the link is inode 4, with its target, its own name,
-- in block 5.
abbrev stored : ℕ → Bytes
stored off =
    if off == 1536
    then dir_block
    else if off == 2048
    then inode_bytes 53 3
    else if off == 2112
    then inode_bytes 2 6
    else if off == 2176
    then inode_bytes 1 5
    else if off == 2560
    then b'b' ∷ []
    else if off == 3072
    then b'h' ∷ b'i' ∷ []
    else if off == 3073
    then b'i' ∷ []
    else []

abbrev image : Image
image = record {
  sb = super_block;
  meta = λ off n. ok (take n (stored off ++ zeros n));
  devices = [];
  device_id_mask = 0;
}

look_a : lookup_in_dir image 0 (b'a' ∷ []) ≡ ok (2, 0)
unfolding lookup_in_dir find_block_loop parse_inode block_size meta_start_pos calculate_blocks
    read_bounded block_first_name decode_dirent compare_bytes lookup_block lookup_block_loop
    block_dirent erofs_ftype_to_file_mode
look_a = refl

look_b : lookup_in_dir image 0 (b'b' ∷ []) ≡ ok (4, mode_symlink)
unfolding lookup_in_dir find_block_loop parse_inode block_size meta_start_pos calculate_blocks
    read_bounded block_first_name decode_dirent compare_bytes lookup_block lookup_block_loop
    block_dirent erofs_ftype_to_file_mode
look_b = refl

abbrev path_a : Bytes
path_a = b'/' ∷ b'a' ∷ []

abbrev path_b : Bytes
path_b = b'b' ∷ []

path_a-Leads : Leads (lookup_in_dir image) 0 mode_dir (segments (walked path_a)) 2 0
unfolding segments name_or_empty path_clean
path_a-Leads = into 0 2 0 2 0 (b'a' ∷ []) [] look_a refl refl (here 2 0)

resolve-Leads_example :
    resolve image path_a true
    ≡ ok (record { nid = 2; ftype = 0; basename = last_of [] (segments (walked path_a)) })
resolve-Leads_example = resolve-Leads image path_a true 2 0 path_a-Leads

abbrev place_a : Place
place_a = record { nid = 2; ftype = 0; basename = last_of [] (segments (walked path_a)) }

resolve-IsReached_example : Reaches (lookup_in_dir image) 0 2 0 × ((true && is_symlink 0) ≡ false)
resolve-IsReached_example =
    resolve-IsReached image path_a true place_a (resolve-Leads image path_a true 2 0 path_a-Leads)

path_b-met :
    walk_name
      (lookup_in_dir image)
      true
      (root_place 0 (walked path_b))
      []
      (segments (walked path_b))
    ≡ link 4 [] []
unfolding walk_name segments name_or_empty path_clean
path_b-met = rw look_b refl

target_b : read_link image 4 ≡ ok path_b
unfolding read_link parse_inode block_size meta_start_pos calculate_blocks read_bounded
target_b = refl

cycle_b : follow_target path_b [] [] ≡ walked path_b
unfolding name_or_empty follow_target
cycle_b = refl

resolve_cycle_example : resolve image path_b true ≡ err loop
resolve_cycle_example = resolve_cycle image path_b true 4 [] [] path_b path_b-met target_b cycle_b

abbrev inode_a : Inode
inode_a = record {
  nid = 2;
  icsize = 32;
  xsize = 0;
  inode_layout = 0;
  inode_data = 6;
  size = 2;
  raw_mode = 0;
  uid = 0;
  gid = 0;
  nlink = 1;
  mtime = 100;
  mtime_ns = 7;
}

inode_a_read : read_info image 2 ≡ ok inode_a
unfolding read_info parse_inode block_size meta_start_pos xattr_size_of_count
inode_a_read = refl

abbrev data_a : Bytes
data_a = b'h' ∷ b'i' ∷ []

inode_a_loaded : (pos : ℕ) → pos < 2 → Loaded image inode_a data_a pos
unfolding load_block block_size calculate_blocks read_bounded
inode_a_loaded zero h = record { end = 2; after = h; within = omega arith; loads = refl }
inode_a_loaded (suc zero) h = record { end = 2; after = h; within = omega arith; loads = refl }
inode_a_loaded (suc (suc pos)) h = absurd (omega arith)

read_file-Leads_example :
    read_file image path_a
    ≡ (if ltb max_read_file_size (length data_a) then err invalid else ok data_a)
read_file-Leads_example =
    read_file-Leads image path_a 2 0 inode_a data_a path_a-Leads refl inode_a_read
      (record { size = refl; load = inode_a_loaded })
