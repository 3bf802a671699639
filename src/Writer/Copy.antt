-- ===== src/Writer/Copy.antt =====
-- add and CopyFrom of mkfs.go, for a source that is not an image of this library. What a source and
-- the platform say of a file is a parameter: a Node for each call of the function that fs.WalkDir
-- gets, in the order of its walk.
pub mod Walk
pub mod Stored
use go_erofs.Prelude.{
  ℕ, zero, suc, ◌+◌, ◌-◌, ◌%◌, ◌/◌, ◌^◌, ◌==◌, ltb, if◌then◌else◌, Bool, true, false, not, ◌&&◌,
  ◌||◌, Option, none, some, List, [], ◌∷◌, ◌++◌, length, drop, is_empty, map,
}
use go_erofs.Prelude.Bytes.{Bytes}
use go_erofs.Image.{Chunk, is_some}
use go_erofs.Mode.{
  stat_type, stat_type_reg, go_mode_to_unix_mode, type_bits, bit_of, mode_dir, mode_symlink,
}
use go_erofs.Writer.{
  FsEntry, new_entry, Failure, os_error, Reply, failed, done, Writer, File, update_entry,
}
use go_erofs.Writer.Maps.{Dict, get}
use go_erofs.Writer.Paths.{root_path, same_bytes, base, dir, path_clean, clean_path}
use go_erofs.Writer.Tree.{add_child, ensure_parent, remove, remove_children}
use go_erofs.Writer.Calls.{unless_failed}
use go_erofs.Writer.BlockSize.{set_block_size}
use go_erofs.Writer.Files.{OsWrite, Wrote, read_from, close_file}

-- builder.Entry; `contents` is what its reader delivers, one piece in each Read.
pub record BuilderEntry : Type 0 where
  pub uid : ℕ
  pub gid : ℕ
  pub mtime : ℕ
  pub mtime_ns : ℕ
  pub nlink : ℕ
  pub rdev : ℕ
  pub xattrs : Dict Bytes
  pub link_target : Bytes
  pub chunks : List Chunk
  pub contiguous : Bool
  pub contents : Option (List Bytes)

-- &builder.Entry{}
abbrev pub blank : BuilderEntry
blank = record {
  uid = 0;
  gid = 0;
  mtime = 0;
  mtime_ns = 0;
  nlink = 0;
  rdev = 0;
  xattrs = [];
  link_target = [];
  chunks = [];
  contiguous = false;
  contents = none;
}

-- if be.Nlink > 0 { fe.nlink = be.Nlink; fe.nlinkSet = true }
abbrev pub take_nlink : ℕ → FsEntry → FsEntry
take_nlink n e = if ltb 0 n then record e { nlink = n; nlink_set = true } else e

abbrev pub set_root : ℕ → BuilderEntry → FsEntry → FsEntry
set_root mode be e = take_nlink be.nlink (record e {
  mode = mode;
  uid = be.uid;
  gid = be.gid;
  mtime = be.mtime;
  mtime_ns = be.mtime_ns;
  xattrs = be.xattrs;
})

abbrev pub entry_of : Bytes → ℕ → ℕ → BuilderEntry → FsEntry
entry_of p mode size be = take_nlink be.nlink (record (new_entry p mode) {
  uid = be.uid;
  gid = be.gid;
  mtime = be.mtime;
  mtime_ns = be.mtime_ns;
  size = size;
  rdev = be.rdev;
  xattrs = be.xattrs;
  link_target = be.link_target;
  chunks = be.chunks;
  contiguous = be.contiguous;
})

-- *existing = *fe, with the tree linkage kept
abbrev pub overwrite : FsEntry → FsEntry → FsEntry
overwrite fe existing = record fe { parent = existing.parent; children = existing.children }

-- Device numbers are uint16s.
abbrev pub shift_device : ℕ → Chunk → Chunk
shift_device offset c = record c { device_id = (c.device_id + offset) % 2 ^ 16 }

abbrev pub set_metadata_only : ℕ → FsEntry → FsEntry
set_metadata_only id e =
    if ltb 0 id
    then record e { metadata_only = true; chunks = map (shift_device (id - 1)) e.chunks }
    else record e { metadata_only = true }

abbrev pub clear_chunks : FsEntry → FsEntry
clear_chunks e = record e { chunks = []; contiguous = false }

abbrev pub set_start : ℕ → FsEntry → FsEntry
set_start off e = record e { data_start_off = off }

abbrev pub set_direct : List Bytes → FsEntry → FsEntry
set_direct pieces e = record e { direct_data = some pieces; file_closed = true }

abbrev pub set_file_closed : FsEntry → FsEntry
set_file_closed e = record e { file_closed = true }

abbrev pub without_file {ℓ} : {A : Type ℓ} → Wrote A → Reply (Unit {0}) × Writer
without_file (failed e, f, w) = (failed e, w)
without_file (done a, f, w) = (done tt, w)

-- f.ReadFrom(be.Data), and f.Close() unless that failed
abbrev pub then_close : OsWrite → Wrote ℕ → Reply (Unit {0}) × Writer
then_close takes (failed e, f, w) = (failed e, w)
then_close takes (done n, f, w) = without_file (close_file takes f w)

abbrev pub store_to : Option Bytes → OsWrite → ℕ → List Bytes → Writer → Reply (Unit {0}) × Writer
store_to (some held) takes i pieces w = then_close takes (
    read_from takes 0 pieces
      (record { entry = i; data_start_off = w.data_off; written = 0; closed = false })
      (update_entry i (set_start w.data_off) w))
store_to none takes i pieces w = (done tt, update_entry i (set_direct pieces) w)

-- The data of a regular file: through a File to the data file, or as a direct reference.
unfoldable pub store_data : OsWrite → ℕ → List Bytes → Writer → Reply (Unit {0}) × Writer
unfolding read_from close_file
store_data takes i pieces w = store_to w.data_file takes i pieces (update_entry i clear_chunks w)

abbrev pub remap : ℕ → Writer → Writer
remap i w =
    if w.copy_metadata_only then update_entry i (set_metadata_only w.copy_device_id) w else w

-- needData, with the data where it holds
abbrev pub needed : ℕ → ℕ → Bool → Option (List Bytes) → Option (List Bytes)
needed mode size metadata_only contents =
    if stat_type mode == stat_type_reg && ltb 0 size && not metadata_only then contents else none

abbrev pub finish_with : Option (List Bytes) → OsWrite → ℕ → Writer → Reply (Unit {0}) × Writer
finish_with (some pieces) takes i w = store_data takes i pieces w
finish_with none takes i w = (done tt, update_entry i set_file_closed w)

unfoldable pub finish_add :
    OsWrite → ℕ → ℕ → ℕ → Option (List Bytes) → Writer → Reply (Unit {0}) × Writer
unfolding store_data
finish_add takes mode size i contents w =
    finish_with (needed mode size w.copy_metadata_only contents) takes i (remap i w)

-- The index of the entry for the path, which is overwritten or made.
abbrev pub place_at : Option ℕ → FsEntry → Writer → ℕ × Writer
place_at (some i) fe w = (i, update_entry i (overwrite fe) w)
place_at none fe w = (length w.entries, add_child fe w)

unfoldable pub place : FsEntry → Writer → ℕ × Writer
unfolding get add_child
place fe w = place_at (get fe.path w.by_path) fe w

-- add, with the mode and the size of the FileInfo and what entryFromSys makes of it.
unfoldable pub add : OsWrite → Bytes → ℕ → ℕ → BuilderEntry → Writer → Reply (Unit {0}) × Writer
unfolding clean_path same_bytes go_mode_to_unix_mode place finish_add ensure_parent
add takes p go_mode size be w =
    let q = clean_path p in
    let mode = go_mode_to_unix_mode go_mode in
    if same_bytes q root_path
    then (done tt, update_entry 0 (set_root mode be) w)
    else let placed = place (entry_of q mode size be) (ensure_parent q w) in
      finish_add takes mode size placed.0 be.contents placed.1
