-- ===== src/Writer.antt =====
-- The public Writer of mkfs.go: its state. The entries that Go reaches by pointers are a list, in the
-- order in which they are made, and a pointer is an index into it; the root is the entry 0. An entry
-- that a whiteout removes stays in the list, as it stays in the children of its parent.
pub mod Paths
pub mod Maps
pub mod Tree
pub mod Index
pub mod Calls
pub mod BlockSize
pub mod Files
pub mod Copy
pub mod Start
pub mod Valid
pub mod Build
use go_erofs.Prelude.{ℕ, zero, suc, Bool, true, false, Option, none, some, List, [], ◌∷◌, ◌==◌, ◌+◌}
use go_erofs.Prelude.Bytes.{Bytes}
use go_erofs.Image.{Chunk}
use go_erofs.Mode.{stat_type, stat_type_dir}
use go_erofs.Writer.Paths.{root_path}
use go_erofs.Writer.Maps.{Dict}

-- `direct_data` is what the reader that bypasses the spool delivers, one piece in each Read, before
-- it gives io.EOF.
pub record FsEntry : Type 0 where
  pub path : Bytes
  pub mode : ℕ
  pub uid : ℕ
  pub gid : ℕ
  pub atime : ℕ
  pub atime_ns : ℕ
  pub mtime : ℕ
  pub mtime_ns : ℕ
  pub nlink : ℕ
  pub nlink_set : Bool
  pub size : ℕ
  pub rdev : ℕ
  pub xattrs : Dict Bytes
  pub link_target : Bytes
  pub chunks : List Chunk
  pub contiguous : Bool
  pub parent : ℕ
  pub children : List ℕ
  pub spool_off : ℕ
  pub data_start_off : ℕ
  pub file_closed : Bool
  pub direct_data : Option (List Bytes)
  pub removed : Bool
  pub metadata_only : Bool

-- &fsEntry{path: p, mode: m}
abbrev pub new_entry : Bytes → ℕ → FsEntry
new_entry p m = record {
  path = p;
  mode = m;
  uid = 0;
  gid = 0;
  atime = 0;
  atime_ns = 0;
  mtime = 0;
  mtime_ns = 0;
  nlink = 0;
  nlink_set = false;
  size = 0;
  rdev = 0;
  xattrs = [];
  link_target = [];
  chunks = [];
  contiguous = false;
  parent = 0;
  children = [];
  spool_off = 0;
  data_start_off = 0;
  file_closed = false;
  direct_data = none;
  removed = false;
  metadata_only = false;
}

-- The errors that the operations make, each with a text of its own in the code, and those of the
-- operating system.
pub data Failure : Type 0 where
  fs_closed duplicate_path at_root path_not_found already_closed file_closed : Failure
  block_size_range block_size_power block_size_conflict os_error : Failure

-- A value and an error that is nil, or an error.
pub data Reply {ℓ} (A : Type ℓ) : Type ℓ where
  failed : Failure → Reply A
  done : A → Reply A

-- A file of the operating system that is written at its end: what it holds.
pub record Writer : Type 0 where
  pub closed : Bool
  pub block_size : ℕ
  pub build_time : ℕ
  pub build_time_ns : ℕ
  pub has_build_time : Bool
  pub w_err : Option Failure
  pub entries : List FsEntry
  pub by_path : Dict ℕ
  pub devices : List ℕ
  pub copy_metadata_only : Bool
  pub copy_merge : Bool
  pub copy_device_id : ℕ
  pub data_file : Option Bytes
  pub data_off : ℕ
  pub spool : Option Bytes
  pub spool_off : ℕ

-- type File, with the entry as an index. The Writer that it belongs to is an argument of what it does.
pub record File : Type 0 where
  pub entry : ℕ
  pub data_start_off : ℕ
  pub written : ℕ
  pub closed : Bool

abbrev pub is_dir : FsEntry → Bool
is_dir e = stat_type e.mode == stat_type_dir

-- The entry that a pointer leads to. Every pointer of a writer leads to an entry; elsewhere an empty
-- one is given.
abbrev pub entry_at : ℕ → List FsEntry → FsEntry
entry_at i [] = new_entry root_path 0
entry_at zero (e ∷ es) = e
entry_at (suc i) (e ∷ es) = entry_at i es

-- Assigning to fields of the entry at an index.
abbrev pub update : ℕ → (FsEntry → FsEntry) → List FsEntry → List FsEntry
update i f [] = []
update zero f (e ∷ es) = f e ∷ es
update (suc i) f (e ∷ es) = e ∷ update i f es

abbrev pub update_entry : ℕ → (FsEntry → FsEntry) → Writer → Writer
update_entry i f w = record w { entries = update i f w.entries }
