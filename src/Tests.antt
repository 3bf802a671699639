-- ===== src/Tests.antt =====
-- The theorems at concrete inputs.
mod Layout
mod Writers
mod Attributes
mod Inodes
mod Modes
mod Directories
mod Images
mod Blocks
mod Readings
mod Resolving
use go_erofs.Prelude.{ℕ, refl, false, true, none, some, List, [], ◌∷◌, ◌+◌, ◌*◌, ◌≡◌, arith}
use go_erofs.Prelude.Bytes.{Bytes}
use go_erofs.Xattr.{Attrs}
use go_erofs.Image.{Child, Chunk, ErofsEntry, ErofsWriter}
use go_erofs.Image.Plan.Placement.{IsBlockSize}

-- "user.k" = "v"
abbrev pub attrs : Attrs
attrs = ((b'u' ∷ b's' ∷ b'e' ∷ b'r' ∷ b'.' ∷ b'k' ∷ []), b'v' ∷ []) ∷ []

abbrev pub hello : Bytes
hello = b'h' ∷ b'e' ∷ b'l' ∷ b'l' ∷ b'o' ∷ []

-- A file of five bytes with an attribute, as a caller makes it.
abbrev pub file_entry : ErofsEntry
file_entry = record {
  mode = 0o100644;
  uid = 1000;
  gid = 1000;
  mtime = 100;
  mtime_ns = 0;
  nlink = 1;
  size = 5;
  rdev = 0;
  children = [];
  sym_target = [];
  chunks = [];
  contiguous = false;
  chunk_bits = 0;
  metadata_only = false;
  contents = some hello;
  xattrs = attrs;
  nid = 0;
  parent_nid = 0;
  layout = 0;
  compact = false;
  xattr_size = 0;
  trailing_size = 0;
  data_blk_addr = 0;
}

abbrev pub root_entry : ErofsEntry
root_entry = record file_entry {
  mode = 0o040755;
  mtime = 99;
  nlink = 2;
  size = 0;
  children = record { name = b'a' ∷ []; file_type = 1; index = 1 } ∷ [];
  contents = none;
  xattrs = [];
}

abbrev pub writer : ErofsWriter
writer = record {
  entries = root_entry ∷ file_entry ∷ [];
  root_nid = 0;
  meta_blk_addr = 4;
  total_inodes = 0;
  build_time = 100;
  build_time_ns = 7;
  devices = [];
  block_size = 512;
  chunk_bits = 0;
}

pub writer-IsBlockSize : IsBlockSize writer.block_size
writer-IsBlockSize = record { units = 16; in_units = refl; min = omega arith }
