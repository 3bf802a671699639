-- ===== src/Writer/Build.antt =====
-- Close of mkfs.go: buildErofsTree, fsToErofs, the walk of planLayout (layout.go) and fixParentNids.
-- buildErofsTree goes breadth first, and what it builds does not show it: a tree, with the children of a
-- directory in the order of their names.
pub mod Levels
pub mod Linked
use Prim.Native.Nat.{min}
use go_erofs.Prelude.{
  ℕ, zero, suc, ◌+◌, ◌-◌, ◌*◌, ◌/◌, ◌%◌, ◌^◌, ◌==◌, ltb, if◌then◌else◌, Bool, true, false, not,
  ◌&&◌, Option, none, some, List, [], ◌∷◌, ◌++◌, length, take, drop, is_empty,
}
use go_erofs.Prelude.Bytes.{Bytes}
use go_erofs.Image.{Child, ErofsEntry, ErofsWriter}
use go_erofs.Image.Data.{blocks_for, write_seekable}
use go_erofs.Image.Dirents.{sort_by}
use go_erofs.Image.Plan.{plan_layout}
use go_erofs.Mode.{stat_type, stat_type_reg, stat_type_dir, file_type_dir, mode_to_file_type}
use go_erofs.Writer.{
  FsEntry, Failure, os_error, already_closed, Reply, failed, done, Writer, is_dir, entry_at,
}
use go_erofs.Writer.BlockSize.{resolve_block_size}
use go_erofs.Writer.Calls.{unless_failed}
use go_erofs.Writer.Paths.{base}

abbrev concat : List Bytes → Bytes
concat [] = []
concat (p ∷ ps) = p ++ concat ps

-- What the reader of a regular file delivers: the direct data, or a section of the spool.
abbrev pub reader_of : Option (List Bytes) → Option Bytes → ℕ → ℕ → Option Bytes
reader_of (some pieces) spool off size = some (concat pieces)
reader_of none (some held) off size = some (take size (drop off held))
reader_of none none off size = none

abbrev pub is_none {ℓ} : {A : Type ℓ} → Option A → Bool
is_none none = true
is_none (some a) = false

abbrev pub nlink_of : FsEntry → ℕ
nlink_of e = if e.nlink_set then e.nlink else if is_dir e then 2 else 1

unfoldable pub fs_to_erofs : Writer → FsEntry → ErofsEntry
fs_to_erofs w e = record {
  mode = e.mode;
  uid = e.uid;
  gid = e.gid;
  mtime = e.mtime;
  mtime_ns = e.mtime_ns;
  nlink = nlink_of e;
  size = e.size;
  rdev = e.rdev;
  children = [];
  sym_target = e.link_target;
  chunks = e.chunks;
  contiguous = e.contiguous;
  chunk_bits = 0;
  metadata_only = e.metadata_only;
  contents =
      if is_none w.data_file
        && is_empty e.chunks
        && not e.metadata_only
        && stat_type e.mode == stat_type_reg
        && ltb 0 e.size
      then reader_of e.direct_data w.spool e.spool_off e.size
      else none;
  xattrs = e.xattrs;
  nid = 0;
  parent_nid = 0;
  layout = 0;
  compact = false;
  xattr_size = 0;
  trailing_size = 0;
  data_blk_addr = 0;
}

-- The entries as buildErofsTree links them.
mutual
  pub data Tree : Type 0 where
    branch : Bytes → ErofsEntry → Forest → Tree

  pub data Forest : Type 0 where
    bare : Forest
    grown : Tree → Forest → Forest

abbrev pub name_at : Writer → ℕ → Bytes
name_at w i = base (entry_at i w.entries).path

-- The children that are not removed, and the directories among them.
abbrev pub live_children : Writer → List ℕ → List ℕ
live_children w [] = []
live_children w (c ∷ cs) =
    let rest = live_children w cs in if (entry_at c w.entries).removed then rest else c ∷ rest

abbrev pub count_dirs : Writer → List ℕ → ℕ
count_dirs w [] = 0
count_dirs w (c ∷ cs) =
    let rest = count_dirs w cs in if is_dir (entry_at c w.entries) then suc rest else rest

-- A count of children is a uint32.
abbrev pub with_nlink : Writer → FsEntry → ErofsEntry → ErofsEntry
with_nlink w e er =
    if not e.nlink_set && is_dir e
    then record er { nlink = (2 + count_dirs w (live_children w e.children)) % 2 ^ 32 }
    else er

abbrev pub forest_of : (ℕ → Tree) → List ℕ → Forest
forest_of tree_of [] = bare
forest_of tree_of (c ∷ cs) = grown (tree_of c) (forest_of tree_of cs)

-- A child comes after its parent, so that there are no more levels than entries.
unfoldable pub build_tree : ℕ → Writer → ℕ → Tree
unfolding fs_to_erofs sort_by base
build_tree zero w i = branch (name_at w i) (fs_to_erofs w (entry_at i w.entries)) bare
build_tree (suc fuel) w i =
    let e = entry_at i w.entries in
    branch (name_at w i) (with_nlink w e (fs_to_erofs w e)) (
      if is_dir e
      then forest_of (build_tree fuel w) (sort_by (name_at w) (live_children w e.children))
      else bare)

unfoldable mutual
  pub tree_size : Tree → ℕ
  tree_size (branch n e ts) = suc (forest_size ts)

  pub forest_size : Forest → ℕ
  forest_size bare = 0
  forest_size (grown t ts) = tree_size t + forest_size ts

abbrev pub tree_child : ℕ → Tree → Child
tree_child i (branch n e ts) = record { name = n; file_type = mode_to_file_type e.mode; index = i }

-- The children of a directory, the first of which is the entry `start` of the walk.
unfoldable pub child_list : ℕ → Forest → List Child
unfolding tree_size
child_list start bare = []
child_list start (grown t ts) = tree_child start t ∷ child_list (start + tree_size t) ts

-- walk: each entry before its children.
unfoldable mutual
  unfolding child_list tree_size

  pub walk_tree : ℕ → Tree → List ErofsEntry
  walk_tree start (branch n e ts) =
      record e { children = child_list (start + 1) ts } ∷ walk_forest (start + 1) ts

  pub walk_forest : ℕ → Forest → List ErofsEntry
  walk_forest start bare = []
  walk_forest start (grown t ts) = walk_tree start t ++ walk_forest (start + tree_size t) ts

abbrev set_parent : ℕ → ℕ → List ErofsEntry → List ErofsEntry
set_parent nid i [] = []
set_parent nid zero (e ∷ es) = record e { parent_nid = nid } ∷ es
set_parent nid (suc i) (e ∷ es) = e ∷ set_parent nid i es

abbrev set_parents : ℕ → List Child → List ErofsEntry → List ErofsEntry
set_parents nid [] es = es
set_parents nid (c ∷ cs) es =
    set_parents nid cs (if c.file_type == file_type_dir then set_parent nid c.index es else es)

abbrev each_parent : List ErofsEntry → List ErofsEntry → List ErofsEntry
each_parent [] es = es
each_parent (p ∷ ps) es = each_parent ps (set_parents p.nid p.children es)

-- fixParentNids(root, root): the root is its own parent.
unfoldable pub fix_parent_nids : ErofsWriter → ErofsWriter
fix_parent_nids w = record w { entries = each_parent w.entries (set_parent w.root_nid 0 w.entries) }

-- for cs := blockSize; cs < 4096; cs <<= 1. A block has 512 bytes or more, so that three rounds do.
unfoldable pub chunk_bits_loop : ℕ → ℕ → ℕ
chunk_bits_loop zero cs = 0
chunk_bits_loop (suc fuel) cs =
    let rest = chunk_bits_loop fuel (cs * 2) in if ltb cs 4096 then suc rest else 0

-- fsys.devices[0] = blocks, where there is a data file
abbrev pub fill_slot : Option Bytes → ℕ → List ℕ → List ℕ
fill_slot none blocks devices = devices
fill_slot (some held) blocks [] = []
fill_slot (some held) blocks (d ∷ devices) = blocks ∷ devices

-- What Close hands to the image writer; `now` is the time of the clock.
unfoldable pub image_writer : ℕ → Writer → ErofsWriter
unfolding build_tree walk_tree chunk_bits_loop
image_writer now w = record {
  entries = walk_tree 0 (build_tree (length w.entries) w 0);
  root_nid = 0;
  meta_blk_addr = 0;
  total_inodes = 0;
  build_time = if w.has_build_time then w.build_time else now;
  build_time_ns = w.build_time_ns;
  devices = fill_slot w.data_file (blocks_for w.block_size w.data_off) w.devices;
  block_size = w.block_size;
  chunk_bits = chunk_bits_loop 3 w.block_size;
}

abbrev or_failure : Option Bytes → Reply Bytes
or_failure none = failed os_error
or_failure (some image) = done image

-- Close, with the image that it writes. An error of the image writer is one of the output's.
unfoldable pub close : ℕ → Writer → Reply Bytes × Writer
unfolding image_writer fix_parent_nids resolve_block_size
close now w =
    let v = resolve_block_size (record w { closed = true }) in
    let ew = image_writer now v in
    unless_failed w.w_err w (
      if w.closed then (failed already_closed, w) else (
        or_failure (write_seekable (fix_parent_nids (plan_layout ew))),
        record v { devices = ew.devices },
      ))
