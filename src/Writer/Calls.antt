-- ===== src/Writer/Calls.antt =====
-- The methods of the Writer of mkfs.go that make an entry or set its metadata. Each takes the Writer
-- and returns it with an error or a value. Times come as seconds and nanoseconds.
use go_erofs.Prelude.{
  ℕ, ◌+◌, ◌%◌, ◌^◌, if◌then◌else◌, Bool, true, false, Option, none, some, [], length,
}
use go_erofs.Prelude.Bytes.{Bytes}
use go_erofs.Mode.{stat_type, stat_type_reg, stat_type_dir, stat_type_symlink, go_mode_to_unix_mode}
use go_erofs.Writer.{
  FsEntry, new_entry, Failure, at_root, os_error, Reply, failed, done, Writer, File, update_entry,
}
use go_erofs.Writer.Maps.{put}
use go_erofs.Writer.Paths.{root_path, same_bytes, clean_path}
use go_erofs.Writer.Tree.{add_child, ensure_parent, check_path, lookup}

-- checkPath, ensureParent and addChild; the index of the new entry.
abbrev pub insert_unless : Option Failure → FsEntry → Writer → Reply ℕ × Writer
insert_unless (some f) e w = (failed f, w)
insert_unless none e w =
    let w' = ensure_parent e.path w in (done (length w'.entries), add_child e w')

unfoldable pub insert : FsEntry → Writer → Reply ℕ × Writer
unfolding check_path add_child ensure_parent
insert e w = insert_unless (check_path e.path w) e w

abbrev pub forget : Reply ℕ × Writer → Reply (Unit {0}) × Writer
forget (failed f, w) = (failed f, w)
forget (done i, w) = (done tt, w)

-- if fsys.wErr != nil { return fsys.wErr }
abbrev pub unless_failed {ℓ} :
    {A : Type ℓ} → Option Failure → Writer → Reply A × Writer → Reply A × Writer
unless_failed none w next = next
unless_failed (some f) w next = (failed f, w)

abbrev pub set_mode : ℕ → FsEntry → FsEntry
set_mode m e = record e { mode = m }

-- perm.Perm() is the lowest nine bits.
unfoldable pub mkdir : Bytes → ℕ → Writer → Reply (Unit {0}) × Writer
unfolding clean_path same_bytes insert
mkdir p perm w =
    let q = clean_path p in
    let mode = stat_type_dir + perm % 2 ^ 9 in
    unless_failed w.w_err w (
      if same_bytes q root_path
      then (done tt, update_entry 0 (set_mode mode) w)
      else forget (insert (new_entry q mode) w))

unfoldable pub symlink : Bytes → Bytes → Writer → Reply (Unit {0}) × Writer
unfolding clean_path same_bytes insert
symlink target p w =
    let q = clean_path p in
    unless_failed w.w_err w (
      if same_bytes q root_path
      then (failed at_root, w)
      else forget
          (insert (record (new_entry q (stat_type_symlink + 0o777)) { link_target = target }) w))

unfoldable pub mknod : Bytes → ℕ → ℕ → Writer → Reply (Unit {0}) × Writer
unfolding clean_path same_bytes insert
mknod p mode rdev w =
    let q = clean_path p in
    unless_failed w.w_err w (
      if same_bytes q root_path
      then (failed at_root, w)
      else forget (insert (record (new_entry q mode) { rdev = rdev }) w))

-- An open spool is kept, and the system may fail to make one.
abbrev pub spool_or : Option Bytes → Bool → Writer → Reply (Unit {0}) × Writer
spool_or (some held) temp_fails w = (done tt, w)
spool_or none true w = (failed os_error, w)
spool_or none false w = (done tt, record w { spool = some [] })

-- ensureSpool
unfoldable pub ensure_spool : Bool → Writer → Reply (Unit {0}) × Writer
ensure_spool temp_fails w = spool_or w.spool temp_fails w

abbrev pub set_offsets : ℕ → ℕ → FsEntry → FsEntry
set_offsets spool start e = record e { spool_off = spool; data_start_off = start }

abbrev new_file : ℕ → ℕ → File
new_file i off = record { entry = i; data_start_off = off; written = 0; closed = false }

-- The file handle of an entry that has been made, where the data goes to the spool.
abbrev pub start_spooled : ℕ → Reply (Unit {0}) × Writer → Reply File × Writer
start_spooled i (failed f, w) = (failed f, w)
start_spooled i (done u, w) =
    (done (new_file i w.spool_off), update_entry i (set_offsets w.spool_off w.spool_off) w)

abbrev pub start_at : Option Bytes → Bool → ℕ → Writer → Reply File × Writer
start_at (some held) temp_fails i w =
    (done (new_file i w.data_off), update_entry i (set_offsets 0 w.data_off) w)
start_at none temp_fails i w = start_spooled i (ensure_spool temp_fails w)

abbrev pub start_file : Bool → Reply ℕ × Writer → Reply File × Writer
start_file temp_fails (failed f, w) = (failed f, w)
start_file temp_fails (done i, w) = start_at w.data_file temp_fails i w

unfoldable pub create : Bool → Bytes → Writer → Reply File × Writer
unfolding clean_path same_bytes insert ensure_spool
create temp_fails p w =
    let q = clean_path p in
    unless_failed w.w_err w (
      if same_bytes q root_path
      then (failed at_root, w)
      else start_file temp_fails (insert (new_entry q (stat_type_reg + 0o644)) w))

-- lookup, and an assignment to the entry.
abbrev pub assign : (FsEntry → FsEntry) → Reply ℕ → Writer → Reply (Unit {0}) × Writer
assign f (failed e) w = (failed e, w)
assign f (done i) w = (done tt, update_entry i f w)

unfoldable pub at_path : (FsEntry → FsEntry) → Bytes → Writer → Reply (Unit {0}) × Writer
unfolding lookup
at_path f p w = unless_failed w.w_err w (assign f (lookup p w) w)

-- e.mode = (e.mode & StatTypeMask) | goModeToUnixMode(mode) & 0o7777
unfoldable pub set_permissions : ℕ → FsEntry → FsEntry
unfolding go_mode_to_unix_mode
set_permissions mode e = record e { mode = stat_type e.mode + go_mode_to_unix_mode mode % 2 ^ 12 }

unfoldable pub chmod : Bytes → ℕ → Writer → Reply (Unit {0}) × Writer
unfolding at_path set_permissions
chmod p mode w = at_path (set_permissions mode) p w

abbrev pub set_owner : ℕ → ℕ → FsEntry → FsEntry
set_owner uid gid e = record e { uid = uid % 2 ^ 32; gid = gid % 2 ^ 32 }

unfoldable pub chown : Bytes → ℕ → ℕ → Writer → Reply (Unit {0}) × Writer
unfolding at_path
chown p uid gid w = at_path (set_owner uid gid) p w

abbrev pub set_times : ℕ → ℕ → ℕ → ℕ → FsEntry → FsEntry
set_times atime atime_ns mtime mtime_ns e = record e {
  atime = atime;
  atime_ns = atime_ns;
  mtime = mtime;
  mtime_ns = mtime_ns;
}

unfoldable pub chtimes : Bytes → ℕ → ℕ → ℕ → ℕ → Writer → Reply (Unit {0}) × Writer
unfolding at_path
chtimes p atime atime_ns mtime mtime_ns w = at_path (set_times atime atime_ns mtime mtime_ns) p w

unfoldable pub add_xattr : Bytes → Bytes → FsEntry → FsEntry
unfolding put
add_xattr attr value e = record e { xattrs = put attr value e.xattrs }

unfoldable pub setxattr : Bytes → Bytes → Bytes → Writer → Reply (Unit {0}) × Writer
unfolding at_path add_xattr
setxattr p attr value w = at_path (add_xattr attr value) p w

abbrev pub override_nlink : ℕ → FsEntry → FsEntry
override_nlink n e = record e { nlink = n; nlink_set = true }

unfoldable pub set_nlink : Bytes → ℕ → Writer → Reply (Unit {0}) × Writer
unfolding at_path
set_nlink p n w = at_path (override_nlink n) p w
