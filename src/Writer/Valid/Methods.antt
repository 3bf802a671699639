-- ===== src/Writer/Valid/Methods.antt =====
-- Each method of the Writer and of File of mkfs.go, and add and setBlockSize, keeps what holds of a
-- Writer between two calls.
use go_erofs.Prelude.{
  ℕ, ◌+◌, ◌%◌, ◌^◌, ◌≡◌, refl, Bool, true, false, if◌then◌else◌, Option, none, some, [], Bool-cases,
  inl, inr, arith,
}
use go_erofs.Prelude.Bytes.{Bytes}
use go_erofs.Mode.{stat_type, stat_type_reg, stat_type_dir, stat_type_symlink, go_mode_to_unix_mode}
use go_erofs.Writer.{FsEntry, Writer, Reply, failed, done, at_root, new_entry, is_dir, update_entry}
use go_erofs.Writer.Paths.{root_path, same_bytes, clean_path}
use go_erofs.Writer.Calls.{
  insert, forget, set_mode, mkdir, symlink, mknod, spool_or, ensure_spool, set_offsets,
  start_spooled, start_at, start_file, create, set_permissions, chmod, set_owner, chown, set_times,
  chtimes, add_xattr, setxattr, override_nlink, set_nlink,
}
use go_erofs.Writer.Valid.{
  IsValid, IsQuiet, root_alive, update_alive-IsValid, update_kind-IsValid, carry-IsValid,
}
use go_erofs.Writer.Valid.Operations.{
  made-IsValid, insert-IsValid, forget-same, unless_failed-IsValid, at_path-IsValid,
}

pub quiet :
    (f : FsEntry → FsEntry)
    → ((e : FsEntry)
        → ((f e).path ≡ e.path) × ((f e).removed ≡ e.removed) × ((f e).children ≡ e.children))
    → IsQuiet f
quiet f h = record { path = λ e. (h e).0; removed = λ e. (h e).1; children = λ e. (h e).2 }

pub mkdir-IsValid : (p : Bytes) (perm : ℕ) (w : Writer) → IsValid w → IsValid (mkdir p perm w).1
unfolding mkdir
mkdir-IsValid p perm w h =
    let q = clean_path p in
    let mode = stat_type_dir + perm % 2 ^ 9 in
    unless_failed-IsValid w.w_err w
      (if same_bytes q root_path
        then (done tt, update_entry 0 (set_mode mode) w)
        else forget (insert (new_entry q mode) w))
      h
      (elim (Bool-cases (same_bytes q root_path)) [
        | inl s ↦ rw s (
            update_alive-IsValid (set_mode mode) (quiet (set_mode mode) (λ e. (refl, refl, refl))) 0
              w (root_alive w h) h)
        | inr s ↦
            rw (s, forget-same (insert (new_entry q mode) w))
              (insert-IsValid p (new_entry q mode) w refl s refl refl h)
      ])

pub symlink-IsValid : (t p : Bytes) (w : Writer) → IsValid w → IsValid (symlink t p w).1
unfolding symlink
symlink-IsValid t p w h =
    let e = record (new_entry (clean_path p) (stat_type_symlink + 0o777)) { link_target = t } in
    unless_failed-IsValid w.w_err w
      (if same_bytes (clean_path p) root_path then (failed at_root, w) else forget (insert e w)) h
      (made-IsValid p e w at_root refl refl refl h)

pub mknod-IsValid :
    (p : Bytes) (mode rdev : ℕ) (w : Writer) → IsValid w → IsValid (mknod p mode rdev w).1
unfolding mknod
mknod-IsValid p mode rdev w h =
    let e = record (new_entry (clean_path p) mode) { rdev = rdev } in
    unless_failed-IsValid w.w_err w
      (if same_bytes (clean_path p) root_path then (failed at_root, w) else forget (insert e w)) h
      (made-IsValid p e w at_root refl refl refl h)

offsets-IsValid :
    (s o i : ℕ) (w : Writer) → IsValid w → IsValid (update_entry i (set_offsets s o) w)
offsets-IsValid s o i w h =
    update_kind-IsValid (set_offsets s o) (quiet (set_offsets s o) (λ e. (refl, refl, refl))) i w
      (λ e. refl) h

spool_or-IsValid :
    (o : Option Bytes) (fails : Bool) (w : Writer) → IsValid w → IsValid (spool_or o fails w).1
spool_or-IsValid (some held) fails w h = h
spool_or-IsValid none true w h = h
spool_or-IsValid none false w h = carry-IsValid w (record w { spool = some [] }) refl refl h.sized h

start_spooled-IsValid :
    (i : ℕ) (r : Reply (Unit {0}) × Writer) → IsValid r.1 → IsValid (start_spooled i r).1
start_spooled-IsValid i (failed f, w) h = h
start_spooled-IsValid i (done u, w) h = offsets-IsValid w.spool_off w.spool_off i w h

start_at-IsValid :
    (o : Option Bytes) (fails : Bool) (i : ℕ) (w : Writer)
    → IsValid w
    → IsValid (start_at o fails i w).1
unfolding ensure_spool
start_at-IsValid (some held) fails i w h = offsets-IsValid 0 w.data_off i w h
start_at-IsValid none fails i w h =
    start_spooled-IsValid i (ensure_spool fails w) (spool_or-IsValid w.spool fails w h)

start_file-IsValid :
    (fails : Bool) (r : Reply ℕ × Writer) → IsValid r.1 → IsValid (start_file fails r).1
start_file-IsValid fails (failed f, w) h = h
start_file-IsValid fails (done i, w) h = start_at-IsValid w.data_file fails i w h

pub create-IsValid :
    (fails : Bool) (p : Bytes) (w : Writer) → IsValid w → IsValid (create fails p w).1
unfolding create
create-IsValid fails p w h =
    let q = clean_path p in
    let e = new_entry q (stat_type_reg + 0o644) in
    unless_failed-IsValid w.w_err w
      (if same_bytes q root_path then (failed at_root, w) else start_file fails (insert e w)) h
      (elim (Bool-cases (same_bytes q root_path)) [
        | inl s ↦ rw s h
        | inr s ↦
            rw s (start_file-IsValid fails (insert e w) (insert-IsValid p e w refl s refl refl h))
      ])

pub permissions_kind : (mode : ℕ) (e : FsEntry) → is_dir (set_permissions mode e) ≡ is_dir e
unfolding set_permissions
permissions_kind mode e =
    let p = go_mode_to_unix_mode mode % 2 ^ 12 in
    let same : stat_type (stat_type e.mode + p) ≡ stat_type e.mode = omega arith in rw same refl

pub permissions-IsQuiet : (mode : ℕ) → IsQuiet (set_permissions mode)
unfolding set_permissions
permissions-IsQuiet mode = quiet (set_permissions mode) (λ e. (refl, refl, refl))

pub chmod-IsValid : (p : Bytes) (mode : ℕ) (w : Writer) → IsValid w → IsValid (chmod p mode w).1
unfolding chmod
chmod-IsValid p mode w h = at_path-IsValid (set_permissions mode) p w (permissions-IsQuiet mode) h

pub chown-IsValid :
    (p : Bytes) (uid gid : ℕ) (w : Writer) → IsValid w → IsValid (chown p uid gid w).1
unfolding chown
chown-IsValid p uid gid w h =
    at_path-IsValid (set_owner uid gid) p w (quiet (set_owner uid gid) (λ e. (refl, refl, refl))) h

pub chtimes-IsValid :
    (p : Bytes) (a an m mn : ℕ) (w : Writer) → IsValid w → IsValid (chtimes p a an m mn w).1
unfolding chtimes
chtimes-IsValid p a an m mn w h =
    at_path-IsValid (set_times a an m mn) p w
      (quiet (set_times a an m mn) (λ e. (refl, refl, refl))) h

pub setxattr-IsValid : (p k v : Bytes) (w : Writer) → IsValid w → IsValid (setxattr p k v w).1
unfolding setxattr
setxattr-IsValid p k v w h =
    at_path-IsValid (add_xattr k v) p w
      (unfold add_xattr in quiet (add_xattr k v) (λ e. (refl, refl, refl))) h

pub set_nlink-IsValid : (p : Bytes) (n : ℕ) (w : Writer) → IsValid w → IsValid (set_nlink p n w).1
unfolding set_nlink
set_nlink-IsValid p n w h =
    at_path-IsValid (override_nlink n) p w (quiet (override_nlink n) (λ e. (refl, refl, refl))) h
