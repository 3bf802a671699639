-- ===== src/Writer/Tree.antt =====
-- The tree of mkfs.go: addChild, ensureParent, checkPath, lookup, remove, removeChildren and
-- removeSubtree.
use go_erofs.Prelude.{
  ℕ, zero, suc, ◌+◌, if◌then◌else◌, true, false, Option, none, some, List, [], ◌∷◌, ◌++◌, length,
}
use go_erofs.Prelude.Bytes.{Bytes}
use go_erofs.Image.{is_some}
use go_erofs.Mode.{stat_type_dir}
use go_erofs.Writer.{
  FsEntry, new_entry, Failure, fs_closed, duplicate_path, path_not_found, Reply, failed, done,
  Writer, is_dir, entry_at, update,
}
use go_erofs.Writer.Maps.{get, put, delete}
use go_erofs.Writer.Paths.{root_path, same_bytes, dir, clean_path}

abbrev pub at_or_root : Option ℕ → ℕ
at_or_root none = 0
at_or_root (some i) = i

-- byPath[path.Dir(p)], and the root where that is nil
unfoldable pub parent_of : Writer → Bytes → ℕ
unfolding get dir
parent_of w p = at_or_root (get (dir p) w.by_path)

abbrev pub append_child : ℕ → FsEntry → FsEntry
append_child i e = record e { children = e.children ++ (i ∷ []) }

unfoldable pub add_child : FsEntry → Writer → Writer
unfolding parent_of put
add_child e w =
    let i = length w.entries in
    let up = parent_of w e.path in
    record w {
      entries = update up (append_child i) w.entries ++ (record e { parent = up } ∷ []);
      by_path = put e.path i w.by_path;
    }

-- for d := dir; d != "/"; d = path.Dir(d): the paths that are missing, the deepest one first.
unfoldable pub missing_loop : ℕ → Writer → Bytes → List Bytes
unfolding same_bytes get dir
missing_loop zero w d = []
missing_loop (suc fuel) w d =
    let rest = missing_loop fuel w (dir d) in
    if same_bytes d root_path then [] else if is_some (get d w.by_path) then [] else d ∷ rest

-- A path is longer than its directory, so that its length is enough fuel.
unfoldable pub missing_ancestors : Writer → Bytes → List Bytes
unfolding missing_loop
missing_ancestors w d = missing_loop (length d) w d

-- In top-down order: the last one first.
unfoldable pub add_dirs : List Bytes → Writer → Writer
unfolding add_child
add_dirs [] w = w
add_dirs (d ∷ ds) w = add_child (new_entry d (stat_type_dir + 0o755)) (add_dirs ds w)

unfoldable pub ensure_parent : Bytes → Writer → Writer
unfolding add_dirs missing_ancestors
ensure_parent p w = add_dirs (missing_ancestors w (dir p)) w

unfoldable pub check_path : Bytes → Writer → Option Failure
unfolding get
check_path p w =
    if w.closed
    then some fs_closed
    else if is_some (get p w.by_path)
    then some duplicate_path
    else none

unfoldable pub lookup : Bytes → Writer → Reply ℕ
unfolding get clean_path
lookup p w = elim (get (clean_path p) w.by_path) [ none ↦ failed path_not_found | some i ↦ done i ]

-- e.removed = true; delete(byPath, p)
abbrev pub set_removed : FsEntry → FsEntry
set_removed e = record e { removed = true }

unfoldable pub mark : Bytes → ℕ → Writer → Writer
unfolding delete
mark p i w = record w { entries = update i set_removed w.entries; by_path = delete p w.by_path }

-- for _, c := range e.children, with `fuel` levels of directories to go.
unfoldable pub remove_each : ℕ → List ℕ → Writer → Writer
unfolding mark
remove_each fuel [] w = w
remove_each zero (c ∷ cs) w = w
remove_each (suc fuel) (c ∷ cs) w =
    let e = entry_at c w.entries in
    elim e.removed [
      | true ↦ remove_each (suc fuel) cs w
      | false ↦ elim (is_dir e) [
        | true ↦ remove_each (suc fuel) cs (remove_each fuel e.children (mark e.path c w))
        | false ↦ remove_each (suc fuel) cs (mark e.path c w)
      ]
    ]

-- A child is made after its parent, so that there are no more levels than entries.
unfoldable pub remove_subtree : ℕ → Writer → Writer
unfolding remove_each
remove_subtree i w = remove_each (length w.entries) (entry_at i w.entries).children w

unfoldable pub remove_at : Bytes → ℕ → Writer → Writer
unfolding mark remove_subtree
remove_at p i w =
    if is_dir (entry_at i w.entries) then remove_subtree i (mark p i w) else mark p i w

abbrev pub when_found : (ℕ → Writer → Writer) → Option ℕ → Writer → Writer
when_found f none w = w
when_found f (some i) w = f i w

unfoldable pub remove : Bytes → Writer → Writer
unfolding get clean_path remove_at
remove p w = let q = clean_path p in when_found (remove_at q) (get q w.by_path) w

unfoldable pub remove_children : Bytes → Writer → Writer
unfolding get clean_path remove_subtree
remove_children p w = when_found remove_subtree (get (clean_path p) w.by_path) w
