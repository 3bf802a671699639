-- ===== src/Writer/Valid/Reach.antt =====
-- The calls on a Writer of mkfs.go as steps, and what holds after any number of them.
use go_erofs.Prelude.{
  ℕ, zero, suc, ◌≡◌, ◌<◌, ◌==◌, refl, sym, ◌∙◌, ap, subst, Bool, false, if◌then◌else◌, Option, none,
  some, List, either_way, Option-cases, inl, inr, arith,
}
use go_erofs.Prelude.Bytes.{Bytes}
use go_erofs.Writer.{Writer, Reply, failed, done, File, entry_at}
use go_erofs.Writer.Maps.{get, same_bytes_self}
use go_erofs.Writer.Paths.{root_path, same_bytes, clean_path}
use go_erofs.Writer.Tree.{when_found, remove_at, remove_subtree, remove, remove_children}
use go_erofs.Writer.Calls.{
  create, mkdir, symlink, mknod, chmod, chown, chtimes, setxattr, set_nlink,
}
use go_erofs.Writer.BlockSize.{set_block_size}
use go_erofs.Writer.Files.{OsWrite, write, read_from, close_file, file_chmod, file_chown}
use go_erofs.Writer.Copy.{BuilderEntry, add}
use go_erofs.Writer.Start.{CreateOptions, first_writer, keep_error, reserve, new_writer}
use go_erofs.Writer.Index.{live, IsIndexed}
use go_erofs.Writer.Index.Live.{live_at, live_found}
use go_erofs.Writer.Index.Removal.{gone}
use go_erofs.Writer.Index.Sweep.{
  IsSwept, Removed, remove_found, remove_at_top, remove_subtree_top, remove_at-block_size,
  remove_subtree-block_size, remove_subtree-Removed,
}
use go_erofs.Writer.Valid.{IsValid, carry-IsValid, root_alive}
use go_erofs.Writer.Valid.Methods.{
  mkdir-IsValid, symlink-IsValid, mknod-IsValid, create-IsValid, chmod-IsValid, chown-IsValid,
  chtimes-IsValid, setxattr-IsValid, set_nlink-IsValid,
}
use go_erofs.Writer.Valid.Data.{
  write-IsValid, read_from-IsValid, close_file-IsValid, set_block_size-IsValid, file_chmod-IsValid,
  file_chown-IsValid,
}
use go_erofs.Writer.Valid.Adding.{add-IsValid}

-- The root is where it was if it is not removed.
root_kept : (w : Writer) → IsIndexed w → gone w 0 ≡ false → get root_path w.by_path ≡ some 0
root_kept w h g =
    h.index root_path
    ∙ ap (λ p. live p w.entries) (sym h.root)
    ∙ live_at 0 w.entries h.distinct h.has_root g

module _ (v w : Writer) (h : IsValid w) where
  Removed-IsValid : Removed w v → gone v 0 ≡ gone w 0 → v.block_size ≡ w.block_size → IsValid v
  Removed-IsValid r top size = record {
    indexed = r.indexed;
    swept = r.swept;
    root = root_kept v r.indexed (top ∙ root_alive w h);
    sized = rw size h.sized;
  }

not_root :
    (q : Bytes) (i : ℕ) (w : Writer)
    → same_bytes q root_path ≡ false
    → IsValid w
    → (entry_at i w.entries).path ≡ q
    → 0 < i
not_root q zero w other h e = absurd (
    ground (
      arith,
      same_bytes_self root_path,
      other,
      ap (λ p. same_bytes p root_path) (sym e ∙ h.indexed.root),
    ))
not_root q (suc i) w other h e = omega arith

pub remove-IsValid :
    (p : Bytes) (w : Writer)
    → same_bytes (clean_path p) root_path ≡ false
    → IsValid w
    → IsValid (remove p w)
unfolding remove
remove-IsValid p w other h =
    let q = clean_path p in
    let r = (remove_found q w h.indexed h.swept).0 in
    elim (Option-cases (get q w.by_path)) [
      | inl e ↦ subst (λ o. IsValid (when_found (remove_at q) o w)) (sym e) h
      | inr (i, e) ↦
          let l = sym (h.indexed.index q) ∙ e in
          let f = live_found q i w.entries l in
          subst (λ o. IsValid (when_found (remove_at q) o w)) (sym e)
            (Removed-IsValid (remove_at q i w) w h
              (subst (λ o. Removed w (when_found (remove_at q) o w)) e r)
              (remove_at_top q i w l h.indexed (not_root q i w other h f.1))
              (remove_at-block_size q i w))
    ]

pub remove_children-IsValid : (p : Bytes) (w : Writer) → IsValid w → IsValid (remove_children p w)
unfolding remove_children
remove_children-IsValid p w h = elim (Option-cases (get (clean_path p) w.by_path)) [
  | inl e ↦ subst (λ o. IsValid (when_found remove_subtree o w)) (sym e) h
  | inr (i, e) ↦
      subst (λ o. IsValid (when_found remove_subtree o w)) (sym e)
        (Removed-IsValid (remove_subtree i w) w h (remove_subtree-Removed i w h.indexed h.swept)
          (remove_subtree_top i w h.indexed) (remove_subtree-block_size i w))
]

-- One call, with what the operating system answers. A call that returns an error may have changed the
-- Writer, and is a step as well.
pub data Step (w : Writer) : Writer → Type 0 where
  mkdir_step : (p : Bytes) (perm : ℕ) → Step w (mkdir p perm w).1
  symlink_step : (target p : Bytes) → Step w (symlink target p w).1
  mknod_step : (p : Bytes) (mode rdev : ℕ) → Step w (mknod p mode rdev w).1
  create_step : (temp_fails : Bool) (p : Bytes) → Step w (create temp_fails p w).1
  chmod_step : (p : Bytes) (mode : ℕ) → Step w (chmod p mode w).1
  chown_step : (p : Bytes) (uid gid : ℕ) → Step w (chown p uid gid w).1
  chtimes_step : (p : Bytes) (a an m mn : ℕ) → Step w (chtimes p a an m mn w).1
  setxattr_step : (p attr value : Bytes) → Step w (setxattr p attr value w).1
  set_nlink_step : (p : Bytes) (n : ℕ) → Step w (set_nlink p n w).1
  write_step : (takes : OsWrite) (p : Bytes) (f : File) → Step w (write takes p f w).2
  read_from_step :
      (takes : OsWrite) (ps : List Bytes) (f : File) → Step w (read_from takes 0 ps f w).2
  close_file_step : (takes : OsWrite) (f : File) → Step w (close_file takes f w).2
  file_chmod_step : (mode : ℕ) (f : File) → Step w (file_chmod mode f w)
  file_chown_step : (uid gid : ℕ) (f : File) → Step w (file_chown uid gid f w)
  set_block_size_step : (n : ℕ) → Step w (set_block_size n w).1
  add_step :
      (takes : OsWrite) (p : Bytes) (mode size : ℕ) (be : BuilderEntry)
      → Step w (add takes p mode size be w).1
  remove_step : (p : Bytes) → same_bytes (clean_path p) root_path ≡ false → Step w (remove p w)
  remove_children_step : (p : Bytes) → Step w (remove_children p w)

-- A Writer that Create has made, after any calls.
pub data Reach (o : CreateOptions) : Writer → Type 0 where
  here : Reach o (new_writer o)
  next : {v w : Writer} → Reach o v → Step v w → Reach o w

pub Step-IsValid : {v w : Writer} → Step v w → IsValid v → IsValid w
Step-IsValid {v} (mkdir_step p perm) h = mkdir-IsValid p perm v h
Step-IsValid {v} (symlink_step target p) h = symlink-IsValid target p v h
Step-IsValid {v} (mknod_step p mode rdev) h = mknod-IsValid p mode rdev v h
Step-IsValid {v} (create_step temp_fails p) h = create-IsValid temp_fails p v h
Step-IsValid {v} (chmod_step p mode) h = chmod-IsValid p mode v h
Step-IsValid {v} (chown_step p uid gid) h = chown-IsValid p uid gid v h
Step-IsValid {v} (chtimes_step p a an m mn) h = chtimes-IsValid p a an m mn v h
Step-IsValid {v} (setxattr_step p attr value) h = setxattr-IsValid p attr value v h
Step-IsValid {v} (set_nlink_step p n) h = set_nlink-IsValid p n v h
Step-IsValid {v} (write_step takes p f) h = write-IsValid takes p f v h
Step-IsValid {v} (read_from_step takes ps f) h = read_from-IsValid takes 0 ps f v h
Step-IsValid {v} (close_file_step takes f) h = close_file-IsValid takes f v h
Step-IsValid {v} (file_chmod_step mode f) h = file_chmod-IsValid mode f v h
Step-IsValid {v} (file_chown_step uid gid f) h = file_chown-IsValid uid gid f v h
Step-IsValid {v} (set_block_size_step n) h = set_block_size-IsValid n v h
Step-IsValid {v} (add_step takes p mode size be) h = add-IsValid takes p mode size be v h
Step-IsValid {v} (remove_step p other) h = remove-IsValid p v other h
Step-IsValid {v} (remove_children_step p) h = remove_children-IsValid p v h

first-IsSwept : (o : CreateOptions) → IsSwept (first_writer o)
first-IsSwept o zero = refl
first-IsSwept o (suc j) = refl

-- A new Writer has the root alone.
first-IsValid : (o : CreateOptions) → IsValid (first_writer o)
unfolding live get same_bytes
first-IsValid o = record {
  indexed = record {
    has_root = omega arith;
    root = refl;
    distinct = (refl, tt);
    index = λ p. refl;
    ordered = (tt, tt);
  };
  swept = first-IsSwept o;
  root = refl;
  sized = inl refl;
}

keep_error-IsValid : (r : Reply (Unit {0}) × Writer) → IsValid r.1 → IsValid (keep_error r)
keep_error-IsValid (failed f, w) h =
    carry-IsValid w (record w { w_err = some f }) refl refl h.sized h
keep_error-IsValid (done u, w) h = h

reserve-IsValid :
    (d : Option Bytes) (off : Option ℕ) (w : Writer) → IsValid w → IsValid (reserve d off w)
reserve-IsValid none off w h = h
reserve-IsValid (some held) off w h =
    carry-IsValid w (reserve (some held) off w) refl refl h.sized h

pub new_writer-IsValid : (o : CreateOptions) → IsValid (new_writer o)
unfolding new_writer
new_writer-IsValid o =
    let w = first_writer o in
    let v = set_block_size o.block_size w in
    reserve-IsValid o.data_file o.seek_end (if o.block_size == 0 then w else keep_error v) (
      either_way IsValid (o.block_size == 0) w (keep_error v) (first-IsValid o)
        (keep_error-IsValid v (set_block_size-IsValid o.block_size w (first-IsValid o))))

-- After any calls on a Writer that Create has made, whatever the operating system answers and whether
-- they fail or not, byPath has exactly the entries that are not removed, each under its path, and no
-- two of them share one; the children of an entry come after it; no removed directory has a child that
-- is not removed; the root is there; and the block size is unset or a power of two from 512 to 65536.
-- The calls are the methods that make entries, set their metadata and write their data, add,
-- setBlockSize, removeChildren, and remove for other paths than the root.
pub Reach-IsValid : {o : CreateOptions} {w : Writer} → Reach o w → IsValid w
Reach-IsValid {o} here = new_writer-IsValid o
Reach-IsValid (next r s) = Step-IsValid s (Reach-IsValid r)
