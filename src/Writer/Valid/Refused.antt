-- ===== src/Writer/Valid/Refused.antt =====
-- The errors of the methods of mkfs.go, and what Chmod does.
use go_erofs.Prelude.{
  ℕ, ◌+◌, ◌%◌, ◌^◌, ◌≡◌, sym, ◌∙◌, ap, false, if◌then◌else◌, length, refl, subst, Option, none,
  some, arith,
}
use go_erofs.Prelude.Bytes.{Bytes}
use go_erofs.Mode.{stat_type, stat_type_reg, stat_type_dir, stat_type_symlink, go_mode_to_unix_mode}
use go_erofs.Writer.{
  Writer, Reply, failed, done, Failure, path_not_found, fs_closed, duplicate_path, FsEntry,
  new_entry, entry_at, update_entry,
}
use go_erofs.Writer.Maps.{get}
use go_erofs.Writer.Paths.{root_path, same_bytes, clean_path}
use go_erofs.Writer.Tree.{check_path, lookup, add_child, ensure_parent}
use go_erofs.Writer.Calls.{
  insert, insert_unless, start_at, start_spooled, spool_or, ensure_spool, forget, unless_failed,
  mkdir, symlink, mknod, start_file, create, assign, at_path, set_permissions, chmod,
}
use go_erofs.Image.{is_some}
use go_erofs.Writer.Index.{live, IsIndexed}
use go_erofs.Writer.Index.Live.{live_found, entry_at-update}
use go_erofs.Writer.Valid.{IsValid}

free {ℓ} :
    {A : Type ℓ} {o : Option Failure} (w : Writer) (next : Reply A × Writer)
    → o ≡ none
    → unless_failed o w next ≡ next
free w next e = ap (λ x. unless_failed x w next) e

-- Why a Writer refuses a new entry, by the entries that it has.
abbrev pub refusal : Bytes → Writer → Option Failure
refusal q w =
    if w.closed
    then some fs_closed
    else if is_some (live q w.entries)
    then some duplicate_path
    else none

abbrev pub failure {ℓ} : {A : Type ℓ} → Reply A → Option Failure
failure (failed f) = some f
failure (done a) = none

-- A call fails with this error, or without one, and an error leaves the Writer as it was.
abbrev pub Answers {ℓ} : {A : Type ℓ} → Option Failure → Writer → Reply A × Writer → Type 0
Answers o w r = (failure r.0 ≡ o) × ((if is_some o then r.1 else w) ≡ w)

check_path-refusal : (q : Bytes) (w : Writer) → IsIndexed w → check_path q w ≡ refusal q w
unfolding check_path
check_path-refusal q w h = rw (h.index q) refl

forget-Answers :
    (o : Option Failure) (e : FsEntry) (w : Writer) → Answers o w (forget (insert_unless o e w))
forget-Answers none e w = (refl, refl)
forget-Answers (some f) e w = (refl, refl)

start_spooled-done :
    (held : Option Bytes) (i : ℕ) (w : Writer)
    → failure (start_spooled i (spool_or held false w)).0 ≡ none
start_spooled-done none i w = refl
start_spooled-done (some b) i w = refl

start_at-done :
    (file : Option Bytes) (i : ℕ) (w : Writer) → failure (start_at file false i w).0 ≡ none
unfolding ensure_spool
start_at-done none i w = start_spooled-done w.spool i w
start_at-done (some b) i w = refl

start_file-Answers :
    (o : Option Failure) (e : FsEntry) (w : Writer)
    → Answers o w (start_file false (insert_unless o e w))
start_file-Answers (some f) e w = (refl, refl)
start_file-Answers none e w =
    let v = ensure_parent e.path w in
    let made = add_child e v in (start_at-done made.data_file (length v.entries) made, refl)

-- Mkdir, Symlink, Mknod and Create, of a Writer without an error of its own, refuse a path other than the
-- root exactly if the Writer is closed, or else if an entry that is not removed has the path: each with
-- its error, and with no change. Else they succeed; Create needs a temporary file that can be made.
pub path_refused :
    (p : Bytes) (w : Writer)
    → IsValid w
    → w.w_err ≡ none
    → same_bytes (clean_path p) root_path ≡ false
    → (target : Bytes) (mode rdev : ℕ)
    → let o = refusal (clean_path p) w in
      Answers o w (mkdir p mode w)
      × Answers o w (symlink target p w)
      × Answers o w (mknod p mode rdev w)
      × Answers o w (create false p w)
unfolding mkdir symlink mknod create insert
path_refused p w h e other target mode rdev =
    let q = clean_path p in
    let k = sym (check_path-refusal q w h.indexed) in
    let dir = new_entry q (stat_type_dir + mode % 2 ^ 9) in
    let link = record (new_entry q (stat_type_symlink + 0o777)) { link_target = target } in
    let node = record (new_entry q mode) { rdev = rdev } in
    let file = new_entry q (stat_type_reg + 0o644) in
    let answered : (x : FsEntry)
        → Answers (refusal q w) w (forget (insert_unless (check_path q w) x w)) =
      λ x.
        subst (λ o. Answers (refusal q w) w (forget (insert_unless o x w))) k
          (forget-Answers (refusal q w) x w) in
    let made_dir : mkdir p mode w ≡ forget (insert_unless (check_path q w) dir w) =
      free w _ e ∙ rw other refl in
    let made_link : symlink target p w ≡ forget (insert_unless (check_path q w) link w) =
      free w _ e ∙ rw other refl in
    let made_node : mknod p mode rdev w ≡ forget (insert_unless (check_path q w) node w) =
      free w _ e ∙ rw other refl in
    let made_file : create false p w ≡ start_file false (insert_unless (check_path q w) file w) =
      free w _ e ∙ rw other refl in
    (
      subst (Answers (refusal q w) w) (sym made_dir) (answered dir),
      subst (Answers (refusal q w) w) (sym made_link) (answered link),
      subst (Answers (refusal q w) w) (sym made_node) (answered node),
      subst (Answers (refusal q w) w) (sym made_file) (
          subst (λ o. Answers (refusal q w) w (start_file false (insert_unless o file w))) k
            (start_file-Answers (refusal q w) file w)),
    )

-- Chmod on a path that byPath has, of a Writer without an error, succeeds: the entry keeps its type
-- and gets the twelve permission bits of the Unix mode.
chmod-mode :
    (p : Bytes) (mode i : ℕ) (w : Writer)
    → IsValid w
    → w.w_err ≡ none
    → get (clean_path p) w.by_path ≡ some i
    → let (r, v) = chmod p mode w in
      (r ≡ done tt)
      × (stat_type (entry_at i v.entries).mode ≡ stat_type (entry_at i w.entries).mode)
      × ((entry_at i v.entries).mode % 2 ^ 12 ≡ go_mode_to_unix_mode mode % 2 ^ 12)
unfolding chmod at_path
chmod-mode p mode i w h e k =
    let g = set_permissions mode in
    let v = update_entry i g w in
    let found : lookup p w ≡ done i =
      unfold lookup in ap (λ o. elim o [ none ↦ failed path_not_found | some i ↦ done i ]) k in
    let whole : chmod p mode w ≡ (done tt, v) =
      ap (λ o. unless_failed o w (assign g (lookup p w) w)) e ∙ ap (λ r. assign g r w) found in
    let b = (live_found (clean_path p) i w.entries (sym (h.indexed.index (clean_path p)) ∙ k)).0 in
    let now = ap (λ x. x.mode) (entry_at-update g i w.entries b) in
    (
      ap (λ r. r.0) whole,
      ap (λ r. stat_type (entry_at i r.1.entries).mode) whole
          ∙ ap stat_type now
          ∙ (unfold set_permissions in omega arith),
      ap (λ r. (entry_at i r.1.entries).mode % 2 ^ 12) whole
          ∙ ap (λ m. m % 2 ^ 12) now
          ∙ (unfold set_permissions in omega arith),
    )
