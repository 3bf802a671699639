-- ===== src/Writer/Valid/Adding.antt =====
-- add of mkfs.go, which makes or overwrites an entry, keeps what holds of a Writer between two calls.
use go_erofs.Prelude.{
  ℕ, zero, suc, ◌≡◌, ◌==◌, refl, sym, ◌∙◌, ap, subst, false, Option, none, some, List, [], ◌∷◌,
  either_way, arith,
}
use go_erofs.Prelude.Bytes.{Bytes}
use go_erofs.Mode.{stat_type, stat_type_dir, go_mode_to_unix_mode}
use go_erofs.Writer.{FsEntry, Writer, Reply, failed, done, File, is_dir, update_entry}
use go_erofs.Writer.Maps.{get}
use go_erofs.Writer.Paths.{root_path, same_bytes, clean_path}
use go_erofs.Writer.Tree.{ensure_parent}
use go_erofs.Writer.Files.{OsWrite, Wrote, read_from, close_file}
use go_erofs.Writer.Copy.{
  BuilderEntry, set_root, entry_of, overwrite, set_metadata_only, clear_chunks, set_start,
  set_direct, set_file_closed, without_file, then_close, store_to, store_data, remap, needed,
  finish_with, finish_add, place_at, place, add,
}
use go_erofs.Writer.Valid.{
  IsValid, IsQuiet, root_alive, found_alive, update_alive-IsValid, update_kind-IsValid,
  add_child-IsValid,
}
use go_erofs.Writer.Valid.Operations.{ensure_parent-IsValid}
use go_erofs.Writer.Valid.Methods.{quiet}
use go_erofs.Writer.{entry_at, update}
use go_erofs.Writer.Index.Live.{live_found}
use go_erofs.Writer.Valid.Data.{read_from-IsValid, close_file-IsValid}

update-at :
    (f g : FsEntry → FsEntry) (i : ℕ) (es : List FsEntry)
    → f (entry_at i es) ≡ g (entry_at i es)
    → update i f es ≡ update i g es
update-at f g i [] h = refl
update-at f g zero (e ∷ es) h = ap (λ x. x ∷ es) h
update-at f g (suc i) (e ∷ es) h = ap (λ xs. e ∷ xs) (update-at f g i es h)

-- What overwriting does to the entry that has the path already.
abbrev refill : FsEntry → FsEntry → FsEntry
refill fe e = record fe {
  parent = e.parent;
  children = e.children;
  path = e.path;
  removed = e.removed;
}

place_at-IsValid :
    (fe : FsEntry) (w : Writer) (o : Option ℕ)
    → get fe.path w.by_path ≡ o
    → fe.removed ≡ false
    → fe.children ≡ []
    → IsValid w
    → IsValid (place_at o fe w).1
place_at-IsValid fe w none e kept childless h = add_child-IsValid fe w e kept childless h
place_at-IsValid fe w (some i) e kept childless h =
    let f = live_found fe.path i w.entries (sym (h.indexed.index fe.path) ∙ e) in
    let alike : refill fe (entry_at i w.entries) ≡ overwrite fe (entry_at i w.entries) =
      rw (f.1, f.2, kept) refl in
    subst (λ es. IsValid (record w { entries = es }))
      (update-at (refill fe) (overwrite fe) i w.entries alike)
      (update_alive-IsValid (refill fe) (quiet (refill fe) (λ x. (refl, refl, refl))) i w
        (found_alive fe.path i w h e) h)

without_file-IsValid {ℓ} : {A : Type ℓ} (r : Wrote A) → IsValid r.2 → IsValid (without_file r).1
without_file-IsValid (failed e, f, w) h = h
without_file-IsValid (done a, f, w) h = h

then_close-IsValid : (takes : OsWrite) (r : Wrote ℕ) → IsValid r.2 → IsValid (then_close takes r).1
then_close-IsValid takes (failed e, f, w) h = h
then_close-IsValid takes (done n, f, w) h =
    without_file-IsValid (close_file takes f w) (close_file-IsValid takes f w h)

module _ (f : FsEntry → FsEntry) (i : ℕ) (w : Writer) (h : IsValid w) where
  plain :
      ((e : FsEntry)
        → ((f e).path ≡ e.path) × ((f e).removed ≡ e.removed) × ((f e).children ≡ e.children))
      → ((e : FsEntry) → is_dir (f e) ≡ is_dir e)
      → IsValid (update_entry i f w)
  plain same kind = update_kind-IsValid f (quiet f same) i w kind h

store_to-IsValid :
    (o : Option Bytes) (takes : OsWrite) (i : ℕ) (pieces : List Bytes) (w : Writer)
    → IsValid w
    → IsValid (store_to o takes i pieces w).1
store_to-IsValid none takes i pieces w h =
    plain (set_direct pieces) i w h (λ e. (refl, refl, refl)) (λ e. refl)
store_to-IsValid (some held) takes i pieces w h =
    let f : File = record { entry = i; data_start_off = w.data_off; written = 0; closed = false } in
    let v = update_entry i (set_start w.data_off) w in
    then_close-IsValid takes (read_from takes 0 pieces f v) (
      read_from-IsValid takes 0 pieces f v
        (plain (set_start w.data_off) i w h (λ e. (refl, refl, refl)) (λ e. refl)))

finish_with-IsValid :
    (o : Option (List Bytes)) (takes : OsWrite) (i : ℕ) (w : Writer)
    → IsValid w
    → IsValid (finish_with o takes i w).1
unfolding store_data
finish_with-IsValid none takes i w h =
    plain set_file_closed i w h (λ e. (refl, refl, refl)) (λ e. refl)
finish_with-IsValid (some pieces) takes i w h =
    store_to-IsValid w.data_file takes i pieces (update_entry i clear_chunks w)
      (plain clear_chunks i w h (λ e. (refl, refl, refl)) (λ e. refl))

set_metadata_only-IsQuiet : (id : ℕ) → IsQuiet (set_metadata_only id)
set_metadata_only-IsQuiet id = record {
  path = λ e. ground arith;
  removed = λ e. ground arith;
  children = λ e. ground arith;
}

set_metadata_only_kind : (id : ℕ) (e : FsEntry) → is_dir (set_metadata_only id e) ≡ is_dir e
set_metadata_only_kind id e =
    let same : (set_metadata_only id e).mode ≡ e.mode = ground arith in
    ap (λ m. stat_type m == stat_type_dir) same

remap-IsValid : (i : ℕ) (w : Writer) → IsValid w → IsValid (remap i w)
remap-IsValid i w h =
    either_way IsValid w.copy_metadata_only (update_entry i (set_metadata_only w.copy_device_id) w)
      w
      (update_kind-IsValid (set_metadata_only w.copy_device_id)
        (set_metadata_only-IsQuiet w.copy_device_id) i w
        (λ e. set_metadata_only_kind w.copy_device_id e) h)
      h

entry_of_new :
    (p : Bytes) (mode size : ℕ) (be : BuilderEntry)
    → ((entry_of p mode size be).path ≡ p)
      × ((entry_of p mode size be).removed ≡ false)
      × ((entry_of p mode size be).children ≡ [])
entry_of_new p mode size be = (ground arith, ground arith, ground arith)

set_root-IsQuiet : (mode : ℕ) (be : BuilderEntry) → IsQuiet (set_root mode be)
set_root-IsQuiet mode be = record {
  path = λ e. ground arith;
  removed = λ e. ground arith;
  children = λ e. ground arith;
}

pub add-IsValid :
    (takes : OsWrite) (p : Bytes) (go_mode size : ℕ) (be : BuilderEntry) (w : Writer)
    → IsValid w
    → IsValid (add takes p go_mode size be w).1
unfolding add finish_add place
add-IsValid takes p go_mode size be w h =
    let q = clean_path p in
    let mode = go_mode_to_unix_mode go_mode in
    let fe = entry_of q mode size be in
    let new = entry_of_new q mode size be in
    let v = ensure_parent q w in
    let placed = place fe v in
    either_way (λ (r : Reply (Unit {0}) × Writer). IsValid r.1) (same_bytes q root_path)
      (done tt, update_entry 0 (set_root mode be) w)
      (finish_add takes mode size placed.0 be.contents placed.1)
      (update_alive-IsValid (set_root mode be) (set_root-IsQuiet mode be) 0 w (root_alive w h) h)
      (finish_with-IsValid (needed mode size placed.1.copy_metadata_only be.contents) takes placed.0
        (remap placed.0 placed.1)
        (remap-IsValid placed.0 placed.1 (
          place_at-IsValid fe v (get fe.path v.by_path) refl new.1 new.2
            (ensure_parent-IsValid p w h))))
