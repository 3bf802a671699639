-- ===== src/Writer/Valid/Made.antt =====
-- What the methods of mkfs.go that make an entry have done where they return no error.
use go_erofs.Prelude.{
  ℕ, zero, suc, ◌+◌, ◌%◌, ◌^◌, ◌≡◌, ◌⊎◌, ◌<◌, refl, sym, ◌∙◌, ap, subst, true, false, if◌then◌else◌,
  Option, none, some, List, [], ◌∷◌, ◌++◌, length, inl, inr, arith,
}
use go_erofs.Prelude.Bytes.{Bytes}
use go_erofs.Image.{is_some}
use go_erofs.Mode.{stat_type_dir}
use go_erofs.Writer.{
  FsEntry, Writer, Reply, done, Failure, new_entry, entry_at, update, update_entry,
}
use go_erofs.Writer.Maps.{get, get-put, same_bytes_self, same_bytes-eq}
use go_erofs.Writer.Paths.{root_path, same_bytes, dir, clean_path}
use go_erofs.Writer.Paths.Ancestors.{clean_path-is_rooted}
use go_erofs.Writer.Tree.{at_or_root, append_child, add_child, parent_of, ensure_parent}
use go_erofs.Writer.Calls.{insert, insert_unless, forget, unless_failed, set_mode, mkdir}
use go_erofs.Writer.Index.Live.{length-update, live_found}
use go_erofs.Writer.Index.Parents.{ensure_parent_found}
use go_erofs.Writer.Valid.{IsValid}
use go_erofs.Writer.Valid.Operations.{forget-same, check_path_cases, ensure_parent-IsValid}

last_entry :
    (es : List FsEntry) (e : FsEntry) (n : ℕ) → length es ≡ n → entry_at n (es ++ (e ∷ [])) ≡ e
last_entry [] e zero h = refl
last_entry [] e (suc n) h = absurd (omega arith)
last_entry (x ∷ es) e zero h = absurd (omega arith)
last_entry (x ∷ es) e (suc n) h = last_entry es e n (omega arith)

old_path :
    (f : FsEntry → FsEntry)
    → ((e : FsEntry) → (f e).path ≡ e.path)
    → (i j : ℕ) (es : List FsEntry) (e : FsEntry) → j < length es
    → (entry_at j (update i f es ++ (e ∷ []))).path ≡ (entry_at j es).path
old_path f same i j [] e h = absurd (omega arith)
old_path f same zero zero (x ∷ es) e h = same x
old_path f same (suc i) zero (x ∷ es) e h = refl
old_path f same zero (suc j) (x ∷ es) e h = old_path_plain j es e (omega arith)
  where
    old_path_plain :
        (j : ℕ) (es : List FsEntry) (e : FsEntry)
        → j < length es
        → (entry_at j (es ++ (e ∷ []))).path ≡ (entry_at j es).path
    old_path_plain j [] e h = absurd (omega arith)
    old_path_plain zero (x ∷ es) e h = refl
    old_path_plain (suc j) (x ∷ es) e h = old_path_plain j es e (omega arith)
old_path f same (suc i) (suc j) (x ∷ es) e h = old_path f same i j es e (omega arith)

-- What a new entry is: it has what it was made with, its path leads to it, and its parent is the
-- entry at the directory of its path.
pub record IsMade (e : FsEntry) (w : Writer) : Type 0 where
  pub at : ℕ
  pub found : get e.path w.by_path ≡ some at
  pub same : entry_at at w.entries ≡ record e { parent = (entry_at at w.entries).parent }
  pub below : (entry_at (entry_at at w.entries).parent w.entries).path ≡ dir e.path

parent_path :
    (p : Bytes) (w : Writer)
    → IsValid w
    → (same_bytes (dir p) root_path ≡ true) ⊎ (is_some (get (dir p) w.by_path) ≡ true)
    → (o : Option ℕ) → get (dir p) w.by_path ≡ o
    → (at_or_root o < length w.entries) × ((entry_at (at_or_root o) w.entries).path ≡ dir p)
parent_path p w h (inl s) none e =
    (h.indexed.has_root, h.indexed.root ∙ sym (same_bytes-eq (dir p) root_path s))
parent_path p w h (inr s) none e = absurd (ground (arith, s, ap is_some e))
parent_path p w h there (some i) e =
    let f = live_found (dir p) i w.entries (sym (h.indexed.index (dir p)) ∙ e) in (f.0, f.1)

add_child-IsMade :
    (e : FsEntry) (w : Writer)
    → IsValid w
    → (same_bytes (dir e.path) root_path ≡ true) ⊎ (is_some (get (dir e.path) w.by_path) ≡ true)
    → IsMade e (add_child e w)
unfolding add_child parent_of
add_child-IsMade e w h there =
    let n = length w.entries in
    let up = at_or_root (get (dir e.path) w.by_path) in
    let f = append_child n in
    let e' = record e { parent = up } in
    let last : entry_at n (update up f w.entries ++ (e' ∷ [])) ≡ e' =
      last_entry (update up f w.entries) e' n (length-update up f w.entries) in
    let above = parent_path e.path w h there (get (dir e.path) w.by_path) refl in
    record {
      at = n;
      found = get-put e.path e.path n w.by_path ∙ rw (same_bytes_self e.path) refl;
      same = last ∙ ap (λ i. record e { parent = i }) (sym (ap (λ x. x.parent) last));
      below =
          ap (λ i. (entry_at i (update up f w.entries ++ (e' ∷ []))).path) (ap (λ x. x.parent) last)
          ∙ old_path f (λ x. refl) up up w.entries e' above.0
          ∙ above.1;
    }

insert-IsMade :
    (p : Bytes) (e : FsEntry) (w : Writer)
    → e.path ≡ clean_path p
    → IsValid w
    → (forget (insert e w)).0 ≡ done tt
    → IsMade e (insert e w).1
unfolding insert
insert-IsMade p e w at h = elim (check_path_cases e.path w) [
  | inl (f, k) ↦
      subst (λ o. (forget (insert_unless o e w)).0 ≡ done tt → IsMade e (insert_unless o e w).1)
        (sym k) (λ x. cc)
  | inr (k, new, c) ↦
      subst (λ o. (forget (insert_unless o e w)).0 ≡ done tt → IsMade e (insert_unless o e w).1)
        (sym k)
        (λ x.
          subst (λ q. q ≡ e.path → IsMade e (add_child e (ensure_parent q w))) (sym at)
            (λ y.
              add_child-IsMade e (ensure_parent (clean_path p) w) (ensure_parent-IsValid p w h) (
                subst
                  (λ q.
                    (same_bytes (dir q) root_path ≡ true)
                    ⊎ (is_some (get (dir q) (ensure_parent (clean_path p) w).by_path) ≡ true))
                  y (ensure_parent_found (clean_path p) w (clean_path-is_rooted p))))
            refl)
]

unless_done :
    (f : Option Failure) (w : Writer) (next : Reply (Unit {0}) × Writer)
    → (unless_failed f w next).0 ≡ done tt
    → unless_failed f w next ≡ next
unless_done none w next h = refl
unless_done (some f) w next h = cc

-- If Mkdir on a path other than the root returns no error, the path leads to a new directory with the
-- nine permission bits, and with nothing else but its parent set; and the parent is the entry at the
-- directory of the path, which is made where it was missing.
pub mkdir-IsMade :
    (p : Bytes) (perm : ℕ) (w : Writer)
    → IsValid w
    → same_bytes (clean_path p) root_path ≡ false
    → (mkdir p perm w).0 ≡ done tt
    → IsMade (new_entry (clean_path p) (stat_type_dir + perm % 2 ^ 9)) (mkdir p perm w).1
unfolding mkdir
mkdir-IsMade p perm w h other k =
    let q = clean_path p in
    let e = new_entry q (stat_type_dir + perm % 2 ^ 9) in
    let rest =
      if same_bytes q root_path
      then (done tt, update_entry 0 (set_mode (stat_type_dir + perm % 2 ^ 9)) w)
      else forget (insert e w) in
    let e1 = unless_done w.w_err w rest k in
    let e2 : rest ≡ forget (insert e w) = rw other refl in
    let made = insert-IsMade p e w refl h (sym (ap (λ r. r.0) (e1 ∙ e2)) ∙ k) in
    subst (λ r. IsMade e r.1) (sym (e1 ∙ e2)) (rw (forget-same (insert e w)) made)
