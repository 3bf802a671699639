-- ===== src/Writer/Valid/Operations.antt =====
-- The methods of the Writer and of File of mkfs.go that make entries, set their metadata and write
-- their data keep what holds of a Writer between two calls.
use go_erofs.Prelude.{
  ℕ, ◌≡◌, ◌⊎◌, refl, sym, ◌∙◌, ap, subst, Bool, true, false, if◌then◌else◌, Option, none, some, [],
  Bool-cases, Option-cases, inl, inr,
}
use go_erofs.Prelude.Bytes.{Bytes}
use go_erofs.Image.{is_some}
use go_erofs.Writer.{
  FsEntry, Writer, Reply, failed, done, Failure, fs_closed, duplicate_path, path_not_found,
}
use go_erofs.Writer.Maps.{get, same_bytes_self}
use go_erofs.Writer.Paths.{root_path, same_bytes, clean_path}
use go_erofs.Writer.Paths.Ancestors.{clean_path-is_rooted}
use go_erofs.Writer.Paths.Sizes.{clean_path_cases}
use go_erofs.Writer.Tree.{ensure_parent, check_path, lookup}
use go_erofs.Writer.Calls.{insert, insert_unless, forget, unless_failed, at_path, assign}
use go_erofs.Writer.Index.Parents.{ensure_parent-keeps, ensure_parent-get}
use go_erofs.Writer.Valid.{IsValid, IsQuiet, found_alive, add_child-IsValid, update_alive-IsValid}

pub ensure_parent-IsValid :
    (p : Bytes) (w : Writer) → IsValid w → IsValid (ensure_parent (clean_path p) w)
ensure_parent-IsValid p w h =
    ensure_parent-keeps IsValid add_child-IsValid (clean_path p) w (clean_path-is_rooted p) h

-- The paths that are made for a path do not include it.
pub ensure_parent-same :
    (p : Bytes) (w : Writer)
    → same_bytes (clean_path p) root_path ≡ false
    → get (clean_path p) (ensure_parent (clean_path p) w).by_path ≡ get (clean_path p) w.by_path
ensure_parent-same p w other = elim (clean_path_cases p) [
  | inl e ↦
      absurd (differ (sym other ∙ ap (λ q. same_bytes q root_path) e ∙ same_bytes_self root_path))
  | inr s ↦ ensure_parent-get (clean_path p) w (clean_path-is_rooted p) s
]
  where
    differ : false ≡ true → ⊥
    differ k = cc

pub check_path_cases :
    (p : Bytes) (w : Writer)
    → ((f : Failure) × (check_path p w ≡ some f))
      ⊎ ((check_path p w ≡ none) × (get p w.by_path ≡ none) × (w.closed ≡ false))
unfolding check_path
check_path_cases p w = elim (Bool-cases w.closed) [
  | inl c ↦ inl (fs_closed, ap (λ b. closed_or b p w) c)
  | inr c ↦ elim (Option-cases (get p w.by_path)) [
    | inl new ↦ inr (ap (λ b. closed_or b p w) c ∙ ap taken_or new, new, c)
    | inr (i, old) ↦ inl (duplicate_path, ap (λ b. closed_or b p w) c ∙ ap taken_or old)
  ]
]
  where
    taken_or : Option ℕ → Option Failure
    taken_or o = if is_some o then some duplicate_path else none

    closed_or : Bool → Bytes → Writer → Option Failure
    closed_or b p w = if b then some fs_closed else taken_or (get p w.by_path)

pub insert-IsValid :
    (p : Bytes) (e : FsEntry) (w : Writer)
    → e.path ≡ clean_path p
    → same_bytes (clean_path p) root_path ≡ false
    → e.removed ≡ false
    → e.children ≡ []
    → IsValid w
    → IsValid (insert e w).1
unfolding insert
insert-IsValid p e w at other kept childless h = elim (check_path_cases e.path w) [
  | inl (f, k) ↦ subst (λ o. IsValid (insert_unless o e w).1) (sym k) h
  | inr (k, new, open_still) ↦
      subst (λ o. IsValid (insert_unless o e w).1) (sym k)
        (add_child-IsValid e (ensure_parent e.path w)
          (subst (λ q. get q (ensure_parent q w).by_path ≡ none) (sym at)
            (ensure_parent-same p w other ∙ ap (λ q. get q w.by_path) (sym at) ∙ new))
          kept childless
          (subst (λ q. IsValid (ensure_parent q w)) (sym at) (ensure_parent-IsValid p w h)))
]

pub forget-same : (r : Reply ℕ × Writer) → (forget r).1 ≡ r.1
forget-same (failed f, w) = refl
forget-same (done i, w) = refl

pub unless_failed-IsValid {ℓ} :
    {A : Type ℓ} (f : Option Failure) (w : Writer) (next : Reply A × Writer)
    → IsValid w
    → IsValid next.1
    → IsValid (unless_failed f w next).1
unless_failed-IsValid none w next h k = k
unless_failed-IsValid (some f) w next h k = h

pub made-IsValid :
    (p : Bytes) (e : FsEntry) (w : Writer) (f : Failure)
    → e.path ≡ clean_path p
    → e.removed ≡ false
    → e.children ≡ []
    → IsValid w
    → IsValid (if same_bytes (clean_path p) root_path then (failed f, w) else forget (insert e w)).1
made-IsValid p e w f at kept childless h = elim (Bool-cases (same_bytes (clean_path p) root_path)) [
  | inl s ↦ rw s h
  | inr s ↦ rw (s, forget-same (insert e w)) (insert-IsValid p e w at s kept childless h)
]

pub lookup_cases :
    (p : Bytes) (w : Writer)
    → (lookup p w ≡ failed path_not_found)
      ⊎ ((i : ℕ) × (lookup p w ≡ done i) × (get (clean_path p) w.by_path ≡ some i))
unfolding lookup
lookup_cases p w = elim (Option-cases (get (clean_path p) w.by_path)) [
  | inl e ↦ inl (ap found e)
  | inr (i, e) ↦ inr (i, ap found e, e)
]
  where
    found : Option ℕ → Reply ℕ
    found o = elim o [ none ↦ failed path_not_found | some i ↦ done i ]

assign-IsValid :
    (f : FsEntry → FsEntry) (p : Bytes) (w : Writer)
    → IsQuiet f
    → IsValid w
    → IsValid (assign f (lookup p w) w).1
assign-IsValid f p w quiet h = elim (lookup_cases p w) [
  | inl k ↦ subst (λ r. IsValid (assign f r w).1) (sym k) h
  | inr (i, k, e) ↦
      subst (λ r. IsValid (assign f r w).1) (sym k)
        (update_alive-IsValid f quiet i w (found_alive (clean_path p) i w h e) h)
]

pub at_path-IsValid :
    (f : FsEntry → FsEntry) (p : Bytes) (w : Writer)
    → IsQuiet f
    → IsValid w
    → IsValid (at_path f p w).1
unfolding at_path
at_path-IsValid f p w quiet h =
    unless_failed-IsValid w.w_err w (assign f (lookup p w) w) h (assign-IsValid f p w quiet h)
