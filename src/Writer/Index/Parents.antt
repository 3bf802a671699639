-- ===== src/Writer/Index/Parents.antt =====
-- ensureParent of mkfs.go: the loop over the missing ancestors ends, what it finds is missing and
-- distinct, and once it has made them the parent is there.
use go_erofs.Prelude.{
  ℕ, zero, suc, ◌+◌, ◌<◌, ◌≤◌, ◌≡◌, ◌⊎◌, refl, ◌∙◌, ap, true, false, if◌then◌else◌, none, some,
  List, [], ◌∷◌, length, All, arith, Bool-cases, Option-cases, inl, inr, length-append,
}
use go_erofs.Prelude.Bytes.{Bytes}
use go_erofs.Image.{is_some}
use go_erofs.Mode.{stat_type_dir}
use go_erofs.Writer.{FsEntry, Writer, new_entry}
use go_erofs.Writer.Maps.{get, get-put, same_bytes-eq, same_bytes_self}
use go_erofs.Writer.Paths.{root_path, same_bytes, dir, rooted_path, join_stack, kind, is_rooted}
use go_erofs.Writer.Paths.Ancestors.{IsName, IsClean, dir-rooted_path, dir-IsClean}
use go_erofs.Writer.Tree.{add_child, missing_loop, missing_ancestors, add_dirs, ensure_parent}

name_length : (s : Bytes) → IsName s → 0 < length s
unfolding kind
name_length [] h = cc
name_length (b ∷ s) h = omega arith

rooted_length :
    (s : Bytes) (st : List Bytes)
    → IsName s
    → length (rooted_path st) < length (rooted_path (s ∷ st))
unfolding rooted_path join_stack
rooted_length s [] h = omega (arith, name_length s h)
rooted_length s (t ∷ st) h =
    omega (arith, length-append (join_stack (t ∷ st)) (47 ∷ s), name_length s h)

-- A clean path is the root, or its directory is clean and shorter.
pub IsClean-cases :
    (d : Bytes)
    → IsClean d
    → (same_bytes d root_path ≡ true) ⊎ (IsClean (dir d) × (length (dir d) < length d))
IsClean-cases d h = go h.stack h.names h.path
  where
    go :
        (st : List Bytes)
        → All IsName st
        → d ≡ rooted_path st
        → (same_bytes d root_path ≡ true) ⊎ (IsClean (dir d) × (length (dir d) < length d))
    go [] n e = inl (rw e (unfold rooted_path same_bytes in refl))
    go (s ∷ st) n e = inr (
        rw (e, dir-rooted_path s st n.0 n.1)
          (record { stack = st; names = n.1; path = refl }, rooted_length s st n.0))

-- Fuel of the path's length is enough: more of it finds nothing more.
missing_loop_enough :
    (fuel extra : ℕ) (w : Writer) (d : Bytes)
    → IsClean d
    → length d ≤ fuel
    → missing_loop (fuel + extra) w d ≡ missing_loop fuel w d
unfolding missing_loop
missing_loop_enough zero extra w d h b = elim (IsClean-cases d h) [
  | inl e ↦ absurd (omega (arith, ap length (same_bytes-eq d root_path e)))
  | inr (c, s) ↦ absurd (omega arith)
]
missing_loop_enough (suc fuel) extra w d h b =
    let s : suc fuel + extra ≡ suc (fuel + extra) = omega arith in
    elim (IsClean-cases d h) [
      | inl e ↦ rw (s, e) refl
      | inr (c, l) ↦ rw (s, missing_loop_enough fuel extra w (dir d) c (omega arith)) refl
    ]

abbrev IsMissing : Writer → Bytes → Type 0
IsMissing w d = get d w.by_path ≡ none

pub missing_loop-IsMissing :
    (fuel : ℕ) (w : Writer) (d : Bytes) → All (IsMissing w) (missing_loop fuel w d)
unfolding missing_loop
missing_loop-IsMissing zero w d = tt
missing_loop-IsMissing (suc fuel) w d =
    let ih = missing_loop-IsMissing fuel w (dir d) in
    elim (Bool-cases (same_bytes d root_path)) [
      | inl e ↦ rw e tt
      | inr e ↦ elim (Option-cases (get d w.by_path)) [
        | inl k ↦ rw (e, k) (k, ih)
        | inr (i, k) ↦ rw (e, k) tt
      ]
    ]

-- All that the loop finds is as long as the path at most.
missing_loop_short :
    (fuel n : ℕ) (w : Writer) (d : Bytes)
    → IsClean d
    → length d ≤ n
    → All (λ x. length x ≤ n) (missing_loop fuel w d)
unfolding missing_loop
missing_loop_short zero n w d h b = tt
missing_loop_short (suc fuel) n w d h b = elim (IsClean-cases d h) [
  | inl e ↦ rw e tt
  | inr (c, s) ↦
      let ih = missing_loop_short fuel n w (dir d) c (omega arith) in
      elim (Bool-cases (same_bytes d root_path)) [
        | inl e ↦ rw e tt
        | inr e ↦ elim (Option-cases (get d w.by_path)) [
          | inl k ↦ rw (e, k) (b, ih)
          | inr (i, k) ↦ rw (e, k) tt
        ]
      ]
]

abbrev IsNot : Bytes → Bytes → Type 0
IsNot p d = same_bytes d p ≡ false

abbrev AreApart : List Bytes → Type 0
AreApart [] = Unit
AreApart (d ∷ ds) = All (IsNot d) ds × AreApart ds

short-IsNot :
    (d : Bytes) (n : ℕ) (ds : List Bytes)
    → n < length d
    → All (λ x. length x ≤ n) ds
    → All (IsNot d) ds
short-IsNot d n [] b h = tt
short-IsNot d n (x ∷ ds) b h =
    let e : same_bytes x d ≡ true → length x ≡ length d = λ s. ap length (same_bytes-eq x d s) in
    (
      elim (Bool-cases (same_bytes x d)) [ inl s ↦ absurd (omega (arith, e s, h.0)) | inr s ↦ s ],
      short-IsNot d n ds b h.1,
    )

missing_loop-AreApart :
    (fuel : ℕ) (w : Writer) (d : Bytes) → IsClean d → AreApart (missing_loop fuel w d)
unfolding missing_loop
missing_loop-AreApart zero w d h = tt
missing_loop-AreApart (suc fuel) w d h = elim (IsClean-cases d h) [
  | inl e ↦ rw e tt
  | inr (c, s) ↦
      let ih = missing_loop-AreApart fuel w (dir d) c in
      let apart =
        short-IsNot d (length (dir d)) (missing_loop fuel w (dir d)) s
          (missing_loop_short fuel (length (dir d)) w (dir d) c (omega arith)) in
      elim (Bool-cases (same_bytes d root_path)) [
        | inl e ↦ rw e tt
        | inr e ↦ elim (Option-cases (get d w.by_path)) [
          | inl k ↦ rw (e, k) (apart, ih)
          | inr (i, k) ↦ rw (e, k) tt
        ]
      ]
]

add_child-get :
    (p : Bytes) (e : FsEntry) (w : Writer)
    → get p (add_child e w).by_path
      ≡ (if same_bytes e.path p then some (length w.entries) else get p w.by_path)
unfolding add_child
add_child-get p e w = get-put e.path p (length w.entries) w.by_path

add_dirs-get :
    (p : Bytes) (ds : List Bytes) (w : Writer)
    → All (IsNot p) ds
    → get p (add_dirs ds w).by_path ≡ get p w.by_path
unfolding add_dirs
add_dirs-get p [] w h = refl
add_dirs-get p (d ∷ ds) w h =
    add_child-get p (new_entry d (stat_type_dir + 0o755)) (add_dirs ds w)
    ∙ rw h.0 (add_dirs-get p ds w h.1)

-- What adding an entry at a missing path keeps, making the missing directories keeps.
module _ (Keeps : Writer → Type 0)
    (keeps : (e : FsEntry) (w : Writer)
      → get e.path w.by_path ≡ none
      → e.removed ≡ false
      → e.children ≡ []
      → Keeps w
      → Keeps (add_child e w)) where
  add_dirs-keeps :
      (ds : List Bytes) (w : Writer)
      → All (IsMissing w) ds
      → AreApart ds
      → Keeps w
      → Keeps (add_dirs ds w)
  unfolding add_dirs
  add_dirs-keeps [] w m a h = h
  add_dirs-keeps (d ∷ ds) w m a h =
      keeps (new_entry d (stat_type_dir + 0o755)) (add_dirs ds w) (add_dirs-get d ds w a.0 ∙ m.0)
        refl refl (add_dirs-keeps ds w m.1 a.1 h)

  pub ensure_parent-keeps :
      (p : Bytes) (w : Writer) → is_rooted p ≡ true → Keeps w → Keeps (ensure_parent p w)
  unfolding ensure_parent missing_ancestors
  ensure_parent-keeps p w rooted h =
      add_dirs-keeps (missing_ancestors w (dir p)) w
        (missing_loop-IsMissing (length (dir p)) w (dir p))
        (missing_loop-AreApart (length (dir p)) w (dir p) (dir-IsClean p rooted)) h

add_missing_found :
    (fuel : ℕ) (w : Writer) (d : Bytes)
    → 0 < fuel
    → same_bytes d root_path ≡ false
    → is_some (get d (add_dirs (missing_loop fuel w d) w).by_path) ≡ true
unfolding missing_loop add_dirs
add_missing_found zero w d b e = absurd (omega arith)
add_missing_found (suc fuel) w d b e =
    let added =
      add_child-get d (new_entry d (stat_type_dir + 0o755))
        (add_dirs (missing_loop fuel w (dir d)) w) in
    elim (Option-cases (get d w.by_path)) [
      | inl k ↦ rw (e, k, added, same_bytes_self d) refl
      | inr (i, k) ↦ rw (e, k) (ap is_some k)
    ]

module _ (p : Bytes) (w : Writer) (rooted : is_rooted p ≡ true) where
  -- The path itself is longer than what is made for it.
  pub ensure_parent-get :
      length (dir p) < length p → get p (ensure_parent p w).by_path ≡ get p w.by_path
  unfolding ensure_parent missing_ancestors
  ensure_parent-get b = add_dirs-get p (missing_ancestors w (dir p)) w (
      short-IsNot p (length (dir p)) (missing_loop (length (dir p)) w (dir p)) b (
        missing_loop_short (length (dir p)) (length (dir p)) w (dir p) (dir-IsClean p rooted)
          (omega arith)))

  -- After it the directory is the root, or there.
  pub ensure_parent_found :
      (same_bytes (dir p) root_path ≡ true)
      ⊎ (is_some (get (dir p) (ensure_parent p w).by_path) ≡ true)
  unfolding ensure_parent missing_ancestors
  ensure_parent_found = elim (Bool-cases (same_bytes (dir p) root_path)) [
    | inl e ↦ inl e
    | inr e ↦ elim (IsClean-cases (dir p) (dir-IsClean p rooted)) [
      | inl k ↦ inl k
      | inr (c, s) ↦ inr (add_missing_found (length (dir p)) w (dir p) (omega arith) e)
    ]
  ]
