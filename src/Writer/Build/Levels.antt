-- ===== src/Writer/Build/Levels.antt =====
-- buildErofsTree of mkfs.go ends: there are no more levels of directories than entries.
use go_erofs.Prelude.{
  ℕ, zero, suc, ◌+◌, ◌≡◌, ◌<◌, ◌≤◌, refl, ◌∙◌, ap, if◌then◌else◌, List, [], ◌∷◌, All, length,
  either_way, inl, inr, arith,
}
use go_erofs.Prelude.Bytes.{Bytes, compare_bytes}
use go_erofs.Prelude.Order.{Ordering-cases}
use go_erofs.Image.Dirents.{insert_by, sort_by}
use go_erofs.Writer.{Writer, entry_at, is_dir}
use go_erofs.Writer.Build.{
  Tree, branch, bare, grown, forest_of, build_tree, live_children, name_at, with_nlink, fs_to_erofs,
}
use go_erofs.Writer.Index.{IsIndexed}
use go_erofs.Writer.Index.Removal.{children_after}

module _ {κ} (P : ℕ → Type κ) where
  insert_by-All : (f : ℕ → Bytes) (x : ℕ) (ys : List ℕ) → P x → All P ys → All P (insert_by f x ys)
  unfolding insert_by
  insert_by-All f x [] h k = (h, tt)
  insert_by-All f x (y ∷ ys) h k =
      let rest = insert_by-All f x ys h k.1 in
      elim (Ordering-cases (compare_bytes (f x) (f y))) [
        | inl e ↦ rw (e, insert_by) (h, k)
        | inr (inl e) ↦ rw (e, insert_by) (h, k)
        | inr (inr e) ↦ rw (e, insert_by) (k.0, rest)
      ]

  sort_by-All : (f : ℕ → Bytes) (xs : List ℕ) → All P xs → All P (sort_by f xs)
  unfolding sort_by
  sort_by-All f [] h = tt
  sort_by-All f (x ∷ xs) h = insert_by-All f x (sort_by f xs) h.0 (sort_by-All f xs h.1)

  live_children-All : (w : Writer) (cs : List ℕ) → All P cs → All P (live_children w cs)
  live_children-All w [] h = tt
  live_children-All w (c ∷ cs) h =
      either_way (All P) (entry_at c w.entries).removed (live_children w cs)
        (c ∷ live_children w cs) (live_children-All w cs h.1) (h.0, live_children-All w cs h.1)

forest_of-same :
    (f g : ℕ → Tree) (cs : List ℕ) → All (λ c. f c ≡ g c) cs → forest_of f cs ≡ forest_of g cs
forest_of-same f g [] h = refl
forest_of-same f g (c ∷ cs) h =
    ap (λ t. grown t (forest_of f cs)) h.0 ∙ ap (λ ts. grown (g c) ts) (forest_of-same f g cs h.1)

weaken : (P Q : ℕ → Type 0) → ((c : ℕ) → P c → Q c) → (cs : List ℕ) → All P cs → All Q cs
weaken P Q f [] h = tt
weaken P Q f (c ∷ cs) h = (f c h.0, weaken P Q f cs h.1)

module _ (w : Writer) (indexed : IsIndexed w) where
  levels :
      (fuel extra i : ℕ)
      → length w.entries ≤ i + fuel
      → i < length w.entries
      → build_tree (fuel + extra) w i ≡ build_tree fuel w i
  unfolding build_tree
  levels zero extra i h b = absurd (omega arith)
  levels (suc fuel) extra i h b =
      let e = entry_at i w.entries in
      let After : ℕ → Type 0 = λ c. (0 + i < c) × (c < length w.entries) in
      let cs = sort_by (name_at w) (live_children w e.children) in
      let more : suc fuel + extra ≡ suc (fuel + extra) = omega arith in
      let same = forest_of-same (build_tree (fuel + extra) w) (build_tree fuel w) cs (
        weaken After (λ c. build_tree (fuel + extra) w c ≡ build_tree fuel w c)
          (λ c k. levels fuel extra c (omega (arith, k.0)) k.1) cs
          (sort_by-All After (name_at w) (live_children w e.children) (
            live_children-All After w e.children
              (children_after (length w.entries) 0 i w.entries indexed.ordered)))) in
      rw more (
        ap
          (λ ts.
            branch (name_at w i) (with_nlink w e (fs_to_erofs w e)) (if is_dir e then ts else bare))
          same)

-- Where byPath is the index of the entries, which holds after any calls, as many levels as there are
-- entries are enough for the tree that Close builds: with more it is the same.
pub build_tree_enough :
    (w : Writer) (extra : ℕ)
    → IsIndexed w
    → build_tree (length w.entries + extra) w 0 ≡ build_tree (length w.entries) w 0
build_tree_enough w extra h = levels w h (length w.entries) extra 0 (omega arith) h.has_root
