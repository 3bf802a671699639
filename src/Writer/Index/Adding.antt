-- ===== src/Writer/Index/Adding.antt =====
-- addChild of mkfs.go and assignments to an entry leave no entry of a removed directory.
use go_erofs.Prelude.{
  ℕ, zero, suc, ◌≡◌, ◌⊎◌, refl, sym, ◌∙◌, ap, subst, true, false, List, [], ◌∷◌, ◌++◌, length,
  arith, inl, inr,
}
use go_erofs.Writer.{FsEntry, Writer, entry_at, update, update_entry, is_dir}
use go_erofs.Writer.Tree.{append_child, add_child, parent_of}
use go_erofs.Writer.Index.Removal.{gone, all_gone, all_gone_stays}
use go_erofs.Writer.Index.Sweep.{IsSwept, when_both, both_then}

-- The entry at `j` of a list that had `es` and has `es'`, where only the entry `i` was assigned to.
abbrev Same : ℕ → ℕ → List FsEntry → List FsEntry → Type 0
Same i j es es' = (entry_at j es' ≡ entry_at j es) ⊎ (j ≡ i)

entry-update : (f : FsEntry → FsEntry) (i j : ℕ) (es : List FsEntry) → Same i j es (update i f es)
entry-update f i j [] = inl refl
entry-update f zero zero (e ∷ es) = inr refl
entry-update f zero (suc j) (e ∷ es) = inl refl
entry-update f (suc i) zero (e ∷ es) = inl refl
entry-update f (suc i) (suc j) (e ∷ es) = elim (entry-update f i j es) [
  | inl k ↦ inl k
  | inr k ↦ inr (ap suc k)
]

removed-update :
    (f : FsEntry → FsEntry)
    → ((e : FsEntry) → (f e).removed ≡ e.removed)
    → (i j : ℕ) (es : List FsEntry) → (entry_at j (update i f es)).removed ≡ (entry_at j es).removed
removed-update f same i j [] = refl
removed-update f same zero zero (e ∷ es) = same e
removed-update f same zero (suc j) (e ∷ es) = refl
removed-update f same (suc i) zero (e ∷ es) = refl
removed-update f same (suc i) (suc j) (e ∷ es) = removed-update f same i j es

removed-append :
    (j : ℕ) (es : List FsEntry) (e : FsEntry)
    → e.removed ≡ false
    → (entry_at j (es ++ (e ∷ []))).removed ≡ (entry_at j es).removed
removed-append zero [] e h = h
removed-append (suc j) [] e h = refl
removed-append zero (x ∷ es) e h = refl
removed-append (suc j) (x ∷ es) e h = removed-append j es e h

-- A removed entry is in the list already.
entry-append :
    (j : ℕ) (es : List FsEntry) (e : FsEntry)
    → (entry_at j es).removed ≡ true
    → entry_at j (es ++ (e ∷ [])) ≡ entry_at j es
entry-append j [] e h = cc
entry-append zero (x ∷ es) e h = refl
entry-append (suc j) (x ∷ es) e h = entry-append j es e h

-- The same entries are removed, and a removed directory was a removed directory with its children.
IsSwept-carried :
    (w w' : Writer)
    → ((j : ℕ) → gone w' j ≡ gone w j)
    → ((j : ℕ)
        → gone w j ≡ true
        → is_dir (entry_at j w'.entries) ≡ true
        → (is_dir (entry_at j w.entries) ≡ true)
          × ((entry_at j w'.entries).children ≡ (entry_at j w.entries).children))
    → IsSwept w
    → IsSwept w'
IsSwept-carried w w' same dirs h j =
    let e = entry_at j w.entries in
    let e' = entry_at j w'.entries in
    when_both (gone w' j) (is_dir e') (all_gone w' e'.children) λ g d.
      let k = sym (same j) ∙ g in
      let a = dirs j k d in
      subst (λ cs. all_gone w' cs ≡ true) (sym a.1)
        (all_gone_stays w w' e.children (λ c r. same c ∙ r)
          (both_then (gone w j) (is_dir e) (all_gone w e.children) (h j) k a.0))

pub add_child-IsSwept :
    (e : FsEntry) (w : Writer)
    → e.removed ≡ false
    → gone w (parent_of w e.path) ≡ false
    → IsSwept w
    → IsSwept (add_child e w)
unfolding add_child
add_child-IsSwept e w kept alive h =
    let up = parent_of w e.path in
    let f = append_child (length w.entries) in
    let es = update up f w.entries in
    let e' = record e { parent = up } in
    let removed : (j : ℕ) → (entry_at j es).removed ≡ (entry_at j w.entries).removed =
      λ j. removed-update f (λ x. refl) up j w.entries in
    IsSwept-carried w (add_child e w) (λ j. removed-append j es e' kept ∙ removed j)
      (λ j g d.
        let grown = entry-append j es e' (removed j ∙ g) in
        elim (entry-update f up j w.entries) [
          | inl k ↦ (subst (λ x. is_dir x ≡ true) (grown ∙ k) d, ap (λ x. x.children) (grown ∙ k))
          | inr k ↦ absurd (ground (arith, g, alive, ap (gone w) k))
        ])
      h

-- Assigning to fields of an entry that is not removed, or to fields other than the mode.
pub update_entry-IsSwept :
    (f : FsEntry → FsEntry)
    → ((e : FsEntry) → (f e).removed ≡ e.removed)
    → (i : ℕ) (w : Writer) → gone w i ≡ false
    → IsSwept w
    → IsSwept (update_entry i f w)
update_entry-IsSwept f same i w alive h =
    IsSwept-carried w (update_entry i f w) (λ j. removed-update f same i j w.entries)
      (λ j g d. elim (entry-update f i j w.entries) [
        | inl k ↦ (subst (λ x. is_dir x ≡ true) k d, ap (λ x. x.children) k)
        | inr k ↦ absurd (ground (arith, g, alive, ap (gone w) k))
      ])
      h

kind-update :
    (f : FsEntry → FsEntry)
    → ((e : FsEntry) → is_dir (f e) ≡ is_dir e)
    → ((e : FsEntry) → (f e).children ≡ e.children)
    → (i j : ℕ) (es : List FsEntry)
    → (is_dir (entry_at j (update i f es)) ≡ is_dir (entry_at j es))
      × ((entry_at j (update i f es)).children ≡ (entry_at j es).children)
kind-update f d c i j [] = (refl, refl)
kind-update f d c zero zero (e ∷ es) = (d e, c e)
kind-update f d c zero (suc j) (e ∷ es) = (refl, refl)
kind-update f d c (suc i) zero (e ∷ es) = (refl, refl)
kind-update f d c (suc i) (suc j) (e ∷ es) = kind-update f d c i j es

pub update_kind-IsSwept :
    (f : FsEntry → FsEntry)
    → ((e : FsEntry) → (f e).removed ≡ e.removed)
    → ((e : FsEntry) → is_dir (f e) ≡ is_dir e)
    → ((e : FsEntry) → (f e).children ≡ e.children)
    → (i : ℕ) (w : Writer) → IsSwept w
    → IsSwept (update_entry i f w)
update_kind-IsSwept f same d c i w h =
    IsSwept-carried w (update_entry i f w) (λ j. removed-update f same i j w.entries)
      (λ j g k. let a = kind-update f d c i j w.entries in (sym a.0 ∙ k, a.1)) h
