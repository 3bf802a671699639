-- ===== src/Writer/Index/Removal.antt =====
-- Marking an entry as removed, as remove and removeSubtree of mkfs.go do, keeps byPath the index of
-- the entries that are not removed; and what a row of removals changes.
use go_erofs.Prelude.{
  ℕ, zero, suc, ◌+◌, ◌<◌, ◌≡◌, ◌⊎◌, refl, sym, ◌∙◌, ap, subst, Bool, true, false, ◌&&◌, some, List,
  [], ◌∷◌, length, All, arith, Bool-cases, inl, inr,
}
use go_erofs.Prelude.Bytes.{Bytes}
use go_erofs.Writer.{FsEntry, Writer, entry_at, update, is_dir}
use go_erofs.Writer.Maps.{get-delete}
use go_erofs.Writer.Tree.{set_removed, mark}
use go_erofs.Writer.Index.{live, AreOrdered, IsIndexed}
use go_erofs.Writer.Index.Live.{length-update, live-removed, removed-AreDistinct}
use go_erofs.Writer.Index.Kept.{root-update, update-AreOrdered}

pub mark-IsIndexed :
    (p : Bytes) (i : ℕ) (w : Writer)
    → live p w.entries ≡ some i
    → IsIndexed w
    → IsIndexed (mark p i w)
unfolding mark
mark-IsIndexed p i w e h = record {
  has_root = rw (length-update i set_removed w.entries) h.has_root;
  root = root-update set_removed (λ x. refl) i w.entries ∙ h.root;
  distinct = removed-AreDistinct i w.entries h.distinct;
  index = λ q.
      get-delete p q w.by_path ∙ rw (h.index q) (sym (live-removed q p i w.entries h.distinct e));
  ordered =
      rw (length-update i set_removed w.entries)
        (update-AreOrdered set_removed (λ x. refl) (length w.entries) 0 i w.entries h.ordered);
}

-- What an entry is apart from being removed.
abbrev pub kept : FsEntry → FsEntry
kept e = record e { removed = false }

abbrev pub gone : Writer → ℕ → Bool
gone w j = (entry_at j w.entries).removed

abbrev pub all_gone : Writer → List ℕ → Bool
all_gone w [] = true
all_gone w (c ∷ cs) = gone w c && all_gone w cs

pub kept-update :
    (i j : ℕ) (es : List FsEntry)
    → kept (entry_at j (update i set_removed es)) ≡ kept (entry_at j es)
kept-update i j [] = refl
kept-update zero zero (e ∷ es) = refl
kept-update zero (suc j) (e ∷ es) = refl
kept-update (suc i) zero (e ∷ es) = refl
kept-update (suc i) (suc j) (e ∷ es) = kept-update i j es

pub gone-update_self :
    (i : ℕ) (es : List FsEntry)
    → i < length es
    → (entry_at i (update i set_removed es)).removed ≡ true
gone-update_self i [] h = absurd (omega arith)
gone-update_self zero (e ∷ es) h = refl
gone-update_self (suc i) (e ∷ es) h = gone-update_self i es (omega arith)

pub gone-update :
    (i j : ℕ) (es : List FsEntry)
    → ((j ≡ i) × ((entry_at j (update i set_removed es)).removed ≡ true))
      ⊎ (entry_at j (update i set_removed es) ≡ entry_at j es)
gone-update i j [] = inr refl
gone-update zero zero (e ∷ es) = inl (refl, refl)
gone-update zero (suc j) (e ∷ es) = inr refl
gone-update (suc i) zero (e ∷ es) = inr refl
gone-update (suc i) (suc j) (e ∷ es) = elim (gone-update i j es) [
  | inl (k, r) ↦ inl (ap suc k, r)
  | inr k ↦ inr k
]

pub children_after :
    (n i j : ℕ) (es : List FsEntry)
    → AreOrdered n i es
    → All (λ c. (i + j < c) × (c < n)) (entry_at j es).children
children_after n i j [] h = tt
children_after n i zero (e ∷ es) h = let s : i + 0 ≡ i = omega arith in rw s h.0
children_after n i (suc j) (e ∷ es) h =
    let s : i + suc j ≡ suc i + j = omega arith in rw s (children_after n (suc i) j es h.1)

-- From `w` on only removals have happened: the entries that are newly removed, and are directories,
-- have all their children removed.
pub record Swept (w w' : Writer) : Type 0 where
  pub size : length w'.entries ≡ length w.entries
  pub same : (j : ℕ) → kept (entry_at j w'.entries) ≡ kept (entry_at j w.entries)
  pub stays : (j : ℕ) → gone w j ≡ true → gone w' j ≡ true
  pub swept :
      (j : ℕ)
      → gone w j ≡ false
      → gone w' j ≡ true
      → is_dir (entry_at j w.entries) ≡ true
      → all_gone w' (entry_at j w.entries).children ≡ true

pub all_gone_stays :
    (w w' : Writer) (cs : List ℕ)
    → ((j : ℕ) → gone w j ≡ true → gone w' j ≡ true)
    → all_gone w cs ≡ true
    → all_gone w' cs ≡ true
all_gone_stays w w' [] s h = refl
all_gone_stays w w' (c ∷ cs) s h =
    let ih = all_gone_stays w w' cs s in let k = s c in ground (arith, ih, k)

pub Swept-here : (w : Writer) → Swept w w
Swept-here w = record { size = refl; same = λ j. refl; stays = λ j h. h; swept = λ j h k d. cc }

pub Swept-trans : (u v w : Writer) → Swept u v → Swept v w → Swept u w
Swept-trans u v w a b = record {
  size = b.size ∙ a.size;
  same = λ j. b.same j ∙ a.same j;
  stays = λ j h. b.stays j (a.stays j h);
  swept = λ j h k d. elim (Bool-cases (gone v j)) [
    | inl e ↦ all_gone_stays v w (entry_at j u.entries).children b.stays (a.swept j h e d)
    | inr e ↦
        subst (λ x. all_gone w x.children ≡ true) (a.same j)
          (b.swept j e k (subst (λ x. is_dir x ≡ true) (sym (a.same j)) d))
  ];
}
