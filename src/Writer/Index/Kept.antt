-- ===== src/Writer/Index/Kept.antt =====
-- addChild of mkfs.go and assignments to an entry keep byPath the index of the entries.
use go_erofs.Prelude.{
  ℕ, zero, suc, ◌+◌, ◌<◌, ◌≡◌, refl, sym, ◌∙◌, ap, subst, Bool, true, false, if◌then◌else◌, Option,
  none, some, List, [], ◌∷◌, ◌++◌, length, All, arith, length-append,
}
use go_erofs.Prelude.Bytes.{Bytes}
use go_erofs.Writer.{FsEntry, Writer, entry_at, update, update_entry}
use go_erofs.Writer.Maps.{get, put, get-put, same_bytes-eq}
use go_erofs.Writer.Paths.{same_bytes}
use go_erofs.Writer.Tree.{append_child, add_child, parent_of}
use go_erofs.Writer.Index.{live, AreOrdered, IsIndexed}
use go_erofs.Writer.Index.Live.{
  or_new, live-append, length-update, live-update, update-AreDistinct, append-AreDistinct,
}

grow :
    (i n : ℕ) (cs : List ℕ) → All (λ c. (i < c) × (c < n)) cs → All (λ c. (i < c) × (c < suc n)) cs
grow i n [] h = tt
grow i n (c ∷ cs) h = ((h.0.0, omega arith), grow i n cs h.1)

grow_with :
    (i n : ℕ) (cs : List ℕ)
    → i < n
    → All (λ c. (i < c) × (c < n)) cs
    → All (λ c. (i < c) × (c < suc n)) (cs ++ (n ∷ []))
grow_with i n [] b h = ((b, omega arith), tt)
grow_with i n (c ∷ cs) b h = ((h.0.0, omega arith), grow_with i n cs b h.1)

append-AreOrdered :
    (n i : ℕ) (es : List FsEntry) (e : FsEntry)
    → e.children ≡ []
    → AreOrdered n i es
    → AreOrdered (suc n) i (es ++ (e ∷ []))
append-AreOrdered n i [] e none_yet h =
    (subst (λ cs. All (λ c. (i < c) × (c < suc n)) cs) (sym none_yet) tt, tt)
append-AreOrdered n i (x ∷ es) e none_yet h =
    (grow i n x.children h.0, append-AreOrdered n (suc i) es e none_yet h.1)

add-AreOrdered :
    (n i up : ℕ) (es : List FsEntry) (e : FsEntry)
    → e.children ≡ []
    → i + length es ≡ n
    → AreOrdered n i es
    → AreOrdered (suc n) i (update up (append_child n) es ++ (e ∷ []))
add-AreOrdered n i up [] e none_yet b h = append-AreOrdered n i [] e none_yet h
add-AreOrdered n i zero (x ∷ es) e none_yet b h =
    (grow_with i n x.children (omega arith) h.0, append-AreOrdered n (suc i) es e none_yet h.1)
add-AreOrdered n i (suc up) (x ∷ es) e none_yet b h =
    (grow i n x.children h.0, add-AreOrdered n (suc i) up es e none_yet (omega arith) h.1)

pub update-AreOrdered :
    (f : FsEntry → FsEntry)
    → ((e : FsEntry) → (f e).children ≡ e.children)
    → (n i j : ℕ) (es : List FsEntry) → AreOrdered n i es
    → AreOrdered n i (update j f es)
update-AreOrdered f same n i j [] h = tt
update-AreOrdered f same n i zero (e ∷ es) h = rw (same e) h
update-AreOrdered f same n i (suc j) (e ∷ es) h = (h.0, update-AreOrdered f same n (suc i) j es h.1)

root-append :
    (es : List FsEntry) (e : FsEntry) → 0 < length es → entry_at 0 (es ++ (e ∷ [])) ≡ entry_at 0 es
root-append [] e h = absurd (omega arith)
root-append (x ∷ es) e h = refl

pub root-update :
    (f : FsEntry → FsEntry)
    → ((e : FsEntry) → (f e).path ≡ e.path)
    → (i : ℕ) (es : List FsEntry) → (entry_at 0 (update i f es)).path ≡ (entry_at 0 es).path
root-update f same i [] = refl
root-update f same zero (e ∷ es) = same e
root-update f same (suc i) (e ∷ es) = refl

-- Assigning to fields other than the path, the children and `removed`.
pub update_entry-IsIndexed :
    (f : FsEntry → FsEntry)
    → ((e : FsEntry) → (f e).path ≡ e.path)
    → ((e : FsEntry) → (f e).removed ≡ e.removed)
    → ((e : FsEntry) → (f e).children ≡ e.children)
    → (i : ℕ) (w : Writer) → IsIndexed w
    → IsIndexed (update_entry i f w)
update_entry-IsIndexed f same_path same_removed same_children i w h = record {
  has_root = rw (length-update i f w.entries) h.has_root;
  root = root-update f same_path i w.entries ∙ h.root;
  distinct = update-AreDistinct f same_path same_removed i w.entries h.distinct;
  index = λ p. h.index p ∙ sym (live-update f same_path same_removed p i w.entries);
  ordered =
      rw (length-update i f w.entries)
        (update-AreOrdered f same_children (length w.entries) 0 i w.entries h.ordered);
}

placed :
    (b : Bool) (o : Option ℕ) (n : ℕ)
    → (b ≡ true → o ≡ none)
    → (if b then some n else o) ≡ or_new o b n
placed true o n h = rw (h refl) refl
placed false none n h = refl
placed false (some i) n h = refl

module _ (e : FsEntry) (w : Writer) (up : ℕ) where
  abbrev with_child : List FsEntry
  with_child = update up (append_child (length w.entries)) w.entries

  with_child-live : (p : Bytes) → live p with_child ≡ live p w.entries
  with_child-live p =
      live-update (append_child (length w.entries)) (λ x. refl) (λ x. refl) p up w.entries

  with_child-length : length with_child ≡ length w.entries
  with_child-length = length-update up (append_child (length w.entries)) w.entries

  added_index :
      (p : Bytes)
      → get e.path w.by_path ≡ none
      → e.removed ≡ false
      → IsIndexed w
      → get p (put e.path (length w.entries) w.by_path)
        ≡ live p (with_child ++ (record e { parent = up } ∷ []))
  added_index p new kept h =
      let e' = record e { parent = up } in
      let k = get-put e.path p (length w.entries) w.by_path in
      let l = live-append p with_child e' in
      let m = with_child-live p in
      let n = with_child-length in
      let o = h.index p in
      rw (k, l, m, n, o, kept)
        (placed (same_bytes e.path p) (live p w.entries) (length w.entries) λ same.
          sym (h.index p) ∙ ap (λ q. get q w.by_path) (sym (same_bytes-eq e.path p same)) ∙ new)

-- A new entry at a path that byPath does not have.
pub add_child-IsIndexed :
    (e : FsEntry) (w : Writer)
    → get e.path w.by_path ≡ none
    → e.removed ≡ false
    → e.children ≡ []
    → IsIndexed w
    → IsIndexed (add_child e w)
unfolding add_child
add_child-IsIndexed e w new kept childless h =
    let n = length w.entries in
    let up = parent_of w e.path in
    let e' = record e { parent = up } in
    let es = with_child e w up in
    let size : length (es ++ (e' ∷ [])) ≡ suc n =
      omega (arith, length-append es (e' ∷ []), with_child-length e w up) in
    record {
      has_root = omega (arith, size);
      root =
          ap (λ x. x.path) (root-append es e' (omega (arith, with_child-length e w up, h.has_root)))
          ∙ root-update (append_child n) (λ x. refl) up w.entries
          ∙ h.root;
      distinct =
          append-AreDistinct es e'
            (update-AreDistinct (append_child n) (λ x. refl) (λ x. refl) up w.entries h.distinct)
            (with_child-live e w up e.path ∙ sym (h.index e.path) ∙ new);
      index = λ p. added_index e w up p new kept h;
      ordered = rw size (add-AreOrdered n 0 up w.entries e' childless (omega arith) h.ordered);
    }
