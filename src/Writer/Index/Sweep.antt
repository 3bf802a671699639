-- ===== src/Writer/Index/Sweep.antt =====
-- remove, removeChildren and removeSubtree of mkfs.go keep byPath the index of the entries that are
-- not removed, and leave no entry of a removed directory.
use go_erofs.Prelude.{
  ℕ, zero, suc, ◌+◌, ◌<◌, ◌≤◌, ◌≡◌, refl, sym, ◌∙◌, ap, subst, Bool, true, false, not, ◌||◌, none,
  some, List, [], ◌∷◌, length, All, either_way, arith, Bool-cases, Option-cases, inl, inr,
}
use go_erofs.Prelude.Bytes.{Bytes}
use go_erofs.Writer.{FsEntry, Writer, entry_at, update, is_dir}
use go_erofs.Writer.Maps.{get}
use go_erofs.Writer.Paths.{clean_path}
use go_erofs.Writer.Tree.{
  set_removed, mark, remove_each, remove_subtree, remove_at, when_found, remove, remove_children,
}
use go_erofs.Writer.Index.{live, IsIndexed}
use go_erofs.Writer.Index.Live.{length-update, live_found, live_at}
use go_erofs.Writer.Index.Removal.{
  mark-IsIndexed, gone, all_gone, gone-update_self, gone-update, kept-update, children_after,
  all_gone_stays, Swept, Swept-here, Swept-trans,
}

-- One entry is marked, and then its children, if it is a directory.
mark-Swept :
    (p : Bytes) (c : ℕ) (w w' : Writer)
    → Swept (mark p c w) w'
    → (is_dir (entry_at c w.entries) ≡ true → all_gone w' (entry_at c w.entries).children ≡ true)
    → Swept w w'
unfolding mark
mark-Swept p c w w' a below = record {
  size = a.size ∙ length-update c set_removed w.entries;
  same = λ j. a.same j ∙ kept-update c j w.entries;
  stays = λ j h.
      a.stays j
        (elim (gone-update c j w.entries) [ inl (k, r) ↦ r | inr k ↦ ap (λ x. x.removed) k ∙ h ]);
  swept = λ j h g d. elim (gone-update c j w.entries) [
    | inl (k, r) ↦
        subst (λ i. all_gone w' (entry_at i w.entries).children ≡ true) (sym k)
          (below (subst (λ i. is_dir (entry_at i w.entries) ≡ true) k d))
    | inr k ↦
        subst (λ x. all_gone w' x.children ≡ true) k
          (a.swept j (subst (λ x. x.removed ≡ false) (sym k) h) g
            (subst (λ x. is_dir x ≡ true) (sym k) d))
  ];
}

-- What a sweep of the entries `cs` has done.
record Sweep (cs : List ℕ) (w w' : Writer) : Type 0 where
  indexed : IsIndexed w'
  swept : Swept w w'
  all : all_gone w' cs ≡ true
  top : gone w' 0 ≡ gone w 0

Sweep-cons :
    (c : ℕ) (cs : List ℕ) (w v r : Writer)
    → Swept w v
    → gone v c ≡ true
    → gone v 0 ≡ gone w 0
    → Sweep cs v r
    → Sweep (c ∷ cs) w r
Sweep-cons c cs w v r a g t b = record {
  top = b.top ∙ t;
  indexed = b.indexed;
  swept = Swept-trans w v r a b.swept;
  all = rw (b.swept.stays c g) b.all;
}

abbrev Within : ℕ → ℕ → List ℕ → Type 0
Within n fuel cs = All (λ c. (c < n) × (n ≤ c + fuel) × (0 < c)) cs

deeper :
    (n fuel i : ℕ) (cs : List ℕ)
    → n ≤ i + suc fuel
    → All (λ c. (0 + i < c) × (c < n)) cs
    → Within n fuel cs
deeper n fuel i [] b h = tt
deeper n fuel i (c ∷ cs) b h =
    ((h.0.1, omega (arith, h.0.0), omega (arith, h.0.0)), deeper n fuel i cs b h.1)

module _ (fuel c : ℕ) (cs : List ℕ) (w : Writer) where
  each_gone :
      (entry_at c w.entries).removed ≡ true
      → remove_each (suc fuel) (c ∷ cs) w ≡ remove_each (suc fuel) cs w
  unfolding remove_each
  each_gone r = rw (r, remove_each) refl

  each_dir :
      (entry_at c w.entries).removed ≡ false
      → is_dir (entry_at c w.entries) ≡ true
      → remove_each (suc fuel) (c ∷ cs) w
        ≡ remove_each (suc fuel) cs (
            remove_each fuel (entry_at c w.entries).children (mark (entry_at c w.entries).path c w))
  unfolding remove_each
  each_dir r d = rw (r, d, remove_each) refl

  each_other :
      (entry_at c w.entries).removed ≡ false
      → is_dir (entry_at c w.entries) ≡ false
      → remove_each (suc fuel) (c ∷ cs) w
        ≡ remove_each (suc fuel) cs (mark (entry_at c w.entries).path c w)
  unfolding remove_each
  each_other r d = rw (r, d, remove_each) refl

-- Removing changes the entries and byPath alone; the block size stays.
remove_each-block_size :
    (fuel : ℕ) (cs : List ℕ) (w : Writer) → (remove_each fuel cs w).block_size ≡ w.block_size
unfolding remove_each
remove_each-block_size fuel [] w = refl
remove_each-block_size zero (c ∷ cs) w = refl
remove_each-block_size (suc fuel) (c ∷ cs) w =
    let e = entry_at c w.entries in
    let v = mark e.path c w in
    elim (Bool-cases e.removed) [
      | inl r ↦
          ap (λ x. x.block_size) (each_gone fuel c cs w r) ∙ remove_each-block_size (suc fuel) cs w
      | inr r ↦ elim (Bool-cases (is_dir e)) [
        | inl d ↦
            ap (λ x. x.block_size) (each_dir fuel c cs w r d)
            ∙ remove_each-block_size (suc fuel) cs (remove_each fuel e.children v)
            ∙ remove_each-block_size fuel e.children v
            ∙ (unfold mark in refl)
        | inr d ↦
            ap (λ x. x.block_size) (each_other fuel c cs w r d)
            ∙ remove_each-block_size (suc fuel) cs v
            ∙ (unfold mark in refl)
      ]
    ]

pub remove_subtree-block_size :
    (i : ℕ) (w : Writer) → (remove_subtree i w).block_size ≡ w.block_size
unfolding remove_subtree
remove_subtree-block_size i w =
    remove_each-block_size (length w.entries) (entry_at i w.entries).children w

pub remove_at-block_size :
    (p : Bytes) (i : ℕ) (w : Writer) → (remove_at p i w).block_size ≡ w.block_size
unfolding remove_at
remove_at-block_size p i w =
    either_way (λ (v : Writer). v.block_size ≡ w.block_size) (is_dir (entry_at i w.entries))
      (remove_subtree i (mark p i w)) (mark p i w) (remove_subtree-block_size i (mark p i w)) refl

top-update :
    (i : ℕ) (es : List FsEntry) → 0 < i → entry_at 0 (update i set_removed es) ≡ entry_at 0 es
top-update i [] h = refl
top-update zero (e ∷ es) h = absurd (omega arith)
top-update (suc i) (e ∷ es) h = refl

-- With fuel for as many levels as entries can follow, the whole list is swept.
remove_each-Sweep :
    (fuel : ℕ) (cs : List ℕ) (w : Writer)
    → IsIndexed w
    → Within (length w.entries) fuel cs
    → Sweep cs w (remove_each fuel cs w)
unfolding remove_each
remove_each-Sweep fuel [] w h b = record {
  indexed = h;
  swept = Swept-here w;
  all = refl;
  top = refl;
}
remove_each-Sweep zero (c ∷ cs) w h b = absurd (omega (arith, b.0.0, b.0.1))
remove_each-Sweep (suc fuel) (c ∷ cs) w h b =
    let e = entry_at c w.entries in
    elim (Bool-cases e.removed) [
      | inl r ↦ rw (each_gone fuel c cs w r) (
          Sweep-cons c cs w w (remove_each (suc fuel) cs w) (Swept-here w) r refl
            (remove_each-Sweep (suc fuel) cs w h b.1))
      | inr r ↦
          let v = mark e.path c w in
          let hv = mark-IsIndexed e.path c w (live_at c w.entries h.distinct b.0.0 r) h in
          let size : length v.entries ≡ length w.entries =
            unfold mark in length-update c set_removed w.entries in
          let g : gone v c ≡ true = unfold mark in gone-update_self c w.entries b.0.0 in
          let t : gone v 0 ≡ gone w 0 =
            unfold mark in ap (λ x. x.removed) (top-update c w.entries b.0.2) in
          elim (Bool-cases (is_dir e)) [
            | inl d ↦
                let u = remove_each fuel e.children v in
                let inner = remove_each-Sweep fuel e.children v hv (
                  rw size (
                    deeper (length w.entries) fuel c e.children b.0.1
                      (children_after (length w.entries) 0 c w.entries h.ordered))) in
                let same : length u.entries ≡ length w.entries = inner.swept.size ∙ size in
                rw (each_dir fuel c cs w r d) (
                  Sweep-cons c cs w u (remove_each (suc fuel) cs u)
                    (mark-Swept e.path c w u inner.swept (λ k. inner.all)) (inner.swept.stays c g)
                    (inner.top ∙ t) (remove_each-Sweep (suc fuel) cs u inner.indexed (rw same b.1)))
            | inr d ↦ rw (each_other fuel c cs w r d) (
                Sweep-cons c cs w v (remove_each (suc fuel) cs v)
                  (mark-Swept e.path c w v (Swept-here v) (λ k. cc)) g t
                  (remove_each-Sweep (suc fuel) cs v hv (rw size b.1)))
          ]
    ]

remove_subtree-Sweep :
    (i : ℕ) (w : Writer)
    → IsIndexed w
    → Sweep (entry_at i w.entries).children w (remove_subtree i w)
unfolding remove_subtree
remove_subtree-Sweep i w h =
    let n = length w.entries in
    remove_each-Sweep n (entry_at i w.entries).children w h (
      deeper n n i (entry_at i w.entries).children (omega arith)
        (children_after n 0 i w.entries h.ordered))

remove_at-Swept :
    (p : Bytes) (i : ℕ) (w : Writer)
    → live p w.entries ≡ some i
    → IsIndexed w
    → IsIndexed (remove_at p i w) × Swept w (remove_at p i w) × (gone (remove_at p i w) i ≡ true)
unfolding remove_at
remove_at-Swept p i w e h =
    let v = mark p i w in
    let hv = mark-IsIndexed p i w e h in
    let f = live_found p i w.entries e in
    let g : gone v i ≡ true = unfold mark in gone-update_self i w.entries f.0 in
    let below = remove_subtree-Sweep i v hv in
    let same : (entry_at i v.entries).children ≡ (entry_at i w.entries).children =
      unfold mark in ap (λ x. x.children) (kept-update i i w.entries) in
    elim (Bool-cases (is_dir (entry_at i w.entries))) [
      | inl d ↦ rw d (
        below.indexed,
        mark-Swept p i w (remove_subtree i v) below.swept
            (λ k. subst (λ cs. all_gone (remove_subtree i v) cs ≡ true) same below.all),
        below.swept.stays i g,
      )
      | inr d ↦ rw d (hv, mark-Swept p i w v (Swept-here v) (λ k. cc), g)
    ]

-- The root is removed only where it is what is removed.
pub remove_at_top :
    (p : Bytes) (i : ℕ) (w : Writer)
    → live p w.entries ≡ some i
    → IsIndexed w
    → 0 < i
    → gone (remove_at p i w) 0 ≡ gone w 0
unfolding remove_at
remove_at_top p i w e h b =
    let v = mark p i w in
    let below = remove_subtree-Sweep i v (mark-IsIndexed p i w e h) in
    let t : gone v 0 ≡ gone w 0 = unfold mark in ap (λ x. x.removed) (top-update i w.entries b) in
    elim (Bool-cases (is_dir (entry_at i w.entries))) [
      | inl d ↦ rw d (below.top ∙ t)
      | inr d ↦ rw d t
    ]

pub remove_subtree_top : (i : ℕ) (w : Writer) → IsIndexed w → gone (remove_subtree i w) 0 ≡ gone w 0
remove_subtree_top i w h = (remove_subtree-Sweep i w h).top

-- Every directory that is removed has all its children removed.
abbrev pub swept_at : Writer → ℕ → Bool
swept_at w j =
    not (gone w j)
    || not (is_dir (entry_at j w.entries))
    || all_gone w (entry_at j w.entries).children

abbrev pub IsSwept : Writer → Type 0
IsSwept w = (j : ℕ) → swept_at w j ≡ true

pub when_both : (g d a : Bool) → (g ≡ true → d ≡ true → a ≡ true) → (not g || not d || a) ≡ true
when_both false d a h = refl
when_both true false a h = refl
when_both true true a h = h refl refl

pub both_then : (g d a : Bool) → (not g || not d || a) ≡ true → g ≡ true → d ≡ true → a ≡ true
both_then false d a h k l = cc
both_then true false a h k l = cc
both_then true true a h k l = h

Swept-IsSwept : (w w' : Writer) → Swept w w' → IsSwept w → IsSwept w'
Swept-IsSwept w w' a h j =
    let e = entry_at j w.entries in
    subst (λ x. (not (gone w' j) || not (is_dir x) || all_gone w' x.children) ≡ true)
      (sym (a.same j))
      (when_both (gone w' j) (is_dir e) (all_gone w' e.children) λ g d.
        elim (Bool-cases (gone w j)) [
          | inl k ↦
              all_gone_stays w w' e.children a.stays
                (both_then (gone w j) (is_dir e) (all_gone w e.children) (h j) k d)
          | inr k ↦ a.swept j k g d
        ])

-- The entry that byPath had for a path was the only one with it.
gone-get :
    (p : Bytes) (i : ℕ) (w w' : Writer)
    → IsIndexed w
    → IsIndexed w'
    → Swept w w'
    → live p w.entries ≡ some i
    → gone w' i ≡ true
    → get p w'.by_path ≡ none
gone-get p i w w' h h' a e g = h'.index p ∙ elim (Option-cases (live p w'.entries)) [
  | inl k ↦ k
  | inr (j, k) ↦
      let f = live_found p j w'.entries k in
      let still : gone w j ≡ false = elim (Bool-cases (gone w j)) [
        | inl r ↦ absurd (ground (arith, a.stays j r, f.2))
        | inr r ↦ r
      ] in
      let same : (entry_at j w.entries).path ≡ p = sym (ap (λ x. x.path) (a.same j)) ∙ f.1 in
      let at_j = live_at j w.entries h.distinct (omega (arith, f.0, a.size)) still in
      let i_is_j : some i ≡ some j = sym e ∙ ap (λ q. live q w.entries) (sym same) ∙ at_j in
      absurd (ground (arith, g, f.2, i_is_j))
]

-- What a removal leaves: byPath is still the index, no removed directory has a child that is not
-- removed, and the Writer keeps the number of its entries.
pub record Removed (w w' : Writer) : Type 0 where
  pub indexed : IsIndexed w'
  pub swept : IsSwept w'
  pub size : length w'.entries ≡ length w.entries

pub remove_found :
    (q : Bytes) (w : Writer)
    → IsIndexed w
    → IsSwept w
    → Removed w (when_found (remove_at q) (get q w.by_path) w)
      × (get q (when_found (remove_at q) (get q w.by_path) w).by_path ≡ none)
remove_found q w h s = elim (Option-cases (get q w.by_path)) [
  | inl e ↦ rw e (record { indexed = h; swept = s; size = refl }, e)
  | inr (i, e) ↦
      let l = sym (h.index q) ∙ e in
      let a = remove_at-Swept q i w l h in
      rw e (
        record { indexed = a.0; swept = Swept-IsSwept w (remove_at q i w) a.1 s; size = a.1.size },
        gone-get q i w (remove_at q i w) h a.0 a.1 l a.2,
      )
]

pub remove_subtree-Removed :
    (i : ℕ) (w : Writer) → IsIndexed w → IsSwept w → Removed w (remove_subtree i w)
remove_subtree-Removed i w h s =
    let a = remove_subtree-Sweep i w h in
    record {
      indexed = a.indexed;
      swept = Swept-IsSwept w (remove_subtree i w) a.swept s;
      size = a.swept.size;
    }

-- Let byPath be the index of the entries that are not removed, and let no removed directory have a
-- child that is not removed. Then both hold after remove as well, which takes the path out of byPath.
pub remove-IsSwept :
    (p : Bytes) (w : Writer)
    → IsIndexed w
    → IsSwept w
    → Removed w (remove p w) × (get (clean_path p) (remove p w).by_path ≡ none)
unfolding remove
remove-IsSwept p w h s = remove_found (clean_path p) w h s

-- Under the same conditions both hold after removeChildren, and the children of the directory at the
-- path, at the index `i`, are all removed.
pub remove_children-IsSwept :
    (p : Bytes) (i : ℕ) (w : Writer)
    → get (clean_path p) w.by_path ≡ some i
    → IsIndexed w
    → IsSwept w
    → Removed w (remove_children p w)
      × (all_gone (remove_children p w) (entry_at i w.entries).children ≡ true)
unfolding remove_children
remove_children-IsSwept p i w e h s =
    rw e (remove_subtree-Removed i w h s, (remove_subtree-Sweep i w h).all)
