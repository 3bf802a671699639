-- ===== src/Writer/Build/Linked.antt =====
-- The walk of planLayout: each child of a directory stands where its index says.
use go_erofs.Prelude.{
  ℕ, zero, suc, ◌+◌, ◌≡◌, refl, sym, ◌∙◌, ap, some, List, [], ◌∷◌, ◌++◌, All, length, length-append,
  get_elem?, append_assoc, append-nil, arith,
}
use go_erofs.Image.{Child, ErofsEntry}
use go_erofs.Mode.{mode_to_file_type}
use go_erofs.Writer.Build.{
  Tree, branch, Forest, bare, grown, tree_size, forest_size, tree_child, child_list, walk_tree,
  walk_forest,
}

mutual
  unfolding walk_tree tree_size

  length-walk_tree : (start : ℕ) (t : Tree) → length (walk_tree start t) ≡ tree_size t
  length-walk_tree start (branch n e ts) = ap suc (length-walk_forest (start + 1) ts)

  length-walk_forest : (start : ℕ) (ts : Forest) → length (walk_forest start ts) ≡ forest_size ts
  length-walk_forest start bare = refl
  length-walk_forest start (grown t ts) = omega (
    arith,
    length-append (walk_tree start t) (walk_forest (start + tree_size t) ts),
    length-walk_tree start t,
    length-walk_forest (start + tree_size t) ts,
  )

-- The child is in the list at its index, with the type that it says.
pub record Stands (l : List ErofsEntry) (c : Child) : Type 0 where
  pub entry : ErofsEntry
  pub found : get_elem? l c.index ≡ some entry
  pub typed : mode_to_file_type entry.mode ≡ c.file_type

abbrev pub IsLinked : List ErofsEntry → ErofsEntry → Type 0
IsLinked l e = All (Stands l) e.children

append-All {ℓ κ} :
    {A : Type ℓ} (P : A → Type κ) (xs ys : List A) → All P xs → All P ys → All P (xs ++ ys)
append-All P [] ys h k = k
append-All P (x ∷ xs) ys h k = (h.0, append-All P xs ys h.1 k)

get_elem-append :
    (pre rest : List ErofsEntry) (e : ErofsEntry) (n : ℕ)
    → length pre ≡ n
    → get_elem? (pre ++ (e ∷ rest)) n ≡ some e
get_elem-append [] rest e zero h = refl
get_elem-append [] rest e (suc n) h = absurd (omega arith)
get_elem-append (x ∷ pre) rest e zero h = absurd (omega arith)
get_elem-append (x ∷ pre) rest e (suc n) h = get_elem-append pre rest e n (omega arith)

tree-Stands :
    (l pre post : List ErofsEntry) (start : ℕ) (t : Tree)
    → l ≡ pre ++ (walk_tree start t ++ post)
    → length pre ≡ start
    → Stands l (tree_child start t)
unfolding walk_tree
tree-Stands l pre post start (branch n e ts) h k =
    let e' = record e { children = child_list (start + 1) ts } in
    record {
      entry = e';
      found =
          ap (λ x. get_elem? x start) h
          ∙ get_elem-append pre (walk_forest (start + 1) ts ++ post) e' start k;
      typed = refl;
    }

-- The list as what is before the second part, that part, and what is behind it.
shifted :
    (l pre a b post : List ErofsEntry)
    → l ≡ pre ++ ((a ++ b) ++ post)
    → l ≡ (pre ++ a) ++ (b ++ post)
shifted l pre a b post h =
    h ∙ ap (λ x. pre ++ x) (append_assoc a b post) ∙ sym (append_assoc pre a (b ++ post))

child_list-Stands :
    (l pre post : List ErofsEntry) (start : ℕ) (ts : Forest)
    → l ≡ pre ++ (walk_forest start ts ++ post)
    → length pre ≡ start
    → All (Stands l) (child_list start ts)
unfolding child_list walk_forest
child_list-Stands l pre post start bare h k = tt
child_list-Stands l pre post start (grown t ts) h k =
    let a = walk_tree start t in
    let b = walk_forest (start + tree_size t) ts in
    (
      tree-Stands l pre (b ++ post) start t (h ∙ ap (λ x. pre ++ x) (append_assoc a b post)) k,
      child_list-Stands l (pre ++ a) post (start + tree_size t) ts (shifted l pre a b post h)
          (omega (arith, length-append pre a, length-walk_tree start t)),
    )

mutual
  unfolding walk_tree

  tree-IsLinked :
      (l pre post : List ErofsEntry) (start : ℕ) (t : Tree)
      → l ≡ pre ++ (walk_tree start t ++ post)
      → length pre ≡ start
      → All (IsLinked l) (walk_tree start t)
  tree-IsLinked l pre post start (branch n e ts) h k =
      let e' = record e { children = child_list (start + 1) ts } in
      let one : length (pre ++ (e' ∷ [])) ≡ start + 1 =
        omega (arith, length-append pre (e' ∷ [])) in
      let moved = shifted l pre (e' ∷ []) (walk_forest (start + 1) ts) post h in
      (
        child_list-Stands l (pre ++ (e' ∷ [])) post (start + 1) ts moved one,
        forest-IsLinked l (pre ++ (e' ∷ [])) post (start + 1) ts moved one,
      )

  forest-IsLinked :
      (l pre post : List ErofsEntry) (start : ℕ) (ts : Forest)
      → l ≡ pre ++ (walk_forest start ts ++ post)
      → length pre ≡ start
      → All (IsLinked l) (walk_forest start ts)
  forest-IsLinked l pre post start bare h k = tt
  forest-IsLinked l pre post start (grown t ts) h k =
      let a = walk_tree start t in
      let b = walk_forest (start + tree_size t) ts in
      append-All (IsLinked l) a b
        (tree-IsLinked l pre (b ++ post) start t (h ∙ ap (λ x. pre ++ x) (append_assoc a b post)) k)
        (forest-IsLinked l (pre ++ a) post (start + tree_size t) ts (shifted l pre a b post h)
          (omega (arith, length-append pre a, length-walk_tree start t)))

-- In the list that the walk of planLayout makes of any tree, each child of each directory has the index
-- of an entry of the list, and the file type of that entry.
pub walk_tree-IsLinked : (t : Tree) → All (IsLinked (walk_tree 0 t)) (walk_tree 0 t)
walk_tree-IsLinked t =
    tree-IsLinked (walk_tree 0 t) [] [] 0 t (sym (append-nil (walk_tree 0 t))) refl
