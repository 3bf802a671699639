-- ===== src/Reader/Directory/Search.antt =====
-- lookupBlock of erofs.go is a search of the block's entries.
use Prim.Native.Nat.{Ordering}
use go_erofs.Prelude.{
  ℕ, zero, suc, ◌+◌, ◌-◌, ◌/◌, ◌≤◌, ◌<◌, ◌≡◌, refl, sym, ap, subst, ◌∙◌, le→ltb, lt→ltb, List, [],
  ◌∷◌, ◌++◌, length, length-append, append_assoc, arith, inl, inr,
}
use go_erofs.Prelude.Order.{Ordering-cases}
use go_erofs.Prelude.Bytes.{Bytes, compare_bytes}
use go_erofs.Image.Dirents.{DirentInfo}
use go_erofs.Mode.{erofs_ftype_to_file_mode}
use go_erofs.Disk.{Dirent}
use go_erofs.Reader.{Result, ok, err, not_exist}
use go_erofs.Reader.Directory.{block_dirent, lookup_switch, lookup_block_loop}
use go_erofs.Reader.Directory.Block.{dirent_of}
use go_erofs.Prelude.{cut}
use go_erofs.Reader.Directory.Sorted.{
  IsSorted, find, answer, find_hit, find_others, find_before, find-none, below_others, above_others,
  IsSorted-append,
}

module _ (buf target : Bytes) (n : ℕ)
    (offset : List DirentInfo → DirentInfo → List DirentInfo → ℕ) where
  -- Every entry of the list is read at its index.
  abbrev pub Reads : List DirentInfo → Type 0
  Reads ds =
      (xs : List DirentInfo) (d : DirentInfo) (ys : List DirentInfo)
      → ds ≡ xs ++ (d ∷ ys)
      → block_dirent buf (length xs) n ≡ ok (dirent_of (offset xs d ys) d, d.name)

  -- A round that reads an entry at `mid`.
  module _ (fuel lo hi : ℕ) (lt : lo < hi) (d : DirentInfo) (de : Dirent)
      (read : block_dirent buf (lo + (hi - lo) / 2) n ≡ ok (de, d.name)) where
    abbrev above : Result (ℕ × ℕ)
    above = lookup_block_loop fuel buf target n (lo + (hi - lo) / 2 + 1) hi

    abbrev below : Result (ℕ × ℕ)
    below = lookup_block_loop fuel buf target n lo (lo + (hi - lo) / 2)

    round_lt :
        compare_bytes d.name target ≡ Ordering.lt
        → lookup_block_loop (suc fuel) buf target n lo hi
          ≡ lookup_block_loop fuel buf target n (lo + (hi - lo) / 2 + 1) hi
    unfolding lookup_block_loop
    round_lt c = rw (lt→ltb lo hi lt, read) (ap (lookup_switch de above below) c)

    round_gt :
        compare_bytes d.name target ≡ Ordering.gt
        → lookup_block_loop (suc fuel) buf target n lo hi
          ≡ lookup_block_loop fuel buf target n lo (lo + (hi - lo) / 2)
    unfolding lookup_block_loop
    round_gt c = rw (lt→ltb lo hi lt, read) (ap (lookup_switch de above below) c)

    round_eq :
        compare_bytes d.name target ≡ Ordering.eq
        → lookup_block_loop (suc fuel) buf target n lo hi
          ≡ ok (de.nid, erofs_ftype_to_file_mode de.file_type)
    unfolding lookup_block_loop
    round_eq c = rw (lt→ltb lo hi lt, read) (ap (lookup_switch de above below) c)

  nothing : (fuel lo hi : ℕ) → hi ≤ lo → lookup_block_loop fuel buf target n lo hi ≡ err not_exist
  unfolding lookup_block_loop
  nothing zero lo hi h = refl
  nothing (suc fuel) lo hi h = rw (le→ltb hi lo h)

  -- The binary search over the entries `ms`, which stand behind `xs` and before `zs`.
  abbrev pub Searches : ℕ → Type 0
  Searches fuel =
      (xs ms zs : List DirentInfo) (lo hi : ℕ)
      → Reads (xs ++ (ms ++ zs))
      → IsSorted ms
      → length xs ≡ lo
      → lo + length ms ≡ hi
      → length ms ≤ fuel
      → lookup_block_loop fuel buf target n lo hi ≡ answer (find target ms)

  module _ (fuel : ℕ) (searches : Searches fuel) (xs as' bs zs : List DirentInfo) (d : DirentInfo)
      (lo hi : ℕ) where
    -- One round, which reads the entry `d` in the middle.
    round :
        Reads (xs ++ ((as' ++ (d ∷ bs)) ++ zs))
        → IsSorted (as' ++ (d ∷ bs))
        → length xs ≡ lo
        → lo + length (as' ++ (d ∷ bs)) ≡ hi
        → length as' ≡ (hi - lo) / 2
        → length (as' ++ (d ∷ bs)) ≤ suc fuel
        → lookup_block_loop (suc fuel) buf target n lo hi ≡ answer (find target (as' ++ (d ∷ bs)))
    round reads sorted a b k f =
        let (left, right) = IsSorted-append as' (d ∷ bs) sorted in
        let size = length-append as' (d ∷ bs) in
        let index : length (xs ++ as') ≡ lo + (hi - lo) / 2 =
          length-append xs as' ∙ omega (arith, a, k) in
        let order : xs ++ ((as' ++ (d ∷ bs)) ++ zs) ≡ (xs ++ as') ++ (d ∷ (bs ++ zs)) =
          simp append_assoc in
        let read = reads (xs ++ as') d (bs ++ zs) order in
        let de = dirent_of (offset (xs ++ as') d (bs ++ zs)) d in
        let read_mid : block_dirent buf (lo + (hi - lo) / 2) n ≡ ok (de, d.name) =
          rw (← index) read in
        let lt : lo < hi = omega arith in
        elim (Ordering-cases (compare_bytes d.name target)) [
          | inl e ↦
              let behind : xs ++ ((as' ++ (d ∷ bs)) ++ zs)
                  ≡ (xs ++ (as' ++ (d ∷ []))) ++ (bs ++ zs) =
                simp append_assoc in
              let here : length (xs ++ (as' ++ (d ∷ []))) ≡ lo + (hi - lo) / 2 + 1 =
                omega (arith, length-append xs (as' ++ (d ∷ [])), length-append as' (d ∷ [])) in
              round_lt fuel lo hi lt d de read_mid e
              ∙ searches (xs ++ (as' ++ (d ∷ []))) bs zs (lo + (hi - lo) / 2 + 1) hi
                  (subst Reads behind reads) right.1 here (omega arith) (omega arith)
              ∙ ap answer (
                  sym (
                    find_others target as' (d ∷ bs)
                      (below_others d target as' bs sorted (λ g. cc (e, g)))
                    ∙ find_others target (d ∷ []) bs ((λ g. cc (e, g)), tt)))
          | inr (inl e) ↦
              round_eq fuel lo hi lt d de read_mid e
              ∙ ap answer (
                  sym (
                    find_others target as' (d ∷ bs)
                      (below_others d target as' bs sorted (λ g. cc (e, g)))
                    ∙ find_hit target d bs e))
          | inr (inr e) ↦
              let before : xs ++ ((as' ++ (d ∷ bs)) ++ zs) ≡ xs ++ (as' ++ (d ∷ (bs ++ zs))) =
                simp append_assoc in
              round_gt fuel lo hi lt d de read_mid e
              ∙ searches xs as' (d ∷ (bs ++ zs)) lo (lo + (hi - lo) / 2) (subst Reads before reads)
                  left a (omega arith) (omega arith)
              ∙ ap answer (
                  sym (
                    find_before target as' (d ∷ bs) (
                      find-none target (d ∷ bs)
                        ((λ g. cc (e, g)), above_others d target bs right.0 (λ g. cc (e, g))))))
        ]

  pub lookup_block_loop-find : (fuel : ℕ) → Searches fuel
  lookup_block_loop-find fuel xs [] zs lo hi reads s a b f =
      nothing fuel lo hi (omega arith) ∙ (unfold find in refl)
  lookup_block_loop-find zero xs (m ∷ ms) zs lo hi reads s a b f = absurd (omega arith)
  lookup_block_loop-find (suc fuel) xs (m ∷ ms) zs lo hi reads s a b f =
      let c = cut ((hi - lo) / 2) (m ∷ ms) (omega arith) in
      subst (λ l. lookup_block_loop (suc fuel) buf target n lo hi ≡ answer (find target l))
        (sym c.whole)
        (round fuel (lookup_block_loop-find fuel) xs c.before c.after zs c.at lo hi
          (subst (λ l. Reads (xs ++ (l ++ zs))) c.whole reads) (subst IsSorted c.whole s) a
          (subst (λ l. lo + length l ≡ hi) c.whole b) c.index
          (subst (λ l. length l ≤ suc fuel) c.whole f))
