-- ===== src/Reader/Directory/Whole.antt =====
-- dir.lookup of erofs.go over the blocks of a directory that writeDirents of writer.go wrote.
use Prim.Native.Nat.{Ordering}
use go_erofs.Prelude.{
  ℕ, zero, suc, ◌+◌, ◌-◌, ◌*◌, ◌/◌, ◌≤◌, ◌<◌, ◌≡◌, ◌≢◌, refl, sym, ap, subst, ◌∙◌, List, [], ◌∷◌,
  ◌++◌, length, length-append, append_assoc, append-nil, arith, inl, inr, Option, none, some,
}
use go_erofs.Prelude.Order.{Ordering-cases}
use go_erofs.Prelude.Bytes.{Bytes, compare_bytes}
use go_erofs.Image.Dirents.{DirentInfo}
use go_erofs.Reader.{Result, ok, ◌>>=◌}
use go_erofs.Reader.Directory.{find_block_loop, lookup, lookup_in, block_first_name}
use go_erofs.Reader.Directory.First.{block_first_name-padded_block}
use go_erofs.Reader.Directory.Lookup.{lookup_block-find}
use go_erofs.Reader.Directory.Sorted.{
  IsSorted, find, answer, find_others, find_before, find-none, below_others, above_others,
  IsSorted-append,
}
use go_erofs.Prelude.{cut}
use go_erofs.Reader.Directory.Groups.{
  Group, IsGroup, entries_of, bytes_of, all_entries, all_entries-append, Loads, step_below,
  step_above, nothing,
}

module _ (load : ℕ → Result Bytes) (bs : ℕ) (target : Bytes) where
  -- The search over the blocks `ms`, which stand behind `xs` and before `zs`, where the last block
  -- found has the entries `p`: the lookup answers for `p` and the entries of `ms`.
  abbrev Searches : ℕ → Type 0
  Searches fuel =
      (xs ms zs : List Group) (p : List DirentInfo) (last : Option Bytes) (lo hi : ℕ)
      → Loads load bs target (xs ++ (ms ++ zs))
      → IsSorted (p ++ all_entries ms)
      → lookup_in target last ≡ answer (find target p)
      → length xs ≡ lo
      → lo + length ms ≡ hi
      → length ms ≤ fuel
      → (find_block_loop fuel load bs target lo hi last >>= lookup_in target)
        ≡ answer (find target (p ++ all_entries ms))

  module _ (fuel : ℕ) (searches : Searches fuel) (xs before after zs : List Group) (g : Group)
      (p : List DirentInfo) (last : Option Bytes) (lo hi : ℕ) where
    abbrev lower : List DirentInfo
    lower = p ++ all_entries before

    abbrev upper : List DirentInfo
    upper = g.more ++ all_entries after

    flat : p ++ all_entries (before ++ (g ∷ after)) ≡ lower ++ (g.first ∷ upper)
    flat = rw (all_entries-append before (g ∷ after)) (simp append_assoc)

    -- One round, which reads the block `g` in the middle.
    module _ (loads : Loads load bs target (xs ++ ((before ++ (g ∷ after)) ++ zs)))
        (sorted : IsSorted (p ++ all_entries (before ++ (g ∷ after))))
        (known : lookup_in target last ≡ answer (find target p)) (a : length xs ≡ lo)
        (b : lo + length (before ++ (g ∷ after)) ≡ hi) (k : length before ≡ (hi - lo) / 2)
        (f : length (before ++ (g ∷ after)) ≤ suc fuel) where
      abbrev mid : ℕ
      mid = lo + (hi - lo) / 2

      abbrev result : Result (ℕ × ℕ)
      result = find_block_loop (suc fuel) load bs target lo hi last >>= lookup_in target

      lower-IsSorted : IsSorted (lower ++ (g.first ∷ upper))
      lower-IsSorted = subst IsSorted flat sorted

      sizes : (length (before ++ (g ∷ after)) ≡ length before + suc (length after)) × (lo < hi)
      sizes = let e = length-append before (g ∷ after) in (e, omega arith)

      read : (load (mid * bs) ≡ ok (bytes_of g)) × IsGroup g
      read =
          let index : length (xs ++ before) ≡ mid = length-append xs before ∙ omega (arith, a, k) in
          let order : xs ++ ((before ++ (g ∷ after)) ++ zs)
              ≡ (xs ++ before) ++ (g ∷ (after ++ zs)) =
            simp append_assoc in
          let (loaded, group) = loads (xs ++ before) g (after ++ zs) order in
          (rw (← index) loaded, group)

      named : block_first_name (bytes_of g) ≡ ok g.first.name
      named = block_first_name-padded_block g.first g.more g.pad read.1.small read.1.entries.0

      round_above :
          compare_bytes g.first.name target ≢ Ordering.gt
          → result ≡ answer (find target (p ++ all_entries (before ++ (g ∷ after))))
      round_above c =
          let upto = xs ++ (before ++ (g ∷ [])) in
          let next : length upto ≡ mid + 1 =
            omega (arith, length-append xs (before ++ (g ∷ [])), length-append before (g ∷ [])) in
          let behind : xs ++ ((before ++ (g ∷ after)) ++ zs) ≡ upto ++ (after ++ zs) =
            simp append_assoc in
          let right = (IsSorted-append lower (g.first ∷ upper) lower-IsSorted).1 in
          let inner = (IsSorted-append (entries_of g) (all_entries after) right).0 in
          ap (λ r. r >>= lookup_in target)
            (step_above load bs target fuel lo hi last sizes.1 g read.0 named c)
          ∙ searches upto after zs (entries_of g) (some (bytes_of g)) (mid + 1) hi
              (subst (Loads load bs target) behind loads) right
              (lookup_block-find (entries_of g) g.pad target (λ e. cc) inner read.1.entries
                read.1.small)
              next (omega (arith, sizes)) (omega (arith, sizes))
          ∙ ap answer (
              sym (
                ap (find target) flat
                ∙ find_others target lower (g.first ∷ upper)
                    (below_others g.first target lower upper lower-IsSorted c)))

      round_below :
          compare_bytes g.first.name target ≡ Ordering.gt
          → result ≡ answer (find target (p ++ all_entries (before ++ (g ∷ after))))
      round_below e =
          let first_part : xs ++ ((before ++ (g ∷ after)) ++ zs)
              ≡ xs ++ (before ++ (g ∷ (after ++ zs))) =
            simp append_assoc in
          let (left, right) = IsSorted-append lower (g.first ∷ upper) lower-IsSorted in
          ap (λ r. r >>= lookup_in target)
            (step_below load bs target fuel lo hi last sizes.1 g read.0 named e)
          ∙ searches xs before (g ∷ (after ++ zs)) p last lo mid
              (subst (Loads load bs target) first_part loads) left known a (omega arith)
              (omega (arith, sizes))
          ∙ ap answer (
              sym (
                ap (find target) flat
                ∙ find_before target lower (g.first ∷ upper) (
                    find-none target (g.first ∷ upper) (
                      (λ h. cc (e, h)),
                      above_others g.first target upper right.0 (λ h. cc (e, h)),
                    ))))

      round : result ≡ answer (find target (p ++ all_entries (before ++ (g ∷ after))))
      round = elim (Ordering-cases (compare_bytes g.first.name target)) [
        | inl e ↦ round_above (λ h. cc (e, h))
        | inr (inl e) ↦ round_above (λ h. cc (e, h))
        | inr (inr e) ↦ round_below e
      ]

  find_block_loop-find : (fuel : ℕ) → Searches fuel
  find_block_loop-find fuel xs [] zs p last lo hi loads s known a b f =
      ap (λ r. r >>= lookup_in target) (nothing load bs target fuel lo hi last (omega arith))
      ∙ known
      ∙ ap (λ l. answer (find target l)) (sym (append-nil p))
  find_block_loop-find zero xs (m ∷ ms) zs p last lo hi loads s known a b f = absurd (omega arith)
  find_block_loop-find (suc fuel) xs (m ∷ ms) zs p last lo hi loads s known a b f =
      let c = cut ((hi - lo) / 2) (m ∷ ms) (omega arith) in
      subst
        (λ l.
          (find_block_loop (suc fuel) load bs target lo hi last >>= lookup_in target)
          ≡ answer (find target (p ++ all_entries l)))
        (sym c.whole)
        (round fuel (find_block_loop-find fuel) xs c.before c.after zs c.at p last lo hi
          (subst (λ l. Loads load bs target (xs ++ (l ++ zs))) c.whole loads)
          (subst (λ l. IsSorted (p ++ all_entries l)) c.whole s) known a
          (subst (λ l. lo + length l ≡ hi) c.whole b) c.index
          (subst (λ l. length l ≤ suc fuel) c.whole f))

  -- The lookup of a name over a directory's blocks gives the entry with the name, its number and
  -- its type, or that there is none, if the directory's size takes up the blocks, they are loaded
  -- at their places, each holds an entry or more and is shorter than 64 KiB, the numbers and types
  -- fit their fields, no name has a zero byte, and the names of all entries are sorted.
  pub lookup-find :
      (groups : List Group) (size : ℕ)
      → (size + bs - 1) / bs ≡ length groups
      → Loads load bs target groups
      → IsSorted (all_entries groups)
      → lookup load bs size target ≡ answer (find target (all_entries groups))
  unfolding lookup
  lookup-find groups size count loads sorted = rw count (
      find_block_loop-find (length groups) [] groups [] [] none 0 (length groups)
        (subst (Loads load bs target) (sym (append-nil groups)) loads) sorted (unfold find in refl)
        refl (omega arith) (omega arith))
