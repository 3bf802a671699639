-- ===== src/Reader/Directory/Lookup.antt =====
-- lookupBlock of erofs.go on a block that writeDirents of writer.go wrote.
use go_erofs.Prelude.{
  All-middle, ℕ, ◌*◌, ◌/◌, ◌%◌, ◌^◌, ◌≤◌, ◌<◌, ◌==◌, ◌≡◌, ◌≢◌, refl, sym, subst, le→ltb, true, List,
  [], ◌∷◌, ◌++◌, length, append-nil, All, arith, take,
}
use go_erofs.Prelude.Bytes.{Bytes}
use go_erofs.Disk.{size_dirent}
use go_erofs.Disk.Codec.{decode_dirent}
use go_erofs.Image.Dirents.{DirentInfo, dirent_names_bytes}
use go_erofs.Reader.{ok}
use go_erofs.Reader.Directory.{block_dirent, lookup_block}
use go_erofs.Reader.Directory.Block.{IsEntry, dirent_of, padded_block, name_at, sizes}
use go_erofs.Reader.Directory.Entry.{decoded, block_dirent-padded_block}
use go_erofs.Reader.Directory.Sorted.{IsSorted, find, answer}
use go_erofs.Reader.Directory.Search.{lookup_block_loop-find}

entries_read :
    (ds : List DirentInfo) (k : ℕ)
    → All IsEntry ds
    → length (padded_block ds k) < 2 ^ 16
    → (xs : List DirentInfo) (d : DirentInfo) (ys : List DirentInfo) → ds ≡ xs ++ (d ∷ ys)
    → block_dirent (padded_block ds k) (length xs) (length ds)
      ≡ ok (dirent_of (name_at xs ys d k) d, d.name)
entries_read ds k es small xs d ys e =
    subst
      (λ l.
        block_dirent (padded_block l k) (length xs) (length l)
        ≡ ok (dirent_of (name_at xs ys d k) d, d.name))
      (sym e)
      (block_dirent-padded_block xs ys d k (subst (λ l. length (padded_block l k) < 2 ^ 16) e small)
        (All-middle IsEntry xs ys d (subst (All IsEntry) e es)))

-- In a block that holds one entry or more with sorted names and the padding behind them, the
-- lookup finds the entry with the name, its number and its type, or that there is none, if the
-- block is shorter than 64 KiB, the numbers and types fit their fields, and no name has a zero
-- byte.
pub lookup_block-find :
    (ds : List DirentInfo) (k : ℕ) (target : Bytes)
    → ds ≢ []
    → IsSorted ds
    → All IsEntry ds
    → length (padded_block ds k) < 2 ^ 16
    → lookup_block (padded_block ds k) target ≡ answer (find target ds)
unfolding lookup_block
lookup_block-find [] k target ne s es small = absurd (ne refl)
lookup_block-find (d ∷ ds) k target ne s (e, es) small =
    let n = length (d ∷ ds) in
    let off = name_at [] ds d k in
    let header : decode_dirent (take size_dirent (padded_block (d ∷ ds) k)) ≡ dirent_of off d =
      decoded [] ds d k small e in
    let at : off ≡ n * 12 = unfold dirent_names_bytes in omega arith in
    let count : n * 12 / 12 ≡ n = omega arith in
    let whole : (n * 12 % 12 == 0) ≡ true = ground arith in
    let room : n * 12 ≤ length (padded_block (d ∷ ds) k) =
      omega (arith, (sizes [] ds d k small).3) in
    rw
      (
        header,
        at,
        count,
        whole,
        le→ltb 12 (length (padded_block (d ∷ ds) k)) (omega arith),
        le→ltb (n * 12) (length (padded_block (d ∷ ds) k)) room,
      )
      (lookup_block_loop-find (padded_block (d ∷ ds) k) target n (λ xs f ys. name_at xs ys f k) n []
        (d ∷ ds) [] 0 n (rw append-nil (entries_read (d ∷ ds) k (e, es) small)) s refl (omega arith)
        (omega arith))
