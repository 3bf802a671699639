-- ===== src/Reader/Directory/First.antt =====
-- blockFirstName of erofs.go on a block that writeDirents of writer.go wrote.
use go_erofs.Prelude.{
  ℕ, suc, ◌+◌, ◌*◌, ◌/◌, ◌%◌, ◌^◌, ◌≤◌, ◌<◌, ◌==◌, ◌≡◌, refl, sym, ap, ◌∙◌, le→ltb, lt→ltb, false,
  List, [], ◌∷◌, ◌++◌, length, length-append, length-replicate, append-nil, arith, take,
}
use go_erofs.Prelude.Bytes.{Bytes, zeros, until_nul, field, slice}
use go_erofs.Disk.{Dirent, size_dirent}
use go_erofs.Disk.Codec.{decode_dirent}
use go_erofs.Image.Dirents.{DirentInfo, dirent_names_bytes}
use go_erofs.Reader.{ok}
use go_erofs.Reader.Directory.{block_first_name}
use go_erofs.Reader.Directory.Block.{IsEntry, padded_block, name_at, sizes, until_nul-zeros}
use go_erofs.Reader.Directory.Entry.{decoded, next_offset, name_slice}

module _ (buf : Bytes) (n : ℕ) (fits : length buf < 2 ^ 16) (inside : n * 12 ≤ length buf)
    (decoded_off : (decode_dirent (take size_dirent buf)).name_off ≡ n * 12) where
  first_of_many :
      (end : ℕ)
      → 1 < n
      → field 20 2 buf ≡ end
      → n * 12 ≤ end
      → end ≤ length buf
      → block_first_name buf ≡ ok (until_nul (slice (n * 12) end buf))
  unfolding block_first_name
  first_of_many end h next low high =
      let count : n * 12 / 12 ≡ n = omega arith in
      let nonzero : (n == 0) ≡ false = ground arith in
      rw (
        decoded_off,
        count,
        nonzero,
        lt→ltb 1 n h,
        next,
        le→ltb 12 (length buf) (omega arith),
        le→ltb (n * 12) (length buf) inside,
        le→ltb 22 (length buf) (omega arith),
        le→ltb (n * 12) end low,
        le→ltb end (length buf) high,
      )

  first_of_one : n ≡ 1 → block_first_name buf ≡ ok (until_nul (slice (n * 12) (length buf) buf))
  unfolding block_first_name
  first_of_one h =
      let count : n * 12 / 12 ≡ n = omega arith in
      let nonzero : (n == 0) ≡ false = ground arith in
      let whole : length buf % 2 ^ 16 ≡ length buf = omega arith in
      rw (
        decoded_off,
        count,
        nonzero,
        le→ltb n 1 (omega arith),
        whole,
        le→ltb 12 (length buf) (omega arith),
        le→ltb (n * 12) (length buf) inside,
        le→ltb (length buf) (length buf) (omega arith),
      )

module _ (d : DirentInfo) (ds : List DirentInfo) (k : ℕ)
    (small : length (padded_block (d ∷ ds) k) < 2 ^ 16) (entry : IsEntry d) where
  abbrev buf : Bytes
  buf = padded_block (d ∷ ds) k

  no_nul : until_nul d.name ≡ d.name
  no_nul = rw (← append-nil d.name) (until_nul-zeros d.name 0 entry.name ∙ sym (append-nil d.name))

  name_off : (decode_dirent (take size_dirent buf)).name_off ≡ length (d ∷ ds) * 12
  name_off =
      ap (λ (e : Dirent). e.name_off) (decoded [] ds d k small entry)
      ∙ (unfold dirent_names_bytes in omega arith)

  at_base : name_at [] ds d k ≡ length (d ∷ ds) * 12
  at_base = unfold dirent_names_bytes in omega arith

  -- The first name of a padded block is that of its first entry.
  pub block_first_name-padded_block : block_first_name buf ≡ ok d.name
  block_first_name-padded_block = by_rest ds refl
    where
      by_rest : (l : List DirentInfo) → ds ≡ l → block_first_name buf ≡ ok d.name
      by_rest [] e =
          let (l, n, s, w) = sizes [] ds d k small in
          let none_left : dirent_names_bytes ds ≡ [] = rw e (unfold dirent_names_bytes in refl) in
          let no_bytes : length (dirent_names_bytes ds) ≡ 0 = rw none_left refl in
          let one : length (d ∷ ds) ≡ 1 = rw e refl in
          let named : slice (length (d ∷ ds) * 12) (length buf) buf ≡ d.name ++ zeros k =
            rw (← at_base) (
              name_slice [] ds d k small entry (d.name ++ zeros k) [] (length buf)
                (rw none_left (sym (append-nil (d.name ++ zeros k))))
                (omega (
                  arith,
                  at_base,
                  length-append d.name (zeros k),
                  length-replicate {A = ℕ} k 0,
                ))) in
          first_of_one buf (length (d ∷ ds)) small (omega arith) name_off one
          ∙ rw (named, until_nul-zeros d.name k entry.name)
      by_rest (y ∷ later) e =
          let (l, n, s, w) = sizes [] ds d k small in
          let more : length ds ≡ suc (length later) = rw e refl in
          let end = name_at [] ds d k + length d.name in
          let named : slice (length (d ∷ ds) * 12) end buf ≡ d.name =
            ap (λ (o : ℕ). slice o end buf) (sym at_base)
            ∙ name_slice [] ds d k small entry d.name (dirent_names_bytes ds ++ zeros k) end refl
                refl in
          first_of_many buf (length (d ∷ ds)) small (omega arith) name_off end (omega arith)
            (next_offset [] ds d k small entry y later e) (omega (arith, at_base))
            (omega (arith, at_base))
          ∙ rw (named, no_nul)
