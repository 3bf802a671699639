-- ===== src/Reader/Directory/Entry.antt =====
-- blockDirent of erofs.go finds each entry of a block that writeDirents of writer.go wrote.
use go_erofs.Prelude.{
  ℕ, suc, ◌+◌, ◌-◌, ◌*◌, ◌%◌, ◌^◌, ◌≤◌, ◌<◌, ◌==◌, ◌≡◌, refl, sym, ap, ◌∙◌, ltb, le→ltb, true,
  false, List, [], ◌∷◌, ◌++◌, length, length-append, length-replicate, append_assoc, append-nil,
  arith,
}
use go_erofs.Prelude.Bytes.{Bytes, zeros, until_nul, put_le, field, slice}
use go_erofs.Prelude.Slices.{slice-append, field-put_le}
use go_erofs.Disk.{Dirent}
use go_erofs.Disk.Codec.{decode_dirent}
use go_erofs.Image.Dirents.{DirentInfo, dirent_headers, dirent_names_bytes}
use go_erofs.Image.Dirents.Size.{length-dirent_headers}
use go_erofs.Reader.{ok}
use go_erofs.Reader.Directory.{block_dirent}
use go_erofs.Reader.Directory.Block.{
  IsEntry, header_of, dirent_of, decode_dirent-header_of, length-header_of, dirent_headers_cons,
  until_nul-zeros, padded_block, base, name_at, sizes, tail_bytes, block_split,
}

-- blockDirent from what stands in the buffer, for an entry that another follows, and for the last.
module _ (buf : Bytes) (i n : ℕ) (de : Dirent) (fits : length buf < 2 ^ 16)
    (inside : n * 12 ≤ length buf)
    (decoded : decode_dirent (slice (i * 12) (i * 12 + 12) buf) ≡ de) where
  block_dirent_before :
      (end : ℕ)
      → suc i < n
      → field ((i + 1) * 12 + 8) 2 buf ≡ end
      → de.name_off ≤ end
      → end ≤ length buf
      → block_dirent buf i n ≡ ok (de, slice de.name_off end buf)
  unfolding block_dirent
  block_dirent_before end h next low high =
      let off : 12 * i % 2 ^ 16 ≡ i * 12 = omega arith in
      let next_off : 12 * ((i + 1) % 2 ^ 16) % 2 ^ 16 ≡ (i + 1) * 12 = omega arith in
      let last : (n + 2 ^ 16 - 1) % 2 ^ 16 ≡ n - 1 = omega arith in
      let before : ltb i (n - 1) ≡ true = ground arith in
      let not_last : (i == n - 1) ≡ false = ground arith in
      rw (
        off,
        next_off,
        last,
        before,
        not_last,
        decoded,
        next,
        le→ltb (i * 12 + 12) (length buf) (omega arith),
        le→ltb ((i + 1) * 12 + 8 + 2) (length buf) (omega arith),
        le→ltb de.name_off end low,
        le→ltb end (length buf) high,
      )

  block_dirent_last :
      suc i ≡ n
      → de.name_off ≤ length buf
      → block_dirent buf i n ≡ ok (de, until_nul (slice de.name_off (length buf) buf))
  unfolding block_dirent
  block_dirent_last h low =
      let off : 12 * i % 2 ^ 16 ≡ i * 12 = omega arith in
      let last : (n + 2 ^ 16 - 1) % 2 ^ 16 ≡ i = omega arith in
      let after : ltb i i ≡ false = ground arith in
      let is_last : (i == i) ≡ true = ground arith in
      let whole : length buf % 2 ^ 16 ≡ length buf = omega arith in
      rw (
        off,
        last,
        after,
        is_last,
        decoded,
        whole,
        le→ltb (i * 12 + 12) (length buf) (omega arith),
        le→ltb de.name_off (length buf) low,
        le→ltb (length buf) (length buf) (omega arith),
      )

module _ (xs ys : List DirentInfo) (d : DirentInfo) (k : ℕ)
    (small : length (padded_block (xs ++ (d ∷ ys)) k) < 2 ^ 16) (entry : IsEntry d) where
  abbrev buf : Bytes
  buf = padded_block (xs ++ (d ∷ ys)) k

  abbrev at : ℕ
  at = name_at xs ys d k

  pub decoded : decode_dirent (slice (length xs * 12) (length xs * 12 + 12) buf) ≡ dirent_of at d
  decoded =
      let (l, n, s, w) = sizes xs ys d k small in
      rw
        (
          block_split xs ys d k small,
          slice-append (dirent_headers (base xs ys d k) xs) (header_of at d)
              (tail_bytes xs ys d k small) (length xs * 12) (length xs * 12 + 12)
              (length-dirent_headers (base xs ys d k) xs) (omega (arith, length-header_of at d)),
        )
        (decode_dirent-header_of at d (omega arith) entry)

  -- The name with what stands behind it.
  pub name_slice :
      (mid post : Bytes) (end : ℕ)
      → d.name ++ (dirent_names_bytes ys ++ zeros k) ≡ mid ++ post
      → end ≡ at + length mid
      → slice at end buf ≡ mid
  name_slice mid post end e h =
      let (l, n, s, w) = sizes xs ys d k small in
      let pre =
        dirent_headers (base xs ys d k) xs
        ++ (header_of at d ++ (dirent_headers (at + length d.name) ys ++ dirent_names_bytes xs)) in
      let split : buf ≡ pre ++ (mid ++ post) =
        block_split xs ys d k small ∙ rw (← e) (unfold tail_bytes in simp append_assoc) in
      let len : length pre ≡ at =
        rw (length-append, length-dirent_headers)
          (omega (
            arith,
            length-append (header_of at d)
                (dirent_headers (at + length d.name) ys ++ dirent_names_bytes xs),
            length-append (dirent_headers (at + length d.name) ys) (dirent_names_bytes xs),
            length-dirent_headers (at + length d.name) ys,
            length-header_of at d,
          )) in
      rw split (slice-append pre mid post at end len h)

  -- The name offset of the entry that follows is the end of the name.
  pub next_offset :
      (e : DirentInfo) (later : List DirentInfo)
      → ys ≡ e ∷ later
      → field ((length xs + 1) * 12 + 8) 2 buf ≡ at + length d.name
  next_offset e later follows =
      let (l, n, s, w) = sizes xs ys d k small in
      let v = at + length d.name in
      let rest = dirent_names_bytes xs ++ (d.name ++ (dirent_names_bytes ys ++ zeros k)) in
      let pre = dirent_headers (base xs ys d k) xs ++ (header_of at d ++ put_le 8 e.nid) in
      let post =
        put_le 1 e.file_type ++ ((0 ∷ []) ++ (dirent_headers (v + length e.name) later ++ rest)) in
      let names : length (dirent_names_bytes ys)
          ≡ length e.name + length (dirent_names_bytes later) =
        rw follows (unfold dirent_names_bytes in length-append e.name (dirent_names_bytes later)) in
      let headers : dirent_headers v ys
          ≡ header_of v e ++ dirent_headers (v + length e.name) later =
        ap (dirent_headers v) follows ∙ dirent_headers_cons v e later (omega arith) in
      let split : buf ≡ pre ++ (put_le 2 v ++ post) =
        block_split xs ys d k small
        ∙ (unfold tail_bytes in rw headers (unfold header_of in simp append_assoc)) in
      let len : length pre ≡ (length xs + 1) * 12 + 8 =
        rw (length-append, length-dirent_headers)
          (omega (arith, length-append (header_of at d) (put_le 8 e.nid), length-header_of at d)) in
      rw split (field-put_le 2 ((length xs + 1) * 12 + 8) v pre post len (omega arith))

  -- An entry of a padded block is found at its index, with its number, its type and its name, if
  -- the block is shorter than 64 KiB, the entry's number and type fit their fields, and its name
  -- has no zero byte.
  pub block_dirent-padded_block :
      block_dirent buf (length xs) (length (xs ++ (d ∷ ys))) ≡ ok (dirent_of at d, d.name)
  block_dirent-padded_block = by_rest ys refl
    where
      by_rest :
          (l : List DirentInfo)
          → ys ≡ l
          → block_dirent buf (length xs) (length (xs ++ (d ∷ ys))) ≡ ok (dirent_of at d, d.name)
      by_rest [] e =
          let (l, n, s, w) = sizes xs ys d k small in
          let one : length xs + suc (length ys) ≡ suc (length xs) = rw e (omega arith) in
          let none_left : dirent_names_bytes ys ≡ [] = rw e (unfold dirent_names_bytes in refl) in
          let no_bytes : length (dirent_names_bytes ys) ≡ 0 = rw none_left refl in
          block_dirent_last buf (length xs) (length (xs ++ (d ∷ ys))) (dirent_of at d) small
            (omega arith) decoded (omega arith) (omega arith)
          ∙ rw (
            name_slice (d.name ++ zeros k) [] (length buf)
                (rw none_left (sym (append-nil (d.name ++ zeros k))))
                (omega (arith, length-append d.name (zeros k), length-replicate {A = ℕ} k 0)),
            until_nul-zeros d.name k entry.name,
          )
      by_rest (y ∷ later) e =
          let (l, n, s, w) = sizes xs ys d k small in
          let more : length ys ≡ suc (length later) = rw e refl in
          block_dirent_before buf (length xs) (length (xs ++ (d ∷ ys))) (dirent_of at d) small
            (omega arith) decoded (at + length d.name) (omega arith) (next_offset y later e)
            (omega arith) (omega arith)
          ∙ rw (name_slice d.name (dirent_names_bytes ys ++ zeros k) (at + length d.name) refl refl)
