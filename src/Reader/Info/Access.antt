-- ===== src/Reader/Info/Access.antt =====
-- readInfo of erofs.go on an image that holds what writeInode of writer.go wrote.
use go_erofs.Prelude.{
  ℕ, zero, suc, ◌+◌, ◌-◌, ◌≤◌, ◌<◌, ◌≡◌, ap, ◌∙◌, true, false, leb, ◌++◌, arith, [], ◌∷◌, length,
  length-append, take, drop-append_exact, le→leb, append-nil,
}
use go_erofs.Prelude.Bytes.{Bytes}
use go_erofs.Image.{ErofsEntry, ErofsWriter, inode_core_size}
use go_erofs.Image.Inode.{write_inode}
use go_erofs.Reader.{Image, ok, err, eof, bytes_reader, block_size}
use go_erofs.Reader.Info.{parse_inode, info_read_size, inode_addr, read_info}
use go_erofs.Reader.Info.RoundTrip.{
  IsEncodable, expected, length-write_inode, parse_inode-write_inode,
}

info_read_size_bound :
    (bs addr : ℕ) → (64 ≤ info_read_size bs addr) × (info_read_size bs addr ≤ bs + 64)
unfolding info_read_size
info_read_size_bound bs addr = ground arith

take-append_over :
    (n : ℕ) (xs ys : Bytes) → length xs ≤ n → take n (xs ++ ys) ≡ xs ++ take (n - length xs) ys
take-append_over n [] ys h = let e : n - 0 ≡ n = omega arith in rw e
take-append_over zero (x ∷ xs) ys h = absurd (omega arith)
take-append_over (suc n) (x ∷ xs) ys h =
    let e : suc n - suc (length xs) ≡ n - length xs = omega arith in
    rw e (ap (λ l. x ∷ l) (take-append_over n xs ys (omega arith)))

module _ (pre core rest : Bytes) (at : ℕ) (here : length pre ≡ at) where
  read_at :
      (n : ℕ)
      → length core ≤ n
      → at + n ≤ length (pre ++ (core ++ rest))
      → bytes_reader (pre ++ (core ++ rest)) at n ≡ ok (core ++ take (n - length core) rest)
  unfolding bytes_reader
  read_at n small room = rw (
    le→leb (at + n) (length (pre ++ (core ++ rest))) room,
    drop-append_exact at pre (core ++ rest) here,
    take-append_over n core rest small,
  )

  read_past :
      (n : ℕ)
      → length (pre ++ (core ++ rest)) < at + n
      → bytes_reader (pre ++ (core ++ rest)) at n ≡ err eof
  unfolding bytes_reader
  read_past n small =
      let e : leb (at + n) (length (pre ++ (core ++ rest))) ≡ false = ground arith in rw e

module _ (img : Image) (w : ErofsWriter) (e : ErofsEntry) (encodable : IsEncodable w e) where
  core_small : length (write_inode w e) ≤ 64
  core_small = rw (length-write_inode w e) (unfold inode_core_size in ground arith)

  abbrev asked : ℕ
  asked = info_read_size (block_size img) (inode_addr img e.nid)

  read_info-ok :
      (buf : Bytes)
      → img.meta (inode_addr img e.nid) asked ≡ ok buf
      → read_info img e.nid ≡ ok (parse_inode img.sb e.nid buf)
  unfolding read_info
  read_info-ok buf h = rw h

  read_info-err : img.meta (inode_addr img e.nid) asked ≡ err eof → read_info img e.nid ≡ err eof
  unfolding read_info
  read_info-err h = rw h

  -- An inode that was written at its address in an image is read back, every field of it, if the
  -- image goes on for a block and 64 bytes more behind the address.
  pub read_info-write_inode :
      (pre rest : Bytes)
      → img.meta ≡ bytes_reader (pre ++ (write_inode w e ++ rest))
      → length pre ≡ inode_addr img e.nid
      → inode_addr img e.nid + (block_size img + 64) ≤ length (pre ++ (write_inode w e ++ rest))
      → w.build_time ≡ img.sb.build_time
      → read_info img e.nid ≡ ok (expected img.sb w e)
  read_info-write_inode pre rest dev at room built =
      let n = asked in
      let (low, high) = info_read_size_bound (block_size img) (inode_addr img e.nid) in
      read_info-ok (write_inode w e ++ take (n - length (write_inode w e)) rest) (
        ap (λ d. d (inode_addr img e.nid) n) dev
        ∙ read_at pre (write_inode w e) rest (inode_addr img e.nid) at n (omega (arith, core_small))
            (omega arith))
      ∙ ap ok (
          parse_inode-write_inode img.sb w e (take (n - length (write_inode w e)) rest) encodable
            built)

  -- A compact inode of an entry whose values fit their fields cannot be read where it is the last 32
  -- bytes of an image, though all of it is there.
  pub read_info_at_end :
      (pre : Bytes)
      → img.meta ≡ bytes_reader (pre ++ write_inode w e)
      → length pre ≡ inode_addr img e.nid
      → e.compact ≡ true
      → read_info img e.nid ≡ err eof
  read_info_at_end pre dev at c =
      let n = asked in
      let (low, high) = info_read_size_bound (block_size img) (inode_addr img e.nid) in
      let core : length (write_inode w e) ≡ 32 =
        length-write_inode w e ∙ (unfold inode_core_size in rw c) in
      read_info-err (
        ap (λ d. d (inode_addr img e.nid) n) dev
        ∙ rw (← append-nil (write_inode w e)) (
            read_past pre (write_inode w e) [] (inode_addr img e.nid) at n
              (rw (length-append, append-nil) (omega arith))))
