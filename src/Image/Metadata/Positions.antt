-- ===== src/Image/Metadata/Positions.antt =====
-- writeMetadataInodes of writer.go puts every inode at the offset that planLayout of layout.go gave it.
use go_erofs.Prelude.{
  ℕ, ◌+◌, ◌-◌, ◌%◌, ◌<◌, ◌==◌, ◌≡◌, refl, sym, subst, ◌∙◌, ltb, if◌then◌else◌, Option, none, some,
  List, [], ◌∷◌, ◌++◌, length, length-append, length-replicate, append_assoc, append-nil, le→leb,
  lt→ltb, arith, Bool-cases, inl, inr, All,
}
use go_erofs.Prelude.Bytes.{Bytes, zeros}
use go_erofs.Image.{ErofsEntry, ErofsWriter, padded}
use go_erofs.Image.Rounding.{align_up-mod, add_padding}
use go_erofs.Image.Plan.Placement.{IsPlaced, ArePlaced, IsBlockSize, extent, offset_of}
use go_erofs.Image.Metadata.{
  trailing_bytes, xattr_bytes, entry_padding, entry_bytes, entry_advance, gap_bytes,
  write_inodes_loop, write_metadata_inodes, ◌>>=◌,
}
use go_erofs.Image.Metadata.Trailing.{IsComplete, length-trailing_bytes}
use go_erofs.Reader.Info.RoundTrip.{length-write_inode}
use go_erofs.Xattr.{Attrs, calc_xattr_size, write_xattrs}
use go_erofs.Xattr.Size.{length-write_xattrs}

pub length-xattr_bytes :
    (e : ErofsEntry)
    → e.xattr_size ≡ calc_xattr_size e.xattrs
    → length (xattr_bytes e) ≡ e.xattr_size
unfolding xattr_bytes
length-xattr_bytes e h = by_attrs e.xattrs e.xattr_size h
  where
    by_attrs :
        (m : Attrs) (n : ℕ)
        → n ≡ calc_xattr_size m
        → length (if ltb 0 n then write_xattrs m else []) ≡ n
    by_attrs [] n k = let z : n ≡ 0 = k ∙ (unfold calc_xattr_size in refl) in rw z
    by_attrs (kv ∷ m) n k =
        let pos : 0 < n = rw k (unfold calc_xattr_size in omega arith) in
        rw (lt→ltb 0 n pos) (length-write_xattrs (kv ∷ m) (λ e. cc) ∙ sym k)

padding-extent : (e : ErofsEntry) → extent e + entry_padding e ≡ padded (extent e)
unfolding entry_padding
padding-extent e = ground arith

-- The bytes of an entry stand in the output at its offset.
abbrev pub StandsIn : ErofsWriter → Bytes → ErofsEntry → Type 0
StandsIn w out e =
    (pre : Bytes) × (post : Bytes) × (out ≡ pre ++ (entry_bytes w e ++ post))
    × (length pre ≡ offset_of e)

module _ (w : ErofsWriter) (valid : IsBlockSize w.block_size) where
  module _ (off : ℕ) (e : ErofsEntry) (p : IsPlaced w off e) (c : IsComplete e) where
    trailing_length : length (trailing_bytes w e) ≡ e.trailing_size
    trailing_length = length-trailing_bytes w e (omega (arith, valid.min)) c ∙ sym p.trailing

    length-entry_bytes : length (entry_bytes w e) ≡ padded (extent e)
    unfolding entry_bytes
    length-entry_bytes =
        rw
          (
            length-append,
            length-append,
            length-append,
            length-write_inode,
            length-xattr_bytes e p.attributes,
            trailing_length,
            length-replicate,
          )
          (omega (arith, padding-extent e))

    entry_advance-extent : entry_advance w e ≡ padded (extent e)
    unfolding entry_advance
    entry_advance-extent = ground (arith, trailing_length, padding-extent e)

    gap_some : gap_bytes w off (offset_of e) ≡ some (zeros (offset_of e - off))
    unfolding gap_bytes
    gap_some = elim (Bool-cases (ltb off (offset_of e))) [
      | inl b ↦ rw (b, le→leb (offset_of e - off) w.block_size (omega (arith, p.near)))
      | inr b ↦ let z : offset_of e - off ≡ 0 = ground arith in rw (b, z)
    ]

    start_offset : (if ltb off (offset_of e) then offset_of e else off) ≡ offset_of e
    start_offset = ground (arith, p.behind)

  -- What the loop writes behind `pre`, whose length is metaStart.
  abbrev IsWritten : Bytes → List ErofsEntry → Option (Bytes × ℕ) → Type 0
  IsWritten pre es none = ⊥
  IsWritten pre es (some (out, end)) =
      All (StandsIn w (pre ++ out)) es × (length (pre ++ out) ≡ end)

  module _ (pre gap entry : Bytes) (e : ErofsEntry) (es : List ErofsEntry) where
    joined : (out : Bytes) → (pre ++ (gap ++ entry)) ++ out ≡ pre ++ (gap ++ (entry ++ out))
    joined out = simp append_assoc

    extend :
        (later : Option (Bytes × ℕ))
        → entry ≡ entry_bytes w e
        → length (pre ++ gap) ≡ offset_of e
        → IsWritten (pre ++ (gap ++ entry)) es later
        → IsWritten pre
            (e ∷ es)
            (later >>= λ written. some (gap ++ (entry ++ written.0), written.1))
    extend none same at h = h
    extend (some (out, end)) same at (h, l) = (
      (
        (pre ++ gap, out, rw (← same) (sym (append_assoc pre gap (entry ++ out))), at),
        subst (λ b. All (StandsIn w b) es) (joined out) h,
      ),
      rw (← joined out) l,
    )

  write_inodes_loop-IsWritten :
      (es : List ErofsEntry) (pre : Bytes)
      → ArePlaced w (length pre) es
      → All IsComplete es
      → IsWritten pre es (write_inodes_loop w (length pre) es)
  unfolding write_inodes_loop
  write_inodes_loop-IsWritten [] pre p c = (tt, rw append-nil)
  write_inodes_loop-IsWritten (e ∷ es) pre (p, ps) (c, cs) =
      let gap = zeros (offset_of e - length pre) in
      let entry = entry_bytes w e in
      let at : length (pre ++ gap) ≡ offset_of e =
        rw (length-append, length-replicate) (omega (arith, p.behind)) in
      let end : length (pre ++ (gap ++ entry)) ≡ offset_of e + padded (extent e) =
        rw (
          ← append_assoc pre gap entry,
          length-append,
          at,
          length-entry_bytes (length pre) e p c,
        ) in
      rw
        (
          start_offset (length pre) e p c,
          gap_some (length pre) e p c,
          entry_advance-extent (length pre) e p c,
        )
        (extend pre gap entry e es (write_inodes_loop w (offset_of e + padded (extent e)) es) refl
          at (rw (← end) (write_inodes_loop-IsWritten es (pre ++ (gap ++ entry)) (rw end ps) cs)))

  StandsIn-append :
      (fill : Bytes) (es : List ErofsEntry) (out : Bytes)
      → All (StandsIn w out) es
      → All (StandsIn w (out ++ fill)) es
  StandsIn-append fill [] out h = tt
  StandsIn-append fill (e ∷ es) out ((pre, post, eq, at), h) =
      ((pre, post ++ fill, rw eq (simp append_assoc), at), StandsIn-append fill es out h)

  length-filled :
      (n : ℕ)
      → (n + length (if n % w.block_size == 0 then [] else zeros (w.block_size - n % w.block_size)))
          % w.block_size
        ≡ 0
  length-filled n = elim (Bool-cases (n % w.block_size == 0)) [
    | inl b ↦ let z : n + 0 ≡ n = omega arith in rw (b, z) (ground arith)
    | inr b ↦
        let pos : 0 < w.block_size = omega (arith, valid.min) in
        rw (b, length-replicate, add_padding w.block_size n pos (ground arith))
          (align_up-mod w.block_size n pos)
  ]

  finished :
      (r : Option (Bytes × ℕ))
      → IsWritten [] w.entries r
      → (out : Bytes) × ((r >>= λ written. some (
            written.0
            ++ (if written.1 % w.block_size == 0
                then []
                else zeros (w.block_size - written.1 % w.block_size))))
          ≡ some out)
        × All (StandsIn w out) w.entries
        × (length out % w.block_size ≡ 0)
  finished none h = elim h [ ]
  finished (some (out, end)) (h, l) =
      let fill =
        if end % w.block_size == 0 then [] else zeros (w.block_size - end % w.block_size) in
      (
        out ++ fill,
        refl,
        StandsIn-append fill w.entries out h,
        rw (length-append, l) (length-filled end),
      )

  -- The metadata area of a placed layout is written without a panic: the bytes of every entry, its
  -- inode first, stand in it at the offset of the entry's nid, and its length is a multiple of the
  -- block size. The sources of inline data have to deliver the sizes that their entries state.
  pub write_metadata_inodes-StandsIn :
      ArePlaced w 0 w.entries
      → All IsComplete w.entries
      → (out : Bytes) × (write_metadata_inodes w ≡ some out)
        × All (StandsIn w out) w.entries
        × (length out % w.block_size ≡ 0)
  unfolding write_metadata_inodes
  write_metadata_inodes-StandsIn p c =
      finished (write_inodes_loop w 0 w.entries) (write_inodes_loop-IsWritten w.entries [] p c)
