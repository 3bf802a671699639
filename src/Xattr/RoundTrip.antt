-- ===== src/Xattr/RoundTrip.antt =====
-- parseXattrsFromBuf of mkfs_image.go reads back what writeXattrs of writer.go wrote.
use go_erofs.Prelude.{
  ℕ, zero, suc, ◌+◌, ◌-◌, ◌%◌, ◌^◌, ◌<◌, ◌≤◌, ◌==◌, ◌≡◌, ◌≢◌, refl, ◌∙◌, [], ◌∷◌, ◌++◌, length,
  length-append, append_assoc, append-nil, arith, if◌then◌else◌, All, Option, some, leb, false,
  le→leb, le→ltb,
}
use go_erofs.Prelude.Bytes.{Bytes, zeros, put_le, slice}
use go_erofs.Prelude.Slices.{slice-append}
use go_erofs.Disk.{XattrEntry}
use go_erofs.Disk.Codec.{decode_xattr_entry}
use go_erofs.Xattr.{
  Attrs, xattr_split, xattr_entry_size, sorted_xattrs, write_xattr_entry, write_xattr_entries,
  write_xattrs, assign, inline_loop, parse_xattrs_from_buf,
}
use go_erofs.Xattr.Distinct.{
  assign_all, Apart-nil, IsDistinct, IsDistinct-sorted, All-sorted, assign_all_distinct,
  sorted_xattrs-nonempty,
}
use go_erofs.Xattr.Names.{xattr_name-xattr_split, xattr_split-lt}
use go_erofs.Xattr.Size.{length-write_xattr_entry, xattr_entry_size_mod}

-- The lengths that an entry has room for.
abbrev pub IsStorable : Bytes × Bytes → Type 0
IsStorable kv = (length (xattr_split kv.0).1 < 256) × (length kv.1 < 2 ^ 16)

module _ (name value : Bytes) (fits : IsStorable (name, value)) where
  abbrev header : Bytes
  header =
      put_le 1 (length (xattr_split name).1)
      ++ (put_le 1 (xattr_split name).0 ++ put_le 2 (length value))

  abbrev entry : XattrEntry
  entry = record {
    name_len = length (xattr_split name).1;
    name_index = (xattr_split name).0;
    value_len = length value;
  }

  decode_header : decode_xattr_entry header ≡ entry
  unfolding decode_xattr_entry
  decode_header = ground (arith, xattr_split-lt name)

  abbrev suffix : Bytes
  suffix = (xattr_split name).1

  abbrev pad : Bytes
  pad =
      let entry_len = 4 + length suffix + length value in
      if entry_len % 4 == 0 then [] else zeros (4 - entry_len % 4)

  -- Where the reader goes on behind the entry.
  next_pos :
      (pos : ℕ)
      → pos % 4 ≡ 0
      → (let end = pos + 4 + length suffix + length value in
          if end % 4 == 0 then end else end + (4 - end % 4))
        ≡ pos + xattr_entry_size name value
  unfolding xattr_entry_size
  next_pos pos h = ground arith

  module _ (pre rest : Bytes) where
    abbrev buffer : Bytes
    buffer = pre ++ (write_xattr_entry name value ++ rest)

    at_header : slice (length pre) (length pre + 4) buffer ≡ header
    unfolding write_xattr_entry
    at_header = slice-append pre header ((suffix ++ (value ++ pad)) ++ rest) _ _ refl refl

    at_suffix : slice (length pre + 4) (length pre + 4 + length suffix) buffer ≡ suffix
    unfolding write_xattr_entry
    at_suffix =
        let e : buffer ≡ (pre ++ header) ++ (suffix ++ ((value ++ pad) ++ rest)) =
          simp append_assoc in
        rw e (
          slice-append (pre ++ header) suffix ((value ++ pad) ++ rest) _ _
            (length-append pre header) refl)

    at_value :
        slice
          (length pre + 4 + length suffix)
          (length pre + 4 + length suffix + length value)
          buffer
        ≡ value
    unfolding write_xattr_entry
    at_value =
        let e : buffer ≡ (pre ++ (header ++ suffix)) ++ (value ++ (pad ++ rest)) =
          simp append_assoc in
        rw e (
          slice-append (pre ++ (header ++ suffix)) value (pad ++ rest) _ _
            (rw length-append (omega arith)) refl)

    room : length pre + 4 + length suffix + length value ≤ length buffer
    room =
        rw (length-append, length-append, length-write_xattr_entry)
          (unfold xattr_entry_size in ground arith)

    module _ (long_prefix : ℕ → Option Bytes) (at : ℕ → Option Bytes) where
      inline_loop_entry :
          (fuel : ℕ) (m : Attrs)
          → length pre % 4 ≡ 0
          → inline_loop long_prefix at (suc fuel) buffer (length pre) m
            ≡ inline_loop long_prefix at fuel buffer
                (length pre + xattr_entry_size name value)
                (assign name value m)
      unfolding inline_loop
      inline_loop_entry fuel m h = rw (
        at_header,
        decode_header,
        at_suffix,
        at_value,
        xattr_name-xattr_split name entry long_prefix refl,
        next_pos (length pre) h,
        le→leb (length pre + 4) (length buffer) (omega (arith, room)),
        le→ltb (length pre + 4 + (length suffix + length value)) (length buffer)
            (omega (arith, room)),
      )

module _ (long_prefix : ℕ → Option Bytes) (at : ℕ → Option Bytes) where
  inline_loop_entries :
      (m : Attrs) (pre : Bytes) (fuel : ℕ) (acc : Attrs)
      → All IsStorable m
      → length pre % 4 ≡ 0
      → length m < fuel
      → inline_loop long_prefix at fuel (pre ++ write_xattr_entries m) (length pre) acc
        ≡ assign_all acc m
  unfolding write_xattr_entries
  inline_loop_entries m pre zero acc s h f = absurd (omega arith)
  inline_loop_entries [] pre (suc fuel) acc s h f =
      unfold inline_loop in rw (append-nil, leb_past (length pre))
    where
      leb_past : (n : ℕ) → leb (n + 4) n ≡ false
      leb_past n = ground arith
  inline_loop_entries ((name, value) ∷ m) pre (suc fuel) acc (fits, s) h f =
      let e : length (pre ++ write_xattr_entry name value)
          ≡ length pre + xattr_entry_size name value =
        rw (length-append, length-write_xattr_entry) in
      inline_loop_entry name value fits pre (write_xattr_entries m) long_prefix at fuel acc h
      ∙ rw (← e, ← append_assoc pre (write_xattr_entry name value) (write_xattr_entries m))
          (inline_loop_entries m (pre ++ write_xattr_entry name value) fuel (assign name value acc)
            s (rw e (omega (arith, xattr_entry_size_mod name value))) (omega arith))

  entries_fuel : (m : Attrs) → length m ≤ length (write_xattr_entries m)
  unfolding write_xattr_entries
  entries_fuel [] = omega arith
  entries_fuel ((name, value) ∷ m) =
      rw length-append
        (omega (arith, entries_fuel m, length-write_xattr_entry name value, entry_pos name value))
    where
      entry_pos : (name value : Bytes) → 1 ≤ xattr_entry_size name value
      entry_pos name value = unfold xattr_entry_size in ground arith

  -- The attributes of a file are read back from the area that was written for it, in the order of
  -- their names, if the names differ and every suffix and value has a length that its field can hold.
  pub parse_xattrs_from_buf-write_xattrs :
      (m : Attrs) (shared_off : ℕ)
      → m ≢ []
      → IsDistinct m
      → All IsStorable m
      → parse_xattrs_from_buf long_prefix at (write_xattrs m) shared_off ≡ some (sorted_xattrs m)
  unfolding parse_xattrs_from_buf write_xattrs
  parse_xattrs_from_buf-write_xattrs [] shared_off ne d s = absurd (ne refl)
  parse_xattrs_from_buf-write_xattrs (kv ∷ m) shared_off ne d s =
      let l = sorted_xattrs (kv ∷ m) in
      let head = put_le 4 0xFFFFFFFF ++ zeros 8 in
      rw (
        inline_loop_entries l head (length (head ++ write_xattr_entries l)) []
            (All-sorted IsStorable (kv ∷ m) s) refl (omega (arith, entries_fuel l)),
        assign_all_distinct l [] (IsDistinct-sorted (kv ∷ m) d) (Apart-nil l),
        sorted_xattrs-nonempty kv m,
        le→ltb 12 (length (head ++ write_xattr_entries l)) (omega arith),
      )
