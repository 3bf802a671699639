-- ===== src/Xattr/Size.antt =====
-- calcXattrSize of format.go against what writeXattrs of writer.go writes, and the count field.
use Prim.Native.Nat.{Ordering}
use go_erofs.Prelude.{
  ◌+◌, ◌*◌, ◌%◌, ◌^◌, ◌<◌, ◌==◌, ◌≡◌, ◌≢◌, refl, ◌∙◌, [], ◌∷◌, length, length-append,
  length-replicate, arith, Bool-cases, inl, inr,
}
use go_erofs.Prelude.Bytes.{Bytes, compare_bytes}
use go_erofs.Image.Rounding.{add_padding}
use go_erofs.Image.Dirents.{insert_by, sort_by}
use go_erofs.Xattr.{
  Attrs, xattr_split, xattr_entry_size, entries_size, calc_xattr_size, sorted_xattrs,
  write_xattr_entry, write_xattr_entries, write_xattrs, xattr_count, xattr_size_of_count,
}

pub length-write_xattr_entry :
    (name value : Bytes) → length (write_xattr_entry name value) ≡ xattr_entry_size name value
unfolding write_xattr_entry xattr_entry_size
length-write_xattr_entry name value =
    let total = 4 + length (xattr_split name).1 + length value in
    elim (Bool-cases (total % 4 == 0)) [
      | inl e ↦ rw (e, length-append, length-append) (omega arith)
      | inr e ↦
          rw (e, length-append, length-append, length-replicate)
            (omega (arith, add_padding 4 total (omega arith) (ground arith)))
    ]

length-write_xattr_entries : (m : Attrs) → length (write_xattr_entries m) ≡ entries_size m
unfolding write_xattr_entries entries_size
length-write_xattr_entries [] = refl
length-write_xattr_entries ((name, value) ∷ m) =
    rw (length-append, length-write_xattr_entry name value, length-write_xattr_entries m)

entries_size-insert :
    (name value : Bytes) (m : Attrs)
    → entries_size (insert_by (λ kv. kv.0) (name, value) m)
      ≡ xattr_entry_size name value + entries_size m
unfolding insert_by entries_size
entries_size-insert name value [] = refl
entries_size-insert name value ((k, v) ∷ m) =
    by_order (compare_bytes name k) (entries_size-insert name value m)
  where
    by_order :
        (o : Ordering)
        → entries_size (insert_by (λ kv. kv.0) (name, value) m)
          ≡ xattr_entry_size name value + entries_size m
        → entries_size (elim o [
          | Ordering.gt ↦ (k, v) ∷ insert_by (λ kv. kv.0) (name, value) m
          | _ ↦ (name, value) ∷ (k, v) ∷ m
        ])
          ≡ xattr_entry_size name value + (xattr_entry_size k v + entries_size m)
    by_order Ordering.lt e = refl
    by_order Ordering.eq e = refl
    by_order Ordering.gt e = omega arith

entries_size-sorted : (m : Attrs) → entries_size (sorted_xattrs m) ≡ entries_size m
unfolding sorted_xattrs sort_by entries_size
entries_size-sorted [] = refl
entries_size-sorted ((name, value) ∷ m) =
    entries_size-insert name value (sorted_xattrs m) ∙ omega (arith, entries_size-sorted m)

-- An entry with attributes gets an area of exactly the size that calcXattrSize planned for it.
pub length-write_xattrs : (m : Attrs) → m ≢ [] → length (write_xattrs m) ≡ calc_xattr_size m
unfolding write_xattrs calc_xattr_size
length-write_xattrs [] h = absurd (h refl)
length-write_xattrs (kv ∷ m) h =
    rw (length-append, length-write_xattr_entries, entries_size-sorted (kv ∷ m)) (omega arith)

pub xattr_entry_size_mod : (name value : Bytes) → xattr_entry_size name value % 4 ≡ 0
unfolding xattr_entry_size
xattr_entry_size_mod name value = ground arith

entries_size_mod : (m : Attrs) → entries_size m % 4 ≡ 0
unfolding entries_size
entries_size_mod [] = refl
entries_size_mod ((name, value) ∷ m) =
    omega (arith, xattr_entry_size_mod name value, entries_size_mod m)

-- The reader computes the area's size back from the inode's count field, for every area of less than
-- 256 KiB.
pub xattr_size_of_count-xattr_count :
    (m : Attrs)
    → calc_xattr_size m < 4 * 2 ^ 16
    → xattr_size_of_count (xattr_count (calc_xattr_size m)) ≡ calc_xattr_size m
unfolding calc_xattr_size xattr_count xattr_size_of_count
xattr_size_of_count-xattr_count [] h = refl
xattr_size_of_count-xattr_count (kv ∷ m) h = ground (arith, entries_size_mod (kv ∷ m))
