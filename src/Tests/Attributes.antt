-- ===== src/Tests/Attributes.antt =====
-- Extended attributes.
use go_erofs.Prelude.{
  ℕ, refl, ◌≡◌, ◌≢◌, ◌*◌, ◌^◌, ◌<◌, Option, none, some, [], ◌∷◌, length, All, arith,
}
use go_erofs.Prelude.Bytes.{Bytes}
use go_erofs.Disk.{XattrEntry}
use go_erofs.Xattr.{
  calc_xattr_size, parse_xattrs_from_buf, sorted_xattrs, write_xattrs, xattr_name, xattr_split,
  entries_size, xattr_entry_size, split_by, strip_prefix,
}
use go_erofs.Xattr.Names.{xattr_name-xattr_split}
use go_erofs.Xattr.RoundTrip.{IsStorable, parse_xattrs_from_buf-write_xattrs}
use go_erofs.Xattr.Size.{length-write_xattrs}
use go_erofs.Tests.{attrs}

abbrev no_prefix : ℕ → Option Bytes
no_prefix i = none

attrs_nonempty : attrs ≢ []
attrs_nonempty e = cc

attrs-IsStorable : All IsStorable attrs
unfolding xattr_split split_by strip_prefix
attrs-IsStorable = ((omega arith, omega arith), tt)

parse_xattrs_from_buf-write_xattrs_example :
    parse_xattrs_from_buf no_prefix no_prefix (write_xattrs attrs) 0 ≡ some (sorted_xattrs attrs)
parse_xattrs_from_buf-write_xattrs_example =
    parse_xattrs_from_buf-write_xattrs no_prefix no_prefix attrs 0 attrs_nonempty (tt, tt)
      attrs-IsStorable

length-write_xattrs_example : length (write_xattrs attrs) ≡ calc_xattr_size attrs
length-write_xattrs_example = length-write_xattrs attrs attrs_nonempty

attrs_small : calc_xattr_size attrs < 4 * 2 ^ 16
unfolding calc_xattr_size entries_size xattr_entry_size xattr_split split_by strip_prefix
attrs_small = omega arith

abbrev key : Bytes
key = b'u' ∷ b's' ∷ b'e' ∷ b'r' ∷ b'.' ∷ b'k' ∷ []

abbrev key_entry : XattrEntry
key_entry = record { name_len = 1; name_index = 1; value_len = 0 }

key_index : key_entry.name_index ≡ (xattr_split key).0
unfolding xattr_split split_by strip_prefix
key_index = refl

xattr_name-xattr_split_example : xattr_name key_entry (xattr_split key).1 no_prefix ≡ key
xattr_name-xattr_split_example = xattr_name-xattr_split key key_entry no_prefix key_index
