-- ===== src/Xattr/Names.antt =====
-- Splitting a name into its index and its suffix (format.go), and joining them (mkfs_image.go).
use go_erofs.Prelude.{
  ℕ, ◌==◌, ◌<◌, ◌≡◌, refl, Option, some, Option-cases, inl, inr, List, [], ◌∷◌, ◌++◌, All, arith,
  Bool-cases, leb, false, if◌then◌else◌,
}
use go_erofs.Prelude.Bytes.{Bytes}
use go_erofs.Disk.{XattrEntry}
use go_erofs.Xattr.{xattr_prefixes, strip_prefix, split_by, xattr_split, index_string, xattr_name}

pub append-strip_prefix :
    (p name : Bytes) {suffix : Bytes} → strip_prefix p name ≡ some suffix → p ++ suffix ≡ name
unfolding strip_prefix
append-strip_prefix [] name h = ground arith
append-strip_prefix (a ∷ p) [] h = cc
append-strip_prefix (a ∷ p) (b ∷ bs) {suffix} h = elim (Bool-cases (a == b)) [
  | inl e ↦ ground (arith, append-strip_prefix p bs {suffix = suffix})
  | inr e ↦ cc (rw e at h)
]

-- An index stands for the prefix that the table has with it, and no index has the high bit.
abbrev Fits : ℕ × Bytes → Type 0
Fits (i, p) = (0 < i) × (i < 0x80) × (index_string i ≡ p)

abbrev prefix_of : ℕ → Bytes
prefix_of i = if i == 0 then [] else index_string i

prefix_of_pos : (i : ℕ) → 0 < i → prefix_of i ≡ index_string i
prefix_of_pos i h = ground arith

split_by_join :
    (table : List (ℕ × Bytes)) (name : Bytes)
    → All Fits table
    → ((split_by table name).0 < 0x80)
      × (prefix_of (split_by table name).0 ++ (split_by table name).1 ≡ name)
unfolding split_by
split_by_join [] name h = (omega arith, refl)
split_by_join ((i, p) ∷ table) name ((pos, low, e), h) = elim (Option-cases (strip_prefix p name)) [
  | inl none_e ↦ rw (none_e, split_by) (split_by_join table name h)
  | inr (s, some_e) ↦
      rw (some_e, split_by) (low, rw (prefix_of_pos i pos, e) (append-strip_prefix p name some_e))
]

xattr_prefixes_fit : All Fits xattr_prefixes
unfolding index_string
xattr_prefixes_fit = (
  (omega arith, omega arith, refl),
  (
    (omega arith, omega arith, refl),
    (
      (omega arith, omega arith, refl),
      (
        (omega arith, omega arith, refl),
        ((omega arith, omega arith, refl), ((omega arith, omega arith, refl), tt)),
      ),
    ),
  ),
)

split_join :
    (name : Bytes)
    → ((xattr_split name).0 < 0x80)
      × (prefix_of (xattr_split name).0 ++ (xattr_split name).1 ≡ name)
unfolding xattr_split
split_join name = split_by_join xattr_prefixes name xattr_prefixes_fit

pub xattr_split-lt : (name : Bytes) → (xattr_split name).0 < 0x80
xattr_split-lt name = (split_join name).0

no_high_bit : (i : ℕ) → i < 0x80 → leb 0x80 i ≡ false
no_high_bit i h = ground arith

-- Every attribute name is got back from the index and the suffix that it is stored as, whatever the
-- entry's lengths and the long prefixes are.
pub xattr_name-xattr_split :
    (name : Bytes) (xe : XattrEntry) (long_prefix : ℕ → Option Bytes)
    → xe.name_index ≡ (xattr_split name).0
    → xattr_name xe (xattr_split name).1 long_prefix ≡ name
unfolding xattr_name
xattr_name-xattr_split name xe long_prefix h =
    let (low, joined) = split_join name in rw (h, no_high_bit (xattr_split name).0 low) joined
