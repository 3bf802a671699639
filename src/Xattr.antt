-- ===== src/Xattr.antt =====
-- Extended attributes: the name prefixes and sizes of format.go, xattrIndex.String of xattr.go,
-- writeXattrs of writer.go, and xattrName and parseXattrsFromBuf of mkfs_image.go.

pub mod Names
pub mod Distinct
pub mod Size
pub mod RoundTrip
use Prim.Native.Nat.{Ordering}
use Prim.Native.Char.{code}
use Prim.Native.String.{String}
use go_erofs.Prelude.{
  ℕ, zero, suc, ◌+◌, ◌-◌, ◌*◌, ◌/◌, ◌%◌, ◌^◌, ◌==◌, ltb, leb, if◌then◌else◌, ◌&&◌, not, Bool, true,
  false, Option, none, some, List, [], ◌∷◌, ◌++◌, length, take, drop, is_empty,
}
use go_erofs.Prelude.Bytes.{Bytes, put_le, field, slice, zeros, compare_bytes}
use go_erofs.Disk.{size_xattr_entry, size_xattr_body_header, XattrEntry}
use go_erofs.Disk.Codec.{decode_xattr_entry}
use go_erofs.Image.Dirents.{sort_by}
use go_erofs.Image.{align_up}

-- A map from names to values: a list of pairs, one for each name.
abbrev pub Attrs : Type 0
Attrs = List (Bytes × Bytes)

-- The bytes of a text; the texts here are ASCII.
abbrev pub codes : String → Bytes
codes String.[] = []
codes (String.◌∷◌ c s) = code c ∷ codes s

-- The table of format.go, in its order.
abbrev pub xattr_prefixes : List (ℕ × Bytes)
xattr_prefixes =
    (1, codes "user.")
    ∷ (2, codes "system.posix_acl_access.")
    ∷ (3, codes "system.posix_acl_default.")
    ∷ (4, codes "trusted.")
    ∷ (5, codes "lustre.")
    ∷ (6, codes "security.")
    ∷ []

-- name[len(prefix):], if strings.HasPrefix(name, prefix)
unfoldable pub strip_prefix : Bytes → Bytes → Option Bytes
strip_prefix [] name = some name
strip_prefix (p ∷ ps) [] = none
strip_prefix (p ∷ ps) (b ∷ bs) = let more = strip_prefix ps bs in if p == b then more else none

unfoldable pub split_by : List (ℕ × Bytes) → Bytes → ℕ × Bytes
unfolding strip_prefix
split_by [] name = (0, name)
split_by ((i, p) ∷ table) name = elim (strip_prefix p name) [
  | some suffix ↦ (i, suffix)
  | none ↦ split_by table name
]

unfoldable pub xattr_split : Bytes → ℕ × Bytes
xattr_split name = split_by xattr_prefixes name

-- xattrIndex.String
unfoldable pub index_string : ℕ → Bytes
index_string i =
    if i == 1
    then codes "user."
    else if i == 2
    then codes "system.posix_acl_access."
    else if i == 3
    then codes "system.posix_acl_default."
    else if i == 4
    then codes "trusted."
    else if i == 5
    then codes "lustre."
    else if i == 6
    then codes "security."
    else []

unfoldable pub xattr_entry_size : Bytes → Bytes → ℕ
xattr_entry_size name value =
    let sz = size_xattr_entry + length (xattr_split name).1 + length value in
    if sz % 4 == 0 then sz else align_up 4 sz

unfoldable pub entries_size : Attrs → ℕ
entries_size [] = 0
entries_size ((name, value) ∷ m) = xattr_entry_size name value + entries_size m

unfoldable pub calc_xattr_size : Attrs → ℕ
calc_xattr_size m = if is_empty m then 0 else size_xattr_body_header + entries_size m

-- uint16((xattrSize-SizeXattrBodyHeader)/SizeXattrEntry) + 1, in uint16
unfoldable pub xattr_count : ℕ → ℕ
xattr_count size =
    if size == 0
    then 0
    else ((size - size_xattr_body_header) / size_xattr_entry % 2 ^ 16 + 1) % 2 ^ 16

-- The size that readInfo and copyFromImage compute from a count.
unfoldable pub xattr_size_of_count : ℕ → ℕ
xattr_size_of_count xcnt =
    if ltb 0 xcnt then (xcnt - 1) * size_xattr_entry + size_xattr_body_header else 0

-- The keys in sortedXattrKeys' order, each with its value.
unfoldable pub sorted_xattrs : Attrs → Attrs
sorted_xattrs = sort_by (λ kv. kv.0)

unfoldable pub write_xattr_entry : Bytes → Bytes → Bytes
write_xattr_entry name value =
    let (name_index, suffix) = xattr_split name in
    let entry_len = size_xattr_entry + length suffix + length value in
    (put_le 1 (length suffix) ++ (put_le 1 name_index ++ put_le 2 (length value)))
    ++ (suffix ++ (value ++ (if entry_len % 4 == 0 then [] else zeros (4 - entry_len % 4))))

unfoldable pub write_xattr_entries : Attrs → Bytes
write_xattr_entries [] = []
write_xattr_entries ((name, value) ∷ m) = write_xattr_entry name value ++ write_xattr_entries m

-- The header: a name filter that is not used, no shared entries, and reserved bytes.
unfoldable pub write_xattrs : Attrs → Bytes
write_xattrs m = (put_le 4 0xFFFFFFFF ++ zeros 8) ++ write_xattr_entries (sorted_xattrs m)

-- A long prefix that cannot be had counts as empty.
abbrev prefix_or_empty : Option Bytes → Bytes
prefix_or_empty (some p) = p
prefix_or_empty none = []

-- The name of an entry from its raw name bytes. `long_prefix` is img.getLongPrefix; the high bit of
-- the index says that it is to be used, with the low seven bits.
unfoldable pub xattr_name : XattrEntry → Bytes → (ℕ → Option Bytes) → Bytes
xattr_name xe raw long_prefix =
    (if leb 0x80 xe.name_index
      then prefix_or_empty (long_prefix (xe.name_index % 0x80))
      else if xe.name_index == 0
      then []
      else index_string xe.name_index)
    ++ raw

-- xattrs[name] = value
unfoldable pub assign : Bytes → Bytes → Attrs → Attrs
assign name value [] = (name, value) ∷ []
assign name value ((k, v) ∷ m) =
    let later = (k, v) ∷ assign name value m in
    elim (compare_bytes k name) [ Ordering.eq ↦ (name, value) ∷ m | _ ↦ later ]

-- img.getLongPrefix and the accessor of newMetaReader: `at off` is the image from `off` on, as far as
-- it is in memory, and `none` is nil.
module _ (long_prefix : ℕ → Option Bytes) (at : ℕ → Option Bytes) where
  -- One reference to the shared area; what is out of range is passed over.
  unfoldable pub resolve_shared : ℕ → ℕ → Attrs → Attrs
  resolve_shared shared_off idx m =
      if shared_off == 0 then m else from_block (at (shared_off + idx * 4))
    where
      from_block : Option Bytes → Attrs
      from_block none = m
      from_block (some blk) =
          let xe = decode_xattr_entry (take size_xattr_entry blk) in
          let sb = drop size_xattr_entry blk in
          if ltb (length blk) size_xattr_entry
          then m
          else if ltb (length blk) (size_xattr_entry + (xe.name_len + xe.value_len))
          then m
          else assign (xattr_name xe (take xe.name_len sb) long_prefix)
              (slice xe.name_len (xe.name_len + xe.value_len) sb) m

  -- The references, `count` of them at most, from `pos` on: the position behind them and the map.
  unfoldable pub shared_loop : Bytes → ℕ → ℕ → ℕ → Attrs → ℕ × Attrs
  unfolding resolve_shared
  shared_loop buf shared_off zero pos m = (pos, m)
  shared_loop buf shared_off (suc count) pos m =
      let more =
        shared_loop buf shared_off count (pos + 4)
          (resolve_shared shared_off (field pos 4 buf) m) in
      if leb (pos + 4) (length buf) then more else (pos, m)

  -- The inline entries. Every round moves `pos` by four bytes at least, so `length buf` rounds are
  -- enough.
  unfoldable pub inline_loop : ℕ → Bytes → ℕ → Attrs → Attrs
  inline_loop zero buf pos m = m
  inline_loop (suc fuel) buf pos m =
      let xe = decode_xattr_entry (slice pos (pos + size_xattr_entry) buf) in
      let start = pos + size_xattr_entry in
      let name = xattr_name xe (slice start (start + xe.name_len) buf) long_prefix in
      let value_at = start + xe.name_len in
      let value = slice value_at (value_at + xe.value_len) buf in
      let end = value_at + xe.value_len in
      let next = if end % 4 == 0 then end else end + (4 - end % 4) in
      let more = inline_loop fuel buf next (assign name value m) in
      if leb start (length buf)
      then (if ltb (length buf) (start + (xe.name_len + xe.value_len)) then m else more)
      else m

  -- parseXattrsFromBuf: `none` is a nil map.
  unfoldable pub parse_xattrs_from_buf : Bytes → ℕ → Option Attrs
  unfolding shared_loop inline_loop
  parse_xattrs_from_buf buf shared_off =
      let (pos, shared) = shared_loop buf shared_off (field 4 1 buf) size_xattr_body_header [] in
      let m = inline_loop (length buf) buf pos shared in
      if ltb (length buf) size_xattr_body_header then none else if is_empty m then none else some m
