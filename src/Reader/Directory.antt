-- ===== src/Reader/Directory.antt =====
-- The lookup of a name in a directory: blockFirstName, blockDirent, lookupBlock and dir.lookup of
-- erofs.go. Indexes and offsets of dirents are uint16s.
pub mod Block
pub mod Entry
pub mod Sorted
pub mod Search
pub mod Lookup
pub mod Full
pub mod First
pub mod Groups
pub mod Whole
use Prim.Native.Nat.{Ordering}
use go_erofs.Prelude.{
  ℕ, zero, suc, ◌+◌, ◌-◌, ◌*◌, ◌/◌, ◌%◌, ◌^◌, ◌==◌, ltb, leb, if◌then◌else◌, ◌&&◌, ◌||◌, not,
  Option, none, some, length, take,
}
use go_erofs.Prelude.Bytes.{Bytes, compare_bytes, field, slice, until_nul}
use go_erofs.Disk.{Dirent, size_dirent}
use go_erofs.Disk.Codec.{decode_dirent}
use go_erofs.Mode.{erofs_ftype_to_file_mode}
use go_erofs.Reader.{Error, Result, ok, err, eof, invalid, not_exist, ◌>>=◌}

unfoldable pub block_first_name : Bytes → Result Bytes
block_first_name buf =
    let name_off = (decode_dirent (take size_dirent buf)).name_off in
    let entry_n = name_off / size_dirent in
    let next_off = size_dirent + 8 in
    let name_end = if ltb 1 entry_n then field next_off 2 buf else length buf % 2 ^ 16 in
    if ltb (length buf) size_dirent
    then err invalid
    else if entry_n == 0 || ltb (length buf) name_off
    then err invalid
    else if ltb 1 entry_n && ltb (length buf) (next_off + 2)
    then err invalid
    else if ltb name_end name_off || ltb (length buf) name_end
    then err invalid
    else ok (until_nul (slice name_off name_end buf))

unfoldable pub block_dirent : Bytes → ℕ → ℕ → Result (Dirent × Bytes)
block_dirent buf i entry_n =
    let off = size_dirent * i % 2 ^ 16 in
    let next_off = size_dirent * ((i + 1) % 2 ^ 16) % 2 ^ 16 + 8 in
    let last = (entry_n + 2 ^ 16 - 1) % 2 ^ 16 in
    let de = decode_dirent (slice off (off + size_dirent) buf) in
    let name_end = if ltb i last then field next_off 2 buf else length buf % 2 ^ 16 in
    let name = slice de.name_off name_end buf in
    if ltb (length buf) (off + size_dirent)
    then err invalid
    else if ltb i last && ltb (length buf) (next_off + 2)
    then err invalid
    else if ltb name_end de.name_off || ltb (length buf) name_end
    then err invalid
    else ok (de, if i == last then until_nul name else name)

-- switch bytes.Compare(name, target)
abbrev pub lookup_switch : Dirent → Result (ℕ × ℕ) → Result (ℕ × ℕ) → Ordering → Result (ℕ × ℕ)
lookup_switch de above below Ordering.eq = ok (de.nid, erofs_ftype_to_file_mode de.file_type)
lookup_switch de above below Ordering.lt = above
lookup_switch de above below Ordering.gt = below

-- The loop of lookupBlock. Every round makes `hi - lo` smaller.
unfoldable pub lookup_block_loop : ℕ → Bytes → Bytes → ℕ → ℕ → ℕ → Result (ℕ × ℕ)
lookup_block_loop zero buf target entry_n lo hi = err not_exist
lookup_block_loop (suc fuel) buf target entry_n lo hi =
    let mid = lo + (hi - lo) / 2 in
    let above = lookup_block_loop fuel buf target entry_n (mid + 1) hi in
    let below = lookup_block_loop fuel buf target entry_n lo mid in
    if ltb lo hi
    then (block_dirent buf mid entry_n >>= λ found.
        lookup_switch found.0 above below (compare_bytes found.1 target))
    else err not_exist

unfoldable pub lookup_block : Bytes → Bytes → Result (ℕ × ℕ)
lookup_block buf target =
    let name_off = (decode_dirent (take size_dirent buf)).name_off in
    let entry_n = name_off / size_dirent in
    if ltb (length buf) size_dirent
    then err invalid
    else if not (name_off % size_dirent == 0)
    then err invalid
    else if ltb (length buf) name_off
    then err invalid
    else lookup_block_loop entry_n buf target entry_n 0 entry_n

-- bytes.Compare(firstName, targetBytes) <= 0, or not
abbrev pub block_switch :
    Result (Option Bytes) → Result (Option Bytes) → Ordering → Result (Option Bytes)
block_switch above below Ordering.lt = above
block_switch above below Ordering.eq = above
block_switch above below Ordering.gt = below

-- The search over the blocks, of which `load` gives the one at a position: the bytes of the last
-- block whose first name is not above the target. io.EOF counts as a block above it.
unfoldable pub find_block_loop :
    ℕ → (ℕ → Result Bytes) → ℕ → Bytes → ℕ → ℕ → Option Bytes → Result (Option Bytes)
find_block_loop zero load blk_size target lo hi last = ok last
find_block_loop (suc fuel) load blk_size target lo hi last =
    let mid = lo + (hi - lo) / 2 in
    let below = find_block_loop fuel load blk_size target lo mid last in
    let above : Bytes → Result (Option Bytes) =
      λ buf. find_block_loop fuel load blk_size target (mid + 1) hi (some buf) in
    if ltb lo hi
    then elim (load (mid * blk_size)) [
      | err eof ↦ below
      | err e ↦ err e
      | ok buf ↦ block_first_name buf >>= λ first.
          block_switch (above buf) below (compare_bytes first target)
    ]
    else ok last

abbrev pub lookup_in : Bytes → Option Bytes → Result (ℕ × ℕ)
lookup_in target none = err not_exist
lookup_in target (some buf) = lookup_block buf target

-- dir.lookup, for a directory of `size` bytes.
unfoldable pub lookup : (ℕ → Result Bytes) → ℕ → ℕ → Bytes → Result (ℕ × ℕ)
lookup load blk_size size target =
    let nblocks = (size + blk_size - 1) / blk_size in
    find_block_loop nblocks load blk_size target 0 nblocks none >>= lookup_in target
