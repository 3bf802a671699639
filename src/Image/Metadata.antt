-- ===== src/Image/Metadata.antt =====
-- writeMetadataInodes of writer.go: the metadata area. A slice w.zeroBuf[:n] with n above the block
-- size is a panic, `none`; the slices that pad to 32 bytes and to a block are shorter than that.
pub mod Trailing
pub mod Positions
pub mod Planned
use go_erofs.Prelude.{
  ℕ, zero, suc, ◌+◌, ◌-◌, ◌*◌, ◌%◌, ◌==◌, ltb, leb, if◌then◌else◌, Bool, ◌&&◌, ◌||◌, not, Option,
  none, some, List, [], ◌∷◌, ◌++◌, map, length, take, is_empty,
}
use go_erofs.Prelude.Bytes.{Bytes, zeros}
use go_erofs.Disk.{layout_flat_inline, layout_chunk_based}
use go_erofs.Mode.{stat_type, stat_type_reg, stat_type_dir, stat_type_symlink}
use go_erofs.Image.{Child, ErofsEntry, ErofsWriter, inode_core_size}
use go_erofs.Image.Dirents.{DirentInfo, write_dirents}
use go_erofs.Image.Inode.{write_inode}
use go_erofs.Image.Chunks.{write_chunk_indexes}
use go_erofs.Xattr.{write_xattrs}

infixl 5 ◌>>=◌
abbrev pub ◌>>=◌ {ℓ κ} : {A : Type ℓ} {B : Type κ} → Option A → (A → Option B) → Option B
none >>= f = none
some a >>= f = f a

-- The nid of the entry that a child stands for.
unfoldable pub nid_at : List ErofsEntry → ℕ → ℕ
nid_at [] i = 0
nid_at (e ∷ es) zero = e.nid
nid_at (e ∷ es) (suc i) = nid_at es i

unfoldable pub child_infos : ErofsWriter → List Child → List DirentInfo
unfolding nid_at
child_infos w [] = []
child_infos w (c ∷ cs) =
    record { name = c.name; nid = nid_at w.entries c.index; file_type = c.file_type }
    ∷ child_infos w cs

-- What io.LimitReader(e.data, e.size) delivers, with no data written for a nil reader.
unfoldable pub limited : Option Bytes → ℕ → Bytes
limited none n = []
limited (some d) n = take n d

-- The data behind the inode and its attributes.
unfoldable pub trailing_bytes : ErofsWriter → ErofsEntry → Bytes
unfolding limited
trailing_bytes w e =
    let t = stat_type e.mode in
    if t == stat_type_reg
    then (if e.layout == layout_chunk_based && (ltb 0 e.size || not (is_empty e.chunks))
        then write_chunk_indexes w e
        else if e.layout == layout_flat_inline && ltb 0 e.size
        then limited e.contents e.size
        else [])
    else if t == stat_type_dir
    then (if e.layout == layout_flat_inline
        then write_dirents w.block_size e.nid e.parent_nid (child_infos w e.children)
        else [])
    else if t == stat_type_symlink
    then (if e.layout == layout_flat_inline then e.sym_target else [])
    else []

unfoldable pub xattr_bytes : ErofsEntry → Bytes
xattr_bytes e = if ltb 0 e.xattr_size then write_xattrs e.xattrs else []

-- The zero bytes up to a multiple of 32, by the planned sizes.
unfoldable pub entry_padding : ErofsEntry → ℕ
entry_padding e =
    let total_written = inode_core_size e + e.xattr_size + e.trailing_size in
    if total_written % 32 == 0 then 0 else 32 - total_written % 32

unfoldable pub entry_bytes : ErofsWriter → ErofsEntry → Bytes
entry_bytes w e =
    write_inode w e ++ (xattr_bytes e ++ (trailing_bytes w e ++ zeros (entry_padding e)))

-- By how much metaStart moves: chunk indexes count by the planned size, other data as written.
unfoldable pub entry_advance : ErofsWriter → ErofsEntry → ℕ
entry_advance w e =
    inode_core_size e
    + e.xattr_size
    + (if stat_type e.mode == stat_type_reg
          && e.layout == layout_chunk_based
          && (ltb 0 e.size || not (is_empty e.chunks))
        then e.trailing_size
        else length (trailing_bytes w e))
    + entry_padding e

-- The zero bytes from metaStart to an entry's offset.
unfoldable pub gap_bytes : ErofsWriter → ℕ → ℕ → Option Bytes
gap_bytes w meta_start expected_off =
    if ltb meta_start expected_off
    then (if leb (expected_off - meta_start) w.block_size
        then some (zeros (expected_off - meta_start))
        else none)
    else some []

-- The loop: the bytes written, and the final metaStart.
unfoldable pub write_inodes_loop : ErofsWriter → ℕ → List ErofsEntry → Option (Bytes × ℕ)
write_inodes_loop w meta_start [] = some ([], meta_start)
write_inodes_loop w meta_start (e ∷ es) =
    let start = if ltb meta_start (e.nid * 32) then e.nid * 32 else meta_start in
    let later = write_inodes_loop w (start + entry_advance w e) es in
    gap_bytes w meta_start (e.nid * 32) >>= λ gap.
    later >>= λ written. some (gap ++ (entry_bytes w e ++ written.0), written.1)

unfoldable pub write_metadata_inodes : ErofsWriter → Option Bytes
unfolding write_inodes_loop
write_metadata_inodes w = write_inodes_loop w 0 w.entries >>= λ written. some (
    written.0
    ++ (if written.1 % w.block_size == 0
        then []
        else zeros (w.block_size - written.1 % w.block_size)))
