-- ===== src/Image/Plan.antt =====
-- planLayout and calcTrailingSize of layout.go, over the entries in the order of the walk.
pub mod Placement
use go_erofs.Prelude.{
  ℕ, zero, suc, ◌+◌, ◌-◌, ◌*◌, ◌/◌, ◌%◌, ◌^◌, ◌==◌, ltb, leb, if◌then◌else◌, Bool, true, false,
  ◌&&◌, ◌||◌, not, Option, none, some, List, [], ◌∷◌, map, length, is_empty,
}
use go_erofs.Prelude.Bytes.{Bytes}
use go_erofs.Disk.{size_chunk_index, layout_flat_plain, layout_flat_inline, layout_chunk_based}
use go_erofs.Mode.{stat_type, stat_type_reg, stat_type_dir, stat_type_symlink}
use go_erofs.Image.{
  Child, ErofsEntry, ErofsWriter, is_some, align_up, padded, inode_core_size, entry_chunk_size,
  min_chunk_bits,
}
use go_erofs.Image.Dirents.{dirent_data_size}
use go_erofs.Xattr.{calc_xattr_size}

abbrev pub child_names : ErofsEntry → List Bytes
child_names e = map (λ (c : Child). c.name) e.children

unfoldable pub calc_trailing_size : ErofsWriter → ErofsEntry → ℕ
calc_trailing_size w e =
    let t = stat_type e.mode in
    let cs = entry_chunk_size w e in
    if t == stat_type_reg
    then (if e.layout == layout_chunk_based
        then (if e.size == 0 && is_empty e.chunks
            then 0
            else (e.size + cs - 1) / cs * size_chunk_index)
        else if e.layout == layout_flat_inline
        then e.size
        else 0)
    else if t == stat_type_dir
    then (if e.layout == layout_flat_inline
        then dirent_data_size w.block_size (child_names e)
        else 0)
    else if t == stat_type_symlink
    then (if e.layout == layout_flat_inline then length e.sym_target else 0)
    else 0

unfoldable pub fits_compact : ErofsWriter → ErofsEntry → Bool
fits_compact w e =
    leb e.uid 0xFFFF
    && leb e.gid 0xFFFF
    && leb e.nlink 0xFFFF
    && leb e.size 0xFFFFFFFF
    && e.mtime == w.build_time
    && e.mtime_ns == 0

-- Inline if `size` bytes behind the header end in the block where they start.
abbrev inline_if : Bool → ℕ
inline_if b = if b then layout_flat_inline else layout_flat_plain

-- The switch on the entry's type: its layout, for an entry whose header of `header_size` bytes
-- starts at `cur`. `int(e.size) <= w.blockSize-headerSize` is written with the header on the left.
unfoldable pub choose_layout : ErofsWriter → ℕ → ℕ → ErofsEntry → ErofsEntry
choose_layout w cur header_size e =
    let t = stat_type e.mode in
    let in_block_off = (cur + header_size) % w.block_size in
    let dirents = dirent_data_size w.block_size (child_names e) in
    if t == stat_type_reg
    then (if e.size == 0 && is_empty e.chunks && not (is_some e.contents) && not e.metadata_only
        then record e { layout = layout_flat_plain }
        else if not (is_empty e.chunks) || e.metadata_only
        then record e {
          layout = layout_chunk_based;
          chunk_bits = if e.contiguous then min_chunk_bits w e.size else e.chunk_bits;
        }
        else record e {
          layout =
              inline_if (
                leb (e.size + header_size) w.block_size
                && leb (in_block_off + e.size) w.block_size);
        })
    else if t == stat_type_dir
    then record e {
      layout = inline_if (ltb 0 dirents && leb (in_block_off + dirents) w.block_size);
    }
    else if t == stat_type_symlink
    then record e {
      layout =
          inline_if
            (ltb 0 (length e.sym_target) && leb (in_block_off + length e.sym_target) w.block_size);
    }
    else record e { layout = layout_flat_plain }

-- The entry with its fields assigned, and the offset behind it.
pub record Planned : Type 0 where
  pub entry : ErofsEntry
  pub next_off : ℕ

-- Fall back to flat-plain where inline data would cross the block's end.
unfoldable pub keep_in_block : ErofsWriter → ℕ → ℕ → ErofsEntry → ErofsEntry
keep_in_block w cur header_size e =
    let plain = record e { layout = layout_flat_plain } in
    if e.layout == layout_flat_inline
      && ltb w.block_size (cur % w.block_size + header_size + e.trailing_size)
    then record plain { trailing_size = calc_trailing_size w plain }
    else e

-- One round of the loop: `cur` is the offset from the start of the metadata area.
unfoldable pub plan_entry : ErofsWriter → ℕ → ErofsEntry → Planned
plan_entry w cur e =
    let bs = w.block_size in
    let sized = record e {
      nid = cur / 32;
      xattr_size = calc_xattr_size e.xattrs;
      compact = fits_compact w e;
    } in
    let inode_size = inode_core_size sized in
    let header_size = inode_size + sized.xattr_size in
    let laid = choose_layout w cur header_size sized in
    let at = if ltb bs (cur % bs + inode_size) then align_up bs cur else cur in
    let placed = record laid { nid = at / 32; trailing_size = calc_trailing_size w laid } in
    let final = keep_in_block w at header_size placed in
    record { entry = final; next_off = at + padded (header_size + final.trailing_size) }

unfoldable pub plan_entries : ErofsWriter → ℕ → List ErofsEntry → List ErofsEntry
plan_entries w cur [] = []
plan_entries w cur (e ∷ es) = let p = plan_entry w cur e in p.entry ∷ plan_entries w p.next_off es

-- The root comes first in the walk, and its nid is its entry's.
abbrev first_nid : List ErofsEntry → ℕ
first_nid [] = 0
first_nid (e ∷ es) = e.nid

unfoldable pub plan_layout : ErofsWriter → ErofsWriter
unfolding plan_entries
plan_layout w =
    let planned = plan_entries w 0 w.entries in
    record w { entries = planned; total_inodes = length planned; root_nid = first_nid planned }
