-- ===== src/Image/Data/Contents.antt =====
-- What writeDataBlocks of writer.go writes for an entry, and how much.
use go_erofs.Prelude.{
  ℕ, ◌*◌, ◌%◌, ◌≤◌, ◌<◌, ◌==◌, ◌≡◌, sym, if◌then◌else◌, true, some, List, ◌++◌, length,
  length-append, length-replicate, append-nil, arith, Bool-cases, inl, inr,
}
use go_erofs.Prelude.Bytes.{Bytes}
use go_erofs.Mode.{stat_type, stat_type_reg, stat_type_dir}
use go_erofs.Image.{ErofsEntry, ErofsWriter, is_some}
use go_erofs.Image.Rounding.{add_padding, align_up_exact}
use go_erofs.Image.Dirents.{write_dirents}
use go_erofs.Image.Dirents.Size.{length-write_dirents}
use go_erofs.Image.Metadata.{child_infos, limited}
use go_erofs.Image.Metadata.Trailing.{names-child_infos, length-limited}
use go_erofs.Image.Data.{flat_plain_data_size, blocks_for, data_bytes, data_padding}

-- The source of a regular file's data delivers as many bytes as the entry's size says.
abbrev pub Delivers : ErofsEntry → Type 0
Delivers e =
    stat_type e.mode ≡ stat_type_reg
    → is_some e.contents ≡ true
    → e.size ≤ length (limited e.contents e.size)

module _ (w : ErofsWriter) (all : List ErofsEntry) (meta : ℕ) (big : 27 ≤ w.block_size) where
  -- The writer once the addresses are assigned.
  abbrev pub writing : ErofsWriter
  writing = record w { entries = all; meta_blk_addr = meta }

  -- What is to be written where the source delivers the size.
  unfoldable pub data_of : ErofsEntry → Bytes
  data_of e =
      let t = stat_type e.mode in
      if t == stat_type_reg
      then limited e.contents e.size
      else if t == stat_type_dir
      then write_dirents w.block_size e.nid e.parent_nid (child_infos writing e.children)
      else e.sym_target

  pub length-data_of :
      (e : ErofsEntry)
      → 0 < flat_plain_data_size w e
      → Delivers e
      → length (data_of e) ≡ flat_plain_data_size w e
  unfolding data_of flat_plain_data_size
  length-data_of e pos h = ground (
    arith,
    h,
    length-limited e.contents e.size,
    length-write_dirents w.block_size e.nid e.parent_nid (child_infos writing e.children) big,
    names-child_infos writing e.children,
  )

  pub data_bytes-some :
      (e : ErofsEntry)
      → 0 < flat_plain_data_size w e
      → Delivers e
      → data_bytes writing e ≡ some (data_of e)
  unfolding data_bytes flat_plain_data_size data_of
  data_bytes-some e pos h = ground (arith, h, length-limited e.contents e.size)

  pub length-data_padding :
      (d : Bytes)
      → length (d ++ data_padding writing (length d))
        ≡ blocks_for w.block_size (length d) * w.block_size
  unfolding data_padding
  length-data_padding d = elim (Bool-cases (length d % w.block_size == 0)) [
    | inl b ↦
        rw (b, append-nil)
          (sym (align_up_exact w.block_size (length d) (omega arith) (ground arith)))
    | inr b ↦ rw (
      b,
      length-append,
      length-replicate,
      add_padding w.block_size (length d) (omega arith) (ground arith),
    )
  ]
