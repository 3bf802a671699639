-- ===== src/Image/Metadata/Planned.antt =====
-- planLayout of layout.go followed by writeMetadataInodes of writer.go.
use go_erofs.Prelude.{ℕ, ◌≤◌, ◌≡◌, ◌%◌, false, some, List, [], ◌∷◌, length, All, arith}
use go_erofs.Prelude.Bytes.{Bytes}
use go_erofs.Mode.{stat_type, stat_type_reg}
use go_erofs.Image.{ErofsEntry, ErofsWriter}
use go_erofs.Image.Plan.{choose_layout, keep_in_block, plan_entry, plan_entries, plan_layout}
use go_erofs.Image.Plan.Placement.{IsBlockSize, plan_layout-ArePlaced_self}
use go_erofs.Image.Metadata.{limited, write_metadata_inodes}
use go_erofs.Image.Metadata.Trailing.{IsComplete}
use go_erofs.Image.Metadata.Positions.{StandsIn, write_metadata_inodes-StandsIn}

-- A regular file that has no chunks, and is not of a metadata-only copy, comes with its data.
abbrev pub IsSourced : ErofsEntry → Type 0
IsSourced e =
    stat_type e.mode ≡ stat_type_reg
    → e.chunks ≡ []
    → e.metadata_only ≡ false
    → e.size ≤ length (limited e.contents e.size)

plan_entry-IsComplete :
    (w : ErofsWriter) (cur : ℕ) (e : ErofsEntry)
    → IsSourced e
    → IsComplete (plan_entry w cur e).entry
unfolding plan_entry keep_in_block choose_layout
plan_entry-IsComplete w cur e h reg inline pos = ground (arith, h)

plan_entries-IsComplete :
    (w : ErofsWriter) (cur : ℕ) (es : List ErofsEntry)
    → All IsSourced es
    → All IsComplete (plan_entries w cur es)
unfolding plan_entries
plan_entries-IsComplete w cur [] h = tt
plan_entries-IsComplete w cur (e ∷ es) (h, hs) =
    (plan_entry-IsComplete w cur e h, plan_entries-IsComplete w (plan_entry w cur e).next_off es hs)

-- For a valid block size and files that come with their data, the metadata area of the planned
-- layout is written without a panic: the bytes of every entry, its inode first, stand in it at the
-- offset of the entry's nid, and its length is a multiple of the block size.
pub write_metadata_inodes-plan_layout :
    (w : ErofsWriter)
    → IsBlockSize w.block_size
    → All IsSourced w.entries
    → (out : Bytes) × (write_metadata_inodes (plan_layout w) ≡ some out)
      × All (StandsIn (plan_layout w) out) (plan_layout w).entries
      × (length out % w.block_size ≡ 0)
unfolding plan_layout
write_metadata_inodes-plan_layout w valid h =
    write_metadata_inodes-StandsIn (plan_layout w) valid (plan_layout-ArePlaced_self w valid)
      (plan_entries-IsComplete w 0 w.entries h)
