-- ===== src/Reader/Reading/Links.antt =====
-- readLink of erofs.go on the symbolic links that planLayout and writeMetadataInodes wrote.
use go_erofs.Prelude.{
  All-middle, ℕ, ◌+◌, ◌≤◌, ◌≡◌, refl, sym, ap, ◌∙◌, subst, some, List, [], ◌∷◌, ◌++◌, length, arith,
  All, if◌then◌else◌, ltb,
}
use go_erofs.Prelude.Bytes.{Bytes}
use go_erofs.Disk.{layout_flat_inline}
use go_erofs.Mode.{stat_type, stat_type_symlink}
use go_erofs.Image.{ErofsEntry, ErofsWriter, padded}
use go_erofs.Image.Inode.{file_size}
use go_erofs.Image.Plan.{plan_layout}
use go_erofs.Image.Plan.Placement.{
  IsBlockSize, IsPlaced, ArePlaced, extent, offset_of, plan_layout-ArePlaced_self,
}
use go_erofs.Image.Metadata.{trailing_bytes, write_metadata_inodes}
use go_erofs.Image.Metadata.Positions.{StandsIn}
use go_erofs.Image.Metadata.Planned.{IsSourced, write_metadata_inodes-plan_layout}
use go_erofs.Image.Metadata.Trailing.{IsComplete, length-trailing_bytes}
use go_erofs.Reader.{Image, ok, err, invalid, block_size}
use go_erofs.Reader.Info.RoundTrip.{IsEncodable, expected}
use go_erofs.Reader.Info.Whole.{Holds, StandsIn-IsReadBack}
use go_erofs.Reader.Reading.{max_symlink_size, read_link}
use go_erofs.Reader.Reading.Loop.{read_link-Serves}
use go_erofs.Reader.Reading.Stored.{stored-Serves}

ArePlaced-middle :
    (w : ErofsWriter) (xs ys : List ErofsEntry) (e : ErofsEntry) (off : ℕ)
    → ArePlaced w off (xs ++ (e ∷ ys))
    → (at : ℕ) × IsPlaced w at e
ArePlaced-middle w [] ys e off (p, ps) = (off, p)
ArePlaced-middle w (x ∷ xs) ys e off (p, ps) =
    ArePlaced-middle w xs ys e (offset_of x + padded (extent x)) ps

module _ (w : ErofsWriter) (e : ErofsEntry) (link : stat_type e.mode ≡ stat_type_symlink) where
  link-IsComplete : IsComplete e
  link-IsComplete reg = absurd (omega (arith, link, reg))

  link_size : file_size w e ≡ length e.sym_target
  unfolding file_size
  link_size = rw link refl

  link_bytes : e.layout ≡ layout_flat_inline → trailing_bytes w e ≡ e.sym_target
  unfolding trailing_bytes
  link_bytes lay = rw (link, lay) refl

module _ (img : Image) (w : ErofsWriter) (front out tail : Bytes) (holds : Holds img front out tail)
    (same : block_size img ≡ w.block_size) (built : w.build_time ≡ img.sb.build_time)
    (valid : 27 ≤ w.block_size) where
  link_back :
      (e : ErofsEntry) (off : ℕ)
      → IsPlaced w off e
      → StandsIn w out e
      → IsEncodable w e
      → stat_type e.mode ≡ stat_type_symlink
      → e.layout ≡ layout_flat_inline
      → read_link img e.nid
        ≡ (if ltb max_symlink_size (length e.sym_target) then err invalid else ok e.sym_target)
  link_back e off p stands encodable link lay =
      let bytes = link_bytes w e link lay in
      let serves =
        stored-Serves img w front out tail holds.device holds.start same e off p stands lay
          (ap length bytes ∙ sym (link_size w e link))
          (length-trailing_bytes w e valid (link-IsComplete w e link) ∙ sym p.trailing) in
      read_link-Serves img e.nid (expected img.sb w e) (trailing_bytes w e)
        (StandsIn-IsReadBack img w front out tail holds built e encodable stands) serves
      ∙ rw bytes refl

-- In an image whose metadata area is what was written for the planned layout, readLink gives every
-- symbolic link's target back through the entry's nid, if the target lies behind the inode and has at
-- most 4096 bytes, and fails if it has more. The conditions: the block size is valid, files come with
-- their data, the entry's values fit their fields, the superblock has the writer's block size and build
-- time, and the metadata area stands where it says, with a block and 64 bytes behind it.
pub read_link-write_metadata_inodes :
    (img : Image) (w : ErofsWriter) (front out tail : Bytes) (xs ys : List ErofsEntry)
    (e : ErofsEntry)
    → IsBlockSize w.block_size
    → All IsSourced w.entries
    → (plan_layout w).entries ≡ xs ++ (e ∷ ys)
    → IsEncodable (plan_layout w) e
    → (plan_layout w).build_time ≡ img.sb.build_time
    → block_size img ≡ (plan_layout w).block_size
    → write_metadata_inodes (plan_layout w) ≡ some out
    → Holds img front out tail
    → stat_type e.mode ≡ stat_type_symlink
    → e.layout ≡ layout_flat_inline
    → read_link img e.nid
      ≡ (if ltb max_symlink_size (length e.sym_target) then err invalid else ok e.sym_target)
read_link-write_metadata_inodes img w front out tail xs ys e valid sourced split encodable built
      same written holds link lay =
    let (out', written', stands, whole) = write_metadata_inodes-plan_layout w valid sourced in
    let v = plan_layout w in
    let out_same : out' ≡ out = cc (written, written') in
    let all = subst (λ o. All (StandsIn v o) v.entries) out_same stands in
    let here = All-middle (StandsIn v out) xs ys e (subst (All (StandsIn v out)) split all) in
    let (off, p) =
      ArePlaced-middle v xs ys e 0
        (subst (ArePlaced v 0) split (plan_layout-ArePlaced_self w valid)) in
    let size : 27 ≤ v.block_size = unfold plan_layout in omega (arith, valid.min) in
    link_back img v front out tail holds same built size e off p here encodable link lay
