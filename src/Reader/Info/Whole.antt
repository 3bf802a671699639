-- ===== src/Reader/Info/Whole.antt =====
-- readInfo of erofs.go on the metadata area that writeMetadataInodes of writer.go wrote.
use go_erofs.Prelude.{
  ◌+◌, ◌≤◌, ◌≡◌, ap, subst, ◌∙◌, ◌++◌, arith, List, [], ◌∷◌, length, length-append, append_assoc,
  some, All,
}
use go_erofs.Prelude.Bytes.{Bytes, zeros}
use go_erofs.Image.{ErofsEntry, ErofsWriter}
use go_erofs.Image.Inode.{write_inode}
use go_erofs.Image.Plan.{plan_layout}
use go_erofs.Image.Plan.Placement.{IsBlockSize}
use go_erofs.Image.Metadata.{
  entry_bytes, xattr_bytes, trailing_bytes, entry_padding, write_metadata_inodes,
}
use go_erofs.Image.Metadata.Positions.{StandsIn}
use go_erofs.Image.Metadata.Planned.{IsSourced, write_metadata_inodes-plan_layout}
use go_erofs.Reader.{Image, ok, bytes_reader, block_size, meta_start_pos}
use go_erofs.Reader.Info.{inode_addr, read_info}
use go_erofs.Reader.Info.Access.{read_info-write_inode}
use go_erofs.Reader.Info.RoundTrip.{IsEncodable, expected}

-- The reader finds the entry's inode under its nid.
abbrev pub IsReadBack : Image → ErofsWriter → ErofsEntry → Type 0
IsReadBack img w e = read_info img e.nid ≡ ok (expected img.sb w e)

-- An image of three parts, of which the middle one is the metadata area.
pub record Holds (img : Image) (front out tail : Bytes) : Type 0 where
  pub device : img.meta ≡ bytes_reader (front ++ (out ++ tail))
  pub start : length front ≡ meta_start_pos img
  pub room : block_size img + 64 ≤ length tail

module _ (img : Image) (w : ErofsWriter) (front out tail : Bytes) (holds : Holds img front out tail)
    (built : w.build_time ≡ img.sb.build_time) where
  pub StandsIn-IsReadBack :
      (e : ErofsEntry) → IsEncodable w e → StandsIn w out e → IsReadBack img w e
  unfolding entry_bytes
  StandsIn-IsReadBack e encodable (pre, post, eq, at) =
      let behind = xattr_bytes e ++ (trailing_bytes w e ++ zeros (entry_padding e)) in
      let rest = behind ++ (post ++ tail) in
      let split : front ++ (out ++ tail) ≡ (front ++ pre) ++ (write_inode w e ++ rest) =
        rw eq (simp append_assoc) in
      let room : length tail ≤ length rest =
        omega (arith, length-append behind (post ++ tail), length-append post tail) in
      let whole : length ((front ++ pre) ++ (write_inode w e ++ rest))
          ≡ length (front ++ pre) + (length (write_inode w e) + length rest) =
        omega (
          arith,
          length-append (front ++ pre) (write_inode w e ++ rest),
          length-append (write_inode w e) rest,
        ) in
      let here : length (front ++ pre) ≡ inode_addr img e.nid =
        rw length-append (unfold inode_addr in omega (arith, holds.start)) in
      read_info-write_inode img w e encodable (front ++ pre) rest
        (holds.device ∙ ap bytes_reader split) here (rw whole (omega (arith, holds.room))) built

  All-IsReadBack :
      (es : List ErofsEntry)
      → All (IsEncodable w) es
      → All (StandsIn w out) es
      → All (IsReadBack img w) es
  All-IsReadBack [] h s = tt
  All-IsReadBack (e ∷ es) (h, hs) (s, ss) = (StandsIn-IsReadBack e h s, All-IsReadBack es hs ss)

-- The inodes that an image's writer planned and wrote are all found by the reader under their nids,
-- with every field, if the block size is valid, files come with their data, the metadata area stands
-- where the superblock says with at least a block and 64 bytes behind it, the superblock has the
-- writer's build time, and the values of the planned entries fit their fields.
pub read_info-write_metadata_inodes :
    (img : Image) (w : ErofsWriter) (front out tail : Bytes)
    → IsBlockSize w.block_size
    → All IsSourced w.entries
    → All (IsEncodable (plan_layout w)) (plan_layout w).entries
    → (plan_layout w).build_time ≡ img.sb.build_time
    → write_metadata_inodes (plan_layout w) ≡ some out
    → Holds img front out tail
    → All (IsReadBack img (plan_layout w)) (plan_layout w).entries
read_info-write_metadata_inodes img w front out tail valid sourced encodable built written holds =
    let (out', written', stands, whole) = write_metadata_inodes-plan_layout w valid sourced in
    let same : out' ≡ out = cc (written, written') in
    All-IsReadBack img (plan_layout w) front out tail holds built (plan_layout w).entries encodable
      (subst (λ o. All (StandsIn (plan_layout w) o) (plan_layout w).entries) same stands)
