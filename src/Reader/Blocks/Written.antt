-- ===== src/Reader/Blocks/Written.antt =====
-- loadBlock of erofs.go on the data that writeDataBlocks of writer.go wrote.
use go_erofs.Prelude.{
  ℕ, ◌*◌, ◌<◌, ◌≡◌, sym, ap, ◌∙◌, some, ◌++◌, length, append_assoc, arith, inl, inr,
}
use go_erofs.Prelude.Bytes.{Bytes, slice}
use go_erofs.Disk.{layout_flat_plain}
use go_erofs.Image.{ErofsEntry, ErofsWriter}
use go_erofs.Image.Data.{flat_plain_data_size, data_bytes}
use go_erofs.Image.Data.Addresses.{HasData}
use go_erofs.Reader.{Image, Inode, ok, bytes_reader, block_size}
use go_erofs.Reader.Blocks.{load_block}
use go_erofs.Reader.Blocks.Plain.{end_of, load_block_plain}

-- The inode of an entry whose data has blocks of its own.
pub record Describes (img : Image) (w : ErofsWriter) (e : ErofsEntry) (fi : Inode) : Type 0 where
  pub same_blocks : block_size img ≡ w.block_size
  pub address : fi.inode_data ≡ e.data_blk_addr
  pub layout : fi.inode_layout ≡ layout_flat_plain
  pub size : fi.size ≡ flat_plain_data_size w e

-- In an image that begins with what was written, every block of the data of an entry that has
-- blocks of its own is loaded through an inode that describes the entry: it is the part of the
-- data, such as a file's contents or a directory's entries, that the block stands for.
pub load_block-HasData :
    (img : Image) (w : ErofsWriter) (e : ErofsEntry) (fi : Inode) (out rest : Bytes) (bn : ℕ)
    → HasData w out e
    → Describes img w e fi
    → img.meta ≡ bytes_reader (out ++ rest)
    → bn * block_size img < fi.size
    → (d : Bytes) × (data_bytes w e ≡ some d)
      × (length d ≡ fi.size)
      × (load_block img fi (bn * block_size img)
          ≡ ok (slice (bn * block_size img) (end_of img fi bn) d))
load_block-HasData img w e fi out rest bn (inl z) s dev h = absurd (omega (arith, s.size))
load_block-HasData img w e fi out rest bn (inr (pre, d, post, bytes, size, split, at)) s dev h =
    let whole : out ++ rest ≡ pre ++ (d ++ (post ++ rest)) = rw split (simp append_assoc) in
    let start : length pre ≡ fi.inode_data * block_size img = rw (s.address, s.same_blocks) at in
    (
      d,
      bytes,
      size ∙ sym s.size,
      load_block_plain img fi pre d (post ++ rest) bn (dev ∙ ap bytes_reader whole) start s.layout
          (size ∙ sym s.size) h,
    )
