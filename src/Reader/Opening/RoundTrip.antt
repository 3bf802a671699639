-- ===== src/Reader/Opening/RoundTrip.antt =====
-- Open of erofs.go on the superblock that writeBlock0 of writer.go wrote.
use go_erofs.Prelude.{
  ℕ, ◌+◌, ◌^◌, ◌≤◌, ◌<◌, ◌≡◌, refl, ap, ◌∙◌, List, [], ◌++◌, length, append-nil, take-all,
  length-replicate, le→ltb, arith, Bool-cases, inl, inr, ◌⊎◌,
}
use go_erofs.Prelude.Bytes.{Bytes, get_le-put_le, zeros}
use go_erofs.Disk.{SuperBlock}
use go_erofs.Disk.Codec.{decode_super_block_fields, encode_super_block}
use go_erofs.Image.{ErofsWriter}
use go_erofs.Image.Data.{has_chunks, super_block_of}
use go_erofs.Reader.{ReaderAt, ok, bytes_reader}
use go_erofs.Image.Data.Area.{length-encode_super_block}
use go_erofs.Reader.Blocks.Plain.{bytes_reader-slice}
use go_erofs.Reader.Opening.{open_image, open_with, decode_super_block}

-- Values that fit the fields of a superblock.
pub record IsSuperBlock (s : SuperBlock) : Type 0 where
  pub magic : s.magic < 2 ^ 32
  pub blk_size_bits : s.blk_size_bits < 2 ^ 8
  pub root_nid : s.root_nid < 2 ^ 16
  pub inos : s.inos < 2 ^ 64
  pub build_time : s.build_time < 2 ^ 64
  pub build_time_ns : s.build_time_ns < 2 ^ 32
  pub blocks : s.blocks < 2 ^ 32
  pub meta_blk_addr : s.meta_blk_addr < 2 ^ 32
  pub xattr_blk_addr : s.xattr_blk_addr < 2 ^ 32
  pub feature_incompat : s.feature_incompat < 2 ^ 32
  pub compr_algs : s.compr_algs < 2 ^ 16
  pub extra_devices : s.extra_devices < 2 ^ 16
  pub devt_slot_off : s.devt_slot_off < 2 ^ 16
  pub xattr_prefix_count : s.xattr_prefix_count < 2 ^ 8
  pub xattr_prefix_start : s.xattr_prefix_start < 2 ^ 32
  pub packed_nid : s.packed_nid < 2 ^ 64

-- A superblock whose values fit their fields is read back from its bytes, every field of it,
-- whatever follows them.
pub decode_super_block_fields-encode_super_block :
    (s : SuperBlock) (rest : Bytes)
    → IsSuperBlock s
    → decode_super_block_fields (encode_super_block s ++ rest) ≡ s
unfolding decode_super_block_fields encode_super_block
decode_super_block_fields-encode_super_block s rest h = rw (
  get_le-put_le 4 s.magic h.magic,
  get_le-put_le 1 s.blk_size_bits h.blk_size_bits,
  get_le-put_le 2 s.root_nid h.root_nid,
  get_le-put_le 8 s.inos h.inos,
  get_le-put_le 8 s.build_time h.build_time,
  get_le-put_le 4 s.build_time_ns h.build_time_ns,
  get_le-put_le 4 s.blocks h.blocks,
  get_le-put_le 4 s.meta_blk_addr h.meta_blk_addr,
  get_le-put_le 4 s.xattr_blk_addr h.xattr_blk_addr,
  get_le-put_le 4 s.feature_incompat h.feature_incompat,
  get_le-put_le 2 s.compr_algs h.compr_algs,
  get_le-put_le 2 s.extra_devices h.extra_devices,
  get_le-put_le 2 s.devt_slot_off h.devt_slot_off,
  get_le-put_le 1 s.xattr_prefix_count h.xattr_prefix_count,
  get_le-put_le 4 s.xattr_prefix_start h.xattr_prefix_start,
  get_le-put_le 8 s.packed_nid h.packed_nid,
)

open_with_plain :
    (r : ReaderAt) (sb : SuperBlock)
    → (sb.feature_incompat ≡ 0) ⊎ (sb.feature_incompat ≡ 4)
    → sb.compr_algs ≡ 0
    → 9 ≤ sb.blk_size_bits
    → sb.blk_size_bits ≤ 16
    → open_with r [] sb ≡ ok (record { sb = sb; meta = r; devices = []; device_id_mask = 0 })
unfolding open_with
open_with_plain r sb (inl f) c low high =
    rw (f, c, le→ltb 9 sb.blk_size_bits low, le→ltb sb.blk_size_bits 16 high)
open_with_plain r sb (inr f) c low high =
    rw (f, c, le→ltb 9 sb.blk_size_bits low, le→ltb sb.blk_size_bits 16 high)

plain_features :
    (w : ErofsWriter)
    → w.devices ≡ []
    → ((super_block_of w).feature_incompat ≡ 0) ⊎ ((super_block_of w).feature_incompat ≡ 4)
unfolding super_block_of
plain_features w d = elim (Bool-cases (has_chunks w.entries)) [
  | inl b ↦ inr (rw (d, b))
  | inr b ↦ inl (rw (d, b))
]

-- What writeBlock0 writes, up to the superblock, and whatever follows it.
abbrev pub image_bytes : ErofsWriter → Bytes → Bytes
image_bytes w rest = zeros 1024 ++ (encode_super_block (super_block_of w) ++ rest)

module _ (w : ErofsWriter) (sb_ok : IsSuperBlock (super_block_of w)) (rest : Bytes) where
  read_super_block :
      bytes_reader (image_bytes w rest) 1024 128 ≡ ok (encode_super_block (super_block_of w))
  read_super_block =
      let e = encode_super_block (super_block_of w) in
      let len = length-encode_super_block w in
      let start : length (zeros 1024) + 0 ≡ 1024 = omega (arith, length-replicate {A = ℕ} 1024 0) in
      rw (← start) (
        bytes_reader-slice (zeros 1024) e rest 0 128 (omega (arith, len))
        ∙ ap ok (take-all 128 e (omega (arith, len))))

  open_image-open_with :
      (extra : List ReaderAt)
      → open_image (bytes_reader (image_bytes w rest)) extra
        ≡ open_with (bytes_reader (image_bytes w rest)) extra (super_block_of w)
  unfolding open_image decode_super_block
  open_image-open_with extra =
      let sb = super_block_of w in
      let decoded : decode_super_block_fields (encode_super_block sb) ≡ sb =
        rw (← append-nil (encode_super_block sb))
          (decode_super_block_fields-encode_super_block sb [] sb_ok) in
      rw (read_super_block, decoded) (unfold super_block_of in refl)

  -- The image of a writer without devices is opened with the superblock that was written, if its
  -- block size has 9 to 16 bits and its values fit their fields.
  pub open_image-super_block_of :
      w.devices ≡ []
      → 9 ≤ (super_block_of w).blk_size_bits
      → (super_block_of w).blk_size_bits ≤ 16
      → open_image (bytes_reader (image_bytes w rest)) []
        ≡ ok (record {
          sb = super_block_of w;
          meta = bytes_reader (image_bytes w rest);
          devices = [];
          device_id_mask = 0;
        })
  open_image-super_block_of d low high =
      open_image-open_with []
      ∙ open_with_plain (bytes_reader (image_bytes w rest)) (super_block_of w) (plain_features w d)
          (unfold super_block_of in refl) low high
