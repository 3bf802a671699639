-- ===== src/Image/Data/Area.antt =====
-- The superblock area of writeBlock0, and the whole image of writeSeekable.
use native.Mathlib.Nat.{mul-div_left}
use go_erofs.Prelude.{
  ℕ, ◌+◌, ◌-◌, ◌*◌, ◌/◌, ◌%◌, ◌^◌, ◌≤◌, ◌<◌, ◌≡◌, refl, sym, ap, ◌∙◌, ltb, some, List, [], ◌∷◌,
  ◌++◌, length, length-append, length-replicate, Option-cases, arith, Bool-cases, inl, inr, All,
}
use go_erofs.Prelude.Bytes.{Bytes, zeros}
use go_erofs.Disk.Codec.{encode_super_block, encode_device_slot}
use go_erofs.Image.{ErofsWriter}
use go_erofs.Image.Rounding.{le-align_up}
use go_erofs.Image.Metadata.{write_metadata_inodes}
use go_erofs.Image.Data.{
  sb_area_size, sb_area_blocks, data_blocks, device_slots, super_block_of, write_block0,
  write_data_blocks, write_seekable, assign_data_blocks, assign_blocks_loop,
}
use go_erofs.Image.Data.Contents.{Delivers}
use go_erofs.Image.Data.Addresses.{HasData, write_data_blocks-HasData}

pub length-encode_super_block :
    (w : ErofsWriter) → length (encode_super_block (super_block_of w)) ≡ 128
unfolding encode_super_block
length-encode_super_block w = refl

pub length-device_slots :
    (ds : List ℕ) (slots : Bytes) → device_slots ds ≡ some slots → length slots ≡ length ds * 128
unfolding device_slots encode_device_slot
length-device_slots [] slots h = let e : [] ≡ slots = cc h in rw (← e) refl
length-device_slots (d ∷ ds) slots h = elim (Bool-cases (ltb 0xFFFFFFFF d)) [
  | inl b ↦ absurd (cc (rw (b, device_slots) at h))
  | inr b ↦ elim (Option-cases (device_slots ds)) [
    | inl n ↦ absurd (cc (rw (b, n, device_slots) at h))
    | inr (r, k) ↦
        let e = rw (b, k, device_slots) at h in
        let whole : encode_device_slot (record { blocks = d; mapped_blk_addr = 0 }) ++ r ≡ slots =
          cc e in
        rw (← whole) (omega (arith, length-device_slots ds r k))
  ]
]

module _ (w : ErofsWriter) (pos : 0 < w.block_size) where
  area_blocks : sb_area_size w ≡ sb_area_blocks w * w.block_size
  unfolding sb_area_size sb_area_blocks
  area_blocks =
      ap (λ n. n * w.block_size)
        (sym (mul-div_left ((1152 + length w.devices * 128 + w.block_size - 1) / w.block_size) pos))

  abbrev pub fill : Bytes
  fill = zeros (sb_area_size w - (1152 + length w.devices * 128))

  abbrev pub front_of : Bytes → Bytes
  front_of slots = zeros 1024 ++ (encode_super_block (super_block_of w) ++ (slots ++ fill))

  pub block0-some :
      (slots : Bytes) → device_slots w.devices ≡ some slots → write_block0 w ≡ some (front_of slots)
  unfolding write_block0
  block0-some slots h = rw h

  length-front_of :
      (slots : Bytes)
      → device_slots w.devices ≡ some slots
      → length (front_of slots) ≡ sb_area_size w
  length-front_of slots h =
      let room : 1152 + length w.devices * 128 ≤ sb_area_size w =
        unfold sb_area_size in le-align_up w.block_size (1152 + length w.devices * 128) pos in
      omega (
        arith,
        room,
        length-append (zeros 1024) (encode_super_block (super_block_of w) ++ (slots ++ fill)),
        length-append (encode_super_block (super_block_of w)) (slots ++ fill),
        length-append slots fill,
        length-replicate {A = ℕ} 1024 0,
        length-replicate {A = ℕ} (sb_area_size w - (1152 + length w.devices * 128)) 0,
        length-encode_super_block w,
        length-device_slots w.devices slots h,
      )

-- The image of a writer whose data fits below 2^32 blocks: the superblock area, the data with that
-- of every entry at its block address, and the metadata from its block address on. The sources have
-- to deliver the sizes of their entries, the device sizes to fit their fields, and the metadata to
-- be written.
pub write_seekable-HasData :
    (w : ErofsWriter) (slots meta : Bytes)
    → 27 ≤ w.block_size
    → sb_area_blocks w + data_blocks w w.entries < 2 ^ 32
    → All Delivers w.entries
    → device_slots w.devices ≡ some slots
    → write_metadata_inodes (assign_data_blocks w) ≡ some meta
    → (front : Bytes) × (written : Bytes) × (write_seekable w ≡ some (front ++ (written ++ meta)))
      × (write_block0 (assign_data_blocks w) ≡ some front)
      × All (HasData (assign_data_blocks w) (front ++ written)) (assign_data_blocks w).entries
      × (length (front ++ written) ≡ (assign_data_blocks w).meta_blk_addr * w.block_size)
unfolding write_seekable assign_data_blocks write_data_blocks sb_area_blocks sb_area_size
write_seekable-HasData w slots meta big few h ds ms =
    let first = sb_area_blocks w % 2 ^ 32 in
    let wrap : first ≡ sb_area_blocks w = omega arith in
    let a = assign_blocks_loop w first w.entries in
    let w' = assign_data_blocks w in
    let pos : 0 < w.block_size = omega arith in
    let front = front_of w' pos slots in
    let len : length front ≡ first * w.block_size =
      length-front_of w' pos slots ds
      ∙ area_blocks w' pos
      ∙ ap (λ n. n * w.block_size) (sym wrap) in
    let (out, wrote, stands, end) =
      write_data_blocks-HasData w a.0 a.1 big w.entries front first len (omega arith) h in
    let block0 = block0-some w' pos slots ds in
    (front, out, rw (wrote, ms, block0) refl, block0, stands, end)
