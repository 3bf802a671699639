-- ===== src/Reader/Opening/Slots.antt =====
-- The device table that Open of erofs.go reads, against the one that writeBlock0 of writer.go wrote.
use go_erofs.Prelude.{
  ℕ, ◌+◌, ◌*◌, ◌^◌, ◌≤◌, ◌<◌, ◌≡◌, refl, ap, ◌∙◌, ltb, some, List, [], ◌∷◌, ◌++◌, length,
  length-append, length-replicate, append_assoc, take-all, arith, Bool-cases, inl, inr,
  Option-cases, lt→ltb,
}
use go_erofs.Prelude.Bytes.{Bytes, get_le-put_le, zeros}
use go_erofs.Disk.{SuperBlock, DeviceSlot}
use go_erofs.Disk.Codec.{decode_device_slot, encode_device_slot, encode_super_block}
use go_erofs.Image.{ErofsWriter}
use go_erofs.Image.Data.{super_block_of, device_slots}
use go_erofs.Image.Data.Area.{length-encode_super_block}
use go_erofs.Reader.{DeviceInfo, ReaderAt, ok, bytes_reader}
use go_erofs.Reader.Blocks.Plain.{bytes_reader-slice}
use go_erofs.Reader.Opening.{read_slots}

decode_device_slot-encode_device_slot :
    (s : DeviceSlot)
    → s.blocks < 2 ^ 32
    → s.mapped_blk_addr < 2 ^ 32
    → decode_device_slot (encode_device_slot s) ≡ s
unfolding decode_device_slot encode_device_slot
decode_device_slot-encode_device_slot s b m =
    rw (get_le-put_le 4 s.blocks b, get_le-put_le 4 s.mapped_blk_addr m)

length-encode_device_slot : (s : DeviceSlot) → length (encode_device_slot s) ≡ 128
unfolding encode_device_slot
length-encode_device_slot s = refl

-- What Open makes of devices whose slots have the given block counts.
abbrev pub listed : List ReaderAt → List ℕ → List DeviceInfo
listed [] bs = []
listed (dev ∷ extra) [] = []
listed (dev ∷ extra) (b ∷ bs) =
    record { device = dev; mapped_blk_addr = 0; blocks = b } ∷ listed extra bs

-- The parts of a device table's bytes.
device_slots_cons :
    (b : ℕ) (bs : List ℕ) (slots : Bytes)
    → device_slots (b ∷ bs) ≡ some slots
    → (b < 2 ^ 32)
      × (later : Bytes) × (device_slots bs ≡ some later)
      × (slots ≡ encode_device_slot (record { blocks = b; mapped_blk_addr = 0 }) ++ later)
unfolding device_slots
device_slots_cons b bs slots h = elim (Bool-cases (ltb 0xFFFFFFFF b)) [
  | inl t ↦ absurd (cc (rw (t, device_slots) at h))
  | inr t ↦ elim (Option-cases (device_slots bs)) [
    | inl n ↦ absurd (cc (rw (t, n, device_slots) at h))
    | inr (later, k) ↦ let e = rw (t, k, device_slots) at h in (ground arith, later, k, cc e)
  ]
]

-- One round of the loop.
read_slots_cons :
    (r : ReaderAt) (table idx : ℕ) (dev : ReaderAt) (extra : List ReaderAt) (buf : Bytes)
    (later : List DeviceInfo)
    → r (table + idx * 128) 128 ≡ ok buf
    → read_slots r table (idx + 1) extra ≡ ok later
    → read_slots r table idx (dev ∷ extra)
      ≡ ok (
          record {
            device = dev;
            mapped_blk_addr = (decode_device_slot buf).mapped_blk_addr;
            blocks = (decode_device_slot buf).blocks;
          }
          ∷ later)
unfolding read_slots
read_slots_cons r table idx dev extra buf later h k = rw (h, k)

read_slots-device_slots :
    (table idx : ℕ) (extra : List ReaderAt) (bs : List ℕ) (pre slots post image : Bytes)
    → image ≡ pre ++ (slots ++ post)
    → length pre ≡ table + idx * 128
    → device_slots bs ≡ some slots
    → length extra ≤ length bs
    → read_slots (bytes_reader image) table idx extra ≡ ok (listed extra bs)
read_slots-device_slots table idx [] bs pre slots post image split at h few =
    unfold read_slots in refl
read_slots-device_slots table idx (dev ∷ extra) [] pre slots post image split at h few =
    absurd (omega arith)
read_slots-device_slots table idx (dev ∷ extra) (b ∷ bs) pre slots post image split at h few =
    let (small, later, k, cut) = device_slots_cons b bs slots h in
    let slot = encode_device_slot (record { blocks = b; mapped_blk_addr = 0 }) in
    let len = length-encode_device_slot (record { blocks = b; mapped_blk_addr = 0 }) in
    let parts : image ≡ pre ++ (slot ++ (later ++ post)) = split ∙ rw cut (simp append_assoc) in
    let more : image ≡ (pre ++ slot) ++ (later ++ post) = parts ∙ simp append_assoc in
    let next : length (pre ++ slot) ≡ table + (idx + 1) * 128 =
      omega (arith, length-append pre slot) in
    let here : length pre + 0 ≡ table + idx * 128 = omega arith in
    let read : bytes_reader image (table + idx * 128) 128 ≡ ok slot =
      rw (parts, ← here)
        (bytes_reader-slice pre slot (later ++ post) 0 128 (omega (arith, len))
          ∙ ap ok (take-all 128 slot (omega (arith, len)))) in
    read_slots_cons (bytes_reader image) table idx dev extra slot (listed extra bs) read (
      read_slots-device_slots table (idx + 1) extra bs (pre ++ slot) later post image more next k
        (omega arith))
    ∙ rw (
        decode_device_slot-encode_device_slot (record { blocks = b; mapped_blk_addr = 0 }) small
          (omega arith))

slot_offset :
    (w : ErofsWriter) → 0 < length w.devices → (super_block_of w).devt_slot_off * 128 ≡ 1024
unfolding super_block_of
slot_offset w pos = rw (lt→ltb 0 (length w.devices) pos)

superblock_slot :
    (s : SuperBlock)
    → decode_device_slot (encode_super_block s) ≡ record { blocks = 0; mapped_blk_addr = 0 }
unfolding decode_device_slot encode_super_block
superblock_slot s = refl

module _ (w : ErofsWriter) (slots post : Bytes) where
  abbrev pub table_bytes : Bytes
  table_bytes = zeros 1024 ++ (encode_super_block (super_block_of w) ++ (slots ++ post))

  -- Open reads the table of a writer with devices from one slot too early: with as many readers as
  -- the writer has devices, whose sizes fit their fields, it takes the superblock for the first slot,
  -- so that the first device has no blocks, and each later device has the blocks of the one before.
  pub read_slots_shifted :
      (dev : ReaderAt) (extra : List ReaderAt)
      → device_slots w.devices ≡ some slots
      → length (dev ∷ extra) ≡ length w.devices
      → read_slots
          (bytes_reader table_bytes)
          ((super_block_of w).devt_slot_off * 128)
          0
          (dev ∷ extra)
        ≡ ok (listed (dev ∷ extra) (0 ∷ w.devices))
  read_slots_shifted dev extra h same =
      let sb = encode_super_block (super_block_of w) in
      let len = length-encode_super_block w in
      let start : length (zeros 1024) + 0 ≡ 1024 = omega (arith, length-replicate {A = ℕ} 1024 0) in
      let off : (super_block_of w).devt_slot_off * 128 ≡ 1024 = slot_offset w (omega arith) in
      let read : bytes_reader table_bytes (1024 + 0 * 128) 128 ≡ ok sb = rw (← start) (
        bytes_reader-slice (zeros 1024) sb (slots ++ post) 0 128 (omega (arith, len))
        ∙ ap ok (take-all 128 sb (omega (arith, len)))) in
      let next : length (zeros 1024 ++ sb) ≡ 1024 + (0 + 1) * 128 =
        omega (arith, length-append (zeros 1024) sb, len, length-replicate {A = ℕ} 1024 0) in
      rw off (
        read_slots_cons (bytes_reader table_bytes) 1024 0 dev extra sb (listed extra w.devices) read
          (read_slots-device_slots 1024 (0 + 1) extra w.devices (zeros 1024 ++ sb) slots post
            table_bytes (simp append_assoc) next h (omega arith))
        ∙ rw (superblock_slot (super_block_of w)))
