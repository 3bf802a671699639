-- ===== src/Reader/Directory/Full.antt =====
-- blockDirent of erofs.go on a directory block of 64 KiB.
use go_erofs.Prelude.{
  ℕ, ◌+◌, ◌-◌, ◌*◌, ◌%◌, ◌^◌, ◌<◌, ◌≡◌, ltb, le→ltb, lt→ltb, false, length, arith,
}
use go_erofs.Prelude.Bytes.{Bytes, slice}
use go_erofs.Disk.Codec.{decode_dirent}
use go_erofs.Reader.{err, invalid}
use go_erofs.Reader.Directory.{block_dirent}

-- The last entry of a block of 65536 bytes, the largest that Open lets through, cannot be read if
-- its name offset is not 0: the block's length as a uint16 is 0. The index is below 5461, so that
-- twelve times it does not wrap around.
pub block_dirent_full :
    (buf : Bytes) (i : ℕ)
    → length buf ≡ 2 ^ 16
    → i < 5461
    → 0 < (decode_dirent (slice (i * 12) (i * 12 + 12) buf)).name_off
    → block_dirent buf i (i + 1) ≡ err invalid
unfolding block_dirent
block_dirent_full buf i full few named =
    let off : 12 * i % 2 ^ 16 ≡ i * 12 = omega arith in
    let last : (i + 1 + 2 ^ 16 - 1) % 2 ^ 16 ≡ i = omega arith in
    let after : ltb i i ≡ false = ground arith in
    let wrap : length buf % 2 ^ 16 ≡ 0 = omega arith in
    rw (
      off,
      last,
      after,
      wrap,
      le→ltb (i * 12 + 12) (length buf) (omega arith),
      lt→ltb 0 (decode_dirent (slice (i * 12) (i * 12 + 12) buf)).name_off named,
    )
