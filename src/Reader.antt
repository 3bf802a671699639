-- ===== src/Reader.antt =====
-- The state of the image reader of erofs.go. A device is an io.ReaderAt, which is not code of the
-- repository: a function from an offset and a length to the bytes read, or an error, which ReadAt must
-- give wherever it reads fewer bytes than asked for.
pub mod Info
pub mod Directory
pub mod Blocks
pub mod Opening
pub mod Reading
pub mod Resolving
use go_erofs.Prelude.{
  ℕ, ◌+◌, ◌*◌, ◌^◌, ◌≡◌, ◌≤◌, leb, if◌then◌else◌, Option, none, some, List, length, take, drop,
  arith,
}
use go_erofs.Prelude.Bytes.{Bytes}
use go_erofs.Disk.{SuperBlock}

-- Errors: those of a device other than io.EOF, io.EOF, fs.ErrNotExist, ErrInvalid,
-- ErrNotImplemented, ErrNotDirectory, ErrIsDirectory and ErrLoop, and those with a text of their own.
pub data Error : Type 0 where
  io_error eof not_exist invalid invalid_super_block not_implemented : Error
  not_directory is_directory loop other : Error

-- A value and an error that is nil, or an error.
pub data Result {ℓ} (A : Type ℓ) : Type ℓ where
  err : Error → Result A
  ok : A → Result A

-- if err != nil { return err }
infixl 5 ◌>>=◌
abbrev pub ◌>>=◌ {ℓ κ} : {A : Type ℓ} {B : Type κ} → Result A → (A → Result B) → Result B
err problem >>= next = err problem
ok value >>= next = next value

-- ReadAt: all of the bytes that are asked for, or an error, which loadBlock and readInfo wrap, so that
-- errors.Is finds it.
abbrev pub ReaderAt : Type 0
ReaderAt = ℕ → ℕ → Result Bytes

-- bytes.Reader, and any file or device that holds the bytes and does not fail: io.EOF where it is too
-- short.
unfoldable pub bytes_reader : Bytes → ReaderAt
bytes_reader b off n = if leb (off + n) (length b) then ok (take n (drop off b)) else err eof

pub record DeviceInfo : Type 0 where
  pub device : ReaderAt
  pub mapped_blk_addr : ℕ
  pub blocks : ℕ

-- type image. The block pool has no state that a caller can see.
pub record Image : Type 0 where
  pub sb : SuperBlock
  pub meta : ReaderAt
  pub devices : List DeviceInfo
  pub device_id_mask : ℕ

-- type inode, without the name, the cached block, and the field mode, which joins raw_mode with the type
-- that the file has from its directory entry, and which the calls of Stat alone read
pub record Inode : Type 0 where
  pub nid : ℕ
  pub icsize : ℕ
  pub xsize : ℕ
  pub inode_layout : ℕ
  pub inode_data : ℕ
  pub size : ℕ
  pub raw_mode : ℕ
  pub uid : ℕ
  pub gid : ℕ
  pub nlink : ℕ
  pub mtime : ℕ
  pub mtime_ns : ℕ

unfoldable pub meta_start_pos : Image → ℕ
meta_start_pos img = img.sb.meta_blk_addr * 2 ^ img.sb.blk_size_bits

unfoldable pub block_size : Image → ℕ
block_size img = 2 ^ img.sb.blk_size_bits

unfoldable pub flat_data_offset : Inode → ℕ
flat_data_offset ino = ino.icsize + ino.xsize
