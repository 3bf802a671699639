-- ===== src/Reader/Reading.antt =====
-- Read of a file and readLink, of erofs.go. The file keeps an offset. An inode's size is a natural number;
-- one of 2 ^ 63 or more, which the code takes for a negative one, is outside of the model.
pub mod Serves
pub mod Loop
pub mod Tail
pub mod Stored
pub mod Links
use go_erofs.Prelude.{
  ℕ, zero, suc, ◌+◌, ◌-◌, ◌==◌, ltb, leb, if◌then◌else◌, Option, none, some, List, [], ◌++◌, length,
  take,
}
use go_erofs.Prelude.Bytes.{Bytes, zeros}
use go_erofs.Reader.{Image, Inode, Error, Result, ok, err, eof, invalid, ◌>>=◌}
use go_erofs.Reader.Blocks.{load_block}
use go_erofs.Reader.Info.{read_info}

-- What Read leaves: the bytes that it copied, its error, and the offset of the file.
pub record Progress : Type 0 where
  pub bytes : Bytes
  pub error : Option Error
  pub offset : ℕ

-- An io.EOF of loadBlock moves the offset by all that has been copied, which it was moved by before.
abbrev pub offset_after : Error → ℕ → ℕ → ℕ
offset_after eof off copied = off + copied
offset_after problem off copied = off

abbrev pub extend : Bytes → Progress → Progress
extend b p = record p { bytes = b ++ p.bytes }

-- One round of the loop, once the block has been loaded. `left` bytes are still asked for.
abbrev pub copy_block : (ℕ → ℕ → ℕ → Progress) → ℕ → ℕ → ℕ → Result Bytes → Progress
copy_block next off left copied (err problem) = record {
  bytes = [];
  error = some problem;
  offset = offset_after problem off copied;
}
copy_block next off left copied (ok buf) =
    let got = take left buf in
    let n = length got in extend got (next (off + n) (left - n) (copied + n))

-- for len(p) > 0: a loaded block has a byte or more, so that `left` rounds are enough.
unfoldable pub read_loop : ℕ → Image → Inode → ℕ → ℕ → ℕ → Progress
unfolding load_block
read_loop zero img fi off left copied = record { bytes = []; error = none; offset = off }
read_loop (suc fuel) img fi off left copied =
    if left == 0
    then record { bytes = []; error = none; offset = off }
    else if leb fi.size off
    then record { bytes = []; error = some eof; offset = off }
    else copy_block (read_loop fuel img fi) off left copied (load_block img fi off)

-- Read of `n` bytes from a file whose inode has been read.
unfoldable pub read_at : Image → Inode → ℕ → ℕ → Progress
unfolding read_loop
read_at img fi off n = read_loop n img fi off n 0

abbrev pub max_symlink_size : ℕ
max_symlink_size = 4096

-- if err != nil && err != io.EOF { return "", err }
abbrev pub unless_problem : Option Error → Bytes → Result Bytes
unless_problem none b = ok b
unless_problem (some eof) b = ok b
unless_problem (some problem) b = err problem

-- The buffer keeps its size, and zeros where nothing was copied.
abbrev pub fill : ℕ → Bytes → Bytes
fill n b = b ++ zeros (n - length b)

unfoldable pub read_link : Image → ℕ → Result Bytes
unfolding read_info read_at
read_link img nid = read_info img nid >>= λ fi.
    let p = read_at img fi 0 fi.size in
    if ltb max_symlink_size fi.size
    then err invalid
    else unless_problem p.error (fill fi.size p.bytes)
