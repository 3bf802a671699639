-- ===== src/Writer/Files.antt =====
-- The writable File of mkfs.go: Write, ReadFrom, Close and closeDataFile. What os.File.Write takes of
-- the bytes it is given is a parameter of both, and it gives an error where it takes fewer.
pub mod Chunks
use Prim.Native.Nat.{min}
use go_erofs.Prelude.{
  ℕ, zero, suc, ◌+◌, ◌-◌, ◌*◌, ◌/◌, ◌%◌, ◌^◌, ◌==◌, ltb, if◌then◌else◌, Bool, true, false, Option,
  none, some, List, [], ◌∷◌, ◌++◌, length, take,
}
use go_erofs.Prelude.Bytes.{Bytes, zeros}
use go_erofs.Image.{Chunk}
use go_erofs.Image.Data.{blocks_for}
use go_erofs.Mode.{go_mode_to_unix_mode}
use go_erofs.Writer.{
  FsEntry, Failure, os_error, already_closed, file_closed, Reply, failed, done, Writer, File,
  update_entry,
}
use go_erofs.Writer.BlockSize.{resolve_block_size}
use go_erofs.Writer.Calls.{set_permissions, set_owner}

-- How many of the bytes the file of the given contents takes.
abbrev pub OsWrite : Type 0
OsWrite = Bytes → Bytes → ℕ

-- What a method of File returns: a reply, the File and its Writer.
abbrev pub Wrote {ℓ} : Type ℓ → Type ℓ
Wrote A = Reply A × File × Writer

-- The file without an error, and with one after the first `n` bytes.
abbrev outcome : ℕ → ℕ → Reply ℕ
outcome n want = if ltb n want then failed os_error else done n

abbrev add_written : ℕ → File → File
add_written n f = record f { written = f.written + n }

-- To the data file, or to the spool, which is there in spool mode, since Create has made it.
abbrev pub write_to : Option Bytes → Option Bytes → OsWrite → Bytes → File → Writer → Wrote ℕ
write_to (some held) spool takes p f w =
    let n = min (takes held p) (length p) in
    (
      outcome n (length p),
      add_written n f,
      record w { data_file = some (held ++ take n p); data_off = w.data_off + n },
    )
write_to none (some held) takes p f w =
    let n = min (takes held p) (length p) in
    (
      outcome n (length p),
      add_written n f,
      record w { spool = some (held ++ take n p); spool_off = w.spool_off + n },
    )
write_to none none takes p f w = (failed os_error, f, w)

-- File.Write
unfoldable pub write : OsWrite → Bytes → File → Writer → Wrote ℕ
write takes p f w =
    if f.closed then (failed file_closed, f, w) else write_to w.data_file w.spool takes p f w

-- ReadFrom: one Write for each piece that a Read delivers. Nothing is written of an empty piece.
abbrev pub go_on : (File → Writer → Wrote ℕ) → Wrote ℕ → Wrote ℕ
go_on next (failed e, f, w) = (failed e, f, w)
go_on next (done n, f, w) = next f w

unfoldable pub read_from : OsWrite → ℕ → List Bytes → File → Writer → Wrote ℕ
unfolding write
read_from takes total [] f w = (done total, f, w)
read_from takes total ([] ∷ ps) f w = read_from takes total ps f w
read_from takes total ((b ∷ p) ∷ ps) f w =
    go_on (read_from takes (total + length (b ∷ p)) ps) (write takes (b ∷ p) f w)

-- for totalBlocks > 0, a round for each chunk: no more than there are blocks.
unfoldable pub chunk_loop : ℕ → ℕ → ℕ → List Chunk
chunk_loop zero start total = []
chunk_loop (suc fuel) start total =
    let count = if ltb 65535 total then 65535 else total in
    let rest = chunk_loop fuel (start + count) (total - count) in
    if ltb 0 total
    then record { physical_block = start; count = count % 2 ^ 16; device_id = 1 } ∷ rest
    else []

unfoldable pub data_file_chunks : ℕ → ℕ → ℕ → List Chunk
unfolding chunk_loop
data_file_chunks bs off written =
    let total = blocks_for bs written in chunk_loop total (off / bs) total

abbrev pub append_chunks : List Chunk → FsEntry → FsEntry
append_chunks cs e = record e { chunks = e.chunks ++ cs }

abbrev pub pad_to : Option Bytes → OsWrite → Bytes → Writer → Reply (Unit {0}) × Writer
pad_to none takes pad w = (failed os_error, w)
pad_to (some held) takes pad w =
    let n = min (takes held pad) (length pad) in
    (
      if ltb n (length pad) then failed os_error else done tt,
      record w { data_file = some (held ++ take n pad); data_off = w.data_off + n },
    )

-- The padding to a block, which may be cut short.
unfoldable pub pad_data_file : OsWrite → Writer → Reply (Unit {0}) × Writer
pad_data_file takes w =
    if w.data_off % w.block_size == 0
    then (done tt, w)
    else pad_to w.data_file takes (zeros (w.block_size - w.data_off % w.block_size)) w

abbrev pub record_chunks : File → Reply (Unit {0}) × Writer → Reply (Unit {0}) × Writer
record_chunks f (failed e, w) = (failed e, w)
record_chunks f (done u, w) = (
  done tt,
  update_entry f.entry (append_chunks (data_file_chunks w.block_size f.data_start_off f.written)) w,
)

unfoldable pub close_data_file : OsWrite → File → Writer → Reply (Unit {0}) × Writer
unfolding resolve_block_size pad_data_file data_file_chunks
close_data_file takes f w =
    if f.written == 0
    then (done tt, w)
    else record_chunks f (pad_data_file takes (resolve_block_size w))

abbrev pub finalize : ℕ → FsEntry → FsEntry
finalize size e = record e { file_closed = true; size = size }

abbrev pub with_file : File → Reply (Unit {0}) × Writer → Wrote (Unit {0})
with_file f (r, w) = (r, f, w)

abbrev pub close_to : Option Bytes → OsWrite → File → Writer → Wrote (Unit {0})
close_to (some held) takes f w = with_file f (close_data_file takes f w)
close_to none takes f w = (done tt, f, w)

-- File.Close
unfoldable pub close_file : OsWrite → File → Writer → Wrote (Unit {0})
unfolding close_data_file
close_file takes f w =
    if f.closed
    then (failed already_closed, f, w)
    else close_to w.data_file takes (record f { closed = true })
        (update_entry f.entry (finalize f.written) w)

-- File.Chmod and File.Chown
unfoldable pub file_chmod : ℕ → File → Writer → Writer
unfolding set_permissions
file_chmod mode f w = update_entry f.entry (set_permissions mode) w

unfoldable pub file_chown : ℕ → ℕ → File → Writer → Writer
file_chown uid gid f w = update_entry f.entry (set_owner uid gid) w
