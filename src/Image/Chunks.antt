-- ===== src/Image/Chunks.antt =====
-- Chunk indexes: writeChunkIndexes of writer.go and parseChunks of mkfs_image.go.
pub mod Parse
pub mod Single
use Prim.Native.Nat.{bit_and}
use mathlib.Core.List.{reverse}
use go_erofs.Prelude.{
  ℕ, zero, suc, ◌+◌, ◌-◌, ◌*◌, ◌/◌, ◌%◌, ◌^◌, ◌==◌, ltb, leb, if◌then◌else◌, Bool, true, false,
  ◌&&◌, Option, none, some, List, [], ◌∷◌, ◌++◌, length,
}
use go_erofs.Prelude.Bytes.{Bytes, put_le, field}
use go_erofs.Disk.{size_chunk_index}
use go_erofs.Image.{Chunk, ErofsEntry, ErofsWriter, entry_chunk_size}

-- nullAddr: marks a hole
abbrev pub null_addr : ℕ
null_addr = 0xFFFFFFFF

-- The index of a hole, and that of a physical block.
unfoldable pub null_index : Bytes
null_index = put_le 2 0xFFFF ++ (put_le 2 0 ++ put_le 4 null_addr)

unfoldable pub chunk_index : ℕ → ℕ → Bytes
chunk_index device_id phys = put_le 2 (phys / 2 ^ 32) ++ (put_le 2 device_id ++ put_le 4 phys)

-- for ci < len(e.chunks) && coff >= int(e.chunks[ci].Count): the chunks from `ci` on, and `coff`.
unfoldable pub advance : List Chunk → ℕ → List Chunk × ℕ
advance [] coff = ([], coff)
advance (c ∷ cs) coff =
    let later = advance cs (coff - c.count) in if leb c.count coff then later else (c ∷ cs, coff)

-- One index for each logical chunk: `n` of them are still to be written.
unfoldable pub chunk_indexes_loop : ℕ → ℕ → List Chunk → ℕ → Bytes
unfolding null_index chunk_index advance
chunk_indexes_loop bpc zero cs coff = []
chunk_indexes_loop bpc (suc n) [] coff = null_index ++ chunk_indexes_loop bpc n [] coff
chunk_indexes_loop bpc (suc n) (c ∷ cs) coff =
    let (cs', coff') = advance (c ∷ cs) (coff + bpc) in
    chunk_index c.device_id ((c.physical_block + coff) % 2 ^ 64)
    ++ chunk_indexes_loop bpc n cs' coff'

-- Both branches: without source chunks every index is that of a hole.
unfoldable pub write_chunk_indexes : ErofsWriter → ErofsEntry → Bytes
unfolding chunk_indexes_loop
write_chunk_indexes w e =
    let cs = entry_chunk_size w e in
    chunk_indexes_loop (cs / w.block_size) ((e.size + cs - 1) / cs) e.chunks 0

-- A mapped index joins the chunk before it where it goes on from there on the same device.
unfoldable pub merge_chunk : ℕ → ℕ → ℕ → List Chunk → List Chunk
merge_chunk bpc device_id phys [] =
    record { physical_block = phys; count = bpc % 2 ^ 16; device_id = device_id } ∷ []
merge_chunk bpc device_id phys (prev ∷ acc) =
    if prev.device_id == device_id
      && (prev.physical_block + prev.count) % 2 ^ 64 == phys
      && leb (prev.count + bpc) 65535
    then record prev { count = (prev.count + bpc % 2 ^ 16) % 2 ^ 16 } ∷ acc
    else record { physical_block = phys; count = bpc % 2 ^ 16; device_id = device_id } ∷ prev ∷ acc

-- One round of parseChunks on the index at `off`: `acc` holds the chunks so far, the last one first.
unfoldable pub parse_chunk : ℕ → ℕ → Bytes → ℕ → List Chunk → List Chunk
parse_chunk bpc mask buf off acc =
    let lo = field (off + 4) 4 buf in
    let phys = field off 2 buf * 2 ^ 32 + lo in
    if lo == null_addr then acc else merge_chunk bpc (bit_and (field (off + 2) 2 buf) mask) phys acc

-- for i := range nchunks, with `n` rounds left and `off` the offset of the index
unfoldable pub parse_chunks_loop : ℕ → ℕ → Bytes → ℕ → ℕ → List Chunk → List Chunk
parse_chunks_loop bpc mask buf zero off acc = acc
parse_chunks_loop bpc mask buf (suc n) off acc =
    parse_chunks_loop bpc mask buf n (off + size_chunk_index) (parse_chunk bpc mask buf off acc)

-- parseChunks; `file_size - 1` wraps at 0.
unfoldable pub parse_chunks : Bytes → ℕ → ℕ → ℕ → ℕ → List Chunk
parse_chunks buf chunk_fmt file_size blk_bits mask =
    let chunk_bits = (blk_bits + chunk_fmt % 32) % 2 ^ 8 in
    let nchunks = (file_size + 2 ^ 64 - 1) % 2 ^ 64 / 2 ^ chunk_bits + 1 in
    if ltb (length buf) (nchunks * size_chunk_index)
    then []
    else reverse (parse_chunks_loop (2 ^ (chunk_bits - blk_bits)) mask buf nchunks 0 [])
