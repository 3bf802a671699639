-- ===== src/Tests/Layout.antt =====
-- The layout and the metadata area of a directory with a file.
use go_erofs.Prelude.{
  refl, ◌≡◌, ◌+◌, ◌/◌, ◌-◌, ◌%◌, ◌^◌, some, true, List, [], ◌∷◌, length, map, All, arith,
}
use go_erofs.Prelude.Bytes.{Bytes, IsByte}
use go_erofs.Image.{Chunk, ErofsEntry, min_chunk_bits}
use go_erofs.Image.Chunks.{chunk_index, parse_chunks, write_chunk_indexes}
use go_erofs.Image.Chunks.Parse.{blocks_of, mapped_blocks, blocks_of-parse_chunks}
use go_erofs.Image.Chunks.Single.{write_chunk_indexes_contiguous}
use go_erofs.Image.Dirents.{DirentInfo, dirent_data_size, write_dirents}
use go_erofs.Image.Dirents.Size.{length-write_dirents}
use go_erofs.Image.Plan.{calc_trailing_size, plan_layout}
use go_erofs.Image.Plan.Placement.{ArePlaced, plan_layout-ArePlaced}
use go_erofs.Image.Metadata.{limited, trailing_bytes, write_metadata_inodes}
use go_erofs.Image.Metadata.Planned.{IsSourced, write_metadata_inodes-plan_layout}
use go_erofs.Image.Metadata.Positions.{StandsIn}
use go_erofs.Image.Metadata.Trailing.{IsComplete, length-trailing_bytes}
use go_erofs.Tests.{file_entry, writer, writer-IsBlockSize}

plan_layout-ArePlaced_example : ArePlaced writer 0 (plan_layout writer).entries
plan_layout-ArePlaced_example = plan_layout-ArePlaced writer writer-IsBlockSize

pub writer-IsSourced : All IsSourced writer.entries
unfolding limited
writer-IsSourced = ((λ r c m. omega arith), ((λ r c m. omega arith), tt))

write_metadata_inodes-plan_layout_example :
    (out : Bytes) × (write_metadata_inodes (plan_layout writer) ≡ some out)
    × All (StandsIn (plan_layout writer) out) (plan_layout writer).entries
    × (length out % 512 ≡ 0)
write_metadata_inodes-plan_layout_example =
    write_metadata_inodes-plan_layout writer writer-IsBlockSize writer-IsSourced

abbrev inline_file : ErofsEntry
inline_file = record file_entry { layout = 2 }

inline_file-IsComplete : IsComplete inline_file
unfolding limited
inline_file-IsComplete r l p = omega arith

length-trailing_bytes_example :
    length (trailing_bytes writer inline_file) ≡ calc_trailing_size writer inline_file
length-trailing_bytes_example =
    length-trailing_bytes writer inline_file (omega arith) inline_file-IsComplete

abbrev two_children : List DirentInfo
two_children =
    record { name = b'b' ∷ []; nid = 40; file_type = 1 }
    ∷ record { name = b'a' ∷ b'a' ∷ []; nid = 41; file_type = 2 }
    ∷ []

length-write_dirents_example :
    length (write_dirents 32 36 36 two_children)
    ≡ dirent_data_size 32 (map (λ c. c.name) two_children)
length-write_dirents_example = length-write_dirents 32 36 36 two_children (omega arith)

-- The indexes of two blocks that follow one another, a hole and another block.
abbrev index_area : Bytes
index_area =
    0 ∷ 0 ∷ 1 ∷ 0 ∷ 7 ∷ 0 ∷ 0 ∷ 0 ∷ 0 ∷ 0 ∷ 1 ∷ 0 ∷ 8 ∷ 0 ∷ 0 ∷ 0 ∷ 255 ∷ 255 ∷ 0 ∷ 0 ∷ 255 ∷ 255
    ∷ 255 ∷ 255 ∷ 0 ∷ 0 ∷ 1 ∷ 0 ∷ 30 ∷ 0 ∷ 0 ∷ 0 ∷ []

index_area_bytes : All IsByte index_area
index_area_bytes = ground arith

blocks_of-parse_chunks_example :
    blocks_of (parse_chunks index_area 32 16384 12 1)
    ≡ mapped_blocks (2 ^ (32 % 32)) 1 index_area ((16384 - 1) / 2 ^ (12 + 32 % 32) + 1) 0
blocks_of-parse_chunks_example =
    blocks_of-parse_chunks index_area 32 16384 12 1 index_area_bytes (omega arith) (omega arith)
      (omega arith) (omega arith) (omega arith)

abbrev first_chunk : Chunk
first_chunk = record { physical_block = 7; count = 1; device_id = 1 }

abbrev second_chunk : Chunk
second_chunk = record { physical_block = 30; count = 1; device_id = 1 }

-- Two chunks that do not follow one another, in a file that is marked as contiguous.
abbrev chunked : ErofsEntry
chunked = record file_entry {
  size = 1024;
  chunks = first_chunk ∷ second_chunk ∷ [];
  contiguous = true;
  chunk_bits = 1;
}

chunked_bits : chunked.chunk_bits ≡ min_chunk_bits writer chunked.size
unfolding min_chunk_bits
chunked_bits = refl

write_chunk_indexes_contiguous_example :
    write_chunk_indexes writer chunked ≡ chunk_index 1 (7 % 2 ^ 64)
write_chunk_indexes_contiguous_example =
    write_chunk_indexes_contiguous writer chunked first_chunk (second_chunk ∷ []) refl chunked_bits
      (omega arith) (omega arith) (omega arith) (omega arith) (omega arith)
