-- ===== src/Image/Metadata/Trailing.antt =====
-- The sizes that layout.go plans for the data behind an inode, against what writer.go writes.
use go_erofs.Prelude.{
  ℕ, zero, suc, ◌+◌, ◌-◌, ◌*◌, ◌/◌, ◌≤◌, ◌<◌, ◌≡◌, refl, ap, Option, none, some, List, [], ◌∷◌, map,
  length, length-take, arith,
}
use go_erofs.Prelude.Bytes.{Bytes}
use go_erofs.Disk.{layout_flat_inline, size_chunk_index}
use go_erofs.Mode.{stat_type, stat_type_reg}
use go_erofs.Image.{Child, Chunk, ErofsEntry, ErofsWriter, entry_chunk_size}
use go_erofs.Image.Dirents.Size.{length-write_dirents}
use go_erofs.Image.Chunks.{chunk_indexes_loop, write_chunk_indexes, advance}
use go_erofs.Image.Plan.{calc_trailing_size}
use go_erofs.Image.Metadata.{child_infos, limited, trailing_bytes}

length-chunk_indexes_loop :
    (bpc n : ℕ) (cs : List Chunk) (coff : ℕ)
    → length (chunk_indexes_loop bpc n cs coff) ≡ n * size_chunk_index
unfolding chunk_indexes_loop
length-chunk_indexes_loop bpc zero cs coff = refl
length-chunk_indexes_loop bpc (suc n) [] coff =
    omega (arith, length-chunk_indexes_loop bpc n [] coff)
length-chunk_indexes_loop bpc (suc n) (c ∷ cs) coff =
    let a = advance (c ∷ cs) (coff + bpc) in omega (arith, length-chunk_indexes_loop bpc n a.0 a.1)

pub names-child_infos :
    (w : ErofsWriter) (cs : List Child)
    → map (λ d. d.name) (child_infos w cs) ≡ map (λ (c : Child). c.name) cs
unfolding child_infos
names-child_infos w [] = refl
names-child_infos w (c ∷ cs) = ap (λ l. c.name ∷ l) (names-child_infos w cs)

length-chunks :
    (w : ErofsWriter) (e : ErofsEntry)
    → length (write_chunk_indexes w e)
      ≡ (e.size + entry_chunk_size w e - 1) / entry_chunk_size w e * size_chunk_index
unfolding write_chunk_indexes
length-chunks w e = length-chunk_indexes_loop _ _ e.chunks 0

-- The source of inline data delivers as many bytes as the entry's size says.
abbrev pub IsComplete : ErofsEntry → Type 0
IsComplete e =
    stat_type e.mode ≡ stat_type_reg
    → e.layout ≡ layout_flat_inline
    → 0 < e.size
    → e.size ≤ length (limited e.contents e.size)

pub length-limited : (o : Option Bytes) (n : ℕ) → length (limited o n) ≤ n
unfolding limited
length-limited none n = omega arith
length-limited (some d) n = omega (arith, length-take n d)

-- Behind each inode the writer puts as many bytes as calcTrailingSize planned, for every type and
-- layout, if the source of inline data delivers them and a block has 27 bytes or more.
pub length-trailing_bytes :
    (w : ErofsWriter) (e : ErofsEntry)
    → 27 ≤ w.block_size
    → IsComplete e
    → length (trailing_bytes w e) ≡ calc_trailing_size w e
unfolding trailing_bytes calc_trailing_size
length-trailing_bytes w e h complete = ground (
  arith,
  length-chunks w e,
  length-limited e.contents e.size,
  complete,
  length-write_dirents w.block_size e.nid e.parent_nid (child_infos w e.children) h,
  names-child_infos w e.children,
)
