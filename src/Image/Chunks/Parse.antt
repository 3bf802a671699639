-- ===== src/Image/Chunks/Parse.antt =====
-- The chunks that parseChunks of mkfs_image.go makes of an index area, against the blocks that its
-- indexes map.
use Prim.Native.Nat.{bit_and}
use mathlib.Core.List.{reverse, reverse-append}
use go_erofs.Prelude.{
  ℕ, zero, suc, ◌+◌, ◌-◌, ◌*◌, ◌/◌, ◌%◌, ◌^◌, ◌≤◌, ◌<◌, ◌==◌, ◌≡◌, refl, sym, ap, ◌∙◌, leb,
  if◌then◌else◌, Bool, true, ◌&&◌, List, [], ◌∷◌, ◌++◌, length, append_assoc, append-nil, arith,
  Bool-cases, inl, inr, All, le→ltb,
}
use go_erofs.Prelude.Bytes.{Bytes, IsByte, field}
use go_erofs.Prelude.Slices.{field-lt}
use go_erofs.Image.{Chunk}
use go_erofs.Image.Chunks.{null_addr, merge_chunk, parse_chunk, parse_chunks_loop, parse_chunks}

-- A device and a block on it.
abbrev pub Block : Type 0
Block = ℕ × ℕ

-- `count` blocks from `phys` on.
unfoldable pub run : ℕ → ℕ → ℕ → List Block
run device_id phys zero = []
run device_id phys (suc count) = (device_id, phys) ∷ run device_id (phys + 1) count

unfoldable pub blocks_of : List Chunk → List Block
unfolding run
blocks_of [] = []
blocks_of (c ∷ cs) = run c.device_id c.physical_block c.count ++ blocks_of cs

-- What `n` indexes from `off` on map: a hole maps nothing.
unfoldable pub mapped_blocks : ℕ → ℕ → Bytes → ℕ → ℕ → List Block
mapped_blocks bpc mask buf zero off = []
mapped_blocks bpc mask buf (suc n) off =
    let lo = field (off + 4) 4 buf in
    let here =
      if lo == null_addr
      then []
      else run (bit_and (field (off + 2) 2 buf) mask) (field off 2 buf * 2 ^ 32 + lo) bpc in
    here ++ mapped_blocks bpc mask buf n (off + 8)

pub run-add : (d p m n : ℕ) → run d p (m + n) ≡ run d p m ++ run d (p + m) n
unfolding run
run-add d p zero n = let e : 0 + n ≡ n = omega arith in let f : p + 0 ≡ p = omega arith in rw (e, f)
run-add d p (suc m) n =
    let e : suc m + n ≡ suc (m + n) = omega arith in
    let f : p + suc m ≡ p + 1 + m = omega arith in
    rw (e, f) (ap (λ l. (d, p) ∷ l) (run-add d (p + 1) m n))

blocks_of-append : (xs ys : List Chunk) → blocks_of (xs ++ ys) ≡ blocks_of xs ++ blocks_of ys
unfolding blocks_of
blocks_of-append [] ys = refl
blocks_of-append (c ∷ xs) ys =
    rw (blocks_of-append xs ys)
      (sym (append_assoc (run c.device_id c.physical_block c.count) (blocks_of xs) (blocks_of ys)))

-- Physical blocks have 48 bits.
abbrev IsShort : List Chunk → Type 0
IsShort [] = Unit
IsShort (c ∷ cs) = c.physical_block < 2 ^ 48

blocks_of-reverse :
    (c : Chunk) (cs : List Chunk)
    → blocks_of (reverse (c ∷ cs))
      ≡ blocks_of (reverse cs) ++ run c.device_id c.physical_block c.count
blocks_of-reverse c cs =
    ap blocks_of (reverse-append (c ∷ []) cs)
    ∙ blocks_of-append (reverse cs) (c ∷ [])
    ∙ ap (λ l. blocks_of (reverse cs) ++ l)
        (unfold blocks_of in append-nil (run c.device_id c.physical_block c.count))

module _ (bpc : ℕ) (small : bpc < 2 ^ 16) where
  joins : ℕ → ℕ → Chunk → Bool
  joins d p c =
      c.device_id == d && (c.physical_block + c.count) % 2 ^ 64 == p && leb (c.count + bpc) 65535

  joined :
      (d p : ℕ) (c : Chunk)
      → c.physical_block < 2 ^ 48
      → joins d p c ≡ true
      → (c.device_id ≡ d) × (c.physical_block + c.count ≡ p) × (c.count + bpc ≤ 65535)
  unfolding joins
  joined d p c s e = ground arith

  merge_chunk-blocks :
      (d p : ℕ) (acc : List Chunk)
      → IsShort acc
      → blocks_of (reverse (merge_chunk bpc d p acc)) ≡ blocks_of (reverse acc) ++ run d p bpc
  unfolding merge_chunk joins
  merge_chunk-blocks d p [] s =
      let e : bpc % 2 ^ 16 ≡ bpc = omega arith in unfold blocks_of in rw (e, append-nil)
  merge_chunk-blocks d p (c ∷ acc) s = elim (Bool-cases (joins d p c)) [
    | inl e ↦
        let (same, next, room) = joined d p c s e in
        let count : (c.count + bpc % 2 ^ 16) % 2 ^ 16 ≡ c.count + bpc = omega arith in
        rw (e, merge_chunk)
          (rw (
            count,
            blocks_of-reverse (record c { count = c.count + bpc }) acc,
            blocks_of-reverse c acc,
            run-add c.device_id c.physical_block c.count bpc,
            same,
            next,
            append_assoc,
          ))
    | inr e ↦
        let count : bpc % 2 ^ 16 ≡ bpc = omega arith in
        rw (e, merge_chunk)
          (rw (
            count,
            blocks_of-reverse (record { physical_block = p; count = bpc; device_id = d }) (c ∷ acc),
          ))
  ]

  merge_chunk-IsShort :
      (d p : ℕ) (acc : List Chunk) → p < 2 ^ 48 → IsShort acc → IsShort (merge_chunk bpc d p acc)
  unfolding merge_chunk
  merge_chunk-IsShort d p [] h s = h
  merge_chunk-IsShort d p (c ∷ acc) h s = ground arith

  module _ (mask : ℕ) (buf : Bytes) (bytes : All IsByte buf) where
    phys-lt : (off : ℕ) → field off 2 buf * 2 ^ 32 + field (off + 4) 4 buf < 2 ^ 48
    phys-lt off = omega (arith, field-lt off 2 buf bytes, field-lt (off + 4) 4 buf bytes)

    parse_chunks_loop-blocks :
        (n off : ℕ) (acc : List Chunk)
        → IsShort acc
        → blocks_of (reverse (parse_chunks_loop bpc mask buf n off acc))
          ≡ blocks_of (reverse acc) ++ mapped_blocks bpc mask buf n off
    unfolding parse_chunks_loop mapped_blocks parse_chunk
    parse_chunks_loop-blocks zero off acc s = sym (append-nil (blocks_of (reverse acc)))
    parse_chunks_loop-blocks (suc n) off acc s =
        let d = bit_and (field (off + 2) 2 buf) mask in
        let phys = field off 2 buf * 2 ^ 32 + field (off + 4) 4 buf in
        elim (Bool-cases (field (off + 4) 4 buf == null_addr)) [
          | inl e ↦ rw (e, parse_chunk) (parse_chunks_loop-blocks n (off + 8) acc s)
          | inr e ↦
              rw (e, parse_chunk)
                (parse_chunks_loop-blocks n (off + 8) (merge_chunk bpc d phys acc)
                    (merge_chunk-IsShort d phys acc (phys-lt off) s)
                  ∙ rw (merge_chunk-blocks d phys acc s, append_assoc))
        ]

-- Over an area of bytes that is long enough for the indexes of a file that is not empty, the
-- chunks that parseChunks returns list exactly the blocks that the indexes other than holes map,
-- in order, however it merges them, if an index covers fewer than 65536 blocks and the chunk's
-- bits fit a uint8 and the size a uint64.
pub blocks_of-parse_chunks :
    (buf : Bytes) (chunk_fmt size blk_bits mask : ℕ)
    → All IsByte buf
    → blk_bits + chunk_fmt % 32 < 2 ^ 8
    → 2 ^ (chunk_fmt % 32) < 2 ^ 16
    → 0 < size
    → size < 2 ^ 64
    → ((size - 1) / 2 ^ (blk_bits + chunk_fmt % 32) + 1) * 8 ≤ length buf
    → blocks_of (parse_chunks buf chunk_fmt size blk_bits mask)
      ≡ mapped_blocks
          (2 ^ (chunk_fmt % 32))
          mask
          buf
          ((size - 1) / 2 ^ (blk_bits + chunk_fmt % 32) + 1)
          0
unfolding parse_chunks blocks_of
blocks_of-parse_chunks buf chunk_fmt size blk_bits mask bytes small few pos lt room =
    let bits = blk_bits + chunk_fmt % 32 in
    let wrap : bits % 2 ^ 8 ≡ bits = omega arith in
    let less : bits - blk_bits ≡ chunk_fmt % 32 = omega arith in
    let one : (size + 2 ^ 64 - 1) % 2 ^ 64 ≡ size - 1 = omega arith in
    rw (wrap, less, one, le→ltb (((size - 1) / 2 ^ bits + 1) * 8) (length buf) room)
      (parse_chunks_loop-blocks (2 ^ (chunk_fmt % 32)) few mask buf bytes
        ((size - 1) / 2 ^ bits + 1) 0 [] tt)
