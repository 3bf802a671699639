-- ===== src/Image/Data/Addresses.antt =====
-- Where assignDataBlocks of writer.go puts the data that writeDataBlocks writes.
use native.Mathlib.Nat.{add-mul}
use go_erofs.Prelude.{
  ℕ, ◌+◌, ◌*◌, ◌%◌, ◌^◌, ◌≤◌, ◌<◌, ◌==◌, ◌≡◌, refl, sym, subst, ◌∙◌, ltb, false, Option, none, some,
  List, [], ◌∷◌, ◌++◌, length, length-append, append_assoc, append-nil, arith, Bool-cases, inl, inr,
  All, ◌⊎◌, lt→ltb,
}
use go_erofs.Prelude.Bytes.{Bytes}
use go_erofs.Image.{ErofsEntry, ErofsWriter}
use go_erofs.Image.Metadata.{◌>>=◌}
use go_erofs.Image.Data.{
  flat_plain_data_size, blocks_for, assign_blocks_loop, data_bytes, data_padding, write_data_loop,
  data_blocks,
}
use go_erofs.Image.Data.Contents.{
  Delivers, writing, data_of, length-data_of, data_bytes-some, length-data_padding,
}

-- The entry has no data of its own, or its data stands at its block address.
abbrev pub HasData : ErofsWriter → Bytes → ErofsEntry → Type 0
HasData w out e =
    (flat_plain_data_size w e ≡ 0)
    ⊎ ((pre : Bytes) × (d : Bytes) × (post : Bytes) × (data_bytes w e ≡ some d)
        × (length d ≡ flat_plain_data_size w e)
        × (out ≡ pre ++ (d ++ post))
        × (length pre ≡ e.data_blk_addr * w.block_size))

module _ (w : ErofsWriter) (all : List ErofsEntry) (meta : ℕ) (big : 27 ≤ w.block_size) where
  abbrev out_writer : ErofsWriter
  out_writer = writing w all meta big

  same_size :
      (e : ErofsEntry) (a : ℕ)
      → flat_plain_data_size out_writer (record e { data_blk_addr = a }) ≡ flat_plain_data_size w e
  unfolding flat_plain_data_size
  same_size e a = refl

  same_flat : (e : ErofsEntry) → flat_plain_data_size out_writer e ≡ flat_plain_data_size w e
  unfolding flat_plain_data_size
  same_flat e = refl

  same_bytes :
      (e : ErofsEntry) (a : ℕ)
      → data_bytes out_writer (record e { data_blk_addr = a }) ≡ data_bytes out_writer e
  unfolding data_bytes flat_plain_data_size
  same_bytes e a = refl

  -- What the loop writes behind `pre` for the entries `es`.
  abbrev AreWritten : Bytes → List ErofsEntry → ℕ → Option Bytes → Type 0
  AreWritten pre es end none = ⊥
  AreWritten pre es end (some out) =
      All (HasData out_writer (pre ++ out)) es × (length (pre ++ out) ≡ end * w.block_size)

  module _ (pre d pad : Bytes) (e : ErofsEntry) (a : ℕ) (written : data_bytes out_writer e ≡ some d)
      (size : length d ≡ flat_plain_data_size w e) (at : length pre ≡ a * w.block_size) where
    joined : (out : Bytes) → (pre ++ (d ++ pad)) ++ out ≡ pre ++ (d ++ (pad ++ out))
    joined out = simp append_assoc

    extend :
        (es : List ErofsEntry) (end : ℕ) (later : Option Bytes)
        → AreWritten (pre ++ (d ++ pad)) es end later
        → AreWritten pre
            (record e { data_blk_addr = a } ∷ es)
            end
            (later >>= λ rest. some (d ++ (pad ++ rest)))
    extend es end none h = h
    extend es end (some out) (h, l) = (
      (
        inr (pre, d, pad ++ out, same_bytes e a ∙ written, size ∙ sym (same_size e a), refl, at),
        subst (λ b. All (HasData out_writer b) es) (joined out) h,
      ),
      rw (← joined out) l,
    )

  skip :
      (pre : Bytes) (e : ErofsEntry) (es : List ErofsEntry) (end : ℕ) (later : Option Bytes)
      → flat_plain_data_size out_writer e ≡ 0
      → AreWritten pre es end later
      → AreWritten pre (e ∷ es) end later
  skip pre e es end none z h = h
  skip pre e es end (some out) z (h, l) = ((inl z, h), l)

  module _ (e : ErofsEntry) (es : List ErofsEntry) (addr : ℕ) where
    abbrev size : ℕ
    size = flat_plain_data_size w e

    abbrev next : ℕ
    next = addr + blocks_for w.block_size size

    assigned_some :
        0 < size
        → next < 2 ^ 32
        → assign_blocks_loop w addr (e ∷ es) ≡ (
          record e { data_blk_addr = addr } ∷ (assign_blocks_loop w next es).0,
          (assign_blocks_loop w next es).1,
        )
    unfolding assign_blocks_loop
    assigned_some pos few =
        let wrap : (addr + blocks_for w.block_size size % 2 ^ 32) % 2 ^ 32 ≡ next = omega arith in
        rw (lt→ltb 0 size pos, wrap)

    assigned_none :
        size ≡ 0
        → assign_blocks_loop w addr (e ∷ es)
          ≡ (e ∷ (assign_blocks_loop w addr es).0, (assign_blocks_loop w addr es).1)
    unfolding assign_blocks_loop
    assigned_none z = rw z

    written_some :
        (ws : List ErofsEntry) (d : Bytes)
        → 0 < size
        → data_bytes out_writer e ≡ some d
        → write_data_loop out_writer (record e { data_blk_addr = addr } ∷ ws) ≡ (
            write_data_loop out_writer ws >>= λ rest.
            some (d ++ (data_padding out_writer (length d) ++ rest)))
    unfolding write_data_loop
    written_some ws d pos b =
        let nonzero : (flat_plain_data_size w e == 0) ≡ false = ground arith in
        rw (same_size e addr, nonzero, same_bytes e addr, b)

    written_none :
        (ws : List ErofsEntry)
        → flat_plain_data_size out_writer e ≡ 0
        → write_data_loop out_writer (e ∷ ws) ≡ write_data_loop out_writer ws
    unfolding write_data_loop
    written_none ws z = rw z

  write_data_loop-AreWritten :
      (es : List ErofsEntry) (pre : Bytes) (addr : ℕ)
      → length pre ≡ addr * w.block_size
      → addr + data_blocks w es < 2 ^ 32
      → All Delivers es
      → AreWritten pre
          (assign_blocks_loop w addr es).0
          (assign_blocks_loop w addr es).1
          (write_data_loop out_writer (assign_blocks_loop w addr es).0)
  write_data_loop-AreWritten [] pre addr at few h =
      unfold assign_blocks_loop write_data_loop in (tt, rw append-nil at)
  write_data_loop-AreWritten (e ∷ es) pre addr at few (h, hs) =
      elim (Bool-cases (ltb 0 (flat_plain_data_size w e))) [
        | inl b ↦
            let pos : 0 < flat_plain_data_size w e = ground arith in
            let d = data_of w all meta big e in
            let size = length-data_of w all meta big e pos h in
            let next = addr + blocks_for w.block_size (flat_plain_data_size w e) in
            let total : data_blocks w (e ∷ es)
                ≡ blocks_for w.block_size (flat_plain_data_size w e) + data_blocks w es =
              unfold data_blocks in rw b refl in
            let pad = data_padding out_writer (length d) in
            let end : length (pre ++ (d ++ pad)) ≡ next * w.block_size =
              length-append pre (d ++ pad)
              ∙ rw (at, length-data_padding w all meta big d, size)
                  (sym (
                    add-mul addr (blocks_for w.block_size (flat_plain_data_size w e))
                      w.block_size)) in
            rw
              (
                assigned_some e es addr pos (omega arith),
                written_some e es addr (assign_blocks_loop w next es).0 d pos
                    (data_bytes-some w all meta big e pos h),
              )
              (extend pre d pad e addr (data_bytes-some w all meta big e pos h) size at
                (assign_blocks_loop w next es).0 (assign_blocks_loop w next es).1
                (write_data_loop out_writer (assign_blocks_loop w next es).0)
                (write_data_loop-AreWritten es (pre ++ (d ++ pad)) next end (omega arith) hs))
        | inr b ↦
            let z : flat_plain_data_size w e ≡ 0 = ground arith in
            let z' : flat_plain_data_size out_writer e ≡ 0 = same_flat e ∙ z in
            let total : data_blocks w (e ∷ es) ≡ data_blocks w es =
              unfold data_blocks in rw b (omega arith) in
            rw
              (
                assigned_none e es addr z,
                written_none e es addr (assign_blocks_loop w addr es).0 z',
              )
              (skip pre e (assign_blocks_loop w addr es).0 (assign_blocks_loop w addr es).1
                (write_data_loop out_writer (assign_blocks_loop w addr es).0) z'
                (write_data_loop-AreWritten es pre addr at (omega arith) hs))
      ]

  -- The data of every entry is written where the loop put it, behind what has been written.
  pub write_data_blocks-HasData :
      (es : List ErofsEntry) (pre : Bytes) (addr : ℕ)
      → length pre ≡ addr * w.block_size
      → addr + data_blocks w es < 2 ^ 32
      → All Delivers es
      → (out : Bytes) × (write_data_loop out_writer (assign_blocks_loop w addr es).0 ≡ some out)
        × All (HasData out_writer (pre ++ out)) (assign_blocks_loop w addr es).0
        × (length (pre ++ out) ≡ (assign_blocks_loop w addr es).1 * w.block_size)
  write_data_blocks-HasData es pre addr at few h =
      by_result (write_data_loop out_writer (assign_blocks_loop w addr es).0)
        (write_data_loop-AreWritten es pre addr at few h)
    where
      by_result :
          (r : Option Bytes)
          → AreWritten pre (assign_blocks_loop w addr es).0 (assign_blocks_loop w addr es).1 r
          → (out : Bytes) × (r ≡ some out)
            × All (HasData out_writer (pre ++ out)) (assign_blocks_loop w addr es).0
            × (length (pre ++ out) ≡ (assign_blocks_loop w addr es).1 * w.block_size)
      by_result none h = elim h [ ]
      by_result (some out) (h, l) = (out, refl, h, l)
