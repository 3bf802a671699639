-- ===== src/Prelude/Slices.antt =====
-- Slices and fields of a buffer whose parts are known.
use native.Mathlib.Nat.{pow-suc, one-le-pow}
use go_erofs.Prelude.{
  ℕ, zero, suc, All, ◌+◌, ◌-◌, ◌^◌, ◌≤◌, ◌<◌, ◌≡◌, [], ◌∷◌, ◌++◌, arith, length, take, drop,
  length-drop, length-take, drop-append_exact, take-append_exact, drop-append_within,
  take-append_within, drop-add,
}
use go_erofs.Prelude.Bytes.{
  Bytes, IsByte, slice, field, get_le, put_le, get_le-put_le, length-put_le,
}

-- The part between two others.
pub slice-append :
    (pre mid post : Bytes) (lo hi : ℕ)
    → length pre ≡ lo
    → hi ≡ lo + length mid
    → slice lo hi (pre ++ (mid ++ post)) ≡ mid
slice-append pre mid post lo hi e f =
    rw (drop-append_exact lo pre (mid ++ post) e)
      (take-append_exact (hi - lo) mid post (omega arith))

-- A number that was written behind some bytes is read back from there.
pub field-put_le :
    (k off v : ℕ) (pre post : Bytes)
    → length pre ≡ off
    → v < 256 ^ k
    → field off k (pre ++ (put_le k v ++ post)) ≡ v
field-put_le k off v pre post e h =
    rw
      (
        drop-append_exact off pre (put_le k v ++ post) e,
        take-append_exact k (put_le k v) post (length-put_le k v),
      )
      (get_le-put_le k v h)

-- A field of a buffer's first part, whatever follows.
pub field-append :
    (off k : ℕ) (xs ys : Bytes) → off + k ≤ length xs → field off k (xs ++ ys) ≡ field off k xs
field-append off k xs ys h = rw (
  drop-append_within off xs ys (omega arith),
  take-append_within k (drop off xs) ys (omega (arith, length-drop off xs)),
)

-- A field of what stands behind a first part.
pub field-skip :
    (n off k : ℕ) (xs ys : Bytes) → length xs ≡ n → field (n + off) k (xs ++ ys) ≡ field off k ys
field-skip n off k xs ys h = rw (drop-add n off (xs ++ ys), drop-append_exact n xs ys h)

pub length-slice :
    (lo hi : ℕ) (xs : Bytes) → lo ≤ hi → hi ≤ length xs → length (slice lo hi xs) ≡ hi - lo
length-slice lo hi xs h k = omega (arith, length-take (hi - lo) (drop lo xs), length-drop lo xs)

get_le-take : (k : ℕ) (b : Bytes) → All IsByte b → get_le (take k b) < 256 ^ k
get_le-take zero b h = omega arith
get_le-take (suc k) [] h = one-le-pow (suc k) 256 (omega arith)
get_le-take (suc k) (x ∷ b) (hx, h) = omega (arith, get_le-take k b h, pow-suc 256 k)

All-drop : (n : ℕ) (b : Bytes) → All IsByte b → All IsByte (drop n b)
All-drop zero b h = h
All-drop (suc n) [] h = tt
All-drop (suc n) (x ∷ b) (hx, h) = All-drop n b h

-- A field of bytes has a value of its width.
pub field-lt : (off k : ℕ) (b : Bytes) → All IsByte b → field off k b < 256 ^ k
field-lt off k b h = get_le-take k (drop off b) (All-drop off b h)
