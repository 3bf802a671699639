-- ===== src/Prelude/Bytes.antt =====
-- Bytes and Go strings as lists of numbers, with what encoding/binary's little-endian byte order,
-- bytes.IndexByte, bytes.Compare, strings.HasPrefix and slicing do on them.
use Prim.Native.Nat.{ℕ, zero, suc, ◌+◌, ◌-◌, ◌*◌, ◌/◌, ◌%◌, ◌^◌, ◌<◌, compare, Ordering}
use mathlib.Core.Path.{◌≡◌, refl}
use mathlib.Core.List.{List, [], ◌∷◌}
use native.Mathlib.Omega.{arith}
use go_erofs.Prelude.Tests.{◌==◌, if◌then◌else◌}
use go_erofs.Prelude.Lists.{length, take, drop, replicate}
use native.Mathlib.Nat.{pow-suc}

abbrev pub Bytes : Type 0
Bytes = List ℕ

abbrev pub IsByte : ℕ → Type 0
IsByte b = b < 256

-- PutUint16, PutUint32 and PutUint64 of binary.LittleEndian, for 2, 4 and 8 bytes: the value's
-- lowest `k` bytes, lowest first.
abbrev pub put_le : ℕ → ℕ → Bytes
put_le zero v = []
put_le (suc k) v = (v % 256) ∷ put_le k (v / 256)

-- The number that bytes stand for, lowest first.
abbrev pub get_le : Bytes → ℕ
get_le [] = 0
get_le (b ∷ bs) = b + 256 * get_le bs

-- `k` bytes at `off`: a field of what binary.Decode reads, or Uint16(buf[off:off+2]) and such.
abbrev pub field : ℕ → ℕ → Bytes → ℕ
field off k buf = get_le (take k (drop off buf))

-- buf[lo:hi], for bounds that have been checked.
abbrev pub slice : ℕ → ℕ → Bytes → Bytes
slice lo hi buf = take (hi - lo) (drop lo buf)

-- A buffer of `n` zero bytes.
abbrev pub zeros : ℕ → Bytes
zeros n = replicate n 0

-- name[:i] for the index i of the first zero byte, and all of name if there is none.
abbrev pub until_nul : Bytes → Bytes
until_nul [] = []
until_nul (b ∷ bs) = let rest = until_nul bs in if b == 0 then [] else b ∷ rest

-- bytes.Compare, and the order of Go strings.
unfoldable pub compare_bytes : Bytes → Bytes → Ordering
compare_bytes [] [] = Ordering.eq
compare_bytes [] (b ∷ bs) = Ordering.lt
compare_bytes (a ∷ as') [] = Ordering.gt
compare_bytes (a ∷ as') (b ∷ bs) = elim (compare a b) [
  | Ordering.lt ↦ Ordering.lt
  | Ordering.gt ↦ Ordering.gt
  | Ordering.eq ↦ compare_bytes as' bs
]

pub get_le-put_le : (k v : ℕ) → v < 256 ^ k → get_le (put_le k v) ≡ v
get_le-put_le zero v h = omega arith
get_le-put_le (suc k) v h = omega (arith, get_le-put_le k (v / 256) (div_bound k v h))
  where
    div_bound : (k v : ℕ) → v < 256 ^ suc k → v / 256 < 256 ^ k
    div_bound k v h = omega (arith, pow-suc 256 k)

pub length-put_le : (k v : ℕ) → length (put_le k v) ≡ k
length-put_le zero v = refl
length-put_le (suc k) v = omega (arith, length-put_le k (v / 256))
