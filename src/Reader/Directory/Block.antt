-- ===== src/Reader/Directory/Block.antt =====
-- blockDirent of erofs.go on a block that writeDirents of writer.go wrote.
use go_erofs.Prelude.{
  ℕ, zero, suc, ◌+◌, ◌*◌, ◌%◌, ◌^◌, ◌<◌, ◌≡◌, ◌≢◌, refl, sym, List, [], ◌∷◌, ◌++◌, length,
  length-append, length-replicate, append_assoc, All, arith,
}
use go_erofs.Prelude.Bytes.{Bytes, zeros, until_nul, put_le}
use go_erofs.Disk.{Dirent}
use go_erofs.Disk.Codec.{decode_dirent}
use go_erofs.Image.Dirents.{DirentInfo, dirent_headers, dirent_names_bytes, dirent_block}
use go_erofs.Image.Dirents.Size.{length-dirent_block}

-- What a dirent can hold: the number and the type fit, and the name has no zero byte.
pub record IsEntry (d : DirentInfo) : Type 0 where
  pub nid : d.nid < 2 ^ 64
  pub file_type : d.file_type < 2 ^ 8
  pub name : All (λ (b : ℕ). b ≢ 0) d.name

unfoldable pub header_of : ℕ → DirentInfo → Bytes
header_of off d = put_le 8 d.nid ++ (put_le 2 off ++ (put_le 1 d.file_type ++ (0 ∷ [])))

abbrev pub dirent_of : ℕ → DirentInfo → Dirent
dirent_of off d = record { nid = d.nid; name_off = off; file_type = d.file_type }

pub decode_dirent-header_of :
    (off : ℕ) (d : DirentInfo)
    → off < 2 ^ 16
    → IsEntry d
    → decode_dirent (header_of off d) ≡ dirent_of off d
unfolding decode_dirent header_of
decode_dirent-header_of off d h e = ground (arith, e.nid, e.file_type)

pub length-header_of : (off : ℕ) (d : DirentInfo) → length (header_of off d) ≡ 12
unfolding header_of
length-header_of off d = refl

pub dirent_headers_cons :
    (off : ℕ) (d : DirentInfo) (ds : List DirentInfo)
    → off + length d.name < 2 ^ 16
    → dirent_headers off (d ∷ ds) ≡ header_of off d ++ dirent_headers (off + length d.name) ds
unfolding dirent_headers header_of
dirent_headers_cons off d ds h =
    let e : (off + length d.name % 2 ^ 16) % 2 ^ 16 ≡ off + length d.name = omega arith in rw e

names_append :
    (xs ys : List DirentInfo)
    → dirent_names_bytes (xs ++ ys) ≡ dirent_names_bytes xs ++ dirent_names_bytes ys
unfolding dirent_names_bytes
names_append [] ys = refl
names_append (x ∷ xs) ys =
    rw (names_append xs ys)
      (sym (append_assoc x.name (dirent_names_bytes xs) (dirent_names_bytes ys)))

-- Without a wrap-around, each header holds the offset of its name.
headers_append :
    (off : ℕ) (xs ys : List DirentInfo)
    → off + length (dirent_names_bytes xs) < 2 ^ 16
    → dirent_headers off (xs ++ ys)
      ≡ dirent_headers off xs ++ dirent_headers (off + length (dirent_names_bytes xs)) ys
unfolding dirent_headers dirent_names_bytes
headers_append off [] ys h = let e : off + 0 ≡ off = omega arith in rw e
headers_append off (x ∷ xs) ys h =
    let l = length-append x.name (dirent_names_bytes xs) in
    let next : (off + length x.name % 2 ^ 16) % 2 ^ 16 ≡ off + length x.name = omega (arith, l) in
    let same : off + length (x.name ++ dirent_names_bytes xs)
        ≡ off + length x.name + length (dirent_names_bytes xs) =
      omega (arith, l) in
    rw (next, same, headers_append (off + length x.name) xs ys (omega (arith, l)))

pub until_nul-zeros :
    (name : Bytes) (k : ℕ) → All (λ (b : ℕ). b ≢ 0) name → until_nul (name ++ zeros k) ≡ name
until_nul-zeros [] zero h = refl
until_nul-zeros [] (suc k) h = refl
until_nul-zeros (b ∷ name) k (p, h) = ground (arith, until_nul-zeros name k h)

-- A block with entries and the zero bytes that pad it.
abbrev pub padded_block : List DirentInfo → ℕ → Bytes
padded_block ds k = dirent_block ds ++ zeros k

module _ (xs ys : List DirentInfo) (d : DirentInfo) (k : ℕ) where
  abbrev pub all : List DirentInfo
  all = xs ++ (d ∷ ys)

  -- Where the names begin, and where that of `d` does.
  abbrev pub base : ℕ
  base = length all * 12

  abbrev pub name_at : ℕ
  name_at = base + length (dirent_names_bytes xs)

  module _ (small : length (padded_block all k) < 2 ^ 16) where
    pub sizes :
        (length all ≡ length xs + suc (length ys))
        × (length (dirent_names_bytes all)
            ≡ length (dirent_names_bytes xs) + (length d.name + length (dirent_names_bytes ys)))
        × (base + length (dirent_names_bytes all) + k < 2 ^ 16)
        × (length (padded_block all k) ≡ base + length (dirent_names_bytes all) + k)
    unfolding dirent_names_bytes
    sizes =
        let l = length-append xs (d ∷ ys) in
        let n = names_append xs (d ∷ ys) in
        let whole = length-append (dirent_block all) (zeros k) in
        let z = length-replicate {A = ℕ} k 0 in
        let b = length-dirent_block all in
        (
          omega (arith, l),
          rw n (
              omega (
                arith,
                length-append (dirent_names_bytes xs) (d.name ++ dirent_names_bytes ys),
                length-append d.name (dirent_names_bytes ys),
              )),
          omega (arith, whole, z, b),
          omega (arith, whole, z, b),
        )

    unfoldable pub tail_bytes : Bytes
    tail_bytes =
        dirent_headers (name_at + length d.name) ys
        ++ (dirent_names_bytes xs ++ (d.name ++ (dirent_names_bytes ys ++ zeros k)))

    pub block_split :
        padded_block all k ≡ dirent_headers base xs ++ (header_of name_at d ++ tail_bytes)
    unfolding dirent_block tail_bytes
    block_split =
        let (l, n, s, w) = sizes in
        let wrap : base % 2 ^ 16 ≡ base = omega arith in
        rw
          (
            wrap,
            headers_append base xs (d ∷ ys) (omega arith),
            dirent_headers_cons name_at d ys (omega arith),
            names_append xs (d ∷ ys),
          )
          (unfold dirent_names_bytes in simp append_assoc)
