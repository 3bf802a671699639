-- ===== src/Image/Dirents.antt =====
-- Directory data: direntNames and direntDataSize of layout.go, writeDirents of writer.go.
pub mod Size
use Prim.Native.Nat.{Ordering}
use go_erofs.Prelude.{
  ℕ, zero, suc, ◌+◌, ◌-◌, ◌*◌, ◌%◌, ◌^◌, ◌==◌, ltb, if◌then◌else◌, List, [], ◌∷◌, ◌++◌, map, length,
  is_empty,
}
use go_erofs.Prelude.Bytes.{Bytes, compare_bytes, put_le, zeros}
use go_erofs.Disk.{size_dirent}
use go_erofs.Mode.{file_type_dir}
use go_erofs.Image.{align_up}

-- direntInfo of writeDirents
pub record DirentInfo : Type 0 where
  pub name : Bytes
  pub nid : ℕ
  pub file_type : ℕ

-- sort.Strings and sort.Slice by name. Names in a directory differ, so any sort gives this list.
module _ {ℓ} {A : Type ℓ} (name : A → Bytes) where
  unfoldable pub insert_by : A → List A → List A
  insert_by x [] = x ∷ []
  insert_by x (y ∷ ys) =
      let later = y ∷ insert_by x ys in
      elim (compare_bytes (name x) (name y)) [ Ordering.gt ↦ later | _ ↦ x ∷ y ∷ ys ]

  unfoldable pub sort_by : List A → List A
  unfolding insert_by
  sort_by [] = []
  sort_by (x ∷ xs) = insert_by x (sort_by xs)

-- What the inner loop over j finds: the entries of one block, the bytes that they use, and the rest.
pub record Packed {ℓ} (A : Type ℓ) : Type ℓ where
  pub taken : List A
  pub used : ℕ
  pub rest : List A

module _ {ℓ} {A : Type ℓ} (name : A → Bytes) (bs : ℕ) where
  -- `count` entries with `name_size` bytes of names are in the block, and use `used` bytes.
  unfoldable pub fit : ℕ → ℕ → ℕ → List A → Packed A
  fit count name_size used [] = record { taken = []; used = used; rest = [] }
  fit count name_size used (x ∷ xs) =
      let total = name_size + length (name x) in
      let needed = (count + 1) * size_dirent + total in
      let more = fit (count + 1) total needed xs in
      if ltb bs needed
      then record { taken = []; used = used; rest = x ∷ xs }
      else record { taken = x ∷ more.taken; used = more.used; rest = more.rest }

  -- One round of the outer loop: an entry that is too large for a block gets one of its own.
  unfoldable pub next_block : A → List A → Packed A
  unfolding fit
  next_block x xs =
      let p = fit 0 0 0 (x ∷ xs) in
      if is_empty p.taken
      then record { taken = x ∷ []; used = size_dirent + length (name x); rest = xs }
      else p

module _ {ℓ} {A : Type ℓ} (bs : ℕ) where
  -- direntDataSize: every block but the last is padded to the block size.
  unfoldable pub padded_used : Packed A → ℕ
  padded_used p =
      if is_empty p.rest then p.used else if p.used % bs == 0 then p.used else align_up bs p.used

  -- writeDirents: the zero bytes behind a block.
  unfoldable pub block_padding : Packed A → Bytes
  block_padding p =
      if is_empty p.rest then [] else if p.used % bs == 0 then [] else zeros (bs - p.used % bs)

-- The outer loop of direntDataSize. Every round takes a name, so `length names` rounds are enough.
unfoldable pub dirent_data_size_loop : ℕ → ℕ → List Bytes → ℕ
dirent_data_size_loop bs fuel [] = 0
dirent_data_size_loop bs zero (x ∷ xs) = 0
dirent_data_size_loop bs (suc fuel) (x ∷ xs) =
    let p = next_block (λ n. n) bs x xs in padded_used bs p + dirent_data_size_loop bs fuel p.rest

-- "." and ".."
abbrev pub dot : Bytes
dot = b'.' ∷ []

abbrev pub dot_dot : Bytes
dot_dot = b'.' ∷ b'.' ∷ []

unfoldable pub dirent_names : List Bytes → List Bytes
unfolding sort_by
dirent_names children = sort_by (λ n. n) (dot ∷ dot_dot ∷ children)

-- direntDataSize over the names of the directory's children.
unfoldable pub dirent_data_size : ℕ → List Bytes → ℕ
unfolding dirent_data_size_loop dirent_names
dirent_data_size bs children =
    if is_empty children
    then 2 * size_dirent + 1 + 2
    else dirent_data_size_loop bs (length (dirent_names children)) (dirent_names children)

-- The dirent headers of one block. `name_off` is a uint16 and wraps.
unfoldable pub dirent_headers : ℕ → List DirentInfo → Bytes
dirent_headers name_off [] = []
dirent_headers name_off (d ∷ ds) =
    (put_le 8 d.nid ++ (put_le 2 name_off ++ (put_le 1 d.file_type ++ (0 ∷ []))))
    ++ dirent_headers ((name_off + length d.name % 2 ^ 16) % 2 ^ 16) ds

unfoldable pub dirent_names_bytes : List DirentInfo → Bytes
dirent_names_bytes [] = []
dirent_names_bytes (d ∷ ds) = d.name ++ dirent_names_bytes ds

unfoldable pub dirent_block : List DirentInfo → Bytes
unfolding dirent_headers dirent_names_bytes
dirent_block ds = dirent_headers (length ds * size_dirent % 2 ^ 16) ds ++ dirent_names_bytes ds

unfoldable pub write_dirents_loop : ℕ → ℕ → List DirentInfo → Bytes
write_dirents_loop bs fuel [] = []
write_dirents_loop bs zero (x ∷ xs) = []
write_dirents_loop bs (suc fuel) (x ∷ xs) =
    let p = next_block (λ d. d.name) bs x xs in
    dirent_block p.taken ++ (block_padding bs p ++ write_dirents_loop bs fuel p.rest)

unfoldable pub all_ents : ℕ → ℕ → List DirentInfo → List DirentInfo
all_ents nid parent_nid children =
    record { name = dot; nid = nid; file_type = file_type_dir }
    ∷ record { name = dot_dot; nid = parent_nid; file_type = file_type_dir }
    ∷ children

-- writeDirents over the directory's nid, its parent's, and its children with their nids.
unfoldable pub write_dirents : ℕ → ℕ → ℕ → List DirentInfo → Bytes
write_dirents bs nid parent_nid children =
    let sorted = sort_by (λ d. d.name) (all_ents nid parent_nid children) in
    write_dirents_loop bs (length sorted) sorted
