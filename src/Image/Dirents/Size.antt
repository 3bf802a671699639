-- ===== src/Image/Dirents/Size.antt =====
-- direntDataSize of layout.go against writeDirents of writer.go: they pack the same blocks.
use Prim.Native.Nat.{Ordering}
use go_erofs.Prelude.{
  ℕ, zero, suc, ◌+◌, ◌-◌, ◌*◌, ◌%◌, ◌^◌, ◌≤◌, ◌<◌, ◌==◌, ltb, if◌then◌else◌, ◌≡◌, refl, ap, ◌∙◌,
  inl, inr, Bool-cases, List, [], ◌∷◌, map, length, is_empty, length-append, length-replicate,
  arith,
}
use go_erofs.Prelude.Bytes.{Bytes, compare_bytes, zeros}
use go_erofs.Disk.{size_dirent}
use go_erofs.Image.{align_up}
use go_erofs.Image.Rounding.{add_padding}
use go_erofs.Image.Dirents.{
  padded_used, block_padding, DirentInfo, insert_by, sort_by, Packed, fit, next_block,
  dirent_data_size_loop, dirent_data_size, dirent_names, dirent_headers, dirent_names_bytes,
  dirent_block, write_dirents_loop, write_dirents, all_ents, dot, dot_dot,
}

abbrev name_of : DirentInfo → Bytes
name_of d = d.name

pub length-dirent_headers :
    (off : ℕ) (ds : List DirentInfo) → length (dirent_headers off ds) ≡ length ds * size_dirent
unfolding dirent_headers
length-dirent_headers off [] = refl
length-dirent_headers off (d ∷ ds) =
    omega (arith, length-dirent_headers ((off + length d.name % 2 ^ 16) % 2 ^ 16) ds)

-- What the headers and the names of some entries take.
pub length-dirent_block :
    (ds : List DirentInfo)
    → length (dirent_block ds) ≡ length ds * size_dirent + length (dirent_names_bytes ds)
unfolding dirent_block
length-dirent_block ds = rw (length-append, length-dirent_headers)

map_packed {ℓ κ} : {A : Type ℓ} {B : Type κ} → (A → B) → Packed A → Packed B
map_packed f p = record { taken = map f p.taken; used = p.used; rest = map f p.rest }

module _ (bs : ℕ) where
  fit_names :
      (c n u : ℕ) (xs : List DirentInfo)
      → fit (λ x. x) bs c n u (map name_of xs) ≡ map_packed name_of (fit name_of bs c n u xs)
  unfolding fit map_packed
  fit_names c n u [] = refl
  fit_names c n u (x ∷ xs) =
      let total = n + length x.name in
      let needed = (c + 1) * size_dirent + total in
      elim (Bool-cases (ltb bs needed)) [
        | inl e ↦ rw e
        | inr e ↦ rw e (rw (fit_names (c + 1) total needed xs) refl)
      ]

  fit_used :
      (c n u : ℕ) (xs : List DirentInfo)
      → u ≡ c * size_dirent + n
      → (fit name_of bs c n u xs).used
        ≡ (c + length (fit name_of bs c n u xs).taken) * size_dirent
          + n
          + length (dirent_names_bytes (fit name_of bs c n u xs).taken)
  unfolding fit dirent_names_bytes
  fit_used c n u [] h = omega arith
  fit_used c n u (x ∷ xs) h =
      let total = n + length x.name in
      let needed = (c + 1) * size_dirent + total in
      elim (Bool-cases (ltb bs needed)) [
        | inl e ↦ rw e (omega arith)
        | inr e ↦ rw (e, length-append) (omega (arith, fit_used (c + 1) total needed xs refl))
      ]

  next_block_names :
      (x : DirentInfo) (xs : List DirentInfo)
      → next_block (λ n. n) bs x.name (map name_of xs)
        ≡ map_packed name_of (next_block name_of bs x xs)
  unfolding next_block map_packed
  next_block_names x xs = rw (fit_names 0 0 0 (x ∷ xs)) (
      by_taken (fit name_of bs 0 0 0 (x ∷ xs)).taken (fit name_of bs 0 0 0 (x ∷ xs)).used
        (fit name_of bs 0 0 0 (x ∷ xs)).rest)
    where
      by_taken :
          (taken : List DirentInfo) (used : ℕ) (rest : List DirentInfo)
          → ◌≡◌ {A = Packed Bytes}
              (if is_empty (map name_of taken)
                then record {
                  taken = x.name ∷ [];
                  used = size_dirent + length x.name;
                  rest = map name_of xs;
                }
                else record { taken = map name_of taken; used = used; rest = map name_of rest })
              (map_packed name_of (
                if is_empty taken
                then record { taken = x ∷ []; used = size_dirent + length x.name; rest = xs }
                else record { taken = taken; used = used; rest = rest }))
      by_taken [] u r = refl
      by_taken (t ∷ ts) u r = refl

  pub next_block_used :
      (x : DirentInfo) (xs : List DirentInfo)
      → (next_block name_of bs x xs).used ≡ length (dirent_block (next_block name_of bs x xs).taken)
  unfolding next_block dirent_names_bytes
  next_block_used x xs =
      let p = fit name_of bs 0 0 0 (x ∷ xs) in
      elim (Bool-cases (is_empty p.taken)) [
        | inl e ↦ rw (e, length-dirent_block, length-append) (omega arith)
        | inr e ↦ rw (e, length-dirent_block) (omega (arith, fit_used 0 0 0 (x ∷ xs) refl))
      ]

  padded_used-length :
      (p : Packed DirentInfo)
      → 0 < bs
      → p.used + length (block_padding bs p) ≡ padded_used bs (map_packed name_of p)
  unfolding block_padding padded_used map_packed
  padded_used-length p h = by_rest p.rest p.used
    where
      by_rest :
          (r : List DirentInfo) (u : ℕ)
          → u + length (if is_empty r then [] else if u % bs == 0 then [] else zeros (bs - u % bs))
            ≡ (if is_empty (map name_of r) then u else if u % bs == 0 then u else align_up bs u)
      by_rest [] u = omega arith
      by_rest (x ∷ r) u = elim (Bool-cases (u % bs == 0)) [
        | inl e ↦ rw e (omega arith)
        | inr e ↦ rw (e, length-replicate) (add_padding bs u h (ground arith))
      ]

  length-write_dirents_loop :
      (fuel : ℕ) (xs : List DirentInfo)
      → 0 < bs
      → length (write_dirents_loop bs fuel xs) ≡ dirent_data_size_loop bs fuel (map name_of xs)
  unfolding write_dirents_loop dirent_data_size_loop map_packed
  length-write_dirents_loop fuel [] h = refl
  length-write_dirents_loop zero (x ∷ xs) h = refl
  length-write_dirents_loop (suc fuel) (x ∷ xs) h =
      let p = next_block name_of bs x xs in
      rw (next_block_names x xs, length-append, length-append)
        (omega (
          arith,
          length-write_dirents_loop fuel p.rest h,
          padded_used-length p h,
          next_block_used x xs,
        ))

insert_by-map :
    (x : DirentInfo) (xs : List DirentInfo)
    → map name_of (insert_by name_of x xs) ≡ insert_by (λ n. n) x.name (map name_of xs)
unfolding insert_by
insert_by-map x [] = refl
insert_by-map x (y ∷ ys) = by_order (compare_bytes x.name y.name) (insert_by-map x ys)
  where
    by_order :
        (o : Ordering)
        → map name_of (insert_by name_of x ys) ≡ insert_by (λ n. n) x.name (map name_of ys)
        → map name_of (elim o [ Ordering.gt ↦ y ∷ insert_by name_of x ys | _ ↦ x ∷ y ∷ ys ])
          ≡ elim o [
            | Ordering.gt ↦ y.name ∷ insert_by (λ n. n) x.name (map name_of ys)
            | _ ↦ x.name ∷ y.name ∷ map name_of ys
          ]
    by_order Ordering.lt e = refl
    by_order Ordering.eq e = refl
    by_order Ordering.gt e = ap (λ l. y.name ∷ l) e

sort_by-map :
    (xs : List DirentInfo) → map name_of (sort_by name_of xs) ≡ sort_by (λ n. n) (map name_of xs)
unfolding sort_by
sort_by-map [] = refl
sort_by-map (x ∷ xs) = rw (insert_by-map x (sort_by name_of xs), sort_by-map xs)

length-map : (xs : List DirentInfo) → length (map name_of xs) ≡ length xs
length-map [] = refl
length-map (x ∷ xs) = ap suc (length-map xs)

empty_dir : (bs : ℕ) → 27 ≤ bs → dirent_data_size_loop bs 2 (dot ∷ dot_dot ∷ []) ≡ 27
unfolding dirent_data_size_loop padded_used next_block
empty_dir bs h = ground arith

-- The packing loop over sorted entries, against the one over their sorted names.
sorted_loops :
    (bs : ℕ) (l : List DirentInfo)
    → 0 < bs
    → length (write_dirents_loop bs (length (sort_by name_of l)) (sort_by name_of l))
      ≡ dirent_data_size_loop bs
          (length (sort_by (λ n. n) (map name_of l)))
          (sort_by (λ n. n) (map name_of l))
sorted_loops bs l h =
    length-write_dirents_loop bs (length (sort_by name_of l)) (sort_by name_of l) h
    ∙ rw (← sort_by-map l, length-map)

-- The bytes that writeDirents writes for a directory are as many as direntDataSize says, for every
-- block size of at least 27 bytes.
pub length-write_dirents :
    (bs nid parent_nid : ℕ) (children : List DirentInfo)
    → 27 ≤ bs
    → length (write_dirents bs nid parent_nid children)
      ≡ dirent_data_size bs (map (λ c. c.name) children)
unfolding write_dirents all_ents dirent_data_size dirent_names
length-write_dirents bs nid parent_nid [] h =
    sorted_loops bs (all_ents nid parent_nid []) (omega arith)
    ∙ (unfold sort_by compare_bytes in empty_dir bs h)
length-write_dirents bs nid parent_nid (c ∷ cs) h =
    sorted_loops bs (all_ents nid parent_nid (c ∷ cs)) (omega arith)
