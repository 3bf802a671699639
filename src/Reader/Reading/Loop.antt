-- ===== src/Reader/Reading/Loop.antt =====
-- Read of erofs.go over an inode that serves its data.
use go_erofs.Prelude.{
  ℕ, zero, suc, ◌+◌, ◌-◌, ◌==◌, ◌≡◌, ◌<◌, ◌≤◌, refl, sym, ap, ◌∙◌, subst, ltb, leb, if◌then◌else◌,
  append-nil, take-all, true, false, le→ltb, lt→ltb, none, some, [], ◌++◌, length, take, drop,
  drop-add, length-append, ◌∷◌, length-take, length-drop, Bool-cases, inl, inr, arith,
}
use go_erofs.Prelude.Bytes.{Bytes, slice}
use go_erofs.Reader.{Image, Inode, ok, err, eof, invalid}
use go_erofs.Reader.Info.{read_info}
use go_erofs.Reader.Reading.{Progress, extend, read_loop, read_at, max_symlink_size, read_link}
use go_erofs.Reader.Reading.Serves.{Serves}

-- What Read should leave: the data from the offset on, as much as is asked for and there; io.EOF if that
-- is less than was asked for; and the offset behind it.
abbrev pub expected : Bytes → ℕ → ℕ → Progress
expected d off left = record {
  bytes = take left (drop off d);
  error = if ltb (length d - off) left then some eof else none;
  offset = off + length (take left (drop off d));
}

-- A piece that is taken from a list, and the rest of what is asked for.
take-pieces :
    (n m : ℕ) (l : Bytes)
    → take n (take m l)
        ++ take (n - length (take n (take m l))) (drop (length (take n (take m l))) l)
      ≡ take n l
take-pieces zero m l = refl
take-pieces (suc n) zero l = let e : suc n - 0 ≡ suc n = omega arith in rw e
take-pieces (suc n) (suc m) [] = let e : suc n - 0 ≡ suc n = omega arith in rw e
take-pieces (suc n) (suc m) (x ∷ l) =
    let k = length (take n (take m l)) in
    let e : suc n - suc k ≡ n - k = omega arith in rw e (ap (λ r. x ∷ r) (take-pieces n m l))

ltb-minus : (a b n : ℕ) → n ≤ a → n ≤ b → ltb (a - n) (b - n) ≡ ltb a b
ltb-minus a b n ha hb = ground arith

-- A round's bytes, followed by what is expected behind them.
extend-expected :
    (d : Bytes) (off left m n : ℕ)
    → length (take left (take m (drop off d))) ≡ n
    → extend (take left (take m (drop off d))) (expected d (off + n) (left - n))
      ≡ expected d off left
extend-expected d off left m n h =
    let l = drop off d in
    let some_of = length-take left (take m l) in
    let there = length-take m l in
    let least : n ≤ left = omega (arith, some_of, h) in
    let room : n ≤ length d - off = omega (arith, some_of, there, h, length-drop off d) in
    let bytes : take left (take m l) ++ take (left - n) (drop (off + n) d) ≡ take left l =
      ap (λ r. take left (take m l) ++ take (left - n) r) (drop-add off n d)
      ∙ subst (λ k. take left (take m l) ++ take (left - k) (drop k l) ≡ take left l) h
          (take-pieces left m l) in
    let rest : length d - (off + n) ≡ length d - off - n = omega arith in
    let error : ltb (length d - (off + n)) (left - n) ≡ ltb (length d - off) left =
      rw rest (ltb-minus (length d - off) left n room least) in
    let offset : off + n + length (take (left - n) (drop (off + n) d))
        ≡ off + length (take left l) =
      omega (
        arith,
        ap length bytes,
        length-append (take left (take m l)) (take (left - n) (drop (off + n) d)),
        h,
      ) in
    rw (bytes, error, offset) refl

expected-none :
    (d : Bytes) (off : ℕ) → record { bytes = []; error = none; offset = off } ≡ expected d off 0
expected-none d off =
    let there : ltb (length d - off) 0 ≡ false = le→ltb 0 (length d - off) (omega arith) in
    let same : off + 0 ≡ off = omega arith in rw (there, same) refl

no_bytes : (l : Bytes) → length l ≡ 0 → l ≡ []
no_bytes [] h = refl
no_bytes (x ∷ l) h = absurd (omega arith)

expected-past :
    (d : Bytes) (off left : ℕ)
    → length d ≤ off
    → 0 < left
    → record { bytes = []; error = some eof; offset = off } ≡ expected d off left
expected-past d off left h k =
    let short : ltb (length d - off) left ≡ true = lt→ltb (length d - off) left (omega arith) in
    let nothing : take left (drop off d) ≡ [] =
      no_bytes (take left (drop off d))
        (omega (arith, length-take left (drop off d), length-drop off d)) in
    let same : off + 0 ≡ off = omega arith in rw (short, nothing, same) refl

-- Read, when it may go on for as many rounds as there are bytes asked for.
read_loop-expected :
    (img : Image) (fi : Inode) (d : Bytes)
    → Serves img fi d
    → (fuel off left copied : ℕ) → left ≤ fuel
    → read_loop fuel img fi off left copied ≡ expected d off left
unfolding read_loop
read_loop-expected img fi d s zero off left copied h =
    let none_left : left ≡ 0 = omega arith in rw none_left (expected-none d off)
read_loop-expected img fi d s (suc fuel) off left copied h = elim (Bool-cases (left == 0)) [
  | inl done ↦ let none_left : left ≡ 0 = ground arith in rw none_left (expected-none d off)
  | inr more ↦ elim (Bool-cases (leb fi.size off)) [
    | inl past ↦
        let behind : fi.size ≤ off = ground arith in
        let asked : 0 < left = ground arith in
        rw (more, past) (expected-past d off left (omega (arith, s.size)) asked)
    | inr inside ↦
        let before : off < fi.size = ground arith in
        let asked : 0 < left = ground arith in
        let b = s.load off (omega (arith, s.size)) in
        let got = take left (slice off b.end d) in
        let piece = length-take left (slice off b.end d) in
        let part = length-take (b.end - off) (drop off d) in
        let n = length got in
        let progress : 0 < n = omega (arith, piece, part, length-drop off d, b.after, b.within) in
        let next =
          read_loop-expected img fi d s fuel (off + n) (left - n) (copied + n) (omega arith) in
        rw (more, inside, b.loads, next) (extend-expected d off left (b.end - off) n refl)
  ]
]

-- From an inode whose loadBlock gives the data `d`, Read of `n` bytes at an offset returns, after at
-- most `n` blocks, the bytes of `d` from the offset on, as many as were asked for and are there. It
-- returns io.EOF exactly if those are fewer than `n`, and no other error. It moves the offset behind
-- the bytes that it returns.
pub read_at-Serves :
    (img : Image) (fi : Inode) (d : Bytes)
    → Serves img fi d
    → (off n : ℕ) → read_at img fi off n ≡ expected d off n
unfolding read_at
read_at-Serves img fi d s off n = read_loop-expected img fi d s n off n 0 (omega arith)

-- readLink of an inode that is read without an error and whose loadBlock gives the data `d` returns all
-- of `d` if that has at most 4096 bytes, and fails if it has more.
pub read_link-Serves :
    (img : Image) (nid : ℕ) (fi : Inode) (d : Bytes)
    → read_info img nid ≡ ok fi
    → Serves img fi d
    → read_link img nid ≡ (if ltb max_symlink_size (length d) then err invalid else ok d)
unfolding read_link
read_link-Serves img nid fi d h s =
    let all : take (length d) d ≡ d = take-all (length d) d (omega arith) in
    let no_zeros : length d - length d ≡ 0 = omega arith in
    let enough : ltb (length d - 0) (length d) ≡ false =
      le→ltb (length d) (length d - 0) (omega arith) in
    rw (h, read_at-Serves img fi d s 0 fi.size, sym s.size, enough, all, no_zeros, append-nil d)
      refl
