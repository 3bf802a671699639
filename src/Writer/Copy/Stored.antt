-- ===== src/Writer/Copy/Stored.antt =====
-- ReadFrom and Close of a File of mkfs.go whose Writer has a data file: what the file holds after them.
use Prim.Native.Nat.{min}
use native.Mathlib.Nat.{div-eq_of_lt}
use go_erofs.Prelude.{
  ℕ, ◌+◌, ◌-◌, ◌/◌, ◌%◌, ◌==◌, ◌≡◌, ◌<◌, ◌≤◌, refl, sym, ◌∙◌, ap, subst, Bool, true, false,
  if◌then◌else◌, Option, some, List, [], ◌∷◌, ◌++◌, length, length-append, take-all, append_assoc,
  append-nil, length-replicate, le→ltb, Bool-cases, inl, inr, arith,
}
use go_erofs.Prelude.Bytes.{Bytes, zeros}
use go_erofs.Writer.{Writer, Reply, failed, done, file_closed, File, entry_at, update_entry}
use go_erofs.Image.Rounding.{add_padding, align_up-mod}
use go_erofs.Writer.BlockSize.{resolve_block_size}
use go_erofs.Writer.Copy.{clear_chunks, set_start, without_file, then_close, store_to, store_data}
use go_erofs.Writer.Index.Live.{entry_at-update, length-update}
use go_erofs.Writer.Files.{
  OsWrite, write_to, write, go_on, read_from, pad_data_file, append_chunks, record_chunks,
  close_data_file, finalize, with_file, close_file, chunk_loop, data_file_chunks,
}

abbrev pub joined : List Bytes → Bytes
joined [] = []
joined (p ∷ ps) = p ++ joined ps

-- The Writer and the File after `d` has been written.
abbrev after_data : Bytes → Bytes → Writer → Writer
after_data held d w = record w { data_file = some (held ++ d); data_off = length held + length d }

abbrev after_file : ℕ → File → File
after_file n f = record f { written = f.written + n }

-- A system that takes all that it is given, as one does that gives no error.
module _ (takes : OsWrite) (all : (held p : Bytes) → length p ≤ takes held p) where
  write_whole :
      (held d p : Bytes) (k : ℕ) (f : File) (w : Writer)
      → f.closed ≡ false
      → write takes p (after_file k f) (after_data held d w)
        ≡ (done (length p), after_file (k + length p) f, after_data held (d ++ p) w)
  unfolding write
  write_whole held d p k f w c =
      let n : min (takes (held ++ d) p) (length p) ≡ length p = omega (arith, all (held ++ d) p) in
      let written : f.written + k + length p ≡ f.written + (k + length p) = omega arith in
      let off : length held + length d + length p ≡ length held + length (d ++ p) =
        omega (arith, length-append d p) in
      ap
        (λ x.
          if x
          then (failed file_closed, after_file k f, after_data held d w)
          else write_to (some (held ++ d)) w.spool takes p (after_file k f) (after_data held d w))
        c
      ∙ rw
          (
            n,
            take-all (length p) p (omega arith),
            le→ltb (length p) (length p) (omega arith),
            append_assoc held d p,
            written,
            off,
          )
          refl

  read_whole :
      (held d : Bytes) (ps : List Bytes) (total k : ℕ) (f : File) (w : Writer)
      → f.closed ≡ false
      → read_from takes total ps (after_file k f) (after_data held d w) ≡ (
        done (total + length (joined ps)),
        after_file (k + length (joined ps)) f,
        after_data held (d ++ joined ps) w,
      )
  unfolding read_from
  read_whole held d [] total k f w c =
      let t : total + 0 ≡ total = omega arith in
      let s : k + 0 ≡ k = omega arith in rw (t, s, append-nil d) refl
  read_whole held d ([] ∷ ps) total k f w c = read_whole held d ps total k f w c
  read_whole held d ((b ∷ p) ∷ ps) total k f w c =
      let q = b ∷ p in
      let t : total + length q + length (joined ps) ≡ total + length (q ++ joined ps) =
        omega (arith, length-append q (joined ps)) in
      let s : k + length q + length (joined ps) ≡ k + length (q ++ joined ps) =
        omega (arith, length-append q (joined ps)) in
      ap (go_on (read_from takes (total + length q) ps)) (write_whole held d q k f w c)
      ∙ read_whole held (d ++ q) ps (total + length q) (k + length q) f w c
      ∙ rw (t, s, append_assoc d q (joined ps)) refl

restored :
    (held : Bytes) (w : Writer)
    → w.data_file ≡ some held
    → w.data_off ≡ length held
    → after_data held [] w ≡ w
restored held w d o =
    let n : length held + 0 ≡ length held = omega arith in
    ap (λ (x : Option Bytes). record w { data_file = x; data_off = length held + 0 })
      (ap some (append-nil held) ∙ sym d)
    ∙ ap (λ x. record w { data_off = x }) (n ∙ sym o)

no_chunks : (bs off : ℕ) → 0 < bs → data_file_chunks bs off 0 ≡ []
unfolding data_file_chunks chunk_loop
no_chunks bs off b =
    let none_needed : (0 + bs - 1) / bs ≡ 0 = div-eq_of_lt (omega arith) in rw none_needed refl

-- The block size that resolveBlockSize leaves.
abbrev pub resolved : Writer → ℕ
resolved w = if w.block_size == 0 then 4096 else w.block_size

resolved_positive : (w : Writer) → 0 < resolved w
resolved_positive w = ground arith

resolve_lem : (w : Writer) → resolve_block_size w ≡ record w { block_size = resolved w }
unfolding resolve_block_size
resolve_lem w = go (w.block_size == 0)
  where
    go :
        (b : Bool)
        → (if b then record w { block_size = 4096 } else w)
          ≡ record w { block_size = if b then 4096 else w.block_size }
    go true = refl
    go false = refl

-- The File that add makes, closed after `n` bytes.
abbrev file_at : ℕ → ℕ → ℕ → File
file_at i off n = record { entry = i; data_start_off = off; written = n; closed = true }

-- The data file has `d` and zeros up to a block behind what it held, and the entry has the chunks for it.
pub record Holds (bs : ℕ) (held d : Bytes) (i : ℕ) (w : Writer) : Type 0 where
  pub padding : ℕ
  pub held_now : w.data_file ≡ some (held ++ (d ++ zeros padding))
  pub off_now : w.data_off ≡ length held + length d + padding
  pub aligned : w.data_off % bs ≡ 0
  pub chunks : (entry_at i w.entries).chunks ≡ data_file_chunks bs (length held) (length d)
  pub size : (entry_at i w.entries).size ≡ length d
  pub closed : (entry_at i w.entries).file_closed ≡ true

module _ (takes : OsWrite) (all : (held p : Bytes) → length p ≤ takes held p) where
  -- The Writer after the padding.
  abbrev padded_writer : Bytes → Bytes → ℕ → Writer → Writer
  padded_writer held d n w = record w {
    data_file = some (held ++ (d ++ zeros n));
    data_off = length held + length d + n;
  }

  pad_whole :
      (held d : Bytes) (bs : ℕ) (w : Writer)
      → 0 < bs
      → w.block_size ≡ bs
      → (n : ℕ) × (pad_data_file takes (after_data held d w) ≡ (done tt, padded_writer held d n w))
        × ((length held + length d + n) % bs ≡ 0)
  unfolding pad_data_file
  pad_whole held d bs w b e =
      let off = length held + length d in
      let k = bs - off % bs in
      elim (Bool-cases (off % bs == 0)) [
        | inl z ↦
            let none_needed : off + 0 ≡ off = omega arith in
            (0, rw (e, z, none_needed, append-nil d) refl, ground arith)
        | inr z ↦
            let pad = length-replicate {A = ℕ} k 0 in
            let n : min (takes (held ++ d) (zeros k)) (length (zeros k)) ≡ length (zeros k) =
              omega (arith, all (held ++ d) (zeros k)) in
            (
              k,
              rw
                  (
                    e,
                    z,
                    n,
                    take-all (length (zeros k)) (zeros k) (omega arith),
                    le→ltb (length (zeros k)) (length (zeros k)) (omega arith),
                    append_assoc held d (zeros k),
                    pad,
                  )
                  refl,
              rw (add_padding bs off b (ground arith)) (align_up-mod bs off b),
            )
      ]

  finalized :
      (i n : ℕ) (w : Writer)
      → i < length w.entries
      → entry_at i (update_entry i (finalize n) w).entries ≡ finalize n (entry_at i w.entries)
  finalized i n w b = entry_at-update (finalize n) i w.entries b

  close_whole :
      (held d : Bytes) (i : ℕ) (w : Writer)
      → i < length w.entries
      → (entry_at i w.entries).chunks ≡ []
      → (entry_at i w.entries).size ≡ length d
      → (entry_at i w.entries).file_closed ≡ true
      → length held % resolved w ≡ 0
      → let (r, v) =
          close_data_file takes (file_at i (length held) (length d)) (after_data held d w) in
        (r ≡ done tt) × Holds (resolved w) held d i v
  unfolding close_data_file
  close_whole held [] i w b c s k a =
      let n : length held + 0 ≡ length held = omega arith in
      let m : length held + 0 + 0 ≡ length held + 0 = omega arith in
      (
        refl,
        record {
          padding = 0;
          held_now = refl;
          off_now = sym m;
          aligned = rw n a;
          chunks = c ∙ sym (no_chunks (resolved w) (length held) (resolved_positive w));
          size = s;
          closed = k;
        },
      )
  close_whole held (x ∷ d) i w b c s k a =
      let bs = resolved w in
      let u = record w { block_size = bs } in
      let p = pad_whole held (x ∷ d) bs u (resolved_positive w) refl in
      let f = file_at i (length held) (length (x ∷ d)) in
      let some_data : (length (x ∷ d) == 0) ≡ false = ground arith in
      let done_with = padded_writer held (x ∷ d) p.0 u in
      let whole : close_data_file takes f (after_data held (x ∷ d) w)
          ≡ record_chunks f (done tt, done_with) =
        ap
          (λ y.
            if y
            then (done tt, after_data held (x ∷ d) w)
            else record_chunks f
                (pad_data_file takes (resolve_block_size (after_data held (x ∷ d) w))))
          some_data
        ∙ ap (λ y. record_chunks f (pad_data_file takes y))
            (resolve_lem (after_data held (x ∷ d) w))
        ∙ ap (record_chunks f) p.1 in
      let now =
        entry_at-update (append_chunks (data_file_chunks bs (length held) (length (x ∷ d)))) i
          w.entries b in
      subst (λ y. (y.0 ≡ done tt) × Holds bs held (x ∷ d) i y.1) (sym whole)
        (
          refl,
          record {
            padding = p.0;
            held_now = refl;
            off_now = refl;
            aligned = p.2;
            chunks =
                ap (λ e. e.chunks) now
                ∙ ap (λ cs. cs ++ data_file_chunks bs (length held) (length (x ∷ d))) c;
            size = ap (λ e. e.size) now ∙ s;
            closed = ap (λ e. e.file_closed) now ∙ k;
          },
        )

plain_reply : (f : File) (r : Reply (Unit {0}) × Writer) → without_file (with_file f r) ≡ r
plain_reply f (failed e, w) = refl
plain_reply f (done u, w) = refl

-- Let a Writer have a data file that ends at a block, and an operating system that takes all that it is
-- given. When add stores the data of a regular file, it returns no error; the data stands behind what
-- the file held, with zeros up to a block; and the entry has the size of the data, is closed for
-- writing, and has the chunks of the blocks that the data takes from there on.
pub store_data-Holds :
    (takes : OsWrite)
    → ((held p : Bytes) → length p ≤ takes held p)
    → (i : ℕ) (pieces : List Bytes) (held : Bytes) (w : Writer) → w.data_file ≡ some held
    → w.data_off ≡ length held
    → length held % resolved w ≡ 0
    → i < length w.entries
    → let (r, v) = store_data takes i pieces w in
      (r ≡ done tt) × Holds (resolved w) held (joined pieces) i v
unfolding store_data close_file
store_data-Holds takes all i pieces held w d o a b =
    let all_data = joined pieces in
    let n = length all_data in
    let off = length held in
    let c = update_entry i clear_chunks w in
    let s = update_entry i (set_start off) c in
    let sum : 0 + (0 + n) ≡ n = omega arith in
    let v = update_entry i (finalize n) s in
    let start : off % resolved v ≡ 0 = a in
    let sized_c = length-update i clear_chunks w.entries in
    let sized_s = length-update i (set_start off) c.entries in
    let at_c = entry_at-update clear_chunks i w.entries b in
    let at_s = entry_at-update (set_start off) i c.entries (omega (arith, sized_c)) in
    let at_v = entry_at-update (finalize n) i s.entries (omega (arith, sized_c, sized_s)) in
    let whole : store_data takes i pieces w
        ≡ close_data_file takes (file_at i off n) (after_data held all_data v) =
      ap (λ x. store_to x takes i pieces c) d
      ∙ ap
          (λ x. then_close takes (
            read_from takes 0 pieces
              (record { entry = i; data_start_off = x; written = 0; closed = false })
              (update_entry i (set_start x) c)))
          o
      ∙ ap
          (λ x. then_close takes (
            read_from takes 0 pieces
              (record { entry = i; data_start_off = off; written = 0; closed = false }) x))
          (sym (restored held s d o))
      ∙ ap (then_close takes) (
          read_whole takes all held [] pieces 0 0
            (record { entry = i; data_start_off = off; written = 0; closed = false }) s refl)
      ∙ ap
          (λ m. without_file (
            with_file (file_at i off m) (
              close_data_file takes (file_at i off m)
                (after_data held all_data (update_entry i (finalize m) s)))))
          sum
      ∙ plain_reply (file_at i off n)
          (close_data_file takes (file_at i off n) (after_data held all_data v)) in
    subst (λ r. (r.0 ≡ done tt) × Holds (resolved w) held all_data i r.1) (sym whole)
      (close_whole takes all held all_data i v
        (omega (arith, sized_c, sized_s, length-update i (finalize n) s.entries))
        (ap (λ e. e.chunks) (at_v ∙ ap (finalize n) (at_s ∙ ap (set_start off) at_c)))
        (ap (λ e. e.size) at_v) (ap (λ e. e.file_closed) at_v) start)
