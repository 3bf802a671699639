-- ===== src/Writer/Valid/Data.antt =====
-- The File methods, setBlockSize and add of mkfs.go keep what holds of a Writer between two calls.
use go_erofs.Prelude.{
  ℕ, ◌+◌, ◌%◌, ◌≡◌, ◌-◌, ◌==◌, not, ltb, ◌||◌, refl, true, if◌then◌else◌, Option, none, some, List,
  [], ◌∷◌, length, either_way, inr, arith,
}
use go_erofs.Prelude.Bytes.{Bytes, zeros}
use go_erofs.Writer.{
  Writer, Reply, failed, done, File, update_entry, file_closed, already_closed, block_size_range,
  block_size_power, block_size_conflict,
}
use go_erofs.Writer.Calls.{set_permissions, set_owner}
use go_erofs.Writer.BlockSize.{ones_count, set_block_size, resolve_block_size}
use go_erofs.Writer.BlockSize.Powers.{IsPower, set_block_size-IsPower}
use go_erofs.Writer.Files.{
  OsWrite, Wrote, write_to, write, go_on, read_from, pad_to, pad_data_file, append_chunks,
  record_chunks, close_data_file, finalize, close_to, close_file, file_chmod, file_chown,
  data_file_chunks,
}
use go_erofs.Writer.Valid.{IsValid, update_kind-IsValid, carry-IsValid}
use go_erofs.Writer.Valid.Methods.{quiet, permissions_kind, permissions-IsQuiet}

write_to-IsValid :
    (a b : Option Bytes) (takes : OsWrite) (p : Bytes) (f : File) (w : Writer)
    → IsValid w
    → IsValid (write_to a b takes p f w).2
write_to-IsValid (some held) b takes p f w h =
    carry-IsValid w (write_to (some held) b takes p f w).2 refl refl h.sized h
write_to-IsValid none (some held) takes p f w h =
    carry-IsValid w (write_to none (some held) takes p f w).2 refl refl h.sized h
write_to-IsValid none none takes p f w h = h

pub write-IsValid :
    (takes : OsWrite) (p : Bytes) (f : File) (w : Writer)
    → IsValid w
    → IsValid (write takes p f w).2
unfolding write
write-IsValid takes p f w h =
    either_way (λ (r : Wrote ℕ). IsValid r.2) f.closed (failed file_closed, f, w)
      (write_to w.data_file w.spool takes p f w) h
      (write_to-IsValid w.data_file w.spool takes p f w h)

go_on-IsValid :
    (next : File → Writer → Wrote ℕ)
    → ((f : File) (w : Writer) → IsValid w → IsValid (next f w).2)
    → (r : Wrote ℕ) → IsValid r.2
    → IsValid (go_on next r).2
go_on-IsValid next keeps (failed e, f, w) h = h
go_on-IsValid next keeps (done n, f, w) h = keeps f w h

pub read_from-IsValid :
    (takes : OsWrite) (total : ℕ) (ps : List Bytes) (f : File) (w : Writer)
    → IsValid w
    → IsValid (read_from takes total ps f w).2
unfolding read_from
read_from-IsValid takes total [] f w h = h
read_from-IsValid takes total ([] ∷ ps) f w h = read_from-IsValid takes total ps f w h
read_from-IsValid takes total ((b ∷ p) ∷ ps) f w h =
    go_on-IsValid (read_from takes (total + length (b ∷ p)) ps)
      (λ f' w' h'. read_from-IsValid takes (total + length (b ∷ p)) ps f' w' h')
      (write takes (b ∷ p) f w) (write-IsValid takes (b ∷ p) f w h)

four_thousand : IsPower 4096
four_thousand = record { exponent = 12; power = refl; min = omega arith; max = omega arith }

pub resolve_block_size-IsValid : (w : Writer) → IsValid w → IsValid (resolve_block_size w)
unfolding resolve_block_size
resolve_block_size-IsValid w h =
    either_way IsValid (w.block_size == 0) (record w { block_size = 4096 }) w
      (carry-IsValid w (record w { block_size = 4096 }) refl refl (inr four_thousand) h) h

pad_to-IsValid :
    (o : Option Bytes) (takes : OsWrite) (pad : Bytes) (w : Writer)
    → IsValid w
    → IsValid (pad_to o takes pad w).1
pad_to-IsValid none takes pad w h = h
pad_to-IsValid (some held) takes pad w h =
    carry-IsValid w (pad_to (some held) takes pad w).1 refl refl h.sized h

record_chunks-IsValid :
    (f : File) (r : Reply (Unit {0}) × Writer) → IsValid r.1 → IsValid (record_chunks f r).1
record_chunks-IsValid f (failed e, w) h = h
record_chunks-IsValid f (done u, w) h =
    let add = append_chunks (data_file_chunks w.block_size f.data_start_off f.written) in
    update_kind-IsValid add (quiet add (λ e. (refl, refl, refl))) f.entry w (λ e. refl) h

close_data_file-IsValid :
    (takes : OsWrite) (f : File) (w : Writer) → IsValid w → IsValid (close_data_file takes f w).1
unfolding close_data_file
close_data_file-IsValid takes f w h =
    let v = resolve_block_size w in
    let padding = zeros (v.block_size - v.data_off % v.block_size) in
    let hv = resolve_block_size-IsValid w h in
    either_way (λ (r : Reply (Unit {0}) × Writer). IsValid r.1) (f.written == 0) (done tt, w)
      (record_chunks f (pad_data_file takes v)) h
      (record_chunks-IsValid f (pad_data_file takes v) (
        unfold pad_data_file in
        either_way (λ (r : Reply (Unit {0}) × Writer). IsValid r.1) (v.data_off % v.block_size == 0)
          (done tt, v) (pad_to v.data_file takes padding v) hv
          (pad_to-IsValid v.data_file takes padding v hv)))

close_to-IsValid :
    (o : Option Bytes) (takes : OsWrite) (f : File) (w : Writer)
    → IsValid w
    → IsValid (close_to o takes f w).2
close_to-IsValid (some held) takes f w h = close_data_file-IsValid takes f w h
close_to-IsValid none takes f w h = h

pub close_file-IsValid :
    (takes : OsWrite) (f : File) (w : Writer) → IsValid w → IsValid (close_file takes f w).2
unfolding close_file
close_file-IsValid takes f w h =
    let size = finalize f.written in
    let v = update_entry f.entry size w in
    let g = record f { closed = true } in
    either_way (λ (r : Wrote (Unit {0})). IsValid r.2) f.closed (failed already_closed, f, w)
      (close_to w.data_file takes g v) h
      (close_to-IsValid w.data_file takes g v
        (update_kind-IsValid size (quiet size (λ e. (refl, refl, refl))) f.entry w (λ e. refl) h))

pub set_block_size-IsValid : (n : ℕ) (w : Writer) → IsValid w → IsValid (set_block_size n w).1
unfolding set_block_size
set_block_size-IsValid n w h =
    let kept : Reply (Unit {0}) × Writer → Type 0 =
      λ r. (r.0 ≡ done tt → IsPower n) → IsValid r.1 in
    (either_way kept (ltb n 512 || ltb 65536 n) (failed block_size_range, w)
        (if not (ones_count 64 n == 1) then (failed block_size_power, w) else set_unset) (λ k. h)
        (either_way kept (not (ones_count 64 n == 1)) (failed block_size_power, w) set_unset
          (λ k. h)
          (either_way kept (w.block_size == 0) (done tt, record w { block_size = n })
            (if not (w.block_size == n) then (failed block_size_conflict, w) else (done tt, w))
            (λ k. carry-IsValid w (record w { block_size = n }) refl refl (inr (k refl)) h)
            (either_way kept (not (w.block_size == n)) (failed block_size_conflict, w) (done tt, w)
              (λ k. h) (λ k. h)))))
      (λ e. (set_block_size-IsPower n w e).0)
  where
    set_unset : Reply (Unit {0}) × Writer
    set_unset =
        if w.block_size == 0
        then (done tt, record w { block_size = n })
        else if not (w.block_size == n)
        then (failed block_size_conflict, w)
        else (done tt, w)

pub file_chmod-IsValid :
    (mode : ℕ) (f : File) (w : Writer) → IsValid w → IsValid (file_chmod mode f w)
unfolding file_chmod
file_chmod-IsValid mode f w h =
    update_kind-IsValid (set_permissions mode) (permissions-IsQuiet mode) f.entry w
      (permissions_kind mode) h

pub file_chown-IsValid :
    (u g : ℕ) (f : File) (w : Writer) → IsValid w → IsValid (file_chown u g f w)
unfolding file_chown
file_chown-IsValid u g f w h =
    update_kind-IsValid (set_owner u g) (quiet (set_owner u g) (λ e. (refl, refl, refl))) f.entry w
      (λ e. refl) h
