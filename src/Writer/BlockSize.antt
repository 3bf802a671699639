-- ===== src/Writer/BlockSize.antt =====
-- setBlockSize and resolveBlockSize of mkfs.go.
pub mod Powers
use go_erofs.Prelude.{
  ℕ, zero, suc, ◌+◌, ◌*◌, ◌/◌, ◌%◌, ◌^◌, ◌==◌, ◌≡◌, ◌≤◌, ltb, leb, if◌then◌else◌, Bool, not, ◌||◌,
  arith,
}
use go_erofs.Writer.{
  Reply, failed, done, Writer, block_size_range, block_size_power, block_size_conflict,
}

-- bits.OnesCount of a number of at most `fuel` binary digits.
unfoldable pub ones_count : ℕ → ℕ → ℕ
ones_count zero n = 0
ones_count (suc fuel) n = n % 2 + ones_count fuel (n / 2)

-- A uint has 64 digits.
unfoldable pub set_block_size : ℕ → Writer → Reply (Unit {0}) × Writer
unfolding ones_count
set_block_size n w =
    if ltb n 512 || ltb 65536 n
    then (failed block_size_range, w)
    else if not (ones_count 64 n == 1)
    then (failed block_size_power, w)
    else if w.block_size == 0
    then (done tt, record w { block_size = n })
    else if not (w.block_size == n)
    then (failed block_size_conflict, w)
    else (done tt, w)

unfoldable pub resolve_block_size : Writer → Writer
resolve_block_size w = if w.block_size == 0 then record w { block_size = 4096 } else w
