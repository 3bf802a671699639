-- ===== src/Reader/Directory/Groups.antt =====
-- The blocks of a directory that writeDirents of writer.go wrote, and a round of dir.lookup of erofs.go.
use Prim.Native.Nat.{Ordering}
use go_erofs.Prelude.{
  ℕ, zero, suc, ◌+◌, ◌-◌, ◌*◌, ◌/◌, ◌^◌, ◌≤◌, ◌<◌, ◌≡◌, ◌≢◌, refl, sym, ap, le→ltb, lt→ltb, List,
  [], ◌∷◌, ◌++◌, length, append_assoc, All, Option, some,
}
use go_erofs.Prelude.Bytes.{Bytes, compare_bytes}
use go_erofs.Image.Dirents.{DirentInfo}
use go_erofs.Reader.{Result, ok}
use go_erofs.Reader.Directory.{block_switch, find_block_loop, block_first_name}
use go_erofs.Reader.Directory.Block.{IsEntry, padded_block}

-- The entries of one block, of which there is one at least, and the zero bytes behind them.
pub record Group : Type 0 where
  pub first : DirentInfo
  pub more : List DirentInfo
  pub pad : ℕ

abbrev pub entries_of : Group → List DirentInfo
entries_of g = g.first ∷ g.more

abbrev pub bytes_of : Group → Bytes
bytes_of g = padded_block (entries_of g) g.pad

abbrev pub all_entries : List Group → List DirentInfo
all_entries [] = []
all_entries (g ∷ gs) = entries_of g ++ all_entries gs

-- What a block can hold.
pub record IsGroup (g : Group) : Type 0 where
  pub entries : All IsEntry (entries_of g)
  pub small : length (bytes_of g) < 2 ^ 16

pub all_entries-append :
    (xs ys : List Group) → all_entries (xs ++ ys) ≡ all_entries xs ++ all_entries ys
all_entries-append [] ys = refl
all_entries-append (g ∷ xs) ys =
    rw (all_entries-append xs ys)
      (sym (append_assoc (entries_of g) (all_entries xs) (all_entries ys)))

module _ (load : ℕ → Result Bytes) (bs : ℕ) (target : Bytes) where
  -- The blocks are loaded at their places.
  abbrev pub Loads : List Group → Type 0
  Loads gs =
      (xs : List Group) (g : Group) (ys : List Group)
      → gs ≡ xs ++ (g ∷ ys)
      → (load (length xs * bs) ≡ ok (bytes_of g)) × IsGroup g

  module _ (fuel lo hi : ℕ) (last : Option Bytes) (lt : lo < hi) (g : Group)
      (loaded : load ((lo + (hi - lo) / 2) * bs) ≡ ok (bytes_of g))
      (named : block_first_name (bytes_of g) ≡ ok g.first.name) where
    abbrev pub below : Result (Option Bytes)
    below = find_block_loop fuel load bs target lo (lo + (hi - lo) / 2) last

    abbrev pub above : Result (Option Bytes)
    above = find_block_loop fuel load bs target (lo + (hi - lo) / 2 + 1) hi (some (bytes_of g))

    pub step_below :
        compare_bytes g.first.name target ≡ Ordering.gt
        → find_block_loop (suc fuel) load bs target lo hi last ≡ below
    unfolding find_block_loop
    step_below c = rw (lt→ltb lo hi lt, loaded, named) (ap (block_switch above below) c)

    pub step_above :
        compare_bytes g.first.name target ≢ Ordering.gt
        → find_block_loop (suc fuel) load bs target lo hi last ≡ above
    unfolding find_block_loop
    step_above c =
        rw (lt→ltb lo hi lt, loaded, named) (at_most (compare_bytes g.first.name target) c)
      where
        at_most : (o : Ordering) → o ≢ Ordering.gt → block_switch above below o ≡ above
        at_most Ordering.lt h = refl
        at_most Ordering.eq h = refl
        at_most Ordering.gt h = absurd (h refl)

  pub nothing :
      (fuel lo hi : ℕ) (last : Option Bytes)
      → hi ≤ lo
      → find_block_loop fuel load bs target lo hi last ≡ ok last
  unfolding find_block_loop
  nothing zero lo hi last h = refl
  nothing (suc fuel) lo hi last h = rw (le→ltb hi lo h)
