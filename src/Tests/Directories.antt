-- ===== src/Tests/Directories.antt =====
-- Lookups in directory blocks.
use go_erofs.Prelude.{
  ℕ, refl, ◌≡◌, ◌≢◌, ◌+◌, ◌*◌, ◌^◌, ◌<◌, ◌++◌, List, [], ◌∷◌, length, length-append,
  length-replicate, arith,
}
use go_erofs.Prelude.Bytes.{Bytes, compare_bytes, slice, zeros}
use go_erofs.Disk.Codec.{decode_dirent}
use go_erofs.Image.Dirents.{DirentInfo, dirent_block, dirent_names_bytes}
use go_erofs.Image.Dirents.Size.{length-dirent_block}
use go_erofs.Reader.{ok, err, invalid}
use go_erofs.Prelude.{◌==◌, if◌then◌else◌}
use go_erofs.Reader.{Result}
use go_erofs.Reader.Directory.Groups.{Group, IsGroup, Loads, all_entries, bytes_of}
use go_erofs.Reader.Directory.Whole.{lookup-find}
use go_erofs.Reader.Directory.{block_dirent, lookup, lookup_block}
use go_erofs.Reader.Directory.Block.{IsEntry, padded_block}
use go_erofs.Reader.Directory.Full.{block_dirent_full}
use go_erofs.Reader.Directory.Lookup.{lookup_block-find}
use go_erofs.Reader.Directory.Sorted.{IsSorted, answer, find}

abbrev first_entry : DirentInfo
first_entry = record { name = b'a' ∷ []; nid = 41; file_type = 2 }

abbrev second_entry : DirentInfo
second_entry = record { name = b'b' ∷ b'c' ∷ []; nid = 40; file_type = 1 }

abbrev entries : List DirentInfo
entries = first_entry ∷ second_entry ∷ []

first_entry-IsEntry : IsEntry first_entry
first_entry-IsEntry = record {
  nid = omega arith;
  file_type = omega arith;
  name = ((λ e. omega arith), tt);
}

second_entry-IsEntry : IsEntry second_entry
second_entry-IsEntry = record {
  nid = omega arith;
  file_type = omega arith;
  name = ((λ e. omega arith), ((λ e. omega arith), tt));
}

entries-IsSorted : IsSorted entries
unfolding compare_bytes
entries-IsSorted = ((refl, tt), (tt, tt))

entries_small : length (padded_block entries 5) < 2 ^ 16
unfolding dirent_names_bytes
entries_small = omega (
  arith,
  length-append (dirent_block entries) (zeros 5),
  length-dirent_block entries,
  length-replicate {A = ℕ} 5 0,
)

abbrev target : Bytes
target = b'b' ∷ b'c' ∷ []

entries_nonempty : entries ≢ []
entries_nonempty e = cc

lookup_block-find_example :
    lookup_block (padded_block entries 5) target ≡ answer (find target entries)
lookup_block-find_example =
    lookup_block-find entries 5 target entries_nonempty entries-IsSorted
      (first_entry-IsEntry, (second_entry-IsEntry, tt)) entries_small

-- A block with one entry, whose name is up to the block's end.
abbrev full_block : Bytes
full_block = (1 ∷ 0 ∷ 0 ∷ 0 ∷ 0 ∷ 0 ∷ 0 ∷ 0 ∷ 12 ∷ 0 ∷ 1 ∷ 0 ∷ []) ++ zeros 65524

length-full_block : length full_block ≡ 2 ^ 16
length-full_block = omega (
  arith,
  length-append (1 ∷ 0 ∷ 0 ∷ 0 ∷ 0 ∷ 0 ∷ 0 ∷ 0 ∷ 12 ∷ 0 ∷ 1 ∷ 0 ∷ []) (zeros 65524),
  length-replicate {A = ℕ} 65524 0,
)

full_block_name : 0 < (decode_dirent (slice (0 * 12) (0 * 12 + 12) full_block)).name_off
unfolding decode_dirent
full_block_name = omega arith

block_dirent_full_example : block_dirent full_block 0 1 ≡ err invalid
block_dirent_full_example =
    block_dirent_full full_block 0 length-full_block (omega arith) full_block_name

-- A directory of two blocks.
abbrev first_group : Group
first_group = record { first = first_entry; more = []; pad = 5 }

abbrev second_group : Group
second_group = record { first = second_entry; more = []; pad = 0 }

abbrev groups : List Group
groups = first_group ∷ second_group ∷ []

abbrev load : ℕ → Result Bytes
load pos = if pos == 0 then ok (bytes_of first_group) else ok (bytes_of second_group)

first_group-IsGroup : IsGroup first_group
unfolding dirent_names_bytes
first_group-IsGroup = record {
  entries = (first_entry-IsEntry, tt);
  small = omega (
    arith,
    length-append (dirent_block (first_entry ∷ [])) (zeros 5),
    length-dirent_block (first_entry ∷ []),
    length-replicate {A = ℕ} 5 0,
  );
}

second_group-IsGroup : IsGroup second_group
unfolding dirent_names_bytes
second_group-IsGroup = record {
  entries = (second_entry-IsEntry, tt);
  small = omega (
    arith,
    length-append (dirent_block (second_entry ∷ [])) (zeros 0),
    length-dirent_block (second_entry ∷ []),
  );
}

groups-Loads : Loads load 64 target groups
groups-Loads [] g ys e =
    let same : first_group ≡ g = cc e in rw (← same) (refl, first_group-IsGroup)
groups-Loads (x ∷ []) g ys e =
    let same : second_group ≡ g = cc e in rw (← same) (refl, second_group-IsGroup)
groups-Loads (x ∷ y ∷ []) g ys e = absurd (cc e)
groups-Loads (x ∷ y ∷ z ∷ xs) g ys e = absurd (cc e)

groups-IsSorted : IsSorted (all_entries groups)
unfolding compare_bytes
groups-IsSorted = ((refl, tt), (tt, tt))

lookup-find_example : lookup load 64 78 target ≡ answer (find target (all_entries groups))
lookup-find_example = lookup-find load 64 target groups 78 refl groups-Loads groups-IsSorted
