-- ===== src/Writer/Copy/Walk.antt =====
-- CopyFrom of mkfs.go on a source that is not an image: what it does with each file of the walk.
use go_erofs.Prelude.{
  ℕ, ◌%◌, ◌^◌, ◌==◌, ltb, if◌then◌else◌, Bool, true, not, ◌&&◌, Option, none, some, List, [], ◌∷◌,
  ◌++◌, length, drop, take, is_empty,
}
use go_erofs.Prelude.Bytes.{Bytes}
use go_erofs.Image.{is_some}
use go_erofs.Mode.{type_bits, bit_of, mode_dir, mode_symlink}
use go_erofs.Writer.{os_error, Reply, failed, done, Writer}
use go_erofs.Writer.Paths.{root_path, same_bytes, base, dir, path_clean}
use go_erofs.Writer.Tree.{remove, remove_children}
use go_erofs.Writer.Calls.{unless_failed}
use go_erofs.Writer.BlockSize.{set_block_size}
use go_erofs.Writer.Files.{OsWrite}
use go_erofs.Writer.Copy.{BuilderEntry, blank, add}

-- What the walk and the source give for a file: its path, its FileInfo (none for an error) with
-- Sys() as an Entry, what entryFromSys makes of the FileInfo, the pieces that an opened file delivers,
-- and the target of a link, where the source can read one.
pub record Node : Type 0 where
  pub fpath : Bytes
  pub has_info : Bool
  pub mode : ℕ
  pub size : ℕ
  pub sys : Option BuilderEntry
  pub platform : Option BuilderEntry
  pub opened : Option (List Bytes)
  pub reads_links : Bool
  pub link : Option Bytes

abbrev pub whiteout_prefix : Bytes
whiteout_prefix = 46 ∷ 119 ∷ 104 ∷ 46 ∷ []

abbrev pub opaque_whiteout : Bytes
opaque_whiteout = 46 ∷ 119 ∷ 104 ∷ 46 ∷ 46 ∷ 119 ∷ 104 ∷ 46 ∷ 46 ∷ 111 ∷ 112 ∷ 113 ∷ []

-- "/" + fpath, and "/" for "."
abbrev pub absolute : Bytes → Bytes
absolute fpath = if same_bytes fpath (46 ∷ []) then root_path else 47 ∷ fpath

-- path.Join of a directory and a name: an empty name adds nothing.
unfoldable pub join : Bytes → Bytes → Bytes
unfolding path_clean
join d name = if is_empty name then path_clean d else path_clean (d ++ (47 ∷ name))

-- The path that a whiteout file removes.
unfoldable pub whiteout_target : Bytes → Bytes
unfolding join dir base
whiteout_target p = join (dir p) (drop 4 (base p))

abbrev pub is_whiteout : Bytes → Bool
is_whiteout p = same_bytes (take 4 (base p)) whiteout_prefix

unfoldable pub apply_whiteout : Bytes → Writer → Writer
unfolding whiteout_target remove remove_children base dir
apply_whiteout p w =
    if same_bytes (base p) opaque_whiteout
    then remove_children (dir p) w
    else remove (whiteout_target p) w

abbrev pub or_else {ℓ} : {A : Type ℓ} → Option A → A → A
or_else none a = a
or_else (some b) a = b

abbrev pub known : Node → BuilderEntry
known node = or_else node.sys (or_else node.platform blank)

abbrev pub no_data : Option BuilderEntry → Bool
no_data none = true
no_data (some be) = not (is_some be.contents)

abbrev pub no_target : Option BuilderEntry → Bool
no_target none = true
no_target (some be) = is_empty be.link_target

-- For directories, ensure nlink >= 2.
abbrev pub at_least_two : BuilderEntry → BuilderEntry
at_least_two be = if ltb be.nlink 2 then record be { nlink = 2 } else be

-- What add is called with, by the kind of the file; an error from the source ends the walk.
unfoldable pub gather : Bool → Node → Reply BuilderEntry
gather metadata_only node =
    if type_bits node.mode == 0 && ltb 0 node.size && no_data node.sys
    then (if metadata_only then done (known node) else elim node.opened [
      | none ↦ failed os_error
      | some pieces ↦ done (record (known node) { contents = some pieces })
    ])
    else if ltb 0 (bit_of node.mode mode_symlink) && no_target node.sys && node.reads_links
    then elim node.link [
      | none ↦ failed os_error
      | some target ↦ done (record (known node) { link_target = target })
    ]
    else if ltb 0 (bit_of node.mode mode_dir)
    then done (at_least_two (or_else node.sys (or_else node.platform (record blank { nlink = 2 }))))
    else done (known node)

abbrev pub add_gathered : OsWrite → Node → Reply BuilderEntry → Writer → Reply (Unit {0}) × Writer
add_gathered takes node (failed f) w = (failed f, w)
add_gathered takes node (done be) w = add takes (absolute node.fpath) node.mode node.size be w

-- The function that fs.WalkDir gets.
unfoldable pub visit : OsWrite → Node → Writer → Reply (Unit {0}) × Writer
unfolding apply_whiteout gather add base
visit takes node w =
    let p = absolute node.fpath in
    if not node.has_info
    then (failed os_error, w)
    else if w.copy_merge && not (same_bytes p root_path) && is_whiteout p
    then (done tt, apply_whiteout p w)
    else add_gathered takes node (gather w.copy_metadata_only node) w

abbrev pub then_walk :
    (Writer → Reply (Unit {0}) × Writer) → Reply (Unit {0}) × Writer → Reply (Unit {0}) × Writer
then_walk next (failed f, w) = (failed f, w)
then_walk next (done u, w) = next w

-- fs.WalkDir, up to the first error
unfoldable pub walk : OsWrite → List Node → Writer → Reply (Unit {0}) × Writer
unfolding visit
walk takes [] w = (done tt, w)
walk takes (node ∷ nodes) w = then_walk (walk takes nodes) (visit takes node w)

-- A source with the interfaces that it implements and the files of its walk.
pub record Source : Type 0 where
  pub block_size : Option ℕ
  pub device_blocks : Option ℕ
  pub build_time : Option ℕ
  pub nodes : List Node

abbrev pub take_block_size : Option ℕ → Writer → Reply (Unit {0}) × Writer
take_block_size none w = (done tt, w)
take_block_size (some n) w = set_block_size n w

abbrev pub take_device : Option ℕ → Writer → Writer
take_device none w = w
take_device (some blocks) w =
    let devices = w.devices ++ (blocks ∷ []) in
    record w { devices = devices; copy_device_id = length devices % 2 ^ 16 }

abbrev pub take_build_time : Option ℕ → Writer → Writer
take_build_time none w = w
take_build_time (some t) w =
    if w.has_build_time then w else record w { build_time = t; has_build_time = true }

-- CopyFrom, with the options that may be given.
unfoldable pub copy_from : OsWrite → Source → Bool → Bool → Writer → Reply (Unit {0}) × Writer
unfolding walk set_block_size
copy_from takes src metadata_only merge w =
    let reset = record w {
      copy_metadata_only = metadata_only;
      copy_merge = merge;
      copy_device_id = 0;
    } in
    unless_failed w.w_err w (
      then_walk
        (λ v. walk takes src.nodes (
          take_build_time src.build_time
            (if metadata_only then take_device src.device_blocks v else v)))
        (take_block_size src.block_size reset))
