-- ===== src/Reader/Resolving.antt =====
-- resolve of erofs.go, and Open, ReadFile and ReadLink of a path. A name is walked by its parts between
-- the slashes. What is said of an error's operation and path is left out.
pub mod Reached
pub mod Found
pub mod Contents
use go_erofs.Prelude.{
  ℕ, zero, suc, ◌+◌, ◌*◌, ◌^◌, ◌==◌, ltb, if◌then◌else◌, Bool, true, false, ◌&&◌, ◌||◌, not, List,
  [], ◌∷◌, ◌++◌, drop, is_empty,
}
use go_erofs.Prelude.Bytes.{Bytes, zeros}
use go_erofs.Mode.{type_bits, bit_of, mode_dir, mode_symlink}
use go_erofs.Writer.Paths.{segments, is_rooted, path_clean, same_bytes}
use go_erofs.Reader.{
  Image, Error, Result, ok, err, invalid, loop, not_directory, is_directory, ◌>>=◌, block_size,
}
use go_erofs.Reader.Info.{read_info}
use go_erofs.Reader.Blocks.{load_block}
use go_erofs.Reader.Directory.{lookup}
use go_erofs.Reader.Reading.{read_at, read_link, unless_problem, fill}

-- dir.lookup of an inode: its number and its type
unfoldable pub lookup_in_dir : Image → ℕ → Bytes → Result (ℕ × ℕ)
unfolding read_info lookup load_block
lookup_in_dir img nid target =
    read_info img nid >>= λ fi. lookup (load_block img fi) (block_size img) fi.size target

-- The results nid, ftype and basename of resolve.
pub record Place : Type 0 where
  pub nid : ℕ
  pub ftype : ℕ
  pub basename : Bytes

abbrev pub is_symlink : ℕ → Bool
is_symlink ftype = not (bit_of ftype mode_symlink == 0)

abbrev pub is_dir_type : ℕ → Bool
is_dir_type ftype = not (bit_of ftype mode_dir == 0)

-- How the walk of a name ends: at its end, with an error, or at a symbolic link that is to be followed,
-- with the rest of the name and the path of the link's directory.
pub data Outcome : Type 0 where
  arrived : Place → Outcome
  stopped : Error → Outcome
  link : ℕ → Bytes → Bytes → Outcome

-- The name that is left.
unfoldable pub join_segments : List Bytes → Bytes
join_segments [] = []
join_segments (seg ∷ []) = seg
join_segments (seg ∷ next ∷ segs) = seg ++ (47 ∷ join_segments (next ∷ segs))

abbrev pub extend_path : Bytes → Bytes → Bytes
extend_path [] seg = seg
extend_path (b ∷ p) seg = b ∷ p ++ (47 ∷ seg)

abbrev pub after_lookup : Bool → Bytes → Bytes → (ℕ → ℕ → Outcome) → Result (ℕ × ℕ) → Outcome
after_lookup follow rest cur_path next (err problem) = stopped problem
after_lookup follow rest cur_path next (ok (nid, entry_type)) =
    let ftype = type_bits entry_type in
    if is_symlink ftype && (follow || not (is_empty rest))
    then link nid rest cur_path
    else next nid ftype

-- for name != "", up to the first symbolic link that is followed
unfoldable pub walk_name :
    (ℕ → Bytes → Result (ℕ × ℕ)) → Bool → Place → Bytes → List Bytes → Outcome
unfolding join_segments
walk_name look follow p cur_path [] = arrived p
walk_name look follow p cur_path (seg ∷ segs) =
    let next : ℕ → ℕ → Outcome = λ nid ftype.
      walk_name look follow (record { nid = nid; ftype = ftype; basename = seg })
        (extend_path cur_path seg) segs in
    if is_empty seg && is_empty segs
    then arrived p
    else if not (p.ftype == mode_dir)
    then stopped not_directory
    else after_lookup follow (join_segments segs) cur_path next (look p.nid seg)

-- The name behind a slash, and "" for ".".
abbrev pub strip_root : Bytes → Bytes
strip_root [] = []
strip_root (b ∷ p) = if b == 47 then p else b ∷ p

unfoldable pub name_or_empty : Bytes → Bytes
unfolding same_bytes
name_or_empty p = if same_bytes p (46 ∷ []) then [] else p

-- The name that is resolved next, from the root, for a link's target.
unfoldable pub follow_target : Bytes → Bytes → Bytes → Bytes
unfolding name_or_empty path_clean
follow_target target rest cur_path =
    let whole = if is_empty rest then target else target ++ (47 ∷ rest) in
    let rooted = if is_rooted whole then whole else cur_path ++ (47 ∷ whole) in
    name_or_empty (strip_root (path_clean rooted))

abbrev pub max_symlinks : ℕ
max_symlinks = 255

abbrev pub root_place : ℕ → Bytes → Place
root_place root name = record { nid = root; ftype = mode_dir; basename = name }

-- What becomes of an outcome: `again` resolves the name of a link's target, if a link may be followed.
abbrev pub finish : (ℕ → Bytes → Bytes → Result Place) → Outcome → Result Place
finish again (arrived p) = ok p
finish again (stopped problem) = err problem
finish again (link nid rest cur_path) = again nid rest cur_path

-- The loop of resolve, in which `links` symbolic links may yet be followed.
unfoldable pub resolve_loop :
    (ℕ → Bytes → Result (ℕ × ℕ)) → (ℕ → Result Bytes) → ℕ → Bool → ℕ → Bytes → Result Place
unfolding walk_name follow_target segments
resolve_loop look target_of root follow zero name =
    finish (λ nid rest cur_path. err loop)
      (walk_name look follow (root_place root name) [] (segments name))
resolve_loop look target_of root follow (suc links) name =
    finish
      (λ nid rest cur_path. target_of nid >>= λ target.
        resolve_loop look target_of root follow links (follow_target target rest cur_path))
      (walk_name look follow (root_place root name) [] (segments name))

abbrev pub or_original : Bytes → Place → Place
or_original original p = if is_empty p.basename then record p { basename = original } else p

unfoldable pub resolve : Image → Bytes → Bool → Result Place
unfolding lookup_in_dir resolve_loop name_or_empty path_clean
resolve img name follow =
    resolve_loop (lookup_in_dir img) (read_link img) img.sb.root_nid follow max_symlinks
      (name_or_empty (path_clean (strip_root name)))
    >>= λ p. ok (or_original name p)

-- Open: the file's or the directory's number, type and name
unfoldable pub open_path : Image → Bytes → Result Place
unfolding resolve
open_path img name = resolve img name true

abbrev pub max_read_file_size : ℕ
max_read_file_size = 128 * 2 ^ 20

unfoldable pub read_file : Image → Bytes → Result Bytes
unfolding resolve read_at read_info
read_file img name = resolve img name true >>= λ p.
    if is_dir_type p.ftype
    then err is_directory
    else (read_info img p.nid >>= λ fi.
        let r = read_at img fi 0 fi.size in
        if ltb max_read_file_size fi.size
        then err invalid
        else unless_problem r.error (fill fi.size r.bytes))

-- ReadLink
unfoldable pub read_link_path : Image → Bytes → Result Bytes
unfolding resolve read_link
read_link_path img name =
    resolve img name false >>= λ p. if is_symlink p.ftype then read_link img p.nid else err invalid
