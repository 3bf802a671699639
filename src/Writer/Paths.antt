-- ===== src/Writer/Paths.antt =====
-- The paths of mkfs.go: cleanPath, and what it uses of Go's package path, on byte strings. 47 is '/'
-- and 46 is '.'.
pub mod Ancestors
pub mod Sizes
use go_erofs.Prelude.{
  ℕ, ◌==◌, if◌then◌else◌, Bool, true, false, ◌&&◌, List, [], ◌∷◌, ◌++◌, drop, is_empty,
}
use go_erofs.Prelude.Bytes.{Bytes, compare_bytes}
use Prim.Native.Nat.{Ordering}

-- a == b on strings
unfoldable pub same_bytes : Bytes → Bytes → Bool
unfolding compare_bytes
same_bytes a b = elim (compare_bytes a b) [ Ordering.eq ↦ true | _ ↦ false ]

abbrev pub root_path : Bytes
root_path = 47 ∷ []

-- What lies between the slashes of a path.
abbrev pub extend : ℕ → List Bytes → List Bytes
extend b [] = (b ∷ []) ∷ []
extend b (s ∷ ss) = (b ∷ s) ∷ ss

unfoldable pub segments : Bytes → List Bytes
segments [] = [] ∷ []
segments (b ∷ p) = let rest = segments p in if b == 47 then [] ∷ rest else extend b rest

-- "" and "." stand for nothing, ".." for the parent.
pub data Segment : Type 0 where
  skip parent name : Segment

unfoldable pub kind : Bytes → Segment
kind [] = skip
kind (a ∷ []) = if a == 46 then skip else name
kind (a ∷ b ∷ []) = if a == 46 && b == 46 then parent else name
kind (a ∷ b ∷ c ∷ s) = name

-- ".." drops the segment before it, unless that is ".." itself; there is nothing above the root.
abbrev pub up : Bool → List Bytes → Bytes → List Bytes
up true [] seg = []
up false [] seg = seg ∷ []
up rooted (t ∷ stack) seg = elim (kind t) [ parent ↦ seg ∷ t ∷ stack | _ ↦ stack ]

unfoldable pub push : Bool → List Bytes → Bytes → List Bytes
unfolding kind
push rooted stack seg = elim (kind seg) [
  | skip ↦ stack
  | parent ↦ up rooted stack seg
  | name ↦ seg ∷ stack
]

-- The segments that are left, the last one first.
unfoldable pub push_all : Bool → List Bytes → List Bytes → List Bytes
unfolding push
push_all rooted stack [] = stack
push_all rooted stack (seg ∷ segs) = push_all rooted (push rooted stack seg) segs

-- Each segment behind a slash.
unfoldable pub join_stack : List Bytes → Bytes
join_stack [] = []
join_stack (seg ∷ stack) = join_stack stack ++ (47 ∷ seg)

abbrev pub is_rooted : Bytes → Bool
is_rooted [] = false
is_rooted (b ∷ p) = b == 47

-- What path.Clean returns for a rooted path, and for one that is not.
unfoldable pub rooted_path : List Bytes → Bytes
unfolding join_stack
rooted_path [] = root_path
rooted_path (seg ∷ stack) = join_stack (seg ∷ stack)

abbrev pub relative_path : List Bytes → Bytes
relative_path [] = 46 ∷ []
relative_path (seg ∷ stack) = drop 1 (join_stack (seg ∷ stack))

-- path.Clean
unfoldable pub path_clean : Bytes → Bytes
unfolding segments push_all rooted_path
path_clean p =
    if is_rooted p
    then rooted_path (push_all true [] (segments p))
    else relative_path (push_all false [] (segments p))

abbrev pub has_slash : Bytes → Bool
has_slash [] = false
has_slash (b ∷ p) = let rest = has_slash p in if b == 47 then true else rest

-- path.Split: up to the last slash, and behind it.
unfoldable pub dir_part : Bytes → Bytes
dir_part [] = []
dir_part (b ∷ p) =
    let rest = dir_part p in if has_slash p then b ∷ rest else if b == 47 then b ∷ [] else []

unfoldable pub file_part : Bytes → Bytes
file_part [] = []
file_part (b ∷ p) =
    let rest = file_part p in if has_slash p then rest else if b == 47 then p else b ∷ p

-- path.Dir
unfoldable pub dir : Bytes → Bytes
unfolding path_clean dir_part
dir p = path_clean (dir_part p)

-- for len(path) > 0 && path[len(path)-1] == '/'
abbrev pub strip_slashes : Bytes → Bytes
strip_slashes [] = []
strip_slashes (b ∷ p) =
    let rest = strip_slashes p in if is_empty rest && b == 47 then [] else b ∷ rest

abbrev or_root : Bytes → Bytes
or_root [] = root_path
or_root (b ∷ p) = b ∷ p

-- path.Base
unfoldable pub base : Bytes → Bytes
unfolding file_part
base [] = 46 ∷ []
base (b ∷ p) = or_root (file_part (strip_slashes (b ∷ p)))

unfoldable pub clean_path : Bytes → Bytes
unfolding same_bytes path_clean
clean_path p =
    if is_empty p
    then root_path
    else if same_bytes p (46 ∷ [])
    then root_path
    else if same_bytes p root_path
    then root_path
    else let c = path_clean p in if is_rooted c then c else 47 ∷ c
