-- ===== src/Tests/Writers.antt =====
-- The Writer at concrete inputs.
use go_erofs.Prelude.{
  ◌+◌, ◌%◌, ◌/◌, ◌^◌, ◌≡◌, refl, true, false, none, some, List, [], ◌∷◌, All, length, arith,
}
use go_erofs.Prelude.Bytes.{Bytes}
use go_erofs.Image.Chunks.Parse.{blocks_of, run}
use go_erofs.Image.Data.{blocks_for}
use go_erofs.Mode.{stat_type_dir}
use go_erofs.Tests.{file_entry}
use go_erofs.Writer.{Writer, duplicate_path, done, new_entry, entry_at}
use go_erofs.Writer.Maps.{get}
use go_erofs.Writer.Paths.{kind, rooted_path, clean_path, same_bytes, base}
use go_erofs.Writer.Paths.Ancestors.{IsClean}
use go_erofs.Writer.Tree.{remove, remove_children}
use go_erofs.Writer.Calls.{mkdir, symlink, mknod, create}
use go_erofs.Writer.BlockSize.{set_block_size}
use go_erofs.Writer.BlockSize.Powers.{IsPower, set_block_size-IsPower}
use go_erofs.Writer.Files.{OsWrite, data_file_chunks}
use go_erofs.Writer.Files.Chunks.{IsStored, data_file_chunks-IsStored}
use go_erofs.Writer.Copy.{store_data}
use go_erofs.Writer.Copy.Stored.{resolved, Holds, joined, store_data-Holds}
use go_erofs.Writer.Copy.Walk.{whiteout_target, Node, Source, copy_from}
use go_erofs.Writer.Start.{CreateOptions, new_writer}
use go_erofs.Writer.Index.{live}
use go_erofs.Writer.Index.Removal.{all_gone}
use go_erofs.Writer.Index.Sweep.{Removed, remove-IsSwept, remove_children-IsSwept}
use go_erofs.Writer.Valid.{IsValid}
use go_erofs.Writer.Valid.Reach.{here, next, mkdir_step, create_step, Reach-IsValid}
use go_erofs.Writer.Valid.Copying.{SparesRoot, copy_from-IsValid}
use go_erofs.Writer.Valid.Made.{IsMade, mkdir-IsMade}
use go_erofs.Writer.Valid.Refused.{refusal, Answers, path_refused}
use go_erofs.Writer.Build.{Tree, branch, bare, grown, walk_tree, build_tree}
use go_erofs.Writer.Build.Levels.{build_tree_enough}
use go_erofs.Writer.Build.Linked.{IsLinked, walk_tree-IsLinked}

abbrev options : CreateOptions
options = record {
  build_time = 7;
  build_time_ns = 0;
  has_build_time = true;
  block_size = 512;
  data_file = none;
  seek_end = none;
}

abbrev with_data_file : CreateOptions
with_data_file = record options { data_file = some []; seek_end = some 0 }

-- "a/b" and "/a/b/c"
abbrev path_ab : Bytes
path_ab = b'a' ∷ b'/' ∷ b'b' ∷ []

abbrev path_abc : Bytes
path_abc = b'/' ∷ b'a' ∷ b'/' ∷ b'b' ∷ b'/' ∷ b'c' ∷ []

abbrev path_a : Bytes
path_a = b'/' ∷ b'a' ∷ []

abbrev grown_writer : Writer
grown_writer = (create false path_abc (mkdir path_ab 0o755 (new_writer options)).1).1

Reach-IsValid_example : IsValid grown_writer
Reach-IsValid_example =
    Reach-IsValid {o = options}
      (next (next here (mkdir_step path_ab 0o755)) (create_step false path_abc))

grown-IsValid : IsValid grown_writer
grown-IsValid =
    Reach-IsValid {o = options}
      (next (next here (mkdir_step path_ab 0o755)) (create_step false path_abc))

remove-IsSwept_example :
    Removed grown_writer (remove path_a grown_writer)
    × (get (clean_path path_a) (remove path_a grown_writer).by_path ≡ none)
remove-IsSwept_example =
    remove-IsSwept path_a grown_writer grown-IsValid.indexed grown-IsValid.swept

remove_children-IsSwept_example :
    Removed grown_writer (remove_children path_ab grown_writer)
    × (all_gone (remove_children path_ab grown_writer) (entry_at 2 grown_writer.entries).children
        ≡ true)
unfolding new_writer mkdir create get clean_path
remove_children-IsSwept_example =
    remove_children-IsSwept path_ab 2 grown_writer refl grown-IsValid.indexed grown-IsValid.swept

abbrev node : Node
node = record {
  fpath = path_ab;
  has_info = true;
  mode = 0o644;
  size = 2;
  sys = none;
  platform = none;
  opened = some ((1 ∷ 2 ∷ []) ∷ []);
  reads_links = false;
  link = none;
}

abbrev dir_node : Bytes → Node
dir_node p = record node { fpath = p; mode = 2 ^ 31 + 0o755; size = 0 }

-- "bin" and "a/.wh.b"
abbrev path_bin : Bytes
path_bin = b'b' ∷ b'i' ∷ b'n' ∷ []

abbrev whiteout_b : Node
whiteout_b = record node { fpath = b'a' ∷ b'/' ∷ b'.' ∷ b'w' ∷ b'h' ∷ b'.' ∷ b'b' ∷ []; size = 0 }

-- A walk from the root, with a whiteout of the entry that is there.
abbrev source : Source
source = record {
  block_size = some 512;
  device_blocks = none;
  build_time = none;
  nodes = dir_node (b'.' ∷ []) ∷ dir_node (b'a' ∷ []) ∷ whiteout_b ∷ node ∷ dir_node path_bin ∷ [];
}

abbrev takes_all : OsWrite
takes_all held p = length p

source-SparesRoot : All SparesRoot source.nodes
unfolding same_bytes base clean_path whiteout_target
source-SparesRoot = (refl, (refl, (refl, (refl, (refl, tt)))))

copy_from-IsValid_example : IsValid (copy_from takes_all source false true grown_writer).1
unfolding copy_from
copy_from-IsValid_example =
    copy_from-IsValid takes_all source false true grown_writer source-SparesRoot grown-IsValid

mkdir-IsMade_example :
    IsMade
      (new_entry (clean_path path_ab) (stat_type_dir + 0o700 % 2 ^ 9))
      (mkdir path_ab 0o700 (new_writer options)).1
unfolding new_writer mkdir
mkdir-IsMade_example =
    mkdir-IsMade path_ab 0o700 (new_writer options) (Reach-IsValid {o = options} here) refl refl

abbrev data_writer : Writer
data_writer = (mkdir path_ab 0o700 (new_writer with_data_file)).1

abbrev pieces : List Bytes
pieces = (1 ∷ 2 ∷ []) ∷ [] ∷ (3 ∷ []) ∷ []

store_data-Holds_example :
    let (r, v) = store_data takes_all 2 pieces data_writer in
    (r ≡ done tt) × Holds (resolved data_writer) [] (joined pieces) 2 v
unfolding new_writer mkdir takes_all
store_data-Holds_example =
    store_data-Holds takes_all (λ held p. omega arith) 2 pieces [] data_writer refl refl refl
      (omega arith)

abbrev small_tree : Tree
small_tree =
    branch [] file_entry
      (grown (branch (b'a' ∷ []) file_entry bare) (grown (branch (b'b' ∷ []) file_entry bare) bare))

walk_tree-IsLinked_example : All (IsLinked (walk_tree 0 small_tree)) (walk_tree 0 small_tree)
walk_tree-IsLinked_example = walk_tree-IsLinked small_tree

build_tree_enough_example :
    build_tree (length grown_writer.entries + 5) grown_writer 0
    ≡ build_tree (length grown_writer.entries) grown_writer 0
build_tree_enough_example = build_tree_enough grown_writer 5 grown-IsValid.indexed

path_a-IsClean : IsClean path_a
path_a-IsClean = record {
  stack = (b'a' ∷ []) ∷ [];
  names = ((unfold kind in refl, ((λ e. omega arith), tt)), tt);
  path = unfold rooted_path in refl;
}

data_file_chunks-IsStored_example :
    (blocks_of (data_file_chunks 512 1024 700) ≡ run 1 (1024 / 512) (blocks_for 512 700))
    × All IsStored (data_file_chunks 512 1024 700)
data_file_chunks-IsStored_example = data_file_chunks-IsStored 512 1024 700

set_block_size-IsPower_example :
    IsPower 512 × ((set_block_size 512 grown_writer).1.block_size ≡ 512)
unfolding set_block_size new_writer mkdir create
set_block_size-IsPower_example = set_block_size-IsPower 512 grown_writer refl

path_refused_example :
    let o = refusal (clean_path path_ab) grown_writer in
    Answers o grown_writer (mkdir path_ab 0o755 grown_writer)
    × Answers o grown_writer (symlink path_a path_ab grown_writer)
    × Answers o grown_writer (mknod path_ab 0o755 3 grown_writer)
    × Answers o grown_writer (create false path_ab grown_writer)
unfolding new_writer mkdir create
path_refused_example = path_refused path_ab grown_writer grown-IsValid refl refl path_a 0o755 3

-- The path is taken.
path_ab_taken : refusal (clean_path path_ab) grown_writer ≡ some duplicate_path
unfolding new_writer mkdir create clean_path live same_bytes
path_ab_taken = refl

-- "./" is not the root, and "../a" is not "/a".
clean_dot : clean_path (b'.' ∷ b'/' ∷ []) ≡ b'/' ∷ b'.' ∷ []
unfolding clean_path
clean_dot = refl

clean_above : clean_path (b'.' ∷ b'.' ∷ b'/' ∷ b'a' ∷ []) ≡ b'/' ∷ b'.' ∷ b'.' ∷ b'/' ∷ b'a' ∷ []
unfolding clean_path
clean_above = refl
