-- ===== src/Writer/Valid.antt =====
-- What holds of a Writer of mkfs.go between two calls, and that its parts keep it.
pub mod Operations
pub mod Methods
pub mod Data
pub mod Adding
pub mod Reach
pub mod Copying
pub mod Made
pub mod Refused
use go_erofs.Prelude.{
  ℕ, ◌+◌, ◌≡◌, ◌≢◌, ◌⊎◌, refl, sym, ◌∙◌, ap, subst, Bool, true, false, if◌then◌else◌, Option, none,
  some, List, [], ◌∷◌, length, Bool-cases, Option-cases, inl, inr, arith,
}
use go_erofs.Prelude.Bytes.{Bytes}
use go_erofs.Writer.{FsEntry, Writer, entry_at, is_dir, update_entry}
use go_erofs.Writer.Maps.{get, put, get-put, same_bytes-eq}
use go_erofs.Writer.Paths.{root_path, same_bytes, dir}
use go_erofs.Writer.Tree.{add_child, parent_of}
use go_erofs.Writer.BlockSize.Powers.{IsPower}
use go_erofs.Writer.Index.{live, IsIndexed}
use go_erofs.Writer.Index.Live.{live_found}
use go_erofs.Writer.Index.Kept.{update_entry-IsIndexed, add_child-IsIndexed}
use go_erofs.Writer.Index.Removal.{gone}
use go_erofs.Writer.Index.Sweep.{IsSwept}
use go_erofs.Writer.Index.Adding.{add_child-IsSwept, update_entry-IsSwept, update_kind-IsSwept}

-- byPath is the index of the entries that are not removed; no removed directory has a child that is
-- not; the root is there; and the block size is unset or a power of two from 512 to 65536.
pub record IsValid (w : Writer) : Type 0 where
  pub indexed : IsIndexed w
  pub swept : IsSwept w
  pub root : get root_path w.by_path ≡ some 0
  pub sized : (w.block_size ≡ 0) ⊎ IsPower w.block_size

pub found_alive :
    (p : Bytes) (i : ℕ) (w : Writer) → IsValid w → get p w.by_path ≡ some i → gone w i ≡ false
found_alive p i w h e = (live_found p i w.entries (sym (h.indexed.index p) ∙ e)).2

pub root_alive : (w : Writer) → IsValid w → gone w 0 ≡ false
root_alive w h = found_alive root_path 0 w h h.root

parent_alive : (p : Bytes) (w : Writer) → IsValid w → gone w (parent_of w p) ≡ false
unfolding parent_of
parent_alive p w h = elim (Option-cases (get (dir p) w.by_path)) [
  | inl e ↦ rw (e, parent_of) (root_alive w h)
  | inr (i, e) ↦ rw (e, parent_of) (found_alive (dir p) i w h e)
]

pub add_child-IsValid :
    (e : FsEntry) (w : Writer)
    → get e.path w.by_path ≡ none
    → e.removed ≡ false
    → e.children ≡ []
    → IsValid w
    → IsValid (add_child e w)
add_child-IsValid e w new kept childless h = record {
  indexed = add_child-IsIndexed e w new kept childless h.indexed;
  swept = add_child-IsSwept e w kept (parent_alive e.path w h) h.swept;
  root =
      unfold add_child in
      get-put e.path root_path (length w.entries) w.by_path
      ∙ elim (Bool-cases (same_bytes e.path root_path)) [
        | inl s ↦ absurd (
            taken (sym new ∙ ap (λ q. get q w.by_path) (same_bytes-eq e.path root_path s) ∙ h.root))
        | inr s ↦ rw s h.root
      ];
  sized = unfold add_child in h.sized;
}
  where
    taken : {i : ℕ} → none ≡ some i → ⊥
    taken k = cc

-- Assignments that leave the tree as it is.
pub record IsQuiet (f : FsEntry → FsEntry) : Type 0 where
  pub path : (e : FsEntry) → (f e).path ≡ e.path
  pub removed : (e : FsEntry) → (f e).removed ≡ e.removed
  pub children : (e : FsEntry) → (f e).children ≡ e.children

module _ (f : FsEntry → FsEntry) (quiet : IsQuiet f) (i : ℕ) (w : Writer) where
  pub update_alive-IsValid : gone w i ≡ false → IsValid w → IsValid (update_entry i f w)
  update_alive-IsValid alive h = record {
    indexed = update_entry-IsIndexed f quiet.path quiet.removed quiet.children i w h.indexed;
    swept = update_entry-IsSwept f quiet.removed i w alive h.swept;
    root = h.root;
    sized = h.sized;
  }

  pub update_kind-IsValid :
      ((e : FsEntry) → is_dir (f e) ≡ is_dir e) → IsValid w → IsValid (update_entry i f w)
  update_kind-IsValid same h = record {
    indexed = update_entry-IsIndexed f quiet.path quiet.removed quiet.children i w h.indexed;
    swept = update_kind-IsSwept f quiet.removed same quiet.children i w h.swept;
    root = h.root;
    sized = h.sized;
  }

-- But for the block size, the other fields of the Writer do not matter.
pub carry-IsValid :
    (v w : Writer)
    → w.entries ≡ v.entries
    → w.by_path ≡ v.by_path
    → (w.block_size ≡ 0) ⊎ IsPower w.block_size
    → IsValid v
    → IsValid w
carry-IsValid v w e p b h = record {
  indexed = record {
    has_root = rw e h.indexed.has_root;
    root = rw e h.indexed.root;
    distinct = rw e h.indexed.distinct;
    index = λ q. rw (p, e) (h.indexed.index q);
    ordered = rw e h.indexed.ordered;
  };
  swept = λ j. rw (e, gone) (h.swept j);
  root = rw p h.root;
  sized = b;
}
