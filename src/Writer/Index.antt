-- ===== src/Writer/Index.antt =====
-- What byPath of mkfs.go stands for: the index of the entries that are not removed.
pub mod Live
pub mod Kept
pub mod Parents
pub mod Removal
pub mod Sweep
pub mod Adding
use go_erofs.Prelude.{
  ℕ, zero, suc, ◌+◌, ◌<◌, ◌≡◌, Bool, true, false, not, ◌&&◌, ◌||◌, if◌then◌else◌, Option, none,
  some, List, [], ◌∷◌, length, All,
}
use go_erofs.Prelude.Bytes.{Bytes}
use go_erofs.Image.{is_some}
use go_erofs.Writer.{FsEntry, Writer, entry_at}
use go_erofs.Writer.Maps.{get}
use go_erofs.Writer.Paths.{root_path, same_bytes}

abbrev pub later : Option ℕ → Option ℕ
later none = none
later (some i) = some (suc i)

-- The entry is not removed and has the path.
abbrev pub is_at : Bytes → FsEntry → Bool
is_at p e = not e.removed && same_bytes e.path p

-- The first entry at a path.
unfoldable pub live : Bytes → List FsEntry → Option ℕ
live p [] = none
live p (e ∷ es) = if is_at p e then some 0 else later (live p es)

-- No two entries that are not removed have the same path.
abbrev pub AreDistinct : List FsEntry → Type 0
AreDistinct [] = Unit
AreDistinct (e ∷ es) = ((e.removed || not (is_some (live e.path es))) ≡ true) × AreDistinct es

-- The children of the entries from index `i` on come later, and there are `n` entries.
abbrev pub AreOrdered : ℕ → ℕ → List FsEntry → Type 0
AreOrdered n i [] = Unit
AreOrdered n i (e ∷ es) = All (λ c. (i < c) × (c < n)) e.children × AreOrdered n (suc i) es

-- There is a root, named as such; no two entries that are not removed share a path; byPath is their index; and
-- children come after their parents.
pub record IsIndexed (w : Writer) : Type 0 where
  pub has_root : 0 < length w.entries
  pub root : (entry_at 0 w.entries).path ≡ root_path
  pub distinct : AreDistinct w.entries
  pub index : (p : Bytes) → get p w.by_path ≡ live p w.entries
  pub ordered : AreOrdered (length w.entries) 0 w.entries
