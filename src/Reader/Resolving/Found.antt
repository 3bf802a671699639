-- ===== src/Reader/Resolving/Found.antt =====
-- Which paths resolve of erofs.go finds, and where it gives up.
use go_erofs.Prelude.{
  ℕ, zero, suc, ◌≡◌, refl, Bool, false, Bool-cases, inl, inr, List, [], ◌∷◌, is_empty, ◌==◌,
}
use go_erofs.Prelude.Bytes.{Bytes}
use go_erofs.Mode.{type_bits, mode_dir}
use go_erofs.Writer.Paths.{path_clean, segments, extend}
use go_erofs.Reader.{Image, Result, ok, err, loop}
use go_erofs.Reader.Reading.{read_link}
use go_erofs.Reader.Resolving.{
  arrived, link, is_symlink, extend_path, walk_name, resolve_loop, root_place, follow_target,
  lookup_in_dir, resolve, max_symlinks, name_or_empty, strip_root,
}

-- A path of names, each of which is in the directory that the one before is, with no symbolic link.
pub data Leads (look : ℕ → Bytes → Result (ℕ × ℕ)) : ℕ → ℕ → List Bytes → ℕ → ℕ → Type 0 where
  here : (nid ftype : ℕ) → Leads look nid ftype [] nid ftype
  into :
      (dir n t nid ftype : ℕ) (seg : Bytes) (segs : List Bytes)
      → look dir seg ≡ ok (n, t)
      → is_empty seg ≡ false
      → is_symlink (type_bits t) ≡ false
      → Leads look n (type_bits t) segs nid ftype
      → Leads look dir mode_dir (seg ∷ segs) nid ftype

-- The base name of a path.
abbrev pub last_of : Bytes → List Bytes → Bytes
last_of name [] = name
last_of name (seg ∷ segs) = last_of seg segs

module _ (look : ℕ → Bytes → Result (ℕ × ℕ)) (follow : Bool) where
  walk_name-Leads :
      (segs : List Bytes) (from ft nid ftype : ℕ) (name cur_path : Bytes)
      → Leads look from ft segs nid ftype
      → walk_name look follow (record { nid = from; ftype = ft; basename = name }) cur_path segs
        ≡ arrived (record { nid = nid; ftype = ftype; basename = last_of name segs })
  unfolding walk_name
  walk_name-Leads [] from ft nid ftype name cur_path (here _ _) = refl
  walk_name-Leads (seg ∷ segs) from ft nid ftype name cur_path
        (into _ n t _ _ _ _ found some_name plain later) =
      rw (found, some_name, plain)
        (walk_name-Leads segs n (type_bits t) nid ftype seg (extend_path cur_path seg) later)

  -- A name that leads over a symbolic link to itself again.
  module _ (root : ℕ) (target_of : ℕ → Result Bytes) (name : Bytes) (n : ℕ)
      (rest cur_path target : Bytes)
      (met : walk_name look follow (root_place root name) [] (segments name) ≡ link n rest cur_path)
      (read : target_of n ≡ ok target) (cycle : follow_target target rest cur_path ≡ name) where
    resolve_loop_cycle : (links : ℕ) → resolve_loop look target_of root follow links name ≡ err loop
    unfolding resolve_loop
    resolve_loop_cycle zero = rw met refl
    resolve_loop_cycle (suc links) = rw (met, read, cycle) (resolve_loop_cycle links)

  resolve_loop-Leads :
      (root : ℕ) (target_of : ℕ → Result Bytes) (links : ℕ) (name : Bytes) (nid ftype : ℕ)
      → Leads look root mode_dir (segments name) nid ftype
      → resolve_loop look target_of root follow links name
        ≡ ok (record { nid = nid; ftype = ftype; basename = last_of name (segments name) })
  unfolding resolve_loop
  resolve_loop-Leads root target_of zero name nid ftype h =
      rw (walk_name-Leads (segments name) root mode_dir nid ftype name [] h) refl
  resolve_loop-Leads root target_of (suc links) name nid ftype h =
      rw (walk_name-Leads (segments name) root mode_dir nid ftype name [] h) refl

module _ (look : ℕ → Bytes → Result (ℕ × ℕ)) where
  last_some :
      (segs : List Bytes) (name : Bytes) (from ft nid ftype : ℕ)
      → Leads look from ft segs nid ftype
      → is_empty name ≡ false
      → is_empty (last_of name segs) ≡ false
  last_some [] name from ft nid ftype h e = e
  last_some (seg ∷ segs) name from ft nid ftype (into _ n t _ _ _ _ found some_name plain later) e =
      last_some segs seg n (type_bits t) nid ftype later some_name

  no_empty_name : (from ft nid ftype : ℕ) → Leads look from ft ([] ∷ []) nid ftype → ⊥
  no_empty_name from ft nid ftype (into _ n t _ _ _ _ found some_name plain later) = cc

  name_some :
      (name : Bytes) (from ft nid ftype : ℕ)
      → Leads look from ft (segments name) nid ftype
      → is_empty name ≡ false
  unfolding segments
  name_some [] from ft nid ftype h = absurd (no_empty_name from ft nid ftype h)
  name_some (b ∷ name) from ft nid ftype h = refl

extend-last :
    (b : ℕ) (segs : List Bytes) (m n : Bytes)
    → last_of m (extend b segs) ≡ last_of n (extend b segs)
extend-last b [] m n = refl
extend-last b (seg ∷ segs) m n = refl

segments-last : (name : Bytes) → last_of name (segments name) ≡ last_of [] (segments name)
unfolding segments
segments-last [] = refl
segments-last (b ∷ name) = elim (Bool-cases (b == 47)) [
  | inl e ↦ rw e refl
  | inr e ↦ rw e (extend-last b (segments name) (b ∷ name) [])
]

-- The name that resolve walks from the root.
abbrev pub walked : Bytes → Bytes
walked name = name_or_empty (path_clean (strip_root name))

-- A path whose cleaned form leads over names in directories, none of which is a symbolic link, is
-- resolved to the inode that its last name has, with the type of its entry and that name.
pub resolve-Leads :
    (img : Image) (name : Bytes) (follow : Bool) (nid ftype : ℕ)
    → Leads (lookup_in_dir img) img.sb.root_nid mode_dir (segments (walked name)) nid ftype
    → resolve img name follow
      ≡ ok (record { nid = nid; ftype = ftype; basename = last_of [] (segments (walked name)) })
unfolding resolve
resolve-Leads img name follow nid ftype h =
    let look = lookup_in_dir img in
    let root = img.sb.root_nid in
    let q = walked name in
    let named =
      last_some look (segments q) q root mode_dir nid ftype h
        (name_some look q root mode_dir nid ftype h) in
    rw
      (
        resolve_loop-Leads look follow root (read_link img) max_symlinks q nid ftype h,
        named,
        segments-last q,
      )
      refl

-- resolve fails with ErrLoop on a path that meets a symbolic link whose target leads to the same path.
pub resolve_cycle :
    (img : Image) (name : Bytes) (follow : Bool) (n : ℕ) (rest cur_path target : Bytes)
    → walk_name
        (lookup_in_dir img)
        follow
        (root_place img.sb.root_nid (walked name))
        []
        (segments (walked name))
      ≡ link n rest cur_path
    → read_link img n ≡ ok target
    → follow_target target rest cur_path ≡ walked name
    → resolve img name follow ≡ err loop
unfolding resolve
resolve_cycle img name follow n rest cur_path target met read cycle =
    rw
      (resolve_loop_cycle (lookup_in_dir img) follow img.sb.root_nid (read_link img) (walked name) n
        rest cur_path target met read cycle max_symlinks)
      refl
