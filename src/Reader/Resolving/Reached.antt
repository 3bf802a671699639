-- ===== src/Reader/Resolving/Reached.antt =====
-- What resolve of erofs.go finds.
use go_erofs.Prelude.{
  ℕ, zero, suc, ◌≡◌, refl, subst, Bool, true, false, ◌&&◌, ◌||◌, not, Bool-cases, inl, inr, List,
  [], ◌∷◌, is_empty, ◌==◌, arith,
}
use go_erofs.Prelude.Bytes.{Bytes}
use go_erofs.Mode.{type_bits, mode_dir}
use go_erofs.Writer.Paths.{path_clean}
use go_erofs.Reader.{Image, Result, ok, err, loop, ◌>>=◌}
use go_erofs.Reader.Reading.{read_link}
use go_erofs.Reader.Resolving.{
  Place, Outcome, arrived, stopped, link, is_symlink, after_lookup, join_segments, extend_path,
  walk_name, finish, resolve_loop, root_place, follow_target, or_original, lookup_in_dir, resolve,
  max_symlinks, name_or_empty, strip_root,
}

-- An inode that lookups in directories reach from the root, with the type of its entry.
pub data Reaches (look : ℕ → Bytes → Result (ℕ × ℕ)) (root : ℕ) : ℕ → ℕ → Type 0 where
  start : Reaches look root root mode_dir
  entered :
      (dir n t : ℕ) (name : Bytes)
      → Reaches look root dir mode_dir
      → look dir name ≡ ok (n, t)
      → Reaches look root n (type_bits t)

-- A final symbolic link is left alone only if links are not followed.
not_followed : (a b c : Bool) → (b && (a || c)) ≡ false → (a && b) ≡ false
not_followed false b c h = refl
not_followed true false c h = refl
not_followed true true c h = h

module _ (look : ℕ → Bytes → Result (ℕ × ℕ)) (root : ℕ) (follow : Bool) where
  -- The place is reached, and is no symbolic link if those are followed.
  pub record IsReached (p : Place) : Type 0 where
    pub reached : Reaches look root p.nid p.ftype
    pub followed : (follow && is_symlink p.ftype) ≡ false

  abbrev IsSound : Outcome → Type 0
  IsSound (arrived p) = IsReached p
  IsSound (stopped problem) = Unit
  IsSound (link nid rest cur_path) = Unit

  abbrev IsResult : Result Place → Type 0
  IsResult (ok p) = IsReached p
  IsResult (err problem) = Unit

  after_lookup-IsSound :
      (dir : ℕ) (seg rest cur_path : Bytes) (next : ℕ → ℕ → Outcome) (r : Result (ℕ × ℕ))
      → Reaches look root dir mode_dir
      → look dir seg ≡ r
      → ((n ftype : ℕ)
          → Reaches look root n ftype
          → (is_symlink ftype && (follow || not (is_empty rest))) ≡ false
          → IsSound (next n ftype))
      → IsSound (after_lookup follow rest cur_path next r)
  after_lookup-IsSound dir seg rest cur_path next (err problem) d e h = tt
  after_lookup-IsSound dir seg rest cur_path next (ok (n, t)) d e h =
      elim (Bool-cases (is_symlink (type_bits t) && (follow || not (is_empty rest)))) [
        | inl at_link ↦ rw at_link tt
        | inr b ↦ rw b (h n (type_bits t) (entered dir n t seg d e) b)
      ]

  walk_name-IsSound :
      (segs : List Bytes) (p : Place) (cur_path : Bytes)
      → IsReached p
      → IsSound (walk_name look follow p cur_path segs)
  unfolding walk_name
  walk_name-IsSound [] p cur_path h = h
  walk_name-IsSound (seg ∷ segs) p cur_path h = elim (Bool-cases (is_empty seg && is_empty segs)) [
    | inl done ↦ rw done h
    | inr more ↦ elim (Bool-cases (p.ftype == mode_dir)) [
      | inr other ↦ rw (more, other) tt
      | inl d ↦
          let is_dir : p.ftype ≡ mode_dir = ground arith in
          rw (more, d)
            (after_lookup-IsSound p.nid seg (join_segments segs) cur_path
              (λ nid ftype.
                walk_name look follow (record { nid = nid; ftype = ftype; basename = seg })
                  (extend_path cur_path seg) segs)
              (look p.nid seg) (subst (Reaches look root p.nid) is_dir h.reached) refl
              (λ n ftype r b.
                walk_name-IsSound segs (record { nid = n; ftype = ftype; basename = seg })
                  (extend_path cur_path seg)
                  (record {
                    reached = r;
                    followed =
                        not_followed follow (is_symlink ftype) (not (is_empty (join_segments segs)))
                          b;
                  })))
    ]
  ]

  finish-IsResult :
      (again : ℕ → Bytes → Bytes → Result Place) (o : Outcome)
      → ((n : ℕ) (rest cur_path : Bytes) → IsResult (again n rest cur_path))
      → IsSound o
      → IsResult (finish again o)
  finish-IsResult again (arrived p) h s = s
  finish-IsResult again (stopped problem) h s = tt
  finish-IsResult again (link n rest cur_path) h s = h n rest cur_path

  then-IsResult :
      (r : Result Bytes) (next : Bytes → Result Place)
      → ((b : Bytes) → IsResult (next b))
      → IsResult (r >>= next)
  then-IsResult (err problem) next h = tt
  then-IsResult (ok b) next h = h b

  root_place-IsReached : (name : Bytes) → IsReached (root_place root name)
  root_place-IsReached name = record {
    reached = start;
    followed = not_followed follow false false refl;
  }

  resolve_loop-IsResult :
      (target_of : ℕ → Result Bytes) (links : ℕ) (name : Bytes)
      → IsResult (resolve_loop look target_of root follow links name)
  unfolding resolve_loop
  resolve_loop-IsResult target_of zero name =
      finish-IsResult (λ n rest cur_path. err loop) _ (λ n rest cur_path. tt)
        (walk_name-IsSound _ (root_place root name) [] (root_place-IsReached name))
  resolve_loop-IsResult target_of (suc links) name =
      finish-IsResult
        (λ n rest cur_path. target_of n >>= λ target.
          resolve_loop look target_of root follow links (follow_target target rest cur_path))
        _
        (λ n rest cur_path.
          then-IsResult (target_of n) _
            (λ target. resolve_loop-IsResult target_of links (follow_target target rest cur_path)))
        (walk_name-IsSound _ (root_place root name) [] (root_place-IsReached name))

  named-IsResult :
      (original : Bytes) (r : Result Place)
      → IsResult r
      → IsResult (r >>= λ p. ok (or_original original p))
  named-IsResult original (err problem) h = tt
  named-IsResult original (ok p) h = elim (Bool-cases (is_empty p.basename)) [
    | inl e ↦ rw e (record { reached = h.reached; followed = h.followed })
    | inr e ↦ rw e h
  ]

-- What resolve finds is reached from the root inode by lookups of names in directories, and its type is
-- that of its entry. It is not a symbolic link if links are followed, whatever links the image has.
pub resolve-IsReached :
    (img : Image) (name : Bytes) (follow : Bool) (p : Place)
    → resolve img name follow ≡ ok p
    → Reaches (lookup_in_dir img) img.sb.root_nid p.nid p.ftype
      × ((follow && is_symlink p.ftype) ≡ false)
unfolding resolve
resolve-IsReached img name follow p h =
    let look = lookup_in_dir img in
    let root = img.sb.root_nid in
    let found = subst (IsResult look root follow) h (
      named-IsResult look root follow name _ (
        resolve_loop-IsResult look root follow (read_link img) max_symlinks
          (name_or_empty (path_clean (strip_root name))))) in
    (found.reached, found.followed)
