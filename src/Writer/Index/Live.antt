-- ===== src/Writer/Index/Live.antt =====
-- The index of the entries under what mkfs.go does to them: appending an entry, assigning to fields
-- of one, and marking one as removed.
use go_erofs.Prelude.{
  ℕ, zero, suc, ◌<◌, ◌≡◌, refl, ap, Bool, false, if◌then◌else◌, Option, none, some, List, [], ◌∷◌,
  ◌++◌, length, arith,
}
use go_erofs.Prelude.Bytes.{Bytes}
use go_erofs.Writer.{FsEntry, entry_at, update}
use go_erofs.Writer.Maps.{same_bytes-eq, same_bytes_self}
use go_erofs.Writer.Paths.{same_bytes}
use go_erofs.Writer.Tree.{set_removed}
use go_erofs.Writer.Index.{is_at, live, AreDistinct}

abbrev pub or_new : Option ℕ → Bool → ℕ → Option ℕ
or_new none b n = if b then some n else none
or_new (some i) b n = some i

pub live-append :
    (p : Bytes) (es : List FsEntry) (e : FsEntry)
    → live p (es ++ (e ∷ [])) ≡ or_new (live p es) (is_at p e) (length es)
unfolding live
live-append p [] e = refl
live-append p (x ∷ es) e = rw (live-append p es e) (ground arith)

pub length-update :
    (i : ℕ) (f : FsEntry → FsEntry) (es : List FsEntry) → length (update i f es) ≡ length es
length-update i f [] = refl
length-update zero f (e ∷ es) = refl
length-update (suc i) f (e ∷ es) = ap suc (length-update i f es)

pub entry_at-update :
    (f : FsEntry → FsEntry) (i : ℕ) (es : List FsEntry)
    → i < length es
    → entry_at i (update i f es) ≡ f (entry_at i es)
entry_at-update f i [] h = absurd (omega arith)
entry_at-update f zero (e ∷ es) h = refl
entry_at-update f (suc i) (e ∷ es) h = entry_at-update f i es (omega arith)

module _ (f : FsEntry → FsEntry) (same_path : (e : FsEntry) → (f e).path ≡ e.path)
    (same_removed : (e : FsEntry) → (f e).removed ≡ e.removed) where
  pub live-update : (p : Bytes) (i : ℕ) (es : List FsEntry) → live p (update i f es) ≡ live p es
  unfolding live
  live-update p i [] = refl
  live-update p zero (e ∷ es) = rw (same_path e, same_removed e) refl
  live-update p (suc i) (e ∷ es) = rw (live-update p i es) refl

  pub update-AreDistinct :
      (i : ℕ) (es : List FsEntry) → AreDistinct es → AreDistinct (update i f es)
  update-AreDistinct i [] h = tt
  update-AreDistinct zero (e ∷ es) h = rw (same_path e, same_removed e) h
  update-AreDistinct (suc i) (e ∷ es) h =
      (rw (live-update e.path i es) h.0, update-AreDistinct i es h.1)

pub live_found :
    (p : Bytes) (i : ℕ) (es : List FsEntry)
    → live p es ≡ some i
    → (i < length es) × ((entry_at i es).path ≡ p) × ((entry_at i es).removed ≡ false)
unfolding live
live_found p i [] h = cc
live_found p zero (e ∷ es) h = ground (arith, same_bytes-eq e.path p)
live_found p (suc i) (e ∷ es) h = ground (arith, live_found p i es)

pub append-AreDistinct :
    (es : List FsEntry) (e : FsEntry)
    → AreDistinct es
    → live e.path es ≡ none
    → AreDistinct (es ++ (e ∷ []))
unfolding live
append-AreDistinct [] e h k = ground arith
append-AreDistinct (x ∷ es) e h k =
    ground
      (arith, append-AreDistinct es e h.1, live-append x.path es e, same_bytes-eq e.path x.path)

pub live_at :
    (i : ℕ) (es : List FsEntry)
    → AreDistinct es
    → i < length es
    → (entry_at i es).removed ≡ false
    → live (entry_at i es).path es ≡ some i
unfolding live
live_at i [] h b r = absurd (omega arith)
live_at zero (e ∷ es) h b r = rw (r, same_bytes_self e.path) refl
live_at (suc i) (e ∷ es) h b r =
    ground (arith, live_at i es h.1, same_bytes-eq e.path (entry_at i es).path)

live-removed_no :
    (p : Bytes) (i : ℕ) (es : List FsEntry)
    → live p es ≡ none
    → live p (update i set_removed es) ≡ none
unfolding live
live-removed_no p i [] h = refl
live-removed_no p zero (e ∷ es) h = ground arith
live-removed_no p (suc i) (e ∷ es) h = ground (arith, live-removed_no p i es)

pub removed-AreDistinct :
    (i : ℕ) (es : List FsEntry) → AreDistinct es → AreDistinct (update i set_removed es)
removed-AreDistinct i [] h = tt
removed-AreDistinct zero (e ∷ es) h = (refl, h.1)
removed-AreDistinct (suc i) (e ∷ es) h =
    ground (arith, removed-AreDistinct i es h.1, live-removed_no e.path i es)

pub live-removed :
    (p q : Bytes) (i : ℕ) (es : List FsEntry)
    → AreDistinct es
    → live q es ≡ some i
    → live p (update i set_removed es) ≡ (if same_bytes q p then none else live p es)
unfolding live
live-removed p q i [] h k = cc
live-removed p q zero (e ∷ es) h k = ground (arith, same_bytes-eq e.path q, same_bytes-eq q p)
live-removed p q (suc i) (e ∷ es) h k =
    ground (
      arith,
      live-removed p q i es h.1,
      same_bytes-eq e.path p,
      same_bytes-eq q p,
      same_bytes_self q,
    )
