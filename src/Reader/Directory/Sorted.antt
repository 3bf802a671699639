-- ===== src/Reader/Directory/Sorted.antt =====
-- Directory entries in the order of their names, and the one with a name.
use Prim.Native.Nat.{Ordering}
use go_erofs.Prelude.{
  All-middle, ℕ, ◌≡◌, ◌≢◌, refl, List, [], ◌∷◌, ◌++◌, All, inl, inr, Option, none, some,
}
use go_erofs.Prelude.Order.{Ordering-cases, compare_bytes-eq, compare_bytes_flip}
use go_erofs.Prelude.Bytes.{Bytes, compare_bytes}
use go_erofs.Image.Dirents.{DirentInfo}
use go_erofs.Mode.{erofs_ftype_to_file_mode}
use go_erofs.Reader.{Result, ok, err, not_exist}

-- The entries follow one another in the order of their names, and the names differ.
abbrev pub IsSorted : List DirentInfo → Type 0
IsSorted [] = Unit
IsSorted (d ∷ ds) =
    All (λ (e : DirentInfo). compare_bytes d.name e.name ≡ Ordering.lt) ds × IsSorted ds

-- The first entry with the name.
unfoldable pub find : Bytes → List DirentInfo → Option DirentInfo
find target [] = none
find target (d ∷ ds) =
    let later = find target ds in
    elim (compare_bytes d.name target) [ Ordering.eq ↦ some d | _ ↦ later ]

abbrev pub answer : Option DirentInfo → Result (ℕ × ℕ)
answer none = err not_exist
answer (some d) = ok (d.nid, erofs_ftype_to_file_mode d.file_type)

All-before {κ} :
    (P : DirentInfo → Type κ) (as' bs : List DirentInfo) → All P (as' ++ bs) → All P as'
All-before P [] bs h = tt
All-before P (a ∷ as') bs (p, h) = (p, All-before P as' bs h)

-- Entries of other names are passed over.
pub find_others :
    (target : Bytes) (as' bs : List DirentInfo)
    → All (λ (e : DirentInfo). compare_bytes e.name target ≢ Ordering.eq) as'
    → find target (as' ++ bs) ≡ find target bs
unfolding find
find_others target [] bs h = refl
find_others target (a ∷ as') bs (p, h) = elim (Ordering-cases (compare_bytes a.name target)) [
  | inl e ↦ rw (e, find) (find_others target as' bs h)
  | inr (inl e) ↦ absurd (p e)
  | inr (inr e) ↦ rw (e, find) (find_others target as' bs h)
]

pub find-none :
    (target : Bytes) (as' : List DirentInfo)
    → All (λ (e : DirentInfo). compare_bytes e.name target ≢ Ordering.eq) as'
    → find target as' ≡ none
unfolding find
find-none target [] h = refl
find-none target (a ∷ as') (p, h) = elim (Ordering-cases (compare_bytes a.name target)) [
  | inl e ↦ rw (e, find) (find-none target as' h)
  | inr (inl e) ↦ absurd (p e)
  | inr (inr e) ↦ rw (e, find) (find-none target as' h)
]

pub find_hit :
    (target : Bytes) (d : DirentInfo) (ds : List DirentInfo)
    → compare_bytes d.name target ≡ Ordering.eq
    → find target (d ∷ ds) ≡ some d
unfolding find
find_hit target d ds e = rw (e, find)

pub find_before :
    (target : Bytes) (as' bs : List DirentInfo)
    → find target bs ≡ none
    → find target (as' ++ bs) ≡ find target as'
unfolding find
find_before target [] bs h = h
find_before target (a ∷ as') bs h = elim (Ordering-cases (compare_bytes a.name target)) [
  | inl e ↦ rw (e, find) (find_before target as' bs h)
  | inr (inl e) ↦ rw (e, find)
  | inr (inr e) ↦ rw (e, find) (find_before target as' bs h)
]

module _ (d : DirentInfo) (target : Bytes) where
  -- What sortedness says of the entries before `d` and behind it.
  pub below_others :
      (as' bs : List DirentInfo)
      → IsSorted (as' ++ (d ∷ bs))
      → compare_bytes d.name target ≢ Ordering.gt
      → All (λ (e : DirentInfo). compare_bytes e.name target ≢ Ordering.eq) as'
  below_others [] bs s h = tt
  below_others (a ∷ as') bs (p, s) h = (
    (λ e. h (
        rw (← compare_bytes-eq a.name target e)
          ((compare_bytes_flip a.name d.name).0 (All-middle _ as' bs d p)))),
    below_others as' bs s h,
  )

  pub above_others :
      (bs : List DirentInfo)
      → All (λ (e : DirentInfo). compare_bytes d.name e.name ≡ Ordering.lt) bs
      → compare_bytes d.name target ≢ Ordering.lt
      → All (λ (e : DirentInfo). compare_bytes e.name target ≢ Ordering.eq) bs
  above_others [] p h = tt
  above_others (b ∷ bs) (q, p) h =
      ((λ e. h (rw (← compare_bytes-eq b.name target e) q)), above_others bs p h)

pub IsSorted-append : (as' bs : List DirentInfo) → IsSorted (as' ++ bs) → IsSorted as' × IsSorted bs
IsSorted-append [] bs s = (tt, s)
IsSorted-append (a ∷ as') bs (p, s) =
    let (l, r) = IsSorted-append as' bs s in ((All-before _ as' bs p, l), r)
