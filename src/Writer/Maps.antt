-- ===== src/Writer/Maps.antt =====
-- Go maps whose keys are strings, as association lists with one pair for each key.
use go_erofs.Prelude.{
  ◌≡◌, refl, if◌then◌else◌, true, Option, none, some, List, [], ◌∷◌, inl, inr, arith,
}
use go_erofs.Prelude.Bytes.{Bytes, compare_bytes}
use go_erofs.Prelude.Order.{compare_bytes-eq, compare_bytes_self, Ordering-cases}
use go_erofs.Writer.Paths.{same_bytes}

abbrev pub Dict {ℓ} : Type ℓ → Type ℓ
Dict V = List (Bytes × V)

module _ {ℓ} {V : Type ℓ} where
  -- v, ok := d[k]
  unfoldable pub get : Bytes → Dict V → Option V
  get k [] = none
  get k ((j, v) ∷ d) = if same_bytes j k then some v else get k d

  -- delete(d, k)
  unfoldable pub delete : Bytes → Dict V → Dict V
  delete k [] = []
  delete k ((j, v) ∷ d) = if same_bytes j k then delete k d else (j, v) ∷ delete k d

  -- d[k] = v
  unfoldable pub put : Bytes → V → Dict V → Dict V
  unfolding delete
  put k v d = (k, v) ∷ delete k d

pub same_bytes-eq : (a b : Bytes) → same_bytes a b ≡ true → a ≡ b
unfolding same_bytes
same_bytes-eq a b h = elim (Ordering-cases (compare_bytes a b)) [
  | inl e ↦ ground arith
  | inr (inl e) ↦ compare_bytes-eq a b e
  | inr (inr e) ↦ ground arith
]

pub same_bytes_self : (a : Bytes) → same_bytes a a ≡ true
unfolding same_bytes
same_bytes_self a = rw (compare_bytes_self a, same_bytes) refl

module _ {ℓ} {V : Type ℓ} where
  pub get-delete :
      (k j : Bytes) (d : Dict V) → get j (delete k d) ≡ (if same_bytes k j then none else get j d)
  unfolding get delete
  get-delete k j [] = ground arith
  get-delete k j ((i, v) ∷ d) = ground (
    arith,
    get-delete k j d,
    same_bytes-eq i k,
    same_bytes-eq k j,
    same_bytes-eq i j,
    same_bytes_self j,
  )

  pub get-put :
      (k j : Bytes) (v : V) (d : Dict V)
      → get j (put k v d) ≡ (if same_bytes k j then some v else get j d)
  unfolding get put
  get-put k j v d = ground (arith, get-delete k j d)
