-- ===== src/Prelude/Order.antt =====
-- bytes.Compare is a strict total order on byte strings.
use Prim.Native.Nat.{Ordering}
use go_erofs.Prelude.{◌≡◌, refl, [], ◌∷◌, arith, ◌⊎◌, inl, inr}
use go_erofs.Prelude.Bytes.{Bytes, compare_bytes}

pub Ordering-cases : (o : Ordering) → (o ≡ Ordering.lt) ⊎ (o ≡ Ordering.eq) ⊎ (o ≡ Ordering.gt)
Ordering-cases Ordering.lt = inl refl
Ordering-cases Ordering.eq = inr (inl refl)
Ordering-cases Ordering.gt = inr (inr refl)

pub compare_bytes-eq : (a b : Bytes) → compare_bytes a b ≡ Ordering.eq → a ≡ b
unfolding compare_bytes
compare_bytes-eq [] [] h = refl
compare_bytes-eq [] (y ∷ b) h = cc
compare_bytes-eq (x ∷ a) [] h = cc
compare_bytes-eq (x ∷ a) (y ∷ b) h = ground (arith, compare_bytes-eq a b)

pub compare_bytes_self : (a : Bytes) → compare_bytes a a ≡ Ordering.eq
unfolding compare_bytes
compare_bytes_self [] = refl
compare_bytes_self (x ∷ a) = ground (arith, compare_bytes_self a)

pub compare_bytes_flip :
    (a b : Bytes)
    → ((compare_bytes a b ≡ Ordering.lt) → (compare_bytes b a ≡ Ordering.gt))
      × ((compare_bytes a b ≡ Ordering.gt) → (compare_bytes b a ≡ Ordering.lt))
unfolding compare_bytes
compare_bytes_flip [] [] = (λ h. cc, λ h. cc)
compare_bytes_flip [] (y ∷ b) = (λ h. refl, λ h. cc)
compare_bytes_flip (x ∷ a) [] = (λ h. cc, λ h. refl)
compare_bytes_flip (x ∷ a) (y ∷ b) =
    let (l, g) = compare_bytes_flip a b in (λ h. ground (arith, l), λ h. ground (arith, g))

pub compare_bytes_trans :
    (a b c : Bytes)
    → compare_bytes a b ≡ Ordering.lt
    → compare_bytes b c ≡ Ordering.lt
    → compare_bytes a c ≡ Ordering.lt
unfolding compare_bytes
compare_bytes_trans [] [] c h k = cc
compare_bytes_trans [] (y ∷ b) [] h k = cc
compare_bytes_trans [] (y ∷ b) (z ∷ c) h k = refl
compare_bytes_trans (x ∷ a) [] c h k = cc
compare_bytes_trans (x ∷ a) (y ∷ b) [] h k = cc
compare_bytes_trans (x ∷ a) (y ∷ b) (z ∷ c) h k = ground (arith, compare_bytes_trans a b c)
