-- ===== src/Xattr/Distinct.antt =====
-- Maps of attributes with one pair for each name: sorting them, and assigning their pairs in order.
use Prim.Native.Nat.{Ordering}
use go_erofs.Prelude.{
  ◌≡◌, ◌≢◌, refl, sym, ap, ◌∙◌, List, [], ◌∷◌, ◌++◌, append_assoc, append-nil, inl, inr, All, false,
  is_empty,
}
use go_erofs.Prelude.Order.{Ordering-cases, compare_bytes-eq}
use go_erofs.Prelude.Bytes.{Bytes, compare_bytes}
use go_erofs.Image.Dirents.{insert_by, sort_by}
use go_erofs.Xattr.{Attrs, assign, sorted_xattrs}

abbrev pub assign_all : Attrs → Attrs → Attrs
assign_all acc [] = acc
assign_all acc ((k, v) ∷ m) = assign_all (assign k v acc) m

-- The attributes of one file have different names.
abbrev pub IsDistinct : Attrs → Type 0
IsDistinct [] = Unit
IsDistinct (kv ∷ m) = All (λ (kw : Bytes × Bytes). kv.0 ≢ kw.0) m × IsDistinct m

module _ (P : Bytes × Bytes → Type 0) where
  All-insert :
      (kv : Bytes × Bytes) (m : Attrs) → P kv → All P m → All P (insert_by (λ kw. kw.0) kv m)
  unfolding insert_by
  All-insert kv [] p h = (p, tt)
  All-insert kv (kw ∷ m) p (q, h) = by_order (compare_bytes kv.0 kw.0) (All-insert kv m p h)
    where
      by_order :
          (o : Ordering)
          → All P (insert_by (λ kw. kw.0) kv m)
          → All P (elim o [ Ordering.gt ↦ kw ∷ insert_by (λ kw. kw.0) kv m | _ ↦ kv ∷ kw ∷ m ])
      by_order Ordering.lt ih = (p, (q, h))
      by_order Ordering.eq ih = (p, (q, h))
      by_order Ordering.gt ih = (q, ih)

  pub All-sorted : (m : Attrs) → All P m → All P (sorted_xattrs m)
  unfolding sorted_xattrs sort_by
  All-sorted [] h = tt
  All-sorted (kv ∷ m) (p, h) = All-insert kv (sorted_xattrs m) p (All-sorted m h)

IsDistinct-insert :
    (kv : Bytes × Bytes) (m : Attrs)
    → All (λ (kw : Bytes × Bytes). kv.0 ≢ kw.0) m
    → IsDistinct m
    → IsDistinct (insert_by (λ kw. kw.0) kv m)
unfolding insert_by
IsDistinct-insert kv [] p h = (tt, tt)
IsDistinct-insert kv (kw ∷ m) (ne, p) (q, h) =
    by_order (compare_bytes kv.0 kw.0) (All-insert (λ kx. kw.0 ≢ kx.0) kv m (λ e. ne (sym e)) q)
      (IsDistinct-insert kv m p h)
  where
    by_order :
        (o : Ordering)
        → All (λ (kx : Bytes × Bytes). kw.0 ≢ kx.0) (insert_by (λ kw. kw.0) kv m)
        → IsDistinct (insert_by (λ kw. kw.0) kv m)
        → IsDistinct (elim o [ Ordering.gt ↦ kw ∷ insert_by (λ kw. kw.0) kv m | _ ↦ kv ∷ kw ∷ m ])
    by_order Ordering.lt a ih = ((ne, p), (q, h))
    by_order Ordering.eq a ih = ((ne, p), (q, h))
    by_order Ordering.gt a ih = (a, ih)

pub IsDistinct-sorted : (m : Attrs) → IsDistinct m → IsDistinct (sorted_xattrs m)
unfolding sorted_xattrs sort_by
IsDistinct-sorted [] h = tt
IsDistinct-sorted (kv ∷ m) (p, h) =
    IsDistinct-insert kv (sorted_xattrs m) (All-sorted (λ kw. kv.0 ≢ kw.0) m p)
      (IsDistinct-sorted m h)

assign_fresh :
    (name value : Bytes) (acc : Attrs)
    → All (λ (kv : Bytes × Bytes). kv.0 ≢ name) acc
    → assign name value acc ≡ acc ++ ((name, value) ∷ [])
unfolding assign
assign_fresh name value [] h = refl
assign_fresh name value ((k, v) ∷ acc) (ne, h) = elim (Ordering-cases (compare_bytes k name)) [
  | inl e ↦ rw (e, assign) (ap (λ l. (k, v) ∷ l) (assign_fresh name value acc h))
  | inr (inl e) ↦ absurd (ne (compare_bytes-eq k name e))
  | inr (inr e) ↦ rw (e, assign) (ap (λ l. (k, v) ∷ l) (assign_fresh name value acc h))
]

All-append {ℓ κ} :
    {A : Type ℓ} (P : A → Type κ) (xs : List A) (y : A) → All P xs → P y → All P (xs ++ (y ∷ []))
All-append P [] y h p = (p, tt)
All-append P (x ∷ xs) y (q, h) p = (q, All-append P xs y h p)

-- No name of the accumulator comes again.
abbrev pub Apart : Attrs → Attrs → Type 0
Apart acc m = All (λ (kv : Bytes × Bytes). All (λ (kw : Bytes × Bytes). kw.0 ≢ kv.0) acc) m

pub Apart-nil : (m : Attrs) → Apart [] m
Apart-nil [] = tt
Apart-nil (kv ∷ m) = (tt, Apart-nil m)

pub assign_all_distinct : (m acc : Attrs) → IsDistinct m → Apart acc m → assign_all acc m ≡ acc ++ m
assign_all_distinct [] acc d h = sym (append-nil acc)
assign_all_distinct ((k, v) ∷ m) acc (p, d) (h, hs) = rw (assign_fresh k v acc h) (
    assign_all_distinct m (acc ++ ((k, v) ∷ [])) d (extend m p hs)
    ∙ append_assoc acc ((k, v) ∷ []) m)
  where
    extend :
        (l : Attrs)
        → All (λ (kw : Bytes × Bytes). k ≢ kw.0) l
        → Apart acc l
        → Apart (acc ++ ((k, v) ∷ [])) l
    extend [] a b = tt
    extend (kw ∷ l) (n, a) (b, bs) = (All-append (λ kx. kx.0 ≢ kw.0) acc (k, v) b n, extend l a bs)

pub sorted_xattrs-nonempty :
    (kv : Bytes × Bytes) (m : Attrs) → is_empty (sorted_xattrs (kv ∷ m)) ≡ false
unfolding sorted_xattrs sort_by
sorted_xattrs-nonempty kv m = insert_nonempty (sorted_xattrs m)
  where
    insert_nonempty : (l : Attrs) → is_empty (insert_by (λ kw. kw.0) kv l) ≡ false
    insert_nonempty [] = refl
    insert_nonempty (kw ∷ l) = by_order (compare_bytes kv.0 kw.0)
      where
        by_order :
            (o : Ordering)
            → is_empty (elim o [ Ordering.gt ↦ kw ∷ insert_by (λ kw. kw.0) kv l | _ ↦ kv ∷ kw ∷ l ])
              ≡ false
        by_order Ordering.lt = refl
        by_order Ordering.eq = refl
        by_order Ordering.gt = refl
