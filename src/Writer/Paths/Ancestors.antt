-- ===== src/Writer/Paths/Ancestors.antt =====
-- path.Dir on clean rooted paths: it drops the last segment.
use go_erofs.Prelude.{
  ℕ, ◌==◌, ◌≡◌, ◌≢◌, ◌⊎◌, refl, ap, Bool, true, false, List, [], ◌∷◌, ◌++◌, All, Bool-cases, arith,
  inl, inr,
}
use go_erofs.Prelude.Bytes.{Bytes}
use go_erofs.Writer.Paths.{
  extend, segments, kind, name, skip, parent, Segment, up, push, push_all, join_stack, rooted_path,
  path_clean, is_rooted, has_slash, dir_part, dir, clean_path,
}

abbrev pub HasNoSlash : Bytes → Type 0
HasNoSlash s = All (λ b. b ≢ 47) s

abbrev pub IsName : Bytes → Type 0
IsName s = (kind s ≡ name) × HasNoSlash s

segments_of_name : (s : Bytes) → HasNoSlash s → segments s ≡ s ∷ []
unfolding segments
segments_of_name [] h = refl
segments_of_name (b ∷ s) h = let ih = segments_of_name s h.1 in let d = h.0 in ground arith

extend-append :
    (b : ℕ) (xs : List Bytes) (ys : List Bytes)
    → (xs ≢ [])
    → extend b (xs ++ ys) ≡ extend b xs ++ ys
extend-append b [] ys h = absurd (h refl)
extend-append b (x ∷ xs) ys h = refl

extend_nonempty : (b : ℕ) (xs : List Bytes) → extend b xs ≢ []
extend_nonempty b [] h = cc
extend_nonempty b (x ∷ xs) h = cc

segments_nonempty : (s : Bytes) → segments s ≢ []
unfolding segments
segments_nonempty [] h = cc
segments_nonempty (b ∷ s) h = ground (arith, extend_nonempty b (segments s))

segments-append : (p s : Bytes) → HasNoSlash s → segments (p ++ (47 ∷ s)) ≡ segments p ++ (s ∷ [])
unfolding segments
segments-append [] s h = ap (λ l. [] ∷ l) (segments_of_name s h)
segments-append (b ∷ p) s h =
    let e = extend-append b (segments p) (s ∷ []) (segments_nonempty p) in
    rw (segments-append p s h) (ground (arith, e))

extend-HasNoSlash :
    (b : ℕ) (xs : List Bytes) → b ≢ 47 → All HasNoSlash xs → All HasNoSlash (extend b xs)
extend-HasNoSlash b [] d h = ((d, tt), tt)
extend-HasNoSlash b (x ∷ xs) d h = ((d, h.0), h.1)

pub segments-HasNoSlash : (p : Bytes) → All HasNoSlash (segments p)
unfolding segments
segments-HasNoSlash [] = (tt, tt)
segments-HasNoSlash (b ∷ p) =
    let ih = segments-HasNoSlash p in
    let e : b ≢ 47 → All HasNoSlash (extend b (segments p)) =
      λ d. extend-HasNoSlash b (segments p) d ih in
    elim (Bool-cases (b == 47)) [ inl c ↦ rw c (tt, ih) | inr c ↦ rw c (e (ground arith)) ]

push_all-append :
    (rooted : Bool) (st xs ys : List Bytes)
    → push_all rooted st (xs ++ ys) ≡ push_all rooted (push_all rooted st xs) ys
unfolding push_all
push_all-append rooted st [] ys = refl
push_all-append rooted st (x ∷ xs) ys = push_all-append rooted (push rooted st x) xs ys

pub kind_cases : (k : Segment) → (k ≡ skip) ⊎ (k ≡ parent) ⊎ (k ≡ name)
kind_cases skip = inl refl
kind_cases parent = inr (inl refl)
kind_cases name = inr (inr refl)

push-name :
    (rooted : Bool) (st : List Bytes) (seg : Bytes)
    → kind seg ≡ name
    → push rooted st seg ≡ seg ∷ st
unfolding push
push-name rooted st seg e = rw (e, push) refl

push-IsName :
    (st : List Bytes) (seg : Bytes) → All IsName st → HasNoSlash seg → All IsName (push true st seg)
unfolding push
push-IsName st seg h k = elim (kind_cases (kind seg)) [
  | inl e ↦ rw (e, All, push) h
  | inr (inl e) ↦ rw (e, All, push) (up_names st h)
  | inr (inr e) ↦ rw (push-name true st seg e) ((e, k), h)
]
  where
    up_names : (st : List Bytes) → All IsName st → All IsName (up true st seg)
    up_names [] h = tt
    up_names (t ∷ st) h = rw (h.0.0, All, up) h.1

push_all-IsName :
    (st segs : List Bytes)
    → All IsName st
    → All HasNoSlash segs
    → All IsName (push_all true st segs)
unfolding push_all
push_all-IsName st [] h k = h
push_all-IsName st (seg ∷ segs) h k =
    push_all-IsName (push true st seg) segs (push-IsName st seg h k.0) k.1

-- A path that path.Clean leaves as it is.
pub record IsClean (p : Bytes) : Type 0 where
  pub stack : List Bytes
  pub names : All IsName stack
  pub path : p ≡ rooted_path stack

pub path_clean-IsClean : (p : Bytes) → is_rooted p ≡ true → IsClean (path_clean p)
unfolding path_clean
path_clean-IsClean p h = record {
  stack = push_all true [] (segments p);
  names = push_all-IsName [] (segments p) tt (segments-HasNoSlash p);
  path = rw h refl;
}

push_all-join_stack :
    (st : List Bytes) → All IsName st → push_all true [] (segments (join_stack st)) ≡ st
unfolding join_stack push_all
push_all-join_stack [] h = unfold segments kind in refl
push_all-join_stack (s ∷ st) h =
    rw
      (
        segments-append (join_stack st) s h.0.1,
        push_all-append true [] (segments (join_stack st)) (s ∷ []),
        push_all-join_stack st h.1,
      )
      (push-name true st s h.0.0)

is_rooted-append : (p s : Bytes) → is_rooted p ≡ true → is_rooted (p ++ s) ≡ true
is_rooted-append [] s h = cc
is_rooted-append (b ∷ p) s h = h

is_rooted-join_stack : (st : List Bytes) (s : Bytes) → is_rooted (join_stack st ++ (47 ∷ s)) ≡ true
unfolding join_stack
is_rooted-join_stack [] s = refl
is_rooted-join_stack (x ∷ st) s =
    is_rooted-append (join_stack st ++ (47 ∷ x)) (47 ∷ s) (is_rooted-join_stack st x)

has_slash-none : (s : Bytes) → HasNoSlash s → has_slash s ≡ false
has_slash-none [] h = refl
has_slash-none (b ∷ s) h = let ih = has_slash-none s h.1 in let d = h.0 in ground arith

has_slash-append : (p s : Bytes) → has_slash (p ++ (47 ∷ s)) ≡ true
has_slash-append [] s = refl
has_slash-append (b ∷ p) s = let ih = has_slash-append p s in ground arith

pub dir_part-append : (p s : Bytes) → HasNoSlash s → dir_part (p ++ (47 ∷ s)) ≡ p ++ (47 ∷ [])
unfolding dir_part
dir_part-append [] s h = rw (has_slash-none s h) refl
dir_part-append (b ∷ p) s h = rw (has_slash-append p s, dir_part-append p s h) refl

-- The directory of a clean path drops its last segment.
pub dir-rooted_path :
    (s : Bytes) (st : List Bytes)
    → IsName s
    → All IsName st
    → dir (rooted_path (s ∷ st)) ≡ rooted_path st
unfolding dir rooted_path
dir-rooted_path s st h k =
    rw
      (
        dir_part-append (join_stack st) s h.1,
        is_rooted-join_stack st [],
        segments-append (join_stack st) [] tt,
        push_all-append true [] (segments (join_stack st)) ([] ∷ []),
        push_all-join_stack st k,
      )
      refl

pub dir_part-is_rooted : (p : Bytes) → is_rooted p ≡ true → is_rooted (dir_part p) ≡ true
unfolding dir_part
dir_part-is_rooted [] h = cc
dir_part-is_rooted (b ∷ p) h = ground arith

pub dir-IsClean : (p : Bytes) → is_rooted p ≡ true → IsClean (dir p)
unfolding dir
dir-IsClean p h = path_clean-IsClean (dir_part p) (dir_part-is_rooted p h)

pub clean_path-is_rooted : (p : Bytes) → is_rooted (clean_path p) ≡ true
unfolding clean_path
clean_path-is_rooted p = ground arith
