-- ===== src/Writer/Paths/Sizes.antt =====
-- A path that cleanPath of mkfs.go gives is the root or longer than its directory.
use go_erofs.Prelude.{
  ℕ, suc, ◌+◌, ◌<◌, ◌≤◌, ◌≡◌, ◌⊎◌, refl, sym, ap, subst, Bool, true, false, List, [], ◌∷◌, ◌++◌,
  All, drop, is_empty, if◌then◌else◌, drop-append_within, length, length-append, arith, Bool-cases,
  inl, inr,
}
use go_erofs.Prelude.Bytes.{Bytes}
use go_erofs.Writer.Paths.{
  root_path, same_bytes, extend, segments, kind, parent, name, up, push, push_all, join_stack,
  rooted_path, relative_path, path_clean, is_rooted, dir_part, dir, clean_path,
}
use go_erofs.Writer.Paths.Ancestors.{
  HasNoSlash, kind_cases, segments-HasNoSlash, dir_part-append, dir_part-is_rooted,
  clean_path-is_rooted,
}

-- The bytes of the segments with a slash each.
weight : List Bytes → ℕ
weight [] = 0
weight (s ∷ ss) = suc (length s) + weight ss

weight-segments : (p : Bytes) → weight (segments p) ≡ suc (length p)
unfolding weight segments
weight-segments [] = refl
weight-segments (b ∷ p) =
    let ih = weight-segments p in let e = weight-extend b (segments p) in ground arith
  where
    weight-extend :
        (b : ℕ) (ss : List Bytes) → 0 < weight ss → weight (extend b ss) ≡ suc (weight ss)
    weight-extend b [] h = absurd (omega arith)
    weight-extend b (s ∷ ss) h = omega arith

weight-join_stack : (st : List Bytes) → length (join_stack st) ≡ weight st
unfolding weight join_stack
weight-join_stack [] = refl
weight-join_stack (s ∷ st) =
    omega (arith, length-append (join_stack st) (47 ∷ s), weight-join_stack st)

weight-push :
    (st : List Bytes) (seg : Bytes) → weight (push true st seg) ≤ suc (length seg) + weight st
unfolding weight push
weight-push st seg = elim (kind_cases (kind seg)) [
  | inl e ↦ rw (e, push) (omega arith)
  | inr (inl e) ↦ rw (e, push) (weight-up st)
  | inr (inr e) ↦ rw (e, push) (omega arith)
]
  where
    weight-up : (st : List Bytes) → weight (up true st seg) ≤ suc (length seg) + weight st
    weight-up [] = omega arith
    weight-up (t ∷ st) = ground arith

weight-push_all : (st segs : List Bytes) → weight (push_all true st segs) ≤ weight segs + weight st
unfolding weight push_all
weight-push_all st [] = omega arith
weight-push_all st (s ∷ segs) =
    omega (arith, weight-push_all (push true st s) segs, weight-push st s)

rooted_weight : (st : List Bytes) (n : ℕ) → weight st ≤ n → 0 < n → length (rooted_path st) ≤ n
unfolding weight rooted_path
rooted_weight [] n h b = omega arith
rooted_weight (s ∷ st) n h b = omega (arith, weight-join_stack (s ∷ st))

-- path.Clean makes no rooted path longer.
path_clean_shorter : (p : Bytes) → is_rooted p ≡ true → length (path_clean p) ≤ length p
unfolding path_clean
path_clean_shorter [] h = cc
path_clean_shorter (b ∷ p) h = rw h (
    rooted_weight (push_all true [] (segments p)) (suc (length p))
      (unfold weight in omega (arith, weight-push_all [] (segments p), weight-segments p))
      (omega arith))

-- A segment that stays in a stack.
abbrev IsWord : Bytes → Type 0
IsWord s = (0 < length s) × HasNoSlash s

push-IsWord :
    (rooted : Bool) (st : List Bytes) (seg : Bytes)
    → All IsWord st
    → HasNoSlash seg
    → All IsWord (push rooted st seg)
unfolding push
push-IsWord rooted st seg h k = elim (kind_cases (kind seg)) [
  | inl e ↦ rw (e, All, push) h
  | inr (inl e) ↦ rw (e, All, push) (up_words rooted st h (word seg (parent_word seg e) k))
  | inr (inr e) ↦ rw (e, All, push) (word seg (name_word seg e) k, h)
]
  where
    parent_word : (seg : Bytes) → kind seg ≡ parent → 0 < length seg
    parent_word [] e = cc
    parent_word (b ∷ s) e = omega arith

    name_word : (seg : Bytes) → kind seg ≡ name → 0 < length seg
    name_word [] e = cc
    name_word (b ∷ s) e = omega arith

    word : (seg : Bytes) → 0 < length seg → HasNoSlash seg → IsWord seg
    word seg b k = (b, k)

    up_words :
        (rooted : Bool) (st : List Bytes)
        → All IsWord st
        → IsWord seg
        → All IsWord (up rooted st seg)
    up_words true [] h k = tt
    up_words false [] h k = (k, tt)
    up_words rooted (t ∷ st) h k = elim (kind_cases (kind t)) [
      | inl e ↦ rw (e, All, up) h.1
      | inr (inl e) ↦ rw (e, All, up) (k, h)
      | inr (inr e) ↦ rw (e, All, up) h.1
    ]

push_all-IsWord :
    (rooted : Bool) (st segs : List Bytes)
    → All IsWord st
    → All HasNoSlash segs
    → All IsWord (push_all rooted st segs)
unfolding push_all
push_all-IsWord rooted st [] h k = h
push_all-IsWord rooted st (s ∷ segs) h k =
    push_all-IsWord rooted (push rooted st s) segs (push-IsWord rooted st s h k.0) k.1

-- A path that ends in a segment that is not empty.
record EndsInWord (p : Bytes) : Type 0 where
  front : Bytes
  last : Bytes
  word : IsWord last
  path : p ≡ front ++ (47 ∷ last)

ends-dir : (p : Bytes) → is_rooted p ≡ true → EndsInWord p → length (dir p) < length p
unfolding dir
ends-dir p r h =
    let e : dir_part p ≡ h.front ++ (47 ∷ []) =
      rw h.path (dir_part-append h.front h.last h.word.1) in
    omega (
      arith,
      path_clean_shorter (dir_part p) (dir_part-is_rooted p r),
      ap length e,
      ap length h.path,
      length-append h.front (47 ∷ []),
      length-append h.front (47 ∷ h.last),
      h.word.0,
    )

stack_ends : (s : Bytes) (st : List Bytes) → IsWord s → EndsInWord (join_stack (s ∷ st))
unfolding join_stack
stack_ends s st h = record { front = join_stack st; last = s; word = h; path = refl }

abbrev RootOrEnds : Bytes → Type 0
RootOrEnds p = (p ≡ root_path) ⊎ EndsInWord p

rooted_ends : (st : List Bytes) → All IsWord st → RootOrEnds (rooted_path st)
unfolding rooted_path
rooted_ends [] h = inl refl
rooted_ends (s ∷ st) h = inr (stack_ends s st h.0)

dot_ends : EndsInWord (47 ∷ 46 ∷ [])
dot_ends = record {
  front = [];
  last = 46 ∷ [];
  word = (omega arith, (omega arith, tt));
  path = refl;
}

from_slash : (l m : Bytes) → 47 ∷ drop 1 l ≡ l → 47 ∷ drop 1 (l ++ m) ≡ l ++ m
from_slash [] m h = cc
from_slash (x ∷ l) m h = ap (λ q. q ++ m) h

join_stack_slash :
    (s : Bytes) (st : List Bytes) → 47 ∷ drop 1 (join_stack (s ∷ st)) ≡ join_stack (s ∷ st)
unfolding join_stack
join_stack_slash s [] = refl
join_stack_slash s (t ∷ st) = from_slash (join_stack (t ∷ st)) (47 ∷ s) (join_stack_slash t st)

relative_ends : (st : List Bytes) → All IsWord st → EndsInWord (47 ∷ relative_path st)
relative_ends [] h = dot_ends
relative_ends (s ∷ st) h = subst EndsInWord (sym (join_stack_slash s st)) (stack_ends s st h.0)

word_unrooted : (s : Bytes) → IsWord s → is_rooted s ≡ false
word_unrooted [] h = absurd (omega arith)
word_unrooted (b ∷ s) h = let d = h.1.0 in ground arith

-- A relative path starts with a segment; were it rooted, it would end in one all the same.
relative_ends_rooted :
    (st : List Bytes)
    → All IsWord st
    → is_rooted (relative_path st) ≡ true
    → EndsInWord (relative_path st)
unfolding join_stack
relative_ends_rooted [] h r = cc
relative_ends_rooted (s ∷ []) h r = absurd (ground (arith, word_unrooted s h.0))
relative_ends_rooted (s ∷ t ∷ st) h r = record {
  front = drop 1 (join_stack (t ∷ st));
  last = s;
  word = h.0;
  path =
      drop-append_within 1 (join_stack (t ∷ st)) (47 ∷ s)
        (omega (arith, length-append (join_stack st) (47 ∷ t)));
}

words : (rooted : Bool) (p : Bytes) → All IsWord (push_all rooted [] (segments p))
words rooted p = push_all-IsWord rooted [] (segments p) tt (segments-HasNoSlash p)

rooted_path-is_rooted : (st : List Bytes) → is_rooted (rooted_path st) ≡ true
unfolding rooted_path
rooted_path-is_rooted [] = refl
rooted_path-is_rooted (s ∷ st) = ap is_rooted (sym (join_stack_slash s st))

rooted_by_hand : Bytes → Bytes
rooted_by_hand c = if is_rooted c then c else 47 ∷ c

by_hand_ends : (p : Bytes) → RootOrEnds (rooted_by_hand (path_clean p))
unfolding path_clean rooted_by_hand
by_hand_ends p = elim (Bool-cases (is_rooted p)) [
  | inl r ↦
      let st = push_all true [] (segments p) in
      rw (r, rooted_path-is_rooted st) (rooted_ends st (words true p))
  | inr r ↦
      let st = push_all false [] (segments p) in
      rw r (
        inr (elim (Bool-cases (is_rooted (relative_path st))) [
          | inl k ↦ rw k (relative_ends_rooted st (words false p) k)
          | inr k ↦ rw k (relative_ends st (words false p))
        ]))
]

clean_path_ends : (p : Bytes) → RootOrEnds (clean_path p)
unfolding clean_path rooted_by_hand
clean_path_ends p = elim (Bool-cases (is_empty p)) [
  | inl e ↦ rw e (inl refl)
  | inr e ↦ elim (Bool-cases (same_bytes p (46 ∷ []))) [
    | inl f ↦ rw (e, f) (inl refl)
    | inr f ↦ elim (Bool-cases (same_bytes p root_path)) [
      | inl g ↦ rw (e, f, g) (inl refl)
      | inr g ↦ rw (e, f, g) (by_hand_ends p)
    ]
  ]
]

pub clean_path_cases :
    (p : Bytes) → (clean_path p ≡ root_path) ⊎ (length (dir (clean_path p)) < length (clean_path p))
clean_path_cases p = elim (clean_path_ends p) [
  | inl e ↦ inl e
  | inr h ↦ inr (ends-dir (clean_path p) (clean_path-is_rooted p) h)
]
