-- ===== src/Blob/Order.antt =====
-- The comparison of views in common/utils/blob.cpp, by which `BlobSorter` sorts the keys of maps.
use natbuster.Prelude.{
  ℕ, suc, ◌<◌, ◌≡◌, refl, sym, ap, ◌∙◌, Bool, true, false, not, Option, none, some, inl, inr, List,
  [], ◌∷◌, arith, ltb, leb, ◌==◌, if◌then◌else◌, length, take, Bool-cases, ◌⊎◌, ◌↔◌, subst,
}

-- `std::strong_ordering`
pub data Strong : Type 0 where
  less : Strong
  equal : Strong
  greater : Strong

-- `a <=> b` on numbers.
unfoldable pub three_way : ℕ → ℕ → Strong
three_way a b = if ltb a b then less else if ltb b a then greater else equal

-- `memcmp(...) == 0` on ranges of the same length.
unfoldable pub memcmp_equal : List ℕ → List ℕ → Bool
memcmp_equal (x ∷ xs) (y ∷ ys) = let rest = memcmp_equal xs ys in if x == y then rest else false
memcmp_equal [] ys = true
memcmp_equal (x ∷ xs) [] = true

-- `operator==`
unfoldable pub views_equal : List ℕ → List ℕ → Bool
views_equal lhs rhs = if not (length lhs == length rhs) then false else memcmp_equal lhs rhs

-- `operator!=`, which reads past the end of `rhs` if that is shorter.
unfoldable pub views_not_equal : List ℕ → List ℕ → Option Bool
views_not_equal lhs rhs =
    if length lhs == length rhs
    then some true
    else if leb (length lhs) (length rhs)
    then some (not (memcmp_equal lhs (take (length lhs) rhs)))
    else none

-- The loop of `operator<=>`, with the result when it ends.
unfoldable pub spaceship_loop : List ℕ → List ℕ → Strong → Strong
spaceship_loop (x ∷ xs) (y ∷ ys) by_size = elim (three_way x y) [
  | equal ↦ spaceship_loop xs ys by_size
  | less ↦ less
  | greater ↦ greater
]
spaceship_loop [] ys by_size = by_size
spaceship_loop (x ∷ xs) [] by_size = by_size

-- `operator<=>`
unfoldable pub spaceship : List ℕ → List ℕ → Strong
spaceship lhs rhs = spaceship_loop lhs rhs (three_way (length lhs) (length rhs))

-- `BlobSorter`
abbrev pub Sorted : List ℕ → List ℕ → Type 0
Sorted lhs rhs = spaceship lhs rhs ≡ less

three_way-suc : (m n : ℕ) → three_way (suc m) (suc n) ≡ three_way m n
unfolding three_way
three_way-suc m n = ground arith

spaceship-cons :
    (x y : ℕ) (xs ys : List ℕ)
    → spaceship (x ∷ xs) (y ∷ ys)
      ≡ elim (three_way x y) [ equal ↦ spaceship xs ys | less ↦ less | greater ↦ greater ]
unfolding spaceship spaceship_loop
spaceship-cons x y xs ys =
    ap
      (λ s. elim (three_way x y) [
        | equal ↦ spaceship_loop xs ys s
        | less ↦ less
        | greater ↦ greater
      ])
      (three_way-suc (length xs) (length ys))

abbrev pub flip : Strong → Strong
flip less = greater
flip equal = equal
flip greater = less

-- Comparing two views the other way round gives the opposite, so exactly one of `<`, `>` and
-- equivalence holds.
pub spaceship-flip : (xs ys : List ℕ) → spaceship ys xs ≡ flip (spaceship xs ys)
unfolding spaceship spaceship_loop three_way
spaceship-flip [] [] = refl
spaceship-flip [] (y ∷ ys) = ground arith
spaceship-flip (x ∷ xs) [] = ground arith
spaceship-flip (x ∷ xs) (y ∷ ys) =
    spaceship-cons y x ys xs
    ∙ ground (arith, spaceship-flip xs ys)
    ∙ ap flip (sym (spaceship-cons x y xs ys))

cons_equal :
    (x y : ℕ) (xs ys : List ℕ)
    → spaceship (x ∷ xs) (y ∷ ys) ≡ equal
    → (x ≡ y) × (spaceship xs ys ≡ equal)
unfolding three_way
cons_equal x y xs ys e =
    let h = sym (spaceship-cons x y xs ys) ∙ e in (ground (arith, h), ground (arith, h))

cons_less :
    (x y : ℕ) (xs ys : List ℕ) → Sorted (x ∷ xs) (y ∷ ys) → (x < y) ⊎ ((x ≡ y) × Sorted xs ys)
unfolding three_way
cons_less x y xs ys e =
    let h = sym (spaceship-cons x y xs ys) ∙ e in
    elim (Bool-cases (ltb x y)) [
      | inl a ↦ inl (ground (arith, a))
      | inr b ↦ inr (ground (arith, h, b), ground (arith, h, b))
    ]

less_head : (x y : ℕ) (xs ys : List ℕ) → x < y → Sorted (x ∷ xs) (y ∷ ys)
unfolding three_way
less_head x y xs ys h = spaceship-cons x y xs ys ∙ ground (arith, h)

less_tail : (x y : ℕ) (xs ys : List ℕ) → x ≡ y → Sorted xs ys → Sorted (x ∷ xs) (y ∷ ys)
unfolding three_way
less_tail x y xs ys h l = spaceship-cons x y xs ys ∙ ground (arith, h, l)

-- Two views that are equivalent in the order show the same bytes.
pub spaceship_equal : (xs ys : List ℕ) → spaceship xs ys ≡ equal → xs ≡ ys
unfolding spaceship spaceship_loop three_way
spaceship_equal [] [] e = refl
spaceship_equal [] (y ∷ ys) e = absurd (ground (arith, e))
spaceship_equal (x ∷ xs) [] e = absurd (ground (arith, e))
spaceship_equal (x ∷ xs) (y ∷ ys) e =
    let (h, t) = cons_equal x y xs ys e in
    ap (λ k. k ∷ xs) h ∙ ap (λ k. y ∷ k) (spaceship_equal xs ys t)

-- The order is transitive.
pub Sorted-trans : (xs ys zs : List ℕ) → Sorted xs ys → Sorted ys zs → Sorted xs zs
unfolding spaceship spaceship_loop three_way
Sorted-trans [] [] zs h k = absurd (ground (arith, h))
Sorted-trans [] (y ∷ ys) [] h k = absurd (ground (arith, k))
Sorted-trans [] (y ∷ ys) (z ∷ zs) h k = ground arith
Sorted-trans (x ∷ xs) [] zs h k = absurd (ground (arith, h))
Sorted-trans (x ∷ xs) (y ∷ ys) [] h k = absurd (ground (arith, k))
Sorted-trans (x ∷ xs) (y ∷ ys) (z ∷ zs) h k = elim (cons_less x y xs ys h) [
  | inl a ↦ elim (cons_less y z ys zs k) [
    | inl b ↦ less_head x z xs zs (omega (arith, a, b))
    | inr (b, l) ↦ less_head x z xs zs (omega (arith, a, b))
  ]
  | inr (a, l) ↦ elim (cons_less y z ys zs k) [
    | inl b ↦ less_head x z xs zs (omega (arith, a, b))
    | inr (b, m) ↦ less_tail x z xs zs (omega (arith, a, b)) (Sorted-trans xs ys zs l m)
  ]
]

memcmp_equal-eq : (xs ys : List ℕ) → length xs ≡ length ys → memcmp_equal xs ys ≡ true → xs ≡ ys
unfolding memcmp_equal
memcmp_equal-eq [] [] l e = refl
memcmp_equal-eq [] (y ∷ ys) l e = absurd (omega (arith, l))
memcmp_equal-eq (x ∷ xs) [] l e = absurd (omega (arith, l))
memcmp_equal-eq (x ∷ xs) (y ∷ ys) l e =
    let head : x ≡ y = ground (arith, e) in
    ap (λ k. k ∷ xs) head
    ∙ ap (λ k. y ∷ k) (memcmp_equal-eq xs ys (omega (arith, l)) (ground (arith, e)))

memcmp_equal_refl : (xs : List ℕ) → memcmp_equal xs xs ≡ true
unfolding memcmp_equal
memcmp_equal_refl [] = refl
memcmp_equal_refl (x ∷ xs) = ground (arith, memcmp_equal_refl xs)

views_equal_refl : (xs ys : List ℕ) → xs ≡ ys → views_equal xs ys ≡ true
unfolding views_equal
views_equal_refl xs ys e =
    subst (λ k. views_equal xs k ≡ true) e (ground (arith, memcmp_equal_refl xs))

-- `operator==` returns true exactly for views of the same bytes.
pub views_equal_iff : (xs ys : List ℕ) → (views_equal xs ys ≡ true) ↔ (xs ≡ ys)
unfolding views_equal
views_equal_iff xs ys =
    ((λ e. memcmp_equal-eq xs ys (size xs ys e) (content xs ys e)), views_equal_refl xs ys)
  where
    size : (xs ys : List ℕ) → views_equal xs ys ≡ true → length xs ≡ length ys
    size xs ys e = ground (arith, e)

    content : (xs ys : List ℕ) → views_equal xs ys ≡ true → memcmp_equal xs ys ≡ true
    content xs ys e = ground (arith, e)

-- `operator!=` returns true for any two views of the same size, also for a view and itself.
pub views_not_equal-same_size :
    (xs ys : List ℕ) → length xs ≡ length ys → views_not_equal xs ys ≡ some true
unfolding views_not_equal
views_not_equal-same_size xs ys h = ground (arith, h)
