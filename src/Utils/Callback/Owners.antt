-- ===== src/Utils/Callback/Owners.antt =====
-- Who owns the objects of a `Callback` of common/utils/callbacks.h.
use natbuster.Prelude.{ℕ, ◌+◌, ◌≡◌, refl, ap, List, [], ◌∷◌, ◌++◌, arith, ltb, ◌==◌, if◌then◌else◌}
use natbuster.Utils.Callback.{
  RawType, nullptr, checkout_ptr, object, dispose, replace, unless_checked_out, extract, checkout,
  checkback, Callback, set, clear, call_begin, call_end, clear_begin, clear_end, move_out, Step,
  sets, clears_it, begins_call, ends_call, begins_clear, ends_clear, moves_out, Reach, start,
  next_step,
}

-- How often the object `p` is in a list of objects, in a pointer, in a list of pointers.
unfoldable pub count : ℕ → List ℕ → ℕ
count p [] = 0
count p (q ∷ qs) = (if q == p then 1 else 0) + count p qs

unfoldable pub points : ℕ → RawType → ℕ
points p nullptr = 0
points p checkout_ptr = 0
points p (object q) = if q == p then 1 else 0

unfoldable pub count_raw : ℕ → List RawType → ℕ
count_raw p [] = 0
count_raw p (r ∷ rs) = points p r + count_raw p rs

-- The places where the object is.
unfoldable pub places : ℕ → Callback → ℕ
places p c =
    points p c.cb + count_raw p c.calls + count_raw p c.clears + count p c.moved + count p c.deleted

abbrev pub made : ℕ → Callback → ℕ
made p c = if ltb p c.next then 1 else 0

count-append : (p : ℕ) (xs ys : List ℕ) → count p (xs ++ ys) ≡ count p xs + count p ys
unfolding count
count-append p [] ys = omega arith
count-append p (x ∷ xs) ys = omega (arith, count-append p xs ys)

count_raw-remove :
    (p : ℕ) (r : RawType) (xs ys : List RawType)
    → count_raw p (xs ++ (r ∷ ys)) ≡ points p r + count_raw p (xs ++ ys)
unfolding count_raw
count_raw-remove p r [] ys = refl
count_raw-remove p r (x ∷ xs) ys = omega (arith, count_raw-remove p r xs ys)

count-dispose : (p : ℕ) (r : RawType) → count p (dispose r) ≡ points p r
unfolding count points dispose
count-dispose p nullptr = refl
count-dispose p checkout_ptr = refl
count-dispose p (object q) = omega arith

points-unless_checked_out : (p : ℕ) (r : RawType) → points p (unless_checked_out r) ≡ points p r
unfolding points unless_checked_out
points-unless_checked_out p nullptr = refl
points-unless_checked_out p checkout_ptr = refl
points-unless_checked_out p (object q) = refl

points-checkback :
    (p : ℕ) (back slot : RawType)
    → points p (checkback back slot).0 + count p (checkback back slot).1
      ≡ points p back + points p slot
unfolding checkback points count
points-checkback p back nullptr = omega (arith, count-dispose p back)
points-checkback p back checkout_ptr = omega arith
points-checkback p back (object q) = omega (arith, count-dispose p back)

abbrev Kept : Callback → Callback → Type 0
Kept c d = (p : ℕ) → made p c ≡ places p c → made p d ≡ places p d

set-Kept : (c : Callback) → Kept c (set c)
unfolding set replace places points
set-Kept c p h = ground (arith, count-append p (dispose c.cb) c.deleted, count-dispose p c.cb)

Step-Kept : {c d : Callback} → Step c d → Kept c d
unfolding clear call_begin call_end clear_begin clear_end move_out replace extract checkout places
    points count_raw
Step-Kept (sets c) = set-Kept c
Step-Kept (clears_it c) =
    λ p h. omega (arith, h, count-append p (dispose c.cb) c.deleted, count-dispose p c.cb)
Step-Kept (begins_call c) = λ p h. omega (arith, h, points-unless_checked_out p c.cb)
Step-Kept (ends_call cb before after c e) = λ p h. omega (
  arith,
  h,
  ap (count_raw p) e,
  count_raw-remove p cb before after,
  points-checkback p cb c.cb,
  count-append p (checkback cb c.cb).1 c.deleted,
)
Step-Kept (begins_clear c) = λ p h. omega (arith, h, points-unless_checked_out p c.cb)
Step-Kept (ends_clear cb before after c e) = λ p h. omega (
  arith,
  h,
  ap (count_raw p) e,
  count_raw-remove p cb before after,
  count-dispose p cb,
  count-append p (dispose cb) c.deleted,
)
Step-Kept (moves_out c) = λ p h. omega (
  arith,
  h,
  points-unless_checked_out p c.cb,
  count-dispose p (unless_checked_out c.cb),
  count-append p (dispose (unless_checked_out c.cb)) c.moved,
)

-- Whatever the threads do and in whatever order, each callback object that was set is in exactly one
-- place: in the pointer, in one call that runs, with another `Callback`, or deleted once. So none is
-- deleted twice or while a call runs it, none runs in two calls at once, and none is lost.
pub Reach-places : {c : Callback} → Reach c → (p : ℕ) → made p c ≡ places p c
unfolding places points count_raw count
Reach-places start p = ground arith
Reach-places (next_step r s) p = Step-Kept s p (Reach-places r p)
