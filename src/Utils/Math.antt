-- ===== src/Utils/Math.antt =====
-- common/utils/math.h at `uint32_t`, the type it is used at: `lowest()` is 0, and the branches for
-- negative numbers are never taken.
mod Tests
use natbuster.Prelude.{
  ℕ, zero, suc, ◌+◌, ◌-◌, ◌^◌, ◌≤◌, ◌<◌, ◌≡◌, Bool, true, false, arith, ltb, leb, if◌then◌else◌,
  add32, sub32, u32_mod, min, max,
}

abbrev pub max_value : ℕ
max_value = 4294967295

unfoldable pub clamped_add : ℕ → ℕ → ℕ
clamped_add lhs rhs =
    if ltb 0 lhs
    then (if ltb 0 rhs
        then (if leb rhs (sub32 max_value lhs) then add32 lhs rhs else max_value)
        else add32 lhs rhs)
    else add32 lhs rhs

unfoldable pub clamped_sub : ℕ → ℕ → ℕ
clamped_sub lhs rhs =
    if ltb 0 rhs
    then (if ltb lhs (add32 0 max_value)
        then (if leb (sub32 (add32 0 max_value) lhs) (sub32 max_value rhs)
            then sub32 lhs rhs
            else 0)
        else add32 lhs rhs)
    else add32 lhs rhs

-- The variants with limits of the caller's.
unfoldable pub clamp : ℕ → ℕ → ℕ → ℕ
clamp res lowest highest =
    if ltb res highest then (if ltb res lowest then lowest else res) else highest

unfoldable pub clamped_add_within : ℕ → ℕ → ℕ → ℕ → ℕ
clamped_add_within lhs rhs lowest highest = clamp (clamped_add lhs rhs) lowest highest

unfoldable pub clamped_sub_within : ℕ → ℕ → ℕ → ℕ → ℕ
clamped_sub_within lhs rhs lowest highest = clamp (clamped_sub lhs rhs) lowest highest

-- `clamped_add` of two words is their sum, or the greatest word if the sum is greater.
pub clamped_add_lem :
    (lhs rhs : ℕ) → lhs < u32_mod → rhs < u32_mod → clamped_add lhs rhs ≡ min (lhs + rhs) max_value
unfolding clamped_add
clamped_add_lem lhs rhs h k = ground arith

-- `clamped_sub` of two words is their difference, or 0 if the second is greater, unless the first
-- is the greatest word.
pub clamped_sub_lem :
    (lhs rhs : ℕ) → lhs < max_value → rhs < u32_mod → clamped_sub lhs rhs ≡ lhs - rhs
unfolding clamped_sub
clamped_sub_lem lhs rhs h k = ground arith

-- `clamped_sub` of the greatest word and any other word but 0 adds the two and wraps around: the
-- result is one less than what should be subtracted.
pub clamped_sub-max_value :
    (rhs : ℕ) → 0 < rhs → rhs < u32_mod → clamped_sub max_value rhs ≡ rhs - 1
unfolding clamped_sub
clamped_sub-max_value rhs h k = ground arith
