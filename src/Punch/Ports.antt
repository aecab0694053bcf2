-- ===== src/Punch/Ports.antt =====
-- The ports that `sync_launch` of common/punch/sym_sym.cpp tries, in the order in which it does so.
use natbuster.Prelude.{ℕ, suc, ◌+◌, ◌-◌, ◌%◌, ◌≤◌, ◌<◌, ◌≡◌, arith, subst, ◌⊎◌, inl, inr}
use native.Mathlib.Omega.{mod_fact}
use native.Mathlib.Decide.{dec_lt}
use native.Mathlib.Nat.{mod-eq_of_lt, mod-eq-sub-mod}

-- `port_max - port_min + 1`, as a `uint16_t`.
unfoldable pub port_range_len : ℕ → ℕ → ℕ
port_range_len port_min port_max = (port_max + 65536 - port_min + 1) % 65536

unfoldable pub port_at : ℕ → ℕ → ℕ → ℕ → ℕ
port_at port_min port_max port_start i =
    (i + port_start - port_min) % port_range_len port_min port_max + port_min

len_lem :
    (port_min port_max : ℕ)
    → 1024 ≤ port_min
    → port_min ≤ port_max
    → port_max < 65536
    → port_range_len port_min port_max ≡ suc (port_max - port_min)
unfolding port_range_len
len_lem port_min port_max h l w = omega arith

-- Below twice the modulus.
mod_once :
    (x k : ℕ)
    → x < suc k + suc k
    → ((x < suc k) × (x % suc k ≡ x)) ⊎ ((suc k ≤ x) × (x % suc k ≡ x - suc k))
mod_once x k h = elim (dec_lt x (suc k)) [
  | yes l ↦ inl (l, grind arith)
  | no l ↦ inr (omega arith, grind (arith, mod-eq-sub-mod, mod-eq_of_lt))
]

-- Every port is in the range.
pub port_at_bounds :
    (port_min port_max port_start i : ℕ)
    → 1024 ≤ port_min
    → port_min ≤ port_start
    → port_start ≤ port_max
    → port_max < 65536
    → (port_min ≤ port_at port_min port_max port_start i)
      × (port_at port_min port_max port_start i ≤ port_max)
unfolding port_at
port_at_bounds port_min port_max port_start i h l m w =
    let e = len_lem port_min port_max h (omega arith) w in
    let x = i + port_start - port_min in
    let low : x % suc (port_max - port_min) < suc (port_max - port_min) =
      mod_fact x (port_max - port_min) in
    rw e (omega arith, omega (arith, low))

-- With a port to start at, in a range from 1024 on, no two rounds try the same port, as long as there are
-- no more rounds than ports.
pub port_at_inj :
    (port_min port_max port_start i j : ℕ)
    → 1024 ≤ port_min
    → port_min ≤ port_start
    → port_start ≤ port_max
    → port_max < 65536
    → i < port_range_len port_min port_max
    → j < port_range_len port_min port_max
    → port_at port_min port_max port_start i ≡ port_at port_min port_max port_start j
    → i ≡ j
unfolding port_at
port_at_inj port_min port_max port_start i j h l m w a b same =
    let k = port_max - port_min in
    let e = len_lem port_min port_max h (omega arith) w in
    let x = i + port_start - port_min in
    let y = j + port_start - port_min in
    let small_i : x < suc k + suc k = omega (arith, a, e) in
    let small_j : y < suc k + suc k = omega (arith, b, e) in
    let eq : x % suc k ≡ y % suc k = subst (λ n. x % n ≡ y % n) e (omega (arith, same)) in
    elim (mod_once x k small_i) [
      | inl (p, f) ↦ elim (mod_once y k small_j) [
        | inl (q, g) ↦ omega (arith, eq, f, g)
        | inr (q, g) ↦ omega (arith, eq, f, g, p, q, a, b, e)
      ]
      | inr (p, f) ↦ elim (mod_once y k small_j) [
        | inl (q, g) ↦ omega (arith, eq, f, g, p, q, a, b, e)
        | inr (q, g) ↦ omega (arith, eq, f, g, p, q)
      ]
    ]
