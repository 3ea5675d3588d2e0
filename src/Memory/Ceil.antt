-- ===== src/Memory/Ceil.antt =====
-- `Ceil` of kernel/usb/memory.cpp rounds up to a multiple of a power of two.
use native.Mathlib.Nat.{
  mod-eq_of_lt, div-lt_iff_lt-mul, lt-mul-div-succ, div-mul-le_self, mul-mod_left, mul-le-mul_right,
}
use mikanos_aarch.Prelude.{
  ℕ, ◌+◌, ◌-◌, ◌*◌, ◌/◌, ◌%◌, ◌^◌, ◌≤◌, ◌<◌, ◌≡◌, refl, ap, true, arith, ltb, ◌==◌, ==_iff,
  all_below, all_below_sound, bit_and-shifted, bit_and-ones, pow_pos,
}
use mikanos_aarch.Memory.{add64, sub64, not64, ceil}

-- The complement of `2 ^ k - 1` is a run of ones from position `k` on.
mask_table :
    all_below 32 (λ k. not64 ((2 ^ k + 2 ^ 32 - 1) % 2 ^ 32) == (2 ^ (64 - k) - 1) * 2 ^ k) ≡ true
unfolding all_below
mask_table = refl

pow_table : all_below 32 (λ k. 2 ^ (64 - k) * 2 ^ k == 2 ^ 64) ≡ true
unfolding all_below
pow_table = refl

small_table : all_below 32 (λ k. ltb (2 ^ k) (2 ^ 32)) ≡ true
unfolding all_below
small_table = refl

pub pow_split : (k : ℕ) → k < 32 → 2 ^ (64 - k) * 2 ^ k ≡ 2 ^ 64
pow_split k h = (==_iff _ (2 ^ 64)).0 (all_below_sound k 32 _ h pow_table)

ceil_mask : (k : ℕ) → k < 32 → not64 ((2 ^ k + 2 ^ 32 - 1) % 2 ^ 32) ≡ (2 ^ (64 - k) - 1) * 2 ^ k
ceil_mask k h = (==_iff _ ((2 ^ (64 - k) - 1) * 2 ^ k)).0 (all_below_sound k 32 _ h mask_table)

pub pow_small : (k : ℕ) → k < 32 → 2 ^ k < 2 ^ 32
pow_small k h = ground (arith, all_below_sound k 32 _ h small_table)

pub ceil_lem :
    (k v : ℕ) → k < 32 → v + 2 ^ k ≤ 2 ^ 64 → ceil v (2 ^ k) ≡ (v + 2 ^ k - 1) / 2 ^ k * 2 ^ k
unfolding ceil
ceil_lem k v hk hv =
    rw (dividend, ceil_mask k hk, bit_and-shifted k, bit_and-ones (64 - k))
      (ap (λ (t : ℕ). t * 2 ^ k) (mod-eq_of_lt fits))
  where
    dividend : sub64 (add64 v (2 ^ k)) 1 ≡ v + 2 ^ k - 1
    dividend = omega (arith, pow_pos k)

    fits : (v + 2 ^ k - 1) / 2 ^ k < 2 ^ (64 - k)
    fits = (div-lt_iff_lt-mul (pow_pos k)).1 (omega (arith, pow_split k hk, pow_pos k))

-- Rounding up to a multiple of `p`.
abbrev pub round_up : ℕ → ℕ → ℕ
round_up v p = (v + p - 1) / p * p

pub le-round_up : (v p : ℕ) → 0 < p → v ≤ round_up v p
le-round_up v p h = omega (arith, lt-mul-div-succ (v + p - 1) h)

pub round_up-lt : (v p : ℕ) → 0 < p → round_up v p < v + p
round_up-lt v p h = omega (arith, div-mul-le_self (v + p - 1) p)

pub round_up-mod : (v p : ℕ) → round_up v p % p ≡ 0
round_up-mod v p = mul-mod_left ((v + p - 1) / p) p

-- No multiple of `p` lies between a number and its rounding.
pub round_up-le : (v p c : ℕ) → 0 < p → v ≤ c * p → round_up v p ≤ c * p
round_up-le v p c h le = mul-le-mul_right p (omega (arith, below))
  where
    below : (v + p - 1) / p < c + 1
    below = (div-lt_iff_lt-mul h).1 (omega arith)
