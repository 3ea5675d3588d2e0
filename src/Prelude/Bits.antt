-- ===== src/Prelude/Bits.antt =====
-- Laws of the bit operations that the drivers' masks use, for every width: a mask of `j` ones over
-- `k` zeros keeps a field, and disjoint fields are put together by `|` as by `+`.
use Prim.Native.Nat.{
  ℕ, zero, suc, ◌+◌, ◌-◌, ◌*◌, ◌/◌, ◌%◌, ◌^◌, ◌≤◌, ◌<◌, min, max, bit_and, bit_or, digits,
  bit_and-bitwise, bit_or-bitwise,
}
use mathlib.Core.Path.{◌≡◌, refl, ap, ◌∙◌}
use native.Mathlib.Omega.{arith}
use native.Mathlib.Decide.{dec_lt}
use native.Mathlib.Nat.{pow-suc, one-le-pow, mod-eq-sub-mul-div, div-div-eq-div-mul, mul-div-le}

-- One more round than there are digits changes nothing, so any number of them may be spent.
module _ (z : ℕ → ℕ) (f : ℕ → ℕ → ℕ) where
  one_round : (x n y : ℕ) → x ≤ n → digits z f (suc n) x y ≡ digits z f n x y
  one_round zero zero y le = refl
  one_round zero (suc n) y le = refl
  one_round (suc x) zero y le = absurd (omega arith)
  one_round (suc x) (suc n) y le =
      ap (λ (r : ℕ). r * 2 + f (suc x % 2) (y % 2)) (one_round (suc x / 2) n (y / 2) (omega arith))

  digits_settled : (n x y : ℕ) → x ≤ n → digits z f n x y ≡ digits z f x x y
  digits_settled n x y le = elim (dec_lt x n) [
    | no at ↦ ap (λ (r : ℕ). digits z f r x y) (omega arith)
    | yes more ↦ earlier n more
  ]
    where
      earlier : (m : ℕ) → x < m → digits z f m x y ≡ digits z f x x y
      earlier zero lt = absurd (omega arith)
      earlier (suc m) lt = elim (dec_lt x m) [
        | no at ↦ one_round x m y (omega arith) ∙ ap (λ (r : ℕ). digits z f r x y) (omega arith)
        | yes more ↦ one_round x m y (omega arith) ∙ earlier m more
      ]

bit_and_step : (x y : ℕ) → bit_and x y ≡ 2 * bit_and (x / 2) (y / 2) + min (x % 2) (y % 2)
bit_and_step zero y = omega (arith, bit_and-bitwise 0 y, bit_and-bitwise 0 (y / 2))
bit_and_step (suc x) y =
    let settled = digits_settled (λ _. zero) min x (suc x / 2) (y / 2) (omega arith) in
    omega (arith, settled, bit_and-bitwise (suc x) y, bit_and-bitwise (suc x / 2) (y / 2))

bit_or_step : (x y : ℕ) → bit_or x y ≡ 2 * bit_or (x / 2) (y / 2) + max (x % 2) (y % 2)
bit_or_step zero y = omega (arith, bit_or-bitwise 0 y, bit_or-bitwise 0 (y / 2))
bit_or_step (suc x) y =
    let settled = digits_settled (λ r. r) max x (suc x / 2) (y / 2) (omega arith) in
    omega (arith, settled, bit_or-bitwise (suc x) y, bit_or-bitwise (suc x / 2) (y / 2))

pub zero-bit_and : (b : ℕ) → bit_and 0 b ≡ 0
zero-bit_and b = bit_and-bitwise 0 b

pub zero-bit_or : (b : ℕ) → bit_or 0 b ≡ b
zero-bit_or b = bit_or-bitwise 0 b

-- Both by halving, as long as there are digits.
zero_mask : (rounds x : ℕ) → x ≤ rounds → (bit_and x 0 ≡ 0) × (bit_or x 0 ≡ x)
zero_mask zero zero le = (zero-bit_and 0, zero-bit_or 0)
zero_mask zero (suc x) le = absurd (omega arith)
zero_mask (suc rounds) zero le = (zero-bit_and 0, zero-bit_or 0)
zero_mask (suc rounds) (suc x) le =
    let (conj, disj) = zero_mask rounds (suc x / 2) (omega arith) in
    (omega (arith, conj, bit_and_step (suc x) 0), omega (arith, disj, bit_or_step (suc x) 0))

pub bit_and-zero : (x : ℕ) → bit_and x 0 ≡ 0
bit_and-zero x = (zero_mask x x (omega arith)).0

pub bit_or-zero : (x : ℕ) → bit_or x 0 ≡ x
bit_or-zero x = (zero_mask x x (omega arith)).1

pub pow_pos : (k : ℕ) → 0 < 2 ^ k
pow_pos k = one-le-pow k 2 (omega arith)

-- Halving the modulus takes the lowest digit off.
mod_halve : (p a : ℕ) → a % (2 * p) ≡ 2 * (a / 2 % p) + a % 2
mod_halve p a = omega (
  arith,
  mod-eq-sub-mul-div a (2 * p),
  mod-eq-sub-mul-div (a / 2) p,
  ap (λ (t : ℕ). p * t) (div-div-eq-div-mul a 2 p),
  mul-div-le (a / 2) p,
)

pow_double : (k : ℕ) → 2 ^ suc k ≡ 2 * 2 ^ k
pow_double k = omega (arith, pow-suc 2 k)

-- `x & ((1 << k) - 1)`.
pub bit_and-ones : (k a : ℕ) → bit_and a (2 ^ k - 1) ≡ a % 2 ^ k
bit_and-ones zero a = omega (arith, bit_and-zero a)
bit_and-ones (suc k) a =
    rw pow_double (bit_and_step a (2 * 2 ^ k - 1) ∙ halves (bit_and-ones k (a / 2)))
  where
    half : (2 * 2 ^ k - 1) / 2 ≡ 2 ^ k - 1
    half = omega (arith, pow_pos k)

    halves :
        bit_and (a / 2) (2 ^ k - 1) ≡ a / 2 % 2 ^ k
        → 2 * bit_and (a / 2) ((2 * 2 ^ k - 1) / 2) + min (a % 2) ((2 * 2 ^ k - 1) % 2)
          ≡ a % (2 * 2 ^ k)
    halves ih = rw half (omega (arith, mod_halve (2 ^ k) a, pow_pos k))

-- `x & (m << k)` keeps the bits of `m` above position `k`.
pub bit_and-shifted : (k a m : ℕ) → bit_and a (m * 2 ^ k) ≡ bit_and (a / 2 ^ k) m * 2 ^ k
bit_and-shifted zero a m = rw (e, f) (omega arith)
  where
    e : m * 2 ^ 0 ≡ m
    e = omega arith

    f : a / 2 ^ 0 ≡ a
    f = omega arith
bit_and-shifted (suc k) a m =
    rw (pow_double k, e, ← div-div-eq-div-mul a 2 (2 ^ k))
      (bit_and_step a (2 * (m * 2 ^ k)) ∙ halves (bit_and-shifted k (a / 2) m))
  where
    e : m * (2 * 2 ^ k) ≡ 2 * (m * 2 ^ k)
    e = omega arith

    half : 2 * (m * 2 ^ k) / 2 ≡ m * 2 ^ k
    half = omega arith

    halves :
        bit_and (a / 2) (m * 2 ^ k) ≡ bit_and (a / 2 / 2 ^ k) m * 2 ^ k
        → 2 * bit_and (a / 2) (2 * (m * 2 ^ k) / 2) + min (a % 2) (2 * (m * 2 ^ k) % 2)
          ≡ bit_and (a / 2 / 2 ^ k) m * (2 * 2 ^ k)
    halves ih = rw half (omega arith)

-- `(x << k) | y` is a sum where `y` stays below the shifted part.
pub bit_or-shifted : (k x y : ℕ) → y < 2 ^ k → bit_or (x * 2 ^ k) y ≡ x * 2 ^ k + y
bit_or-shifted zero x y h = rw (e, f, bit_or-zero x) (omega arith)
  where
    e : x * 2 ^ 0 ≡ x
    e = omega arith

    f : y ≡ 0
    f = omega arith
bit_or-shifted (suc k) x y h =
    rw (pow_double k, e)
      (bit_or_step (2 * (x * 2 ^ k)) y
        ∙ halves (bit_or-shifted k x (y / 2) (omega (arith, pow_double k))))
  where
    e : x * (2 * 2 ^ k) ≡ 2 * (x * 2 ^ k)
    e = omega arith

    half : 2 * (x * 2 ^ k) / 2 ≡ x * 2 ^ k
    half = omega arith

    halves :
        bit_or (x * 2 ^ k) (y / 2) ≡ x * 2 ^ k + y / 2
        → 2 * bit_or (2 * (x * 2 ^ k) / 2) (y / 2) + max (2 * (x * 2 ^ k) % 2) (y % 2)
          ≡ 2 * (x * 2 ^ k) + y
    halves ih = rw half (omega arith)

-- The same for a number that is known to be a multiple.
pub bit_or_add : (k w y : ℕ) → w % 2 ^ k ≡ 0 → y < 2 ^ k → bit_or w y ≡ w + y
bit_or_add k w y m h =
    ap (λ (t : ℕ). bit_or t y) split ∙ bit_or-shifted k (w / 2 ^ k) y h ∙ omega (arith, split)
  where
    split : w ≡ w / 2 ^ k * 2 ^ k
    split = omega (arith, mod-eq-sub-mul-div w (2 ^ k), mul-div-le w (2 ^ k))

div_pow_suc : (a k : ℕ) → a / 2 ^ suc k ≡ a / 2 / 2 ^ k
div_pow_suc a k = rw (pow_double k, div-div-eq-div-mul a 2 (2 ^ k)) refl

-- The bits of `&` and of `|`.
pub bit_and-digit : (k a b : ℕ) → bit_and a b / 2 ^ k % 2 ≡ min (a / 2 ^ k % 2) (b / 2 ^ k % 2)
bit_and-digit zero a b = omega (arith, bit_and_step a b)
bit_and-digit (suc k) a b =
    rw (div_pow_suc (bit_and a b) k, div_pow_suc a k, div_pow_suc b k, halved)
      (bit_and-digit k (a / 2) (b / 2))
  where
    halved : bit_and a b / 2 ≡ bit_and (a / 2) (b / 2)
    halved = omega (arith, bit_and_step a b)

pub bit_or-digit : (k a b : ℕ) → bit_or a b / 2 ^ k % 2 ≡ max (a / 2 ^ k % 2) (b / 2 ^ k % 2)
bit_or-digit zero a b = omega (arith, bit_or_step a b)
bit_or-digit (suc k) a b =
    rw (div_pow_suc (bit_or a b) k, div_pow_suc a k, div_pow_suc b k, halved)
      (bit_or-digit k (a / 2) (b / 2))
  where
    halved : bit_or a b / 2 ≡ bit_or (a / 2) (b / 2)
    halved = omega (arith, bit_or_step a b)
