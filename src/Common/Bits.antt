-- ===== src/Common/Bits.antt =====
-- Masks and shifts as arithmetic. A number splits at any bit into a low and a high part, and `&` and
-- `|` work on the parts separately; from that come masks of ones and `|` of disjoint fields.
use Prim.Native.Nat.{
  ℕ, zero, suc, ◌+◌, ◌*◌, ◌/◌, ◌%◌, ◌^◌, ◌≤◌, ◌<◌, min, max, bit_and, bit_or, digits,
  bit_and-bitwise, bit_or-bitwise,
}
use mathlib.Core.Path.{◌≡◌, refl, ap, ◌∙◌}
use native.Mathlib.Nat.{pow-suc}
use native.Mathlib.Omega.{arith}

-- More fuel than the first number changes nothing.
digits_fuel :
    (base : ℕ → ℕ) (op : ℕ → ℕ → ℕ) (n m a b : ℕ)
    → a ≤ n
    → a ≤ m
    → digits base op n a b ≡ digits base op m a b
digits_fuel base op zero zero a b p q = refl
digits_fuel base op zero (suc m) zero b p q = refl
digits_fuel base op zero (suc m) (suc a) b p q = absurd (omega arith)
digits_fuel base op (suc n) zero zero b p q = refl
digits_fuel base op (suc n) zero (suc a) b p q = absurd (omega arith)
digits_fuel base op (suc n) (suc m) zero b p q = refl
digits_fuel base op (suc n) (suc m) (suc a) b p q =
    omega (arith, digits_fuel base op n m (suc a / 2) (b / 2) (omega arith) (omega arith))

bit_and-zero_left : (b : ℕ) → bit_and 0 b ≡ 0
bit_and-zero_left b = bit_and-bitwise 0 b

bit_or-zero_left : (b : ℕ) → bit_or 0 b ≡ b
bit_or-zero_left b = bit_or-bitwise 0 b

bit_and_step : (x y : ℕ) → bit_and x y ≡ bit_and (x / 2) (y / 2) * 2 + min (x % 2) (y % 2)
bit_and_step zero y = omega (arith, bit_and-zero_left y, bit_and-zero_left (y / 2))
bit_and_step (suc x) y = omega (
  arith,
  bit_and-bitwise (suc x) y,
  bit_and-bitwise (suc x / 2) (y / 2),
  digits_fuel (λ y. zero) min x (suc x / 2) (suc x / 2) (y / 2) (omega arith) (omega arith),
)

bit_or_step : (x y : ℕ) → bit_or x y ≡ bit_or (x / 2) (y / 2) * 2 + max (x % 2) (y % 2)
bit_or_step zero y = omega (arith, bit_or-zero_left y, bit_or-zero_left (y / 2))
bit_or_step (suc x) y = omega (
  arith,
  bit_or-bitwise (suc x) y,
  bit_or-bitwise (suc x / 2) (y / 2),
  digits_fuel (λ y. y) max x (suc x / 2) (suc x / 2) (y / 2) (omega arith) (omega arith),
)

bit_and-zero_fuel : (fuel x : ℕ) → x ≤ fuel → bit_and x 0 ≡ 0
bit_and-zero_fuel fuel zero enough = bit_and-zero_left 0
bit_and-zero_fuel zero (suc x) enough = absurd (omega arith)
bit_and-zero_fuel (suc fuel) (suc x) enough =
    omega (arith, bit_and_step (suc x) 0, bit_and-zero_fuel fuel (suc x / 2) (omega arith))

pub bit_and-zero : (x : ℕ) → bit_and x 0 ≡ 0
bit_and-zero x = bit_and-zero_fuel x x (omega arith)

bit_or-zero_fuel : (fuel x : ℕ) → x ≤ fuel → bit_or x 0 ≡ x
bit_or-zero_fuel fuel zero enough = bit_or-zero_left 0
bit_or-zero_fuel zero (suc x) enough = absurd (omega arith)
bit_or-zero_fuel (suc fuel) (suc x) enough =
    omega (arith, bit_or_step (suc x) 0, bit_or-zero_fuel fuel (suc x / 2) (omega arith))

pub bit_or-zero : (x : ℕ) → bit_or x 0 ≡ x
bit_or-zero x = bit_or-zero_fuel x x (omega arith)

mul-pow-suc : (n b : ℕ) → 2 ^ suc n * b ≡ 2 * (2 ^ n * b)
mul-pow-suc n b = omega (arith, ap (λ (t : ℕ). t * b) (pow-suc 2 n))

pub bit_and_split :
    (n a b c d : ℕ)
    → a < 2 ^ n
    → c < 2 ^ n
    → bit_and (a + 2 ^ n * b) (c + 2 ^ n * d) ≡ bit_and a c + 2 ^ n * bit_and b d
bit_and_split zero zero b zero d p q = ground (arith, bit_and-zero_left 0)
bit_and_split zero (suc a) b c d p q = absurd (omega arith)
bit_and_split zero zero b (suc c) d p q = absurd (omega arith)
bit_and_split (suc n) a b c d p q = ground (
  arith,
  pow-suc 2 n,
  mul-pow-suc n b,
  mul-pow-suc n d,
  mul-pow-suc n (bit_and b d),
  bit_and_step (a + 2 ^ suc n * b) (c + 2 ^ suc n * d),
  bit_and_step a c,
  bit_and_split n (a / 2) b (c / 2) d (omega (arith, pow-suc 2 n)) (omega (arith, pow-suc 2 n)),
)

pub bit_or_split :
    (n a b c d : ℕ)
    → a < 2 ^ n
    → c < 2 ^ n
    → bit_or (a + 2 ^ n * b) (c + 2 ^ n * d) ≡ bit_or a c + 2 ^ n * bit_or b d
bit_or_split zero zero b zero d p q = ground (arith, bit_or-zero_left 0)
bit_or_split zero (suc a) b c d p q = absurd (omega arith)
bit_or_split zero zero b (suc c) d p q = absurd (omega arith)
bit_or_split (suc n) a b c d p q = ground (
  arith,
  pow-suc 2 n,
  mul-pow-suc n b,
  mul-pow-suc n d,
  mul-pow-suc n (bit_or b d),
  bit_or_step (a + 2 ^ suc n * b) (c + 2 ^ suc n * d),
  bit_or_step a c,
  bit_or_split n (a / 2) b (c / 2) d (omega (arith, pow-suc 2 n)) (omega (arith, pow-suc 2 n)),
)

-- `low | (high << n)`
pub bit_or_fields : (n low high : ℕ) → low < 2 ^ n → bit_or low (2 ^ n * high) ≡ low + 2 ^ n * high
bit_or_fields n low high p =
    ground
      (arith, bit_or-zero low, bit_or-zero_left high, bit_or_split n low 0 0 high p (omega arith))

-- `a & (2^n - 1)`, a mask of n ones
pub ones : ℕ → ℕ
ones zero = 0
ones (suc n) = ones n * 2 + 1

ones-lt : (n : ℕ) → ones n < 2 ^ n
unfolding ones
ones-lt zero = omega arith
ones-lt (suc n) = omega (arith, ones-lt n, pow-suc 2 n)

bit_and-ones_low : (n r : ℕ) → r < 2 ^ n → bit_and r (ones n) ≡ r
unfolding ones
bit_and-ones_low zero zero p = bit_and-zero 0
bit_and-ones_low zero (suc r) p = absurd (omega arith)
bit_and-ones_low (suc n) r p = ground (
  arith,
  bit_and_step r (ones n * 2 + 1),
  bit_and-ones_low n (r / 2) (omega (arith, pow-suc 2 n)),
)

pub bit_and-ones : (n low high : ℕ) → low < 2 ^ n → bit_and (low + 2 ^ n * high) (ones n) ≡ low
bit_and-ones n low high p = ground (
  arith,
  ones-lt n,
  bit_and-zero high,
  bit_and-ones_low n low p,
  bit_and_split n low high (ones n) 0 p,
)

bit_and_mask : (n a p : ℕ) → p ≡ 2 ^ n → 0 < p → bit_and a (ones n) ≡ a % p
bit_and_mask n a p e h =
    let d : a ≡ a % p + 2 ^ n * (a / p) = rw (← e) (grind arith) in
    ap (λ t. bit_and t (ones n)) d ∙ bit_and-ones n (a % p) (a / p) (rw (← e) (grind arith))

module _ (a : ℕ) where
  pub bit_and_1 : bit_and a 0x1 ≡ a % 2
  unfolding ones
  bit_and_1 = bit_and_mask 1 a 2 refl (omega arith)

  pub bit_and_7 : bit_and a 0x7 ≡ a % 8
  unfolding ones
  bit_and_7 = bit_and_mask 3 a 8 refl (omega arith)

  pub bit_and_f : bit_and a 0xf ≡ a % 16
  unfolding ones
  bit_and_f = bit_and_mask 4 a 16 refl (omega arith)

  pub bit_and_ff : bit_and a 0xff ≡ a % 256
  unfolding ones
  bit_and_ff = bit_and_mask 8 a 256 refl (omega arith)

  pub bit_and_7fff : bit_and a 0x7fff ≡ a % 32768
  unfolding ones
  bit_and_7fff = bit_and_mask 15 a 32768 refl (omega arith)

  pub bit_and_ffff : bit_and a 0xffff ≡ a % 65536
  unfolding ones
  bit_and_ffff = bit_and_mask 16 a 65536 refl (omega arith)

-- A mask in the middle of a number.
pub bit_and_shifted :
    (n low high m : ℕ)
    → low < 2 ^ n
    → bit_and (low + 2 ^ n * high) (2 ^ n * m) ≡ 2 ^ n * bit_and high m
bit_and_shifted n low high m p =
    ground (arith, bit_and-zero low, bit_and_split n low high 0 m p (omega arith))
