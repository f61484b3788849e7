-- ===== src/Text/Decimal.antt =====
-- Reading the decimal digits of itoa back.
use so2_project.Common.{
  ℕ, zero, suc, ◌+◌, ◌-◌, ◌*◌, ◌/◌, ◌%◌, ◌≤◌, ◌<◌, ◌≡◌, refl, ap, ◌∙◌, ◌≢◌, arith, some, ltb, leb,
  ◌&&◌, ◌||◌, if◌then◌else◌, update, for_range, for_range_inv, pos, Bool-cases, inl, inr, ltb→lt,
  ==-ne, true, false,
}
use native.Mathlib.Nat.{le_refl}
use so2_project.Text.{CharBuffer, itoa_digits, swap_round, itoa_loops, itoa, strlen_from, strlen}

-- `n` digits from `j` on, the lowest first.
abbrev read_low_first : CharBuffer → ℕ → ℕ → ℕ
read_low_first b j zero = 0
read_low_first b j (suc n) = b j - b'0' + 10 * read_low_first b (j + 1) n

-- The first `n` characters as a decimal number.
abbrev pub read_decimal : CharBuffer → ℕ → ℕ
read_decimal b zero = 0
read_decimal b (suc n) = 10 * read_decimal b n + (b n - b'0')

abbrev IsDigit : ℕ → Type 0
IsDigit c = (b'0' ≤ c) × (c ≤ b'9')

-- What the digit loop leaves, started at index `i`.
record Digits (a i : ℕ) (b : CharBuffer) (out : ℕ × CharBuffer) : Type 0 where
  count : i ≤ out.0
  some_digit : 0 < a → i < out.0
  value : read_low_first out.1 i (out.0 - i) ≡ a
  before : (k : ℕ) → k < i → out.1 k ≡ b k
  digit : (k : ℕ) → i ≤ k → k < out.0 → IsDigit (out.1 k)

read_low_first_of_lt :
    (b : CharBuffer) (i n : ℕ)
    → i < n
    → read_low_first b i (n - i) ≡ b i - b'0' + 10 * read_low_first b (i + 1) (n - (i + 1))
read_low_first_of_lt b i n h = let e : n - i ≡ suc (n - (i + 1)) = omega arith in rw e

Digits-step :
    (a i : ℕ) (b : CharBuffer) (out : ℕ × CharBuffer)
    → 0 < a
    → Digits (a / 10) (i + 1) (update b i (a % 10 + b'0')) out
    → Digits a i b out
Digits-step a i b out h d = record {
  count = omega (arith, d.count);
  some_digit = λ _. omega (arith, d.count);
  value =
      omega (arith, read_low_first_of_lt out.1 i out.0 (omega (arith, d.count)), d.value, first);
  before = λ k lt. ground (arith, d.before k);
  digit = λ k lo hi. ground (arith, d.digit k, first);
}
  where
    first : out.1 i ≡ a % 10 + b'0'
    first = ground (arith, d.before i)

itoa_digits-Digits :
    (fuel a i : ℕ) (b : CharBuffer) → a < fuel → Digits a i b (itoa_digits fuel a i b)
unfolding itoa_digits
itoa_digits-Digits zero a i b h = absurd (omega arith)
itoa_digits-Digits (suc fuel) a i b h = elim (Bool-cases (ltb 0 a)) [
  | inl more ↦ rw more (
      Digits-step a i b (itoa_digits fuel (a / 10) (i + 1) (update b i (a % 10 + b'0')))
        (ltb→lt 0 a more)
        (itoa_digits-Digits fuel (a / 10) (i + 1) (update b i (a % 10 + b'0'))
          (omega (arith, ltb→lt 0 a more))))
  | inr done ↦ rw done (record {
    count = omega arith;
    some_digit = λ p. absurd (ground arith);
    value = ground (arith, nothing);
    before = λ k lt. refl;
    digit = λ k lo hi. absurd (omega arith);
  })
]
  where
    nothing : i - i ≡ 0
    nothing = omega arith

-- The loop of swaps reverses the first `i` characters.
reversed :
    (i : ℕ) (b : CharBuffer) (k : ℕ)
    → for_range (i / 2) 0 (swap_round i) b k ≡ (if ltb k i then b (i - k - 1) else b k)
reversed i b k =
    for_range_inv
      (λ m (t : CharBuffer).
        (k : ℕ) → t k ≡ (if ltb k i && (ltb k m || leb i (k + m)) then b (i - k - 1) else b k))
      _ (i / 2) 0 (i / 2) b (λ m t lo hi h k. ground (arith, h m, h (i - m - 1), h k, mirror m hi))
      (omega arith) (λ k. ground arith) k
    ∙ ground (arith, middle)
  where
    mirror : (m : ℕ) → m < i / 2 → i - (i - m - 1) - 1 ≡ m
    mirror m hi = omega arith

    middle : ltb k i ≡ true → ltb k (i / 2) ≡ false → leb i (k + i / 2) ≡ false → i - k - 1 ≡ k
    middle p q r = ground arith

-- Reversed, the digits read from the front.
read_decimal-reversed :
    (b t : CharBuffer) (i n : ℕ)
    → ((k : ℕ) → k < i → t k ≡ b (i - k - 1))
    → n ≤ i
    → read_decimal t n ≡ read_low_first b (i - n) n
read_decimal-reversed b t i zero h l = refl
read_decimal-reversed b t i (suc n) h l =
    let e : i - suc n + 1 ≡ i - n = omega arith in
    let f : i - n - 1 ≡ i - suc n = omega arith in
    rw (e, h n l, f, read_decimal-reversed b t i n h (omega arith)) (omega arith)

strlen_from_lem :
    (fuel i len : ℕ) (b : CharBuffer)
    → i ≤ len
    → len < i + fuel
    → ((k : ℕ) → i ≤ k → k < len → b k ≢ 0)
    → b len ≡ 0
    → strlen_from fuel i b ≡ some len
unfolding strlen_from
strlen_from_lem zero i len b l h no_nul nul = absurd (omega arith)
strlen_from_lem (suc fuel) i len b l h no_nul nul = elim (Bool-cases (ltb i len)) [
  | inl below ↦
      let lt = ltb→lt i len below in
      rw (==-ne (b i) 0 (no_nul i (omega arith) lt)) (
        strlen_from_lem fuel (i + 1) len b (omega arith) (omega arith)
          (λ k lo hi. no_nul k (omega arith) hi) nul)
  | inr there ↦ let e : i ≡ len = ground arith in let z : b i ≡ 0 = rw e nul in rw z (ap some e)
]

-- What itoa leaves in the buffer is the text of the number.
pub record IsDecimal (n : ℕ) (b : CharBuffer) (len : ℕ) : Type 0 where
  pub nonempty : 0 < len
  pub digits : (k : ℕ) → k < len → (b'0' ≤ b k) × (b k ≤ b'9')
  pub nul : b len ≡ 0
  pub value : read_decimal b len ≡ n

itoa_loops-IsDecimal :
    (n : ℕ) (b : CharBuffer) → 0 < n → IsDecimal n (itoa_loops n b) (itoa_digits (n + 1) n 0 b).0
unfolding itoa_loops
itoa_loops-IsDecimal n b h = record {
  nonempty = d.some_digit h;
  digits = λ k lt. ground (arith, flipped k, d.digit (i - k - 1), last k lt);
  nul = ground arith;
  value =
      read_decimal-reversed out.1 final i i (λ k lt. ground (arith, flipped k)) (le_refl i) ∙ whole;
}
  where
    out : ℕ × CharBuffer
    out = itoa_digits (n + 1) n 0 b

    d : Digits n 0 b out
    d = itoa_digits-Digits (n + 1) n 0 b (omega arith)

    i : ℕ
    i = out.0

    final : CharBuffer
    final = update (for_range (i / 2) 0 (swap_round i) out.1) i 0

    flipped :
        (k : ℕ)
        → for_range (i / 2) 0 (swap_round i) out.1 k
          ≡ (if ltb k i then out.1 (i - k - 1) else out.1 k)
    flipped k = reversed i out.1 k

    last : (k : ℕ) → k < i → i - k - 1 < i
    last k lt = omega arith

    whole : read_low_first out.1 (i - i) i ≡ n
    whole =
        let z : i - i ≡ 0 = omega arith in let y : i - 0 ≡ i = omega arith in rw z (rw y at d.value)

strlen-IsDecimal :
    (n : ℕ) (b : CharBuffer) (len : ℕ) → IsDecimal n b len → strlen (len + 1) b ≡ some len
unfolding strlen
strlen-IsDecimal n b len d =
    strlen_from_lem (len + 1) 0 len b (omega arith) (omega arith)
      (λ k lo hi. omega (arith, (d.digits k hi).0)) d.nul

itoa-zero : (b : CharBuffer) → IsDecimal 0 (itoa (pos 0) b) 1
unfolding itoa
itoa-zero b = record {
  nonempty = omega arith;
  digits = λ k h. ground arith;
  nul = refl;
  value = refl;
}

itoa-suc : (n : ℕ) (b : CharBuffer) → itoa (pos (suc n)) b ≡ itoa_loops (suc n) b
unfolding itoa
itoa-suc n b = rw (==-ne (suc n + 0) (0 + 0) (omega arith)) refl

-- For every number that is not negative itoa leaves a text whose length strlen finds, which has at
-- least one character and only decimal digits, and which read as a decimal number is the number.
pub itoa-IsDecimal :
    (n : ℕ) (b : CharBuffer)
    → (len : ℕ) × IsDecimal n (itoa (pos n) b) len × (strlen (len + 1) (itoa (pos n) b) ≡ some len)
itoa-IsDecimal zero b = (1, itoa-zero b, strlen-IsDecimal 0 (itoa (pos 0) b) 1 (itoa-zero b))
itoa-IsDecimal (suc n) b =
    let len = (itoa_digits (suc n + 1) (suc n) 0 b).0 in
    let d : IsDecimal (suc n) (itoa (pos (suc n)) b) len =
      rw itoa-suc (itoa_loops-IsDecimal (suc n) b (omega arith)) in
    (len, d, strlen-IsDecimal (suc n) (itoa (pos (suc n)) b) len d)
