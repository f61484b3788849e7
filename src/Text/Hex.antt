-- ===== src/Text/Hex.antt =====
-- Reading the hexadecimal digits back.
use so2_project.Common.{
  ℕ, zero, suc, ◌+◌, ◌-◌, ◌*◌, ◌/◌, ◌%◌, ◌^◌, ◌<◌, ◌≡◌, refl, ap, ◌∙◌, arith, length, bit_and, List,
  [], ◌∷◌, ltb, if◌then◌else◌,
}
use so2_project.Common.Bits.{bit_and_f}
use so2_project.Text.{hex_digit, sar_28, hex_loop, hex_digits}

-- The number of a digit.
abbrev pub digit_value : ℕ → ℕ
digit_value c = if ltb c b'A' then c - b'0' else c - b'A' + 10

-- A text read as a hexadecimal number, behind the number `acc`.
abbrev pub parse_hex : ℕ → List ℕ → ℕ
parse_hex acc [] = acc
parse_hex acc (c ∷ cs) = parse_hex (acc * 16 + digit_value c) cs

hex_digit_value : (d : ℕ) → d < 16 → digit_value (hex_digit d) ≡ d
hex_digit_value d h = ground arith

digit_of_word : (w : ℕ) → w < 2 ^ 32 → bit_and (sar_28 w) 0xf ≡ w / 2 ^ 28
digit_of_word w h = bit_and_f (sar_28 w) ∙ ground arith

abbrev scale : ℕ → ℕ → ℕ
scale zero x = x
scale (suc n) x = scale n (16 * x)

-- The digits read so far and the word that is left make up the number, shifted.
hex_loop-parse :
    (n acc w : ℕ)
    → w < 2 ^ 32
    → (left : ℕ) × (left < 2 ^ 32)
      × (parse_hex acc (hex_loop n w) * 2 ^ 32 + left ≡ scale n (acc * 2 ^ 32 + w))
unfolding hex_loop
hex_loop-parse zero acc w h = (w, h, refl)
hex_loop-parse (suc n) acc w h =
    let (left, small, e) =
      hex_loop-parse n (acc * 16 + w / 2 ^ 28) (w * 2 ^ 4 % 2 ^ 32) (omega arith) in
    let d : digit_value (hex_digit (bit_and (sar_28 w) 0xf)) ≡ w / 2 ^ 28 =
      ap (λ t. digit_value (hex_digit t)) (digit_of_word w h)
      ∙ hex_digit_value (w / 2 ^ 28) (omega arith) in
    (
      left,
      small,
      ap (λ v. parse_hex (acc * 16 + v) (hex_loop n (w * 2 ^ 4 % 2 ^ 32)) * 2 ^ 32 + left) d
          ∙ e
          ∙ ap (scale n) (omega arith),
    )

length-hex_loop : (n w : ℕ) → length (hex_loop n w) ≡ n
unfolding hex_loop
length-hex_loop zero w = refl
length-hex_loop (suc n) w = ap suc (length-hex_loop n (w * 2 ^ 4 % 2 ^ 32))

-- The eight characters that print_hex and the page fault handler show, leading zeros included, read
-- back as the 32-bit number that they were made from, also if its sign bit is set.
pub parse_hex-hex_digits :
    (w : ℕ) → w < 2 ^ 32 → (length (hex_digits w) ≡ 8) × (parse_hex 0 (hex_digits w) ≡ w)
unfolding hex_digits
parse_hex-hex_digits w h =
    let (left, small, e) = hex_loop-parse 8 0 w h in (length-hex_loop 8 w, omega arith)
