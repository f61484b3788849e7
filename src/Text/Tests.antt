-- ===== src/Text/Tests.antt =====
-- What the printing routines show for a few numbers.
use so2_project.Common.{◌≡◌, refl, ℕ, ◌+◌, length, arith, [], ◌∷◌, pos, for_range, some}
use so2_project.Text.Hex.{parse_hex, parse_hex-hex_digits}
use so2_project.Text.Decimal.{IsDecimal, itoa-IsDecimal}
use so2_project.Text.{hex_digits, itoa, strlen}

hex_run : hex_digits 0x12ab00cf ≡ b'1' ∷ b'2' ∷ b'A' ∷ b'B' ∷ b'0' ∷ b'0' ∷ b'C' ∷ b'F' ∷ []
unfolding hex_digits
hex_run = refl

strlen-itoa_run : strlen 5 (itoa (pos 120) (λ i. 7)) ≡ some 3
unfolding strlen itoa for_range
strlen-itoa_run = refl

itoa_run : itoa (pos 120) (λ i. 7) 0 ≡ b'1'
unfolding strlen itoa for_range
itoa_run = refl

parse_hex-hex_digits_example :
    (length (hex_digits 0x80000001) ≡ 8) × (parse_hex 0 (hex_digits 0x80000001) ≡ 0x80000001)
parse_hex-hex_digits_example = parse_hex-hex_digits 0x80000001 (omega arith)

itoa-IsDecimal_example :
    (len : ℕ) × IsDecimal 120 (itoa (pos 120) (λ i. 7)) len
    × (strlen (len + 1) (itoa (pos 120) (λ i. 7)) ≡ some len)
itoa-IsDecimal_example = itoa-IsDecimal 120 (λ i. 7)
