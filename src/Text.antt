-- ===== src/Text.antt =====
-- The numbers that the program prints: itoa and strlen of libc.c, and the eight hexadecimal digits of
-- print_hex (sys.c) and page_fault_ext_routine (interrupt.c).
pub mod Hex
pub mod Decimal
mod Tests
use so2_project.Common.{
  ℕ, zero, suc, ◌+◌, ◌-◌, ◌*◌, ◌/◌, ◌%◌, ◌^◌, bit_and, Option, none, some, List, [], ◌∷◌, ◌++◌, ℤ,
  pos, negsuc, pos_part, ltb, ◌==◌, ◌==ℤ◌, not, if◌then◌else◌, update, for_range,
}
use so2_project.Screen.{Screen, printk}

-- `aux >> 28` on the 32 bits of an int: the sign bit comes in from the left.
abbrev sar_28 : ℕ → ℕ
sar_28 w = if ltb w (2 ^ 31) then w / 2 ^ 28 else w / 2 ^ 28 + (2 ^ 32 - 16)

-- `aux < 10 ? '0' + aux : 'A' + (aux - 10)`
abbrev pub hex_digit : ℕ → ℕ
hex_digit aux = if ltb aux 10 then b'0' + aux else b'A' + (aux - 10)

-- `buff[i..8)`: a digit of the four highest bits, and then a shift by four.
hex_loop : ℕ → ℕ → List ℕ
hex_loop zero eip_val = []
hex_loop (suc n) eip_val =
    hex_digit (bit_and (sar_28 eip_val) 0x0000000f) ∷ hex_loop n (eip_val * 2 ^ 4 % 2 ^ 32)

unfoldable pub hex_digits : ℕ → List ℕ
unfolding hex_loop
hex_digits w = hex_loop 8 w

unfoldable pub print_hex : Screen → ℕ → Screen
unfolding hex_digits
print_hex s hex =
    let s₁ =
      printk s (10 ∷ b' ' ∷ b'V' ∷ b'a' ∷ b'l' ∷ b'u' ∷ b'e' ∷ b':' ∷ b' ' ∷ b'0' ∷ b'x' ∷ []) in
    printk (printk s₁ (hex_digits hex)) (10 ∷ [])

-- A `char*` as the bytes from it on.
abbrev pub CharBuffer : Type 0
CharBuffer = ℕ → ℕ

-- `while (a > 0) { b[i] = (a % 10) + '0'; a = a / 10; i++; }`
itoa_digits : ℕ → ℕ → ℕ → CharBuffer → ℕ × CharBuffer
itoa_digits zero a i b = (i, b)
itoa_digits (suc fuel) a i b =
    let rest = itoa_digits fuel (a / 10) (i + 1) (update b i (a % 10 + b'0')) in
    if ltb 0 a then rest else (i, b)

-- `c = b[i1]; b[i1] = b[i - i1 - 1]; b[i - i1 - 1] = c;`
abbrev swap_round : ℕ → ℕ → CharBuffer → CharBuffer
swap_round i i1 b = let c = b i1 in update (update b i1 (b (i - i1 - 1))) (i - i1 - 1) c

-- The loops of itoa on a positive or negative number; one round for each digit at most.
itoa_loops : ℕ → CharBuffer → CharBuffer
unfolding itoa_digits
itoa_loops a b =
    let (i, b') = itoa_digits (a + 1) a 0 b in update (for_range (i / 2) 0 (swap_round i) b') i 0

-- `a > 0` fails at once for a negative number, so its loops make no round.
unfoldable pub itoa : ℤ → CharBuffer → CharBuffer
unfolding itoa_loops
itoa a b = if a ==ℤ pos 0 then update (update b 0 b'0') 1 0 else itoa_loops (pos_part a) b

-- `none` means that no NUL was met on the fuel.
strlen_from : ℕ → ℕ → CharBuffer → Option ℕ
strlen_from zero i a = none
strlen_from (suc fuel) i a =
    let rest = strlen_from fuel (i + 1) a in if not (a i == 0) then rest else some i

unfoldable pub strlen : ℕ → CharBuffer → Option ℕ
unfolding strlen_from
strlen fuel a = strlen_from fuel 0 a
