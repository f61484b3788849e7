-- ===== src/Utils.antt =====
-- utils.c: the checks and the copies between user and system memory, and the clock.
pub mod Access
pub mod Copy
pub mod Ticks
mod Tests
use so2_project.Common.{
  ℕ, zero, suc, ◌+◌, ◌-◌, ◌*◌, ◌/◌, ◌%◌, ◌^◌, ℤ, pos, pos_part, Bool, true, false, Option, none,
  some, ltb, leb, ◌==◌, ◌&&◌, if◌then◌else◌, update, for_range,
}
use so2_project.Address.{ph_page, user_first_page, num_pag_code, num_pag_data}

abbrev pub verify_read : ℕ
verify_read = 0

abbrev pub verify_write : ℕ
verify_write = 1

-- The test behind `default:`, which `case VERIFY_WRITE:` falls through to.
abbrev in_user_space : ℕ → ℕ → Bool
in_user_space addr_ini addr_fin =
    leb user_first_page addr_ini && leb addr_fin (user_first_page + num_pag_code + num_pag_data)

-- Addresses and sizes are 32 bits wide, and the sum wraps.
unfoldable pub access_ok : (type addr size : ℕ) → Bool
access_ok type addr size =
    let addr_ini = ph_page addr in
    let addr_fin = ph_page ((addr + size) % 2 ^ 32) in
    if ltb addr_fin addr_ini
    then false
    else if type == verify_write
        && (leb (user_first_page + num_pag_code) addr_ini
            && leb addr_fin (user_first_page + num_pag_code + num_pag_data))
    then true
    else in_user_space addr_ini addr_fin

-- Memory, byte by byte.
abbrev pub Memory : Type 0
Memory = ℕ → ℕ

-- `w` bytes from `p` on are read, and then written from `q` on.
abbrev pub move : Memory → (p q w : ℕ) → Memory
move m p q w a = if leb q a && ltb a (q + w) then m (p + (a - q)) else m a

-- `while (size > 4) { *q++ = *p++; size -= 4; }` over words; what is left of the size comes back.
copy_words : ℕ → Memory → (p q size : ℕ) → Memory × ℕ × ℕ × ℕ
copy_words zero m p q size = (m, p, q, size)
copy_words (suc fuel) m p q size =
    let rest = copy_words fuel (move m p q 4) (p + 4) (q + 4) (size - 4) in
    if ltb 4 size then rest else (m, p, q, size)

-- `while (size > 0) { *q1++ = *p1++; size --; }` over bytes
copy_bytes : ℕ → Memory → (p q : ℕ) → Memory
copy_bytes zero m p q = m
copy_bytes (suc size) m p q = copy_bytes size (move m p q 1) (p + 1) (q + 1)

copy : Memory → (start dest size : ℕ) → Memory
unfolding copy_words copy_bytes
copy m start dest size =
    let (m', p1, q1, left) = copy_words size m start dest size in copy_bytes left m' p1 q1

-- A negative size copies nothing.
unfoldable pub copy_data : Memory → (start dest : ℕ) → ℤ → Memory
unfolding copy
copy_data m start dest size = copy m start dest (pos_part size)

unfoldable pub copy_from_user : Memory → (start dest : ℕ) → ℤ → ℤ × Memory
unfolding copy
copy_from_user m start dest size = (pos 0, copy m start dest (pos_part size))

unfoldable pub copy_to_user : Memory → (start dest : ℕ) → ℤ → ℤ × Memory
unfolding copy
copy_to_user m start dest size = (pos 0, copy m start dest (pos_part size))

unfoldable pub memset : Memory → (s c : ℕ) → ℤ → Memory
memset m s c size = for_range (pos_part size) 0 (λ i m. update m (s + i) c) m

abbrev pub cycles_per_tick : ℕ
cycles_per_tick = 109000

-- The `divl` instruction: `upper:low` by `base`. It faults unless the quotient fits 32 bits.
abbrev divl : (upper low base : ℕ) → Option (ℕ × ℕ)
divl upper low base =
    if ltb upper base
    then some ((upper * 2 ^ 32 + low) / base, (upper * 2 ^ 32 + low) % base)
    else none

-- `do_div`: quotient and remainder of the 64 bits `high:low`; `none` is the fault of `divl`.
unfoldable pub do_div : (high low base : ℕ) → Option (ℕ × ℕ)
do_div high low base =
    let upper = if high == 0 then high else high % base in
    let high' = if high == 0 then high else high / base in
    elim (divl upper low base) [ none ↦ none | some (q, r) ↦ some (high' * 2 ^ 32 + q, r) ]

-- `get_ticks`, at what `rdtsc` leaves in `eax` and `edx`
unfoldable pub get_ticks : (eax edx : ℕ) → Option ℕ
unfolding do_div
get_ticks eax edx = elim (do_div edx eax cycles_per_tick) [
  | none ↦ none
  | some (ticks, _) ↦ some (ticks % 2 ^ 32)
]
