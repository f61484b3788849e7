-- ===== src/Build.antt =====
-- build.c, the program that joins the boot sector, the kernel and the user's program to a disk image.
--
-- What the operating system answers is a parameter: the contents of the three files and their sizes, and
-- which writes and seeks on the standard output succeed. A file is the list of its bytes that are
-- still to be read. What goes to the standard error output is left out, except for the message of
-- `die`, after which the program ends.
pub mod Image
pub mod Whole
pub mod Layout
mod Tests
use so2_project.Common.{
  ℕ, zero, suc, ◌+◌, ◌-◌, ◌*◌, ◌/◌, ◌%◌, ◌^◌, Option, none, some, Bool, true, false, not, ◌&&◌,
  ◌||◌, List, [], ◌∷◌, length, take, drop, get_or, set, ltb, ◌==◌, if◌then◌else◌, update,
}

pub data Message : Type 0 where
  usage unable_to_open unable_to_read_header non_minix illegal_data illegal_bss illegal_symbols :
      Message
  boot_size no_boot_flag unable_to_stat unexpected_eof write_failed seek_failed : Message

-- How a part of the program ends.
pub data Built (A : Type 0) : Type 0 where
  died : Message → Built A
  done : A → Built A

infixl 5 ◌>>=◌
abbrev pub ◌>>=◌ : {A B : Type 0} → Built A → (A → Built B) → Built B
died m >>= f = died m
done a >>= f = f a

-- The host: open and read, fstat, and whether a write of so many bytes at a position, or a seek, succeeds.
pub record Host : Type 0 where
  pub argc : ℕ
  pub file : ℕ → Option (List ℕ)
  pub stat : ℕ → Option ℕ
  pub write_ok : (position n : ℕ) → Bool
  pub seek_ok : ℕ → Bool

-- The standard output: the bytes written, and the position.
pub record Output : Type 0 where
  pub bytes : ℕ → ℕ
  pub position : ℕ

abbrev pub minix_header_len : ℕ
minix_header_len = 32

abbrev pub die_unless : Bool → Message → Built Unit
die_unless true m = done tt
die_unless false m = died m

abbrev pub or_die : {A : Type 0} → Message → Option A → Built A
or_die m none = died m
or_die m (some a) = done a

abbrev pub open_file : Host → ℕ → Built (List ℕ)
open_file h i = or_die unable_to_open (h.file i)

-- `lb[i]`
abbrev pub lb : List ℕ → ℕ → ℕ
lb buf i =
    get_or buf (4 * i) 0
    + 2 ^ 8 * get_or buf (4 * i + 1) 0
    + 2 ^ 16 * get_or buf (4 * i + 2) 0
    + 2 ^ 24 * get_or buf (4 * i + 3) 0

abbrev pub same_bytes : List ℕ → List ℕ → Bool
same_bytes [] [] = true
same_bytes [] (y ∷ ys) = false
same_bytes (x ∷ xs) [] = false
same_bytes (x ∷ xs) (y ∷ ys) = x == y && same_bytes xs ys

abbrev pub hdr : List ℕ
hdr = 0x01 ∷ 0x03 ∷ 0x10 ∷ 0x04 ∷ 0x20 ∷ 0x00 ∷ 0x00 ∷ 0x00 ∷ []

-- What is left of the file when the header has been read.
unfoldable pub minix_open : Host → ℕ → Built (List ℕ)
minix_open h i = do
  bytes ← open_file h i
  _ ← die_unless (length (take minix_header_len bytes) == minix_header_len) unable_to_read_header
  _ ← die_unless (same_bytes (take 8 bytes) hdr && lb bytes 5 == 0) non_minix
  _ ← die_unless (lb bytes 3 == 0) illegal_data
  _ ← die_unless (lb bytes 4 == 0) illegal_bss
  _ ← die_unless (lb bytes 7 == 0) illegal_symbols
  done (drop minix_header_len bytes)

unfoldable pub put_bytes : (ℕ → ℕ) → ℕ → List ℕ → ℕ → ℕ
put_bytes m p [] = m
put_bytes m p (b ∷ bs) = put_bytes (update m p b) (p + 1) bs

-- `if (write(1, buf, n) != n) die(…)`
abbrev pub write_out : Host → Output → List ℕ → Built Output
write_out h o bytes =
    if h.write_ok o.position (length bytes)
    then done (record {
      bytes = put_bytes o.bytes o.position bytes;
      position = o.position + length bytes;
    })
    else died write_failed

-- `if (lseek(1, p, SEEK_SET) != p) die(…)`
abbrev pub seek_out : Host → ℕ → Output → Built Output
seek_out h p o = if h.seek_ok p then done (record o { position = p }) else died seek_failed

-- The boot sector, without its header; the numbers of the root device are zeros.
unfoldable pub write_boot : Host → Output → Built Output
unfolding minix_open
write_boot h o = do
  rest ← minix_open h 1
  _ ← die_unless (length (take 1024 rest) == 512) boot_size
  _ ← die_unless (get_or rest 510 0 == 0x55 && get_or rest 511 0 == 0xaa) no_boot_flag
  write_out h o (set (set (take 512 rest) 508 0) 509 0)

-- `l = (sz > sizeof(buf)) ? sizeof(buf) : sz`
abbrev pub chunk : ℕ → ℕ
chunk sz = if ltb 1024 sz then 1024 else sz

-- One round of the loop that copies a file, or its end.
abbrev pub copy_step :
    Host
    → (rest : List ℕ) (sz : ℕ) → Output
    → (List ℕ → ℕ → Output → Built Output)
    → Bool
    → Built Output
copy_step h rest sz o next true = done o
copy_step h rest sz o next false = do
  _ ← die_unless (length (take (chunk sz) rest) == chunk sz) unexpected_eof
  o' ← write_out h o (take (chunk sz) rest)
  next (drop (chunk sz) rest) (sz - chunk sz) o'

-- `while (sz > 0)`, with as many rounds as there are bytes at most.
unfoldable pub copy_file : ℕ → Host → List ℕ → (sz : ℕ) → Output → Built Output
copy_file zero h rest sz o = done o
copy_file (suc fuel) h rest sz o = copy_step h rest sz o (copy_file fuel h) (0 == sz)

-- One of the two files behind the boot sector, and its size in a word.
unfoldable pub append_file : Host → ℕ → Output → Built (ℕ × Output)
unfolding copy_file
append_file h i o = do
  bytes ← open_file h i
  st_size ← or_die unable_to_stat (h.stat i)
  let size = st_size % 2 ^ 32
  o' ← copy_file size h bytes size o
  done (size, o')

-- The three low bytes of a size, and a zero.
abbrev pub size_bytes : ℕ → List ℕ
size_bytes n = n % 2 ^ 8 ∷ n / 2 ^ 8 % 2 ^ 8 ∷ n / 2 ^ 16 % 2 ^ 8 ∷ 0 ∷ []

abbrev pub patch : Host → ℕ → List ℕ → Output → Built Output
patch h p bytes o = do o' ← seek_out h p o; write_out h o' bytes

-- The sizes, which go over the first bytes of the kernel.
unfoldable pub write_sizes : Host → (sys_size usr_size : ℕ) → Output → Built Output
write_sizes h sys_size usr_size o = do
  let im_size = (sys_size + usr_size + 15) % 2 ^ 32 / 16
  o₁ ← patch h 500 (im_size % 2 ^ 8 ∷ im_size / 2 ^ 8 % 2 ^ 8 ∷ []) o
  o₂ ← patch h 512 (size_bytes sys_size) o₁
  o₃ ← patch h 516 (size_bytes usr_size) o₂
  patch h 520 (size_bytes 0x7E1A) o₃

unfoldable pub build : Host → Output → Built Output
unfolding write_boot append_file write_sizes
build h o = do
  _ ← die_unless (h.argc == 4) usage
  o₁ ← write_boot h o
  (sys_size, o₂) ← append_file h 2 o₁
  (usr_size, o₃) ← append_file h 3 o₂
  write_sizes h sys_size usr_size o₃
