-- ===== src/Build/Whole.antt =====
-- The whole run of build.c on files of the right kind.
use so2_project.Common.{
  ℕ, zero, suc, ◌+◌, ◌/◌, ◌%◌, ◌^◌, ◌≤◌, ◌<◌, ◌≡◌, refl, ap, ◌∙◌, some, Bool, true, ◌&&◌, ==-self,
  List, [], ◌∷◌, length, take, drop, get_or, set, arith, ◌==◌,
}
use so2_project.Build.{
  Message, usage, unable_to_open, unable_to_read_header, non_minix, illegal_data, illegal_bss,
  illegal_symbols, unable_to_stat, die_unless, or_die, open_file, ◌>>=◌, Host, Output, Built, done,
  lb, same_bytes, hdr, minix_open, write_boot, append_file, size_bytes, write_sizes, build,
}
use so2_project.Build.Image.{Willing, written, write_out-done, copy_file-done}

-- The boot sector is in a file with a header; the sizes are those of the files.
pub record IsGood (h : Host) (boot sys usr : List ℕ) : Type 0 where
  pub argc : h.argc ≡ 4
  pub boot_file : h.file 1 ≡ some boot
  pub header : length (take 32 boot) ≡ 32
  pub magic : same_bytes (take 8 boot) hdr ≡ true
  pub no_other : lb boot 5 ≡ 0
  pub no_data : lb boot 3 ≡ 0
  pub no_bss : lb boot 4 ≡ 0
  pub no_symbols : lb boot 7 ≡ 0
  pub sector : length (drop 32 boot) ≡ 512
  pub flag_low : get_or (drop 32 boot) 510 0 ≡ 0x55
  pub flag_high : get_or (drop 32 boot) 511 0 ≡ 0xaa
  pub sys_file : h.file 2 ≡ some sys
  pub sys_size : h.stat 2 ≡ some (length sys)
  pub usr_file : h.file 3 ≡ some usr
  pub usr_size : h.stat 3 ≡ some (length usr)

take_all : (n : ℕ) (xs : List ℕ) → length xs ≤ n → take n xs ≡ xs
take_all zero [] l = refl
take_all zero (x ∷ xs) l = absurd (omega arith)
take_all (suc n) [] l = refl
take_all (suc n) (x ∷ xs) l = ap (λ ys. x ∷ ys) (take_all n xs (omega arith))

-- The boot sector as it is written.
abbrev pub boot_bytes : List ℕ → List ℕ
boot_bytes sector = set (set sector 508 0) 509 0

-- The words of the sizes, at the places they are written to.
abbrev pub im_bytes : (s u : ℕ) → List ℕ
im_bytes s u =
    let im_size = (s + u + 15) % 2 ^ 32 / 16 in im_size % 2 ^ 8 ∷ im_size / 2 ^ 8 % 2 ^ 8 ∷ []

abbrev pub at : ℕ → Output → Output
at p o = record o { position = p }

abbrev pub sized : (s u : ℕ) → Output → Output
sized s u o =
    written
      (at 520 (
        written (at 516 (written (at 512 (written (at 500 o) (im_bytes s u))) (size_bytes s)))
          (size_bytes u)))
      (size_bytes 0x7E1A)

-- A step that succeeds hands its result on.
bind-done : {A B : Type 0} (x : Built A) (a : A) (f : A → Built B) → x ≡ done a → (x >>= f) ≡ f a
bind-done x a f e = ap (λ y. y >>= f) e

passes : (b : Bool) (m : Message) → b ≡ true → die_unless b m ≡ done tt
passes b m e = ap (λ x. die_unless x m) e

equal : (a b : ℕ) → a ≡ b → (a == b) ≡ true
equal a b e = rw e (==-self b)

both : (a b : Bool) → a ≡ true → b ≡ true → (a && b) ≡ true
both a b p q = rw p q

module _ {h : Host} (w : Willing h) where
  write_sizes-done : (s u : ℕ) (o : Output) → write_sizes h s u o ≡ done (sized s u o)
  unfolding write_sizes
  write_sizes-done s u o =
      rw
        (
          w.seeks 500,
          w.writes 500 2,
          w.seeks 512,
          w.writes 512 4,
          w.seeks 516,
          w.writes 516 4,
          w.seeks 520,
          w.writes 520 4,
        )
        refl

  append_file-done :
      (i : ℕ) (bytes : List ℕ) (o : Output)
      → h.file i ≡ some bytes
      → h.stat i ≡ some (length bytes)
      → length bytes < 2 ^ 24
      → append_file h i o ≡ done (length bytes, written o bytes)
  unfolding append_file
  append_file-done i bytes o f s small =
      let word : length bytes % 2 ^ 32 ≡ length bytes = omega arith in
      bind-done (open_file h i) bytes _ (ap (or_die unable_to_open) f)
      ∙ bind-done (or_die unable_to_stat (h.stat i)) (length bytes) _ (ap (or_die unable_to_stat) s)
      ∙ rw word (
          bind-done _ (written o bytes) _
            (copy_file-done w (length bytes) bytes (length bytes) o refl (omega arith)))

  module _ (boot sys usr : List ℕ) (g : IsGood h boot sys usr) (small_sys : length sys < 2 ^ 24)
      (small_usr : length usr < 2 ^ 24) where
    minix_open-done : minix_open h 1 ≡ done (drop 32 boot)
    unfolding minix_open
    minix_open-done =
        bind-done (open_file h 1) boot _ (ap (or_die unable_to_open) g.boot_file)
        ∙ bind-done _ tt _ (passes _ unable_to_read_header (equal _ 32 g.header))
        ∙ bind-done _ tt _ (passes _ non_minix (both _ _ g.magic (equal _ 0 g.no_other)))
        ∙ bind-done _ tt _ (passes _ illegal_data (equal _ 0 g.no_data))
        ∙ bind-done _ tt _ (passes _ illegal_bss (equal _ 0 g.no_bss))
        ∙ bind-done _ tt _ (passes _ illegal_symbols (equal _ 0 g.no_symbols))

    write_boot-done : (o : Output) → write_boot h o ≡ done (written o (boot_bytes (drop 32 boot)))
    unfolding write_boot
    write_boot-done o =
        let size = g.sector in
        let whole = take_all 1024 (drop 32 boot) (omega arith) in
        let exact = take_all 512 (drop 32 boot) (omega arith) in
        rw (minix_open-done, whole, g.sector, g.flag_low, g.flag_high, exact)
          (write_out-done w o (boot_bytes (drop 32 boot)))

    pub build-done :
        (o : Output)
        → build h o
          ≡ done (
              sized
                (length sys)
                (length usr)
                (written (written (written o (boot_bytes (drop 32 boot))) sys) usr))
    unfolding build
    build-done o =
        let o₁ = written o (boot_bytes (drop 32 boot)) in
        let o₂ = written o₁ sys in
        let o₃ = written o₂ usr in
        bind-done _ tt _ (passes _ usage (equal _ 4 g.argc))
        ∙ bind-done (write_boot h o) o₁ _ (write_boot-done o)
        ∙ bind-done (append_file h 2 o₁) (length sys, o₂) _
            (append_file-done 2 sys o₁ g.sys_file g.sys_size small_sys)
        ∙ bind-done (append_file h 3 o₂) (length usr, o₃) _
            (append_file-done 3 usr o₂ g.usr_file g.usr_size small_usr)
        ∙ write_sizes-done (length sys) (length usr) o₃
