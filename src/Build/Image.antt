-- ===== src/Build/Image.antt =====
-- The image that build.c writes, byte by byte.
use so2_project.Common.{
  ℕ, zero, suc, ◌+◌, ◌-◌, ◌≤◌, ◌<◌, ◌≡◌, refl, sym, ap, ◌∙◌, true, false, ◌&&◌, Bool-cases, ==-self,
  inl, inr, List, [], ◌∷◌, length, take, drop, get_or, arith, ltb, leb, ◌==◌, if◌then◌else◌, update,
}
use mathlib.Core.Path.{subst}
use so2_project.Build.{
  Host, Output, Built, done, put_bytes, write_out, chunk, copy_step, copy_file, patch,
}

-- Bytes that are written, read back.
pub put_bytes_lem :
    (m : ℕ → ℕ) (p : ℕ) (bs : List ℕ) (a : ℕ)
    → put_bytes m p bs a ≡ (if leb p a && ltb a (p + length bs) then get_or bs (a - p) 0 else m a)
unfolding put_bytes
put_bytes_lem m p [] a = ground arith
put_bytes_lem m p (b ∷ bs) a =
    let rest = put_bytes_lem (update m p b) (p + 1) bs a in
    elim (Bool-cases (leb (p + 1) a)) [
      | inr below ↦ elim (Bool-cases (a == p)) [
        | inl same ↦ let z : a - p ≡ 0 = ground arith in rw z (rest ∙ ground arith)
        | inr other ↦ ground (arith, rest)
      ]
      | inl above ↦ let z : a - p ≡ suc (a - (p + 1)) = ground arith in rw z (rest ∙ ground arith)
    ]

length-take_lem : (n : ℕ) (xs : List ℕ) → n ≤ length xs → length (take n xs) ≡ n
length-take_lem zero xs l = refl
length-take_lem (suc n) [] l = absurd (omega arith)
length-take_lem (suc n) (x ∷ xs) l = omega (arith, length-take_lem n xs (omega arith))

length-drop_lem : (n : ℕ) (xs : List ℕ) → n ≤ length xs → length (drop n xs) + n ≡ length xs
length-drop_lem zero xs l = omega arith
length-drop_lem (suc n) [] l = absurd (omega arith)
length-drop_lem (suc n) (x ∷ xs) l = omega (arith, length-drop_lem n xs (omega arith))

put_bytes_split :
    (n : ℕ) (m : ℕ → ℕ) (p : ℕ) (xs : List ℕ)
    → n ≤ length xs
    → put_bytes (put_bytes m p (take n xs)) (p + n) (drop n xs) ≡ put_bytes m p xs
unfolding put_bytes
put_bytes_split zero m p xs l = let e : p + 0 ≡ p = omega arith in rw e refl
put_bytes_split (suc n) m p [] l = absurd (omega arith)
put_bytes_split (suc n) m p (x ∷ xs) l =
    let e : p + suc n ≡ p + 1 + n = omega arith in
    rw e (put_bytes_split n (update m p x) (p + 1) xs (omega arith))

-- A host on which every write and every seek succeeds.
pub record Willing (h : Host) : Type 0 where
  pub writes : (p n : ℕ) → h.write_ok p n ≡ true
  pub seeks : (p : ℕ) → h.seek_ok p ≡ true

abbrev pub written : Output → List ℕ → Output
written o bs = record { bytes = put_bytes o.bytes o.position bs; position = o.position + length bs }

written-nil : (o : Output) → done (written o []) ≡ done o
unfolding put_bytes
written-nil o = let z : o.position + 0 ≡ o.position = omega arith in rw z refl

written-split :
    (n : ℕ) (o : Output) (xs : List ℕ)
    → n ≤ length xs
    → written (written o (take n xs)) (drop n xs) ≡ written o xs
written-split n o xs l =
    let size = length-take_lem n xs l in
    let left = length-drop_lem n xs l in
    let end : o.position + n + length (drop n xs) ≡ o.position + length xs = omega arith in
    rw (size, put_bytes_split n o.bytes o.position xs l, end) refl

module _ {h : Host} (w : Willing h) where
  pub write_out-done : (o : Output) (bs : List ℕ) → write_out h o bs ≡ done (written o bs)
  write_out-done o bs = rw (w.writes o.position (length bs)) refl

  pub patch-done :
      (p : ℕ) (bs : List ℕ) (o : Output)
      → patch h p bs o ≡ done (written (record o { position = p }) bs)
  patch-done p bs o = rw (w.seeks p, w.writes p (length bs)) refl

  step-done :
      (rest : List ℕ) (sz : ℕ) (o : Output) (next : List ℕ → ℕ → Output → Built Output)
      → length (take (chunk sz) rest) ≡ chunk sz
      → copy_step h rest sz o next false
        ≡ next (drop (chunk sz) rest) (sz - chunk sz) (written o (take (chunk sz) rest))
  step-done rest sz o next size =
      let whole : (length (take (chunk sz) rest) == chunk sz) ≡ true =
        rw size (==-self (chunk sz)) in
      rw (whole, w.writes o.position (length (take (chunk sz) rest))) refl

  -- The loop writes the whole file.
  pub copy_file-done :
      (fuel : ℕ) (rest : List ℕ) (sz : ℕ) (o : Output)
      → length rest ≡ sz
      → sz ≤ fuel
      → copy_file fuel h rest sz o ≡ done (written o rest)
  unfolding copy_file
  copy_file-done zero [] sz o e l = sym (written-nil o)
  copy_file-done zero (x ∷ rest) sz o e l = absurd (omega arith)
  copy_file-done (suc fuel) [] sz o e l = let z : 0 ≡ sz = e in rw (← z) (sym (written-nil o))
  copy_file-done (suc fuel) (x ∷ xs) sz o e l =
      let rest = x ∷ xs in
      let c = chunk sz in
      let more : (0 == sz) ≡ false = ground arith in
      let fits : c ≤ length rest = ground arith in
      let some_bytes : 0 < c = ground arith in
      let size = length-take_lem c rest fits in
      let left = length-drop_lem c rest fits in
      subst (λ b. copy_step h rest sz o (copy_file fuel h) b ≡ done (written o rest)) (sym more)
        (step-done rest sz o (copy_file fuel h) size
          ∙ copy_file-done fuel (drop c rest) (sz - c) (written o (take c rest)) (omega arith)
              (omega arith)
          ∙ ap done (written-split c o rest fits))
