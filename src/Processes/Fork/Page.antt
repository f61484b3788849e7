-- ===== src/Processes/Fork/Page.antt =====
-- One page of the child, which holds what the page of the parent holds.
use so2_project.Common.{
  ℕ, ◌+◌, ◌-◌, ◌*◌, ◌/◌, ◌%◌, ◌^◌, ◌≤◌, ◌<◌, ◌≡◌, refl, ap, ◌≢◌, some, true, Bool-cases, inl, inr,
  arith, ltb, leb, ◌&&◌, if◌then◌else◌, update,
}
use so2_project.Address.{num_pag_kernel, num_pag_code}
use so2_project.Paging.{PageTable, zero_entry, set_ss_pag, del_ss_pag, get_frame}
use so2_project.Utils.{Memory}
use so2_project.Utils.Copy.{copy-move}
use so2_project.Regions.{is_present}
use so2_project.Processes.{translate}
use so2_project.Processes.Fork.{Tables, copy_page, copy_round}

translate_lem :
    (pt : PageTable) (page d : ℕ)
    → d < 4096
    → translate pt (page * 4096 + d) ≡ get_frame pt page * 4096 + d
translate_lem pt page d l =
    let q : (page * 4096 + d) / 4096 ≡ page = omega arith in
    let r : (page * 4096 + d) % 4096 ≡ d = omega arith in rw (q, r) refl

-- One page, byte by byte.
copy_page_lem :
    (pt : PageTable) (from to : ℕ) (ram : Memory) (a : ℕ)
    → from ≢ to
    → copy_page pt from to ram a ≡ (
        if leb (get_frame pt to * 4096) a && ltb a (get_frame pt to * 4096 + 4096)
        then ram (get_frame pt from * 4096 + (a - get_frame pt to * 4096))
        else ram a)
unfolding copy_page
copy_page_lem pt from to ram a ne =
    let m = copy-move (λ x. ram (translate pt x)) (from * 4096) (to * 4096) 4096 (ground arith) in
    rw m.0
      (elim (Bool-cases (leb (get_frame pt to * 4096) a && ltb a (get_frame pt to * 4096 + 4096))) [
        | inr out ↦ rw out refl
        | inl inside ↦
            let d = a - get_frame pt to * 4096 in
            let l : d < 4096 = ground arith in
            let e : from * 4096 + (to * 4096 + d - to * 4096) ≡ from * 4096 + d = omega arith in
            let lo : leb (to * 4096) (to * 4096 + d) ≡ true = ground arith in
            let hi : ltb (to * 4096 + d) (to * 4096 + 4096) ≡ true = ground arith in
            rw (inside, lo, hi, e) (ap ram (translate_lem pt from d l))
      ])

abbrev pub IsData : ℕ → Type 0
IsData p = (264 ≤ p) × (p < 284)

-- The parent has all its data pages, and each page of the child has a frame of its own.
pub record IsSplit (ts : Tables) (parent child : ℕ) : Type 0 where
  pub present : (p : ℕ) → IsData p → is_present (ts parent) p ≡ true
  pub small : (p : ℕ) → IsData p → get_frame (ts child) p < 2 ^ 20
  pub own :
      (p q : ℕ) → IsData p → IsData q → p ≢ q → get_frame (ts child) p ≢ get_frame (ts child) q
  pub apart : (p q : ℕ) → IsData p → IsData q → get_frame (ts child) p ≢ get_frame (ts parent) q

-- Where a page is mapped for the time of its copy.
abbrev pub temp_page : (next_start_pos pag : ℕ) → ℕ
temp_page next pag = next + (pag - num_pag_kernel + num_pag_code)

-- What the rounds for `left` pages from `pag` on leave of the tables and of the memory.
pub record Copied (parent child next pag left : ℕ) (s s' : Tables × Memory) : Type 0 where
  pub others : (j : ℕ) → j ≢ parent → s'.0 j ≡ s.0 j
  pub temps :
      (p : ℕ)
      → s'.0 parent p ≡ (
          if leb (temp_page next pag) p && ltb p (temp_page next pag + left)
          then zero_entry
          else s.0 parent p)
  pub bytes :
      (p d : ℕ)
      → pag ≤ p
      → p < pag + left
      → d < 4096
      → s'.1 (get_frame (s.0 child) p * 4096 + d) ≡ s.1 (get_frame (s.0 parent) p * 4096 + d)
  pub rest :
      (a : ℕ)
      → ((p : ℕ) → pag ≤ p → p < pag + left → a / 4096 ≢ get_frame (s.0 child) p)
      → s'.1 a ≡ s.1 a

pub frame : (pt pt' : PageTable) (p : ℕ) → pt p ≡ pt' p → get_frame pt p ≡ get_frame pt' p
unfolding get_frame
frame pt pt' p e = ap (λ x. x.pbase_addr) e

module _ (parent child next : ℕ) (ne : child ≢ parent) (low : 284 ≤ next)
    (high : next + 36 ≤ 1024) where
  -- The tables while the page is mapped.
  abbrev pub mapped : Tables → ℕ → PageTable
  mapped ts pag = set_ss_pag (ts parent) (temp_page next pag) (get_frame (ts child) pag)

  pub round-some :
      (pag : ℕ) (ts : Tables) (ram : Memory)
      → IsData pag
      → is_present (ts parent) pag ≡ true
      → copy_round parent child (temp_page next pag) pag (ts, ram)
        ≡ some (
          update
              (update ts parent (mapped ts pag))
              parent
              (del_ss_pag (mapped ts pag) (temp_page next pag)),
          copy_page (mapped ts pag) pag (temp_page next pag) ram,
        )
  unfolding copy_round set_ss_pag
  round-some pag ts ram d here = ground (arith, here)

  abbrev pub after_round : Tables × Memory → ℕ → Tables × Memory
  after_round (ts, ram) pag = (
    update (update ts parent (mapped ts pag)) parent
        (del_ss_pag (mapped ts pag) (temp_page next pag)),
    copy_page (mapped ts pag) pag (temp_page next pag) ram,
  )

  mapped-temp :
      (ts : Tables) (pag : ℕ)
      → get_frame (ts child) pag < 2 ^ 20
      → get_frame (mapped ts pag) (temp_page next pag) ≡ get_frame (ts child) pag
  unfolding set_ss_pag get_frame
  mapped-temp ts pag small = ground arith

  mapped-pag :
      (ts : Tables) (pag : ℕ)
      → IsData pag
      → get_frame (mapped ts pag) pag ≡ get_frame (ts parent) pag
  unfolding set_ss_pag get_frame
  mapped-pag ts pag d = ground arith

  after_round-temps :
      (ts : Tables) (ram : Memory) (pag p : ℕ)
      → (after_round (ts, ram) pag).0 parent p ≡ (
          if leb (temp_page next pag) p && ltb p (temp_page next pag + 1)
          then zero_entry
          else ts parent p)
  unfolding del_ss_pag set_ss_pag
  after_round-temps ts ram pag p = ground arith

  pub round-Copied :
      (pag : ℕ) (ts : Tables) (ram : Memory)
      → IsData pag
      → get_frame (ts child) pag < 2 ^ 20
      → Copied parent child next pag 1 (ts, ram) (after_round (ts, ram) pag)
  round-Copied pag ts ram d small = record {
    others = λ j nj. ground arith;
    temps = after_round-temps ts ram pag;
    bytes = λ p e lo hi l. let q : p ≡ pag = omega arith in rw q (bytes e l);
    rest = λ a out. rest a (out pag (omega arith) (omega arith));
  }
    where
      copied :
          (a : ℕ)
          → copy_page (mapped ts pag) pag (temp_page next pag) ram a ≡ (
              if leb (get_frame (ts child) pag * 4096) a
                && ltb a (get_frame (ts child) pag * 4096 + 4096)
              then ram (get_frame (ts parent) pag * 4096 + (a - get_frame (ts child) pag * 4096))
              else ram a)
      copied a =
          rw (mapped-temp ts pag small, mapped-pag ts pag d) at
            (copy_page_lem (mapped ts pag) pag (temp_page next pag) ram a (omega arith))

      bytes :
          (e : ℕ)
          → e < 4096
          → copy_page
              (mapped ts pag)
              pag
              (temp_page next pag)
              ram
              (get_frame (ts child) pag * 4096 + e)
            ≡ ram (get_frame (ts parent) pag * 4096 + e)
      bytes e l = ground (arith, copied (get_frame (ts child) pag * 4096 + e))

      rest :
          (a : ℕ)
          → a / 4096 ≢ get_frame (ts child) pag
          → copy_page (mapped ts pag) pag (temp_page next pag) ram a ≡ ram a
      rest a out = ground (arith, copied a)
