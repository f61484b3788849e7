-- ===== src/Processes/Fork/Copy.antt =====
-- The data pages of the child hold what those of the parent hold.
use so2_project.Common.{
  ℕ, zero, suc, ◌+◌, ◌*◌, ◌/◌, ◌≤◌, ◌<◌, ◌≡◌, refl, sym, ap, ◌∙◌, ◌≢◌, some, Bool-cases, ==→eq, inl,
  inr, arith, ◌==◌,
}
use so2_project.Paging.{get_frame}
use so2_project.Utils.{Memory}
use so2_project.Processes.Fork.{Tables, then_round, copy_rounds}
use so2_project.Processes.Fork.Page.{
  IsData, IsSplit, Copied, frame, after_round, round-some, round-Copied,
}

module _ (parent child next : ℕ) (ne : child ≢ parent) (low : 284 ≤ next)
    (high : next + 36 ≤ 1024) where
  -- One round leaves the data pages of the parent and the table of the child alone.
  kept-page :
      (pag : ℕ) (s s₁ : Tables × Memory) (p : ℕ)
      → IsData pag
      → IsData p
      → Copied parent child next pag 1 s s₁
      → s₁.0 parent p ≡ s.0 parent p
  kept-page pag s s₁ p d e a = ground (arith, a.temps p)

  kept-IsSplit :
      (pag : ℕ) (s s₁ : Tables × Memory)
      → IsData pag
      → IsSplit s.0 parent child
      → Copied parent child next pag 1 s s₁
      → IsSplit s₁.0 parent child
  kept-IsSplit pag s s₁ d split a =
      let same : s₁.0 child ≡ s.0 child = a.others child ne in
      record {
        present = λ p e. rw (kept-page pag s s₁ p d e a) (split.present p e);
        small = λ p e. rw same (split.small p e);
        own = λ p q e f n. rw same (split.own p q e f n);
        apart = λ p q e f.
            let kept = frame (s₁.0 parent) (s.0 parent) q (kept-page pag s s₁ q d f a) in
            rw (same, kept) (split.apart p q e f);
      }

  -- The first page, and then the others.
  Copied-step :
      (pag left : ℕ) (s s₁ s' : Tables × Memory)
      → pag + suc left ≤ 284
      → 264 ≤ pag
      → IsSplit s.0 parent child
      → Copied parent child next pag 1 s s₁
      → Copied parent child next (pag + 1) left s₁ s'
      → Copied parent child next pag (suc left) s s'
  Copied-step pag left s s₁ s' hi lo split a b = record {
    others = λ j nj. b.others j nj ∙ a.others j nj;
    temps = λ p. ground (arith, a.temps p, b.temps p);
    bytes = λ p d l h ld. elim (Bool-cases (p == pag)) [
      | inl first ↦ let e : p ≡ pag = ==→eq p pag first in rw e (first_bytes d ld)
      | inr later ↦ later_bytes p d (ground arith) h ld
    ];
    rest = λ x out.
        b.rest x (λ p l h. rw same (out p (omega arith) (omega arith)))
        ∙ a.rest x (λ p l h. out p (omega arith) (omega arith));
  }
    where
      same : s₁.0 child ≡ s.0 child
      same = a.others child ne

      quotient : (f d : ℕ) → d < 4096 → (f * 4096 + d) / 4096 ≡ f
      quotient f d l = omega arith

      first_bytes :
          (d : ℕ)
          → d < 4096
          → s'.1 (get_frame (s.0 child) pag * 4096 + d)
            ≡ s.1 (get_frame (s.0 parent) pag * 4096 + d)
      first_bytes d l =
          b.rest (get_frame (s.0 child) pag * 4096 + d) (λ q lo' hi'.
            rw (quotient (get_frame (s.0 child) pag) d l, same)
              (split.own pag q (lo, omega arith) (omega arith, omega arith) (omega arith)))
          ∙ a.bytes pag d (omega arith) (omega arith) l

      later_bytes :
          (p d : ℕ)
          → pag < p
          → p < pag + suc left
          → d < 4096
          → s'.1 (get_frame (s.0 child) p * 4096 + d) ≡ s.1 (get_frame (s.0 parent) p * 4096 + d)
      later_bytes p d l h ld =
          let kept = kept-page pag s s₁ p (lo, omega arith) (omega arith, omega arith) a in
          let f : get_frame (s₁.0 parent) p ≡ get_frame (s.0 parent) p =
            frame (s₁.0 parent) (s.0 parent) p kept in
          rw (same, f) at (b.bytes p d (omega arith) (omega arith) ld)
          ∙ a.rest (get_frame (s.0 parent) p * 4096 + d) (λ q lo' hi'.
            rw (quotient (get_frame (s.0 parent) p) d ld)
              (λ e. split.apart q p (omega arith, omega arith) (omega arith, omega arith) (sym e)))

  -- The whole loop: it meets no page fault, and copies.
  pub copy_rounds-Copied :
      (left pag : ℕ) (s : Tables × Memory)
      → pag + left ≤ 284
      → 264 ≤ pag
      → IsSplit s.0 parent child
      → (s' : Tables × Memory) × (copy_rounds left parent child next pag s ≡ some s')
        × Copied parent child next pag left s s'
  unfolding copy_rounds
  copy_rounds-Copied zero pag s hi lo split = (
    s,
    refl,
    record {
      others = λ j nj. refl;
      temps = λ p. ground arith;
      bytes = λ p d l h ld. absurd (omega arith);
      rest = λ x out. refl;
    },
  )
  copy_rounds-Copied (suc left) pag (ts, ram) hi lo split =
      let d : IsData pag = (lo, omega arith) in
      let a = round-Copied parent child next ne low high pag ts ram d (split.small pag d) in
      let (s', e, b) =
        copy_rounds-Copied left (pag + 1) (after_round parent child next ne low high (ts, ram) pag)
          (omega arith) (omega arith)
          (kept-IsSplit pag (ts, ram) (after_round parent child next ne low high (ts, ram) pag) d
            split a) in
      (
        s',
        ap (then_round (copy_rounds left parent child next (pag + 1)))
              (round-some parent child next ne low high pag ts ram d (split.present pag d))
            ∙ e,
        Copied-step pag left (ts, ram) (after_round parent child next ne low high (ts, ram) pag) s'
            hi lo split a b,
      )
