-- ===== src/Regions/Frames.antt =====
-- The frames that the mapping loop gives to the pages of a gap.
use so2_project.Common.{
  ℕ, zero, suc, ◌+◌, ◌≤◌, ◌<◌, ◌≡◌, sym, ◌≢◌, ◌⊎◌, Option, none, some, Bool, true, inl, inr,
  Bool-cases, ==→eq, arith, ◌==◌, update,
}
use so2_project.Address.{total_pages, num_pag_kernel}
use so2_project.Frames.{PhysMem, free_mark, used_mark, alloc_frame}
use so2_project.Frames.Alloc.{Found, alloc_frame-Found}
use so2_project.Paging.{PageTable, set_ss_pag, get_frame}
use so2_project.Regions.{map_page, map_pages}

-- Each of the `n` pages from `base` on has a frame that was free, above those of the kernel, and no
-- other of them has it.
pub record Granted (mem : PhysMem) (pt : PageTable) (base n : ℕ) : Type 0 where
  pub free : (p : ℕ) → base ≤ p → p < base + n → mem (get_frame pt p) ≡ free_mark
  pub bound : (p : ℕ) → base ≤ p → p < base + n → get_frame pt p < total_pages
  pub above : (p : ℕ) → base ≤ p → p < base + n → num_pag_kernel ≤ get_frame pt p
  pub own :
      (p q : ℕ)
      → base ≤ p
      → p < base + n
      → base ≤ q
      → q < base + n
      → p ≢ q
      → get_frame pt p ≢ get_frame pt q

-- Where the loop stands: the frames given are marked, and no frame has become free.
record Giving (mem₀ mem : PhysMem) (pt : PageTable) (base pag : ℕ) : Type 0 where
  granted : Granted mem₀ pt base pag
  marked : (p : ℕ) → base ≤ p → p < base + pag → mem (get_frame pt p) ≢ free_mark
  back : (f : ℕ) → mem f ≡ free_mark → mem₀ f ≡ free_mark

module _ (mem₀ mem : PhysMem) (pt : PageTable) (base pag f : ℕ) (g : Giving mem₀ mem pt base pag)
    (free : mem f ≡ free_mark) (small : f < total_pages) (big : num_pag_kernel ≤ f) where
  abbrev table : PageTable
  table = set_ss_pag pt (base + pag) f

  new_frame : get_frame table (base + pag) ≡ f
  unfolding set_ss_pag get_frame
  new_frame = ground arith

  old_frame : (p : ℕ) → p < base + pag → get_frame table p ≡ get_frame pt p
  unfolding set_ss_pag get_frame
  old_frame p l = ground arith

  -- The frame of an earlier page is marked, so that it is not the new one.
  new-old : (p : ℕ) → base ≤ p → p < base + pag → get_frame pt p ≢ f
  new-old p lo hi e = g.marked p lo hi (rw e free)

  which :
      (p : ℕ)
      → base ≤ p
      → p < base + (pag + 1)
      → ((p ≡ base + pag) × (get_frame table p ≡ f))
        ⊎ ((p < base + pag) × (get_frame table p ≡ get_frame pt p))
  which p lo hi = elim (Bool-cases (p == base + pag)) [
    | inl last ↦ let e : p ≡ base + pag = ==→eq p (base + pag) last in inl (e, rw e new_frame)
    | inr before ↦ let l : p < base + pag = ground arith in inr (l, old_frame p l)
  ]

  next-Granted : Granted mem₀ table base (pag + 1)
  next-Granted = record {
    free = λ p lo hi. elim (which p lo hi) [
      | inl (e, n) ↦ rw n (g.back f free)
      | inr (l, o) ↦ rw o (g.granted.free p lo l)
    ];
    bound = λ p lo hi. elim (which p lo hi) [
      | inl (e, n) ↦ rw n small
      | inr (l, o) ↦ rw o (g.granted.bound p lo l)
    ];
    above = λ p lo hi. elim (which p lo hi) [
      | inl (e, n) ↦ rw n big
      | inr (l, o) ↦ rw o (g.granted.above p lo l)
    ];
    own = λ p q lo hi lo' hi' ne. elim (which p lo hi) [
      | inl (e, n) ↦ elim (which q lo' hi') [
        | inl (e', n') ↦ absurd (ne (omega arith))
        | inr (l', o') ↦ rw (n, o') (λ h. new-old q lo' l' (sym h))
      ]
      | inr (l, o) ↦ elim (which q lo' hi') [
        | inl (e', n') ↦ rw (o, n') (new-old p lo l)
        | inr (l', o') ↦ rw (o, o') (g.granted.own p q lo l lo' l' ne)
      ]
    ];
  }

  next-Giving : Giving mem₀ (update mem f used_mark) table base (pag + 1)
  next-Giving = record {
    granted = next-Granted;
    marked = λ p lo hi. elim (which p lo hi) [
      | inl (e, n) ↦ rw n (ground arith)
      | inr (l, o) ↦ rw o (ground (arith, g.marked p lo l))
    ];
    back = λ h e. ground (arith, g.back h);
  }

-- One answer of alloc_frame, and the rest of the loop.
page-Granted :
    (mem₀ mem : PhysMem) (pt : PageTable) (base n pag : ℕ)
    (next : PageTable × PhysMem → Bool × (PageTable × PhysMem)) (r : Option ℕ × PhysMem)
    → Found 256 mem r
    → Giving mem₀ mem pt base pag
    → (map_page base pag pt next r).0 ≡ true
    → ((pt' : PageTable) (mem' : PhysMem)
        → Giving mem₀ mem' pt' base (pag + 1)
        → (next (pt', mem')).0 ≡ true
        → Granted mem₀ (next (pt', mem')).1.0 base n)
    → Granted mem₀ (map_page base pag pt next r).1.0 base n
page-Granted mem₀ mem pt base n pag next (none, m) found g done rest = absurd (ground arith)
page-Granted mem₀ mem pt base n pag next (some f, m) (lo, hi, par, free, mark, before) g done rest =
    rest (set_ss_pag pt (base + pag) f) m
      (rw mark (next-Giving mem₀ mem pt base pag f g free hi lo)) done

map_pages-Granted_from :
    (left : ℕ) (mem₀ mem : PhysMem) (pt : PageTable) (base n pag : ℕ)
    → pag + left ≡ n
    → Giving mem₀ mem pt base pag
    → (map_pages left base pag (pt, mem)).0 ≡ true
    → Granted mem₀ (map_pages left base pag (pt, mem)).1.0 base n
unfolding map_pages
map_pages-Granted_from zero mem₀ mem pt base n pag e g done =
    let e' : pag ≡ n = omega arith in rw (← e') g.granted
map_pages-Granted_from (suc left) mem₀ mem pt base n pag e g done =
    page-Granted mem₀ mem pt base n pag (map_pages left base (pag + 1)) (alloc_frame mem)
      (alloc_frame-Found mem) g done
      (λ pt' mem' g' done'.
        map_pages-Granted_from left mem₀ mem' pt' base n (pag + 1) (omega arith) g' done')

-- If the mapping loop answers true, each page of the gap has a frame above those of the kernel that was
-- free before, and no two of them have the same.
pub map_pages-Granted :
    (mem : PhysMem) (pt : PageTable) (base n : ℕ)
    → (map_pages n base 0 (pt, mem)).0 ≡ true
    → Granted mem (map_pages n base 0 (pt, mem)).1.0 base n
map_pages-Granted mem pt base n done =
    map_pages-Granted_from n mem mem pt base n 0 (omega arith)
      (record {
        granted = record {
          free = λ p lo hi. absurd (omega arith);
          bound = λ p lo hi. absurd (omega arith);
          above = λ p lo hi. absurd (omega arith);
          own = λ p q lo hi lo' hi' ne. absurd (omega arith);
        };
        marked = λ p lo hi. absurd (omega arith);
        back = λ f e. e;
      })
      done
