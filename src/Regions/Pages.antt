-- ===== src/Regions/Pages.antt =====
-- The pages of a gap are mapped all, or none of them.
use so2_project.Common.{
  ℕ, zero, suc, ◌+◌, ◌≤◌, ◌<◌, ◌≡◌, refl, ◌⊎◌, Option, none, some, Bool, true, false, arith, ltb,
  leb, ◌&&◌, if◌then◌else◌, for_range,
}
use so2_project.Frames.{PhysMem, alloc_frame}
use so2_project.Paging.{PageTable, zero_entry, set_ss_pag, del_ss_pag}
use so2_project.Regions.{is_present, release, release_range, map_page, map_pages}

-- The pages that a loop of releases leaves.
release_loop :
    (n base i : ℕ) (s : PageTable × PhysMem) (k : ℕ)
    → (for_range n i (λ i. release (base + i)) s).0 k
      ≡ (if leb (base + i) k && ltb k (base + i + n) then zero_entry else s.0 k)
unfolding for_range del_ss_pag
release_loop zero base i s k = ground arith
release_loop (suc n) base i s k =
    ground (arith, release_loop n base (i + 1) (release (base + i) s) k)

pub release_range-pages :
    (base n : ℕ) (s : PageTable × PhysMem) (k : ℕ)
    → (release_range base n s).0 k ≡ (if leb base k && ltb k (base + n) then zero_entry else s.0 k)
unfolding release_range
release_range-pages base n s k =
    let z : base + 0 ≡ base = omega arith in rw z at (release_loop n base 0 s k)

-- What the loop leaves of the table `pt`: the pages of the gap, all or none, and the others.
pub record Mapping (pt : PageTable) (base n : ℕ) (r : Bool × (PageTable × PhysMem)) : Type 0 where
  pub inside : (k : ℕ) → base ≤ k → k < base + n → is_present r.1.0 k ≡ r.0
  pub others : (k : ℕ) → (k < base) ⊎ (base + n ≤ k) → r.1.0 k ≡ pt k

-- Where the loop stands.
record Begun (pt₀ pt : PageTable) (base n pag : ℕ) : Type 0 where
  mapped : (k : ℕ) → base ≤ k → k < base + pag → is_present pt k ≡ true
  waiting : (k : ℕ) → base + pag ≤ k → k < base + n → is_present pt k ≡ false
  same : (k : ℕ) → (k < base) ⊎ (base + n ≤ k) → pt k ≡ pt₀ k

next-Begun :
    (pt₀ pt : PageTable) (base n pag f : ℕ)
    → pag < n
    → Begun pt₀ pt base n pag
    → Begun pt₀ (set_ss_pag pt (base + pag) f) base n (pag + 1)
unfolding set_ss_pag
next-Begun pt₀ pt base n pag f l b = record {
  mapped = λ k lo hi. ground (arith, b.mapped k);
  waiting = λ k lo hi. ground (arith, b.waiting k);
  same = λ k out. ground (arith, b.same k, out);
}

fail-Mapping :
    (pt₀ pt : PageTable) (mem : PhysMem) (base n pag : ℕ)
    → pag ≤ n
    → Begun pt₀ pt base n pag
    → Mapping pt₀ base n (false, release_range base pag (pt, mem))
fail-Mapping pt₀ pt mem base n pag l b = record {
  inside = λ k lo hi. ground (arith, release_range-pages base pag (pt, mem) k, b.waiting k);
  others = λ k out. ground (arith, release_range-pages base pag (pt, mem) k, b.same k, out);
}

all-Mapping :
    (pt₀ pt : PageTable) (mem : PhysMem) (base n pag : ℕ)
    → pag ≡ n
    → Begun pt₀ pt base n pag
    → Mapping pt₀ base n (true, (pt, mem))
all-Mapping pt₀ pt mem base n pag e b = record {
  inside = λ k lo hi. b.mapped k lo (omega arith);
  others = b.same;
}

-- One answer of alloc_frame, and the rest of the loop.
page-Mapping :
    (pt₀ pt : PageTable) (base n pag : ℕ)
    (next : PageTable × PhysMem → Bool × (PageTable × PhysMem)) (r : Option ℕ × PhysMem)
    → pag < n
    → Begun pt₀ pt base n pag
    → ((pt' : PageTable) (mem : PhysMem)
        → Begun pt₀ pt' base n (pag + 1)
        → Mapping pt₀ base n (next (pt', mem)))
    → Mapping pt₀ base n (map_page base pag pt next r)
page-Mapping pt₀ pt base n pag next (some f, mem) l b rest =
    rest (set_ss_pag pt (base + pag) f) mem (next-Begun pt₀ pt base n pag f l b)
page-Mapping pt₀ pt base n pag next (none, mem) l b rest =
    fail-Mapping pt₀ pt mem base n pag (omega arith) b

map_pages-Mapping_from :
    (left : ℕ) (pt₀ pt : PageTable) (mem : PhysMem) (base n pag : ℕ)
    → pag + left ≡ n
    → Begun pt₀ pt base n pag
    → Mapping pt₀ base n (map_pages left base pag (pt, mem))
unfolding map_pages
map_pages-Mapping_from zero pt₀ pt mem base n pag e b =
    all-Mapping pt₀ pt mem base n pag (omega arith) b
map_pages-Mapping_from (suc left) pt₀ pt mem base n pag e b =
    page-Mapping pt₀ pt base n pag (map_pages left base (pag + 1)) (alloc_frame mem) (omega arith) b
      (λ pt' mem' b'. map_pages-Mapping_from left pt₀ pt' mem' base n (pag + 1) (omega arith) b')

-- Mapping the `n` free pages from `base` on is all or nothing: if each gets a frame, the loop answers true and
-- all of them are present; if the frames run out, it answers false and none of them is present. In
-- both cases every other page of the table is as it was.
pub map_pages-Mapping :
    (pt : PageTable) (mem : PhysMem) (base n : ℕ)
    → ((k : ℕ) → base ≤ k → k < base + n → is_present pt k ≡ false)
    → Mapping pt base n (map_pages n base 0 (pt, mem))
map_pages-Mapping pt mem base n free =
    map_pages-Mapping_from n pt pt mem base n 0 (omega arith) (record {
      mapped = λ k lo hi. absurd (omega arith);
      waiting = λ k lo hi. free k (omega arith) hi;
      same = λ k out. refl;
    })
