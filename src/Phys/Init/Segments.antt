-- ===== src/Phys/Init/Segments.antt =====
-- The pages of the free segments of a memory map, and what `reserve` does to them.
use simple_os_rs.Common.{
  ℕ, ◌+◌, ◌-◌, ◌*◌, ◌/◌, ◌%◌, ◌^◌, ◌<◌, ◌≤◌, ◌≡◌, ◌⊎◌, inl, inr, refl, List, [], ◌∷◌, true, false,
  ◌&&◌, leb, arith, Bool-cases, dec_lt,
}
use simple_os_rs.Common.Outcome.{ok, panic, expect_failed}
use simple_os_rs.Phys.Manager.{page_of}
use simple_os_rs.Phys.Manager.Region.{InRegion}
use simple_os_rs.Phys.Init.{MemorySegment, is_free, reserve}

-- Page `p` belongs to the segment, and that is free.
abbrev pub SegmentPages : MemorySegment → ℕ → Type 0
SegmentPages e p = (is_free e ≡ true) × InRegion p (page_of e.start) e.page_count

-- Page `p` belongs to a free segment of the map.
abbrev pub FreeIn : List MemorySegment → ℕ → Type 0
FreeIn [] p = ⊥
FreeIn (e ∷ es) p = SegmentPages e p ⊎ FreeIn es p

-- No page belongs to two free segments.
abbrev pub Separate : List MemorySegment → Type 0
Separate [] = Unit
Separate (e ∷ es) = ((p : ℕ) → SegmentPages e p → ¬ FreeIn es p) × Separate es

-- The free segments lie below page `n`.
abbrev pub Inside : ℕ → List MemorySegment → Type 0
Inside n [] = Unit
Inside n (e ∷ es) = (is_free e ≡ true → page_of e.start + e.page_count ≤ n) × Inside n es

-- A free segment has at least `pages` pages.
abbrev pub Roomy : ℕ → List MemorySegment → Type 0
Roomy pages [] = ⊥
Roomy pages (e ∷ es) = ((is_free e && leb pages e.page_count) ≡ true) ⊎ Roomy pages es

-- What `reserve` gives: the pages that it takes were free, and the map that is left has the others.
pub record Reserved (pages n : ℕ) (es : List MemorySegment) : Type 0 where
  pub addr : ℕ
  pub left : List MemorySegment
  pub returns : reserve pages es ≡ ok (addr, left)
  pub were_free : (p : ℕ) → InRegion p (page_of addr) pages → FreeIn es p
  pub keeps : (p : ℕ) → FreeIn left p → FreeIn es p × ¬ InRegion p (page_of addr) pages
  pub splits : (p : ℕ) → FreeIn es p → FreeIn left p ⊎ InRegion p (page_of addr) pages
  pub separate : Separate left
  pub inside : Inside n left

module _ (pages n : ℕ) (small : n < 2 ^ 52) where
  take_here :
      (e : MemorySegment) (es : List MemorySegment)
      → (is_free e && leb pages e.page_count) ≡ true
      → Separate (e ∷ es)
      → Inside n (e ∷ es)
      → Reserved pages n (e ∷ es)
  unfolding reserve
  take_here e es fits (apart, sep) (inside, ins) =
      let is : is_free e ≡ true = ground arith in
      let le : pages ≤ e.page_count = ground arith in
      let below : page_of e.start + e.page_count ≤ n = inside is in
      let start : (e.start + pages * 4096) % 2 ^ 64 / 4096 ≡ page_of e.start + pages =
        omega arith in
      record {
        addr = e.start;
        left =
            record e {
              start = (e.start + pages * 4096) % 2 ^ 64;
              page_count = e.page_count - pages;
            }
            ∷ es;
        returns = rw fits;
        were_free = λ p h. inl (is, omega arith);
        keeps = λ p h. elim h [
          | inl here ↦ (inl (is, omega (arith, start)), λ r. omega (arith, start))
          | inr later ↦ (inr later, λ r. apart p (is, omega arith) later)
        ];
        splits = λ p h. elim h [
          | inl here ↦ elim (dec_lt p (page_of e.start + pages)) [
            | yes early ↦ inr (omega arith, omega arith)
            | no late ↦ inl (inl (is, omega (arith, start)))
          ]
          | inr later ↦ inl (inr later)
        ];
        separate = (λ p h. apart p (is, omega (arith, start)), sep);
        inside = (λ _. omega (arith, start), ins);
      }

  take_later :
      (e : MemorySegment) (es : List MemorySegment)
      → (is_free e && leb pages e.page_count) ≡ false
      → Separate (e ∷ es)
      → Inside n (e ∷ es)
      → Reserved pages n es
      → Reserved pages n (e ∷ es)
  unfolding reserve
  take_later e es short (apart, sep) (inside, ins) r = record {
    addr = r.addr;
    left = e ∷ r.left;
    returns = rw (short, r.returns);
    were_free = λ p h. inr (r.were_free p h);
    keeps = λ p h. elim h [
      | inl here ↦ (inl here, λ taken. apart p here (r.were_free p taken))
      | inr later ↦ let (was, out) = r.keeps p later in (inr was, out)
    ];
    splits = λ p h. elim h [
      | inl here ↦ inl (inl here)
      | inr later ↦ elim (r.splits p later) [ inl out ↦ inl (inr out) | inr taken ↦ inr taken ]
    ];
    separate = (λ p h f. apart p h (r.keeps p f).0, r.separate);
    inside = (inside, r.inside);
  }

  -- Where the free segments lie below page 2^52, are apart and one has the pages, `reserve`
  -- returns; the pages it takes were free, each other free page is still free, no more are, and
  -- the free segments are apart and in range as before.
  pub reserve-Reserved :
      (es : List MemorySegment) → Roomy pages es → Separate es → Inside n es → Reserved pages n es
  reserve-Reserved [] room sep ins = absurd room
  reserve-Reserved (e ∷ es) room sep ins = elim (Bool-cases (is_free e && leb pages e.page_count)) [
    | inl fits ↦ take_here e es fits sep ins
    | inr short ↦
        take_later e es short sep ins (
          reserve-Reserved es (elim room [ inl here ↦ absurd (cc) | inr later ↦ later ]) sep.1
            ins.1)
  ]

-- Elsewhere it panics.
pub reserve-panic :
    (pages : ℕ) (es : List MemorySegment)
    → ¬ Roomy pages es
    → reserve pages es ≡ panic expect_failed
unfolding reserve
reserve-panic pages [] none_fits = refl
reserve-panic pages (e ∷ es) none_fits = elim (Bool-cases (is_free e && leb pages e.page_count)) [
  | inl fits ↦ absurd (none_fits (inl fits))
  | inr short ↦ rw (short, reserve-panic pages es (λ later. none_fits (inr later)))
]
