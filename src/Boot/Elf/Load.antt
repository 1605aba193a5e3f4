-- ===== src/Boot/Elf/Load.antt =====
-- What `prepare` makes of the segments that are loaded.
mod Segment
use simple_os_rs.Common.{
  ℕ, suc, ◌+◌, ◌-◌, ◌*◌, ◌%◌, ◌^◌, ◌<◌, ◌≤◌, ◌≡◌, ◌≢◌, ◌⊎◌, inl, inr, refl, ap, ◌∙◌, ◌==◌, ltb,
  if◌then◌else◌, arith, true, false, List, [], ◌∷◌, length, Bool-cases, dec_lt, ==_iff, lt→ltb,
  le→not-ltb,
}
use simple_os_rs.Common.Outcome.{ok, ◌>>=◌}
use simple_os_rs.Boot.Elf.Bytes.{Memory, read, in_range, read-same}
use simple_os_rs.Boot.Elf.{
  SegmentHeader, segment, segtype_load, segtype_dynamic, load, prepare_segment, prepare_segments,
}
use Segment.{contents, load-contents, load-off, segment-same}

-- The segment headers from `at` on are those of the list.
abbrev pub Reads : Memory → ℕ → List SegmentHeader → Type 0
Reads mem at [] = Unit
Reads mem at (s ∷ ss) = (segment mem at ≡ s) × Reads mem (at + 56) ss

-- Address `a` lies outside the buffer.
abbrev pub Outside : ℕ → ℕ → ℕ → Type 0
Outside dest size a = (a < dest) ⊎ (dest + size ≤ a)

-- Address `a` lies in the place of a loaded segment.
abbrev pub InSegment : ℕ → SegmentHeader → ℕ → Type 0
InSegment dest s a =
    (s.seg_type ≡ segtype_load) × (dest + s.virt_addr ≤ a) × (a < dest + s.virt_addr + s.virt_size)

abbrev pub InSegments : ℕ → List SegmentHeader → ℕ → Type 0
InSegments dest [] a = ⊥
InSegments dest (s ∷ ss) a = InSegment dest s a ⊎ InSegments dest ss a

-- No address lies in the places of two loaded segments.
abbrev pub Apart : ℕ → List SegmentHeader → Type 0
Apart dest [] = Unit
Apart dest (s ∷ ss) = ((a : ℕ) → InSegment dest s a → ¬ InSegments dest ss a) × Apart dest ss

-- A segment is not dynamic; if it is loaded its place lies in the buffer and its data outside.
pub record Fits (image dest size : ℕ) (s : SegmentHeader) : Type 0 where
  pub static : s.seg_type ≢ segtype_dynamic
  pub data_fits : s.data_size ≤ s.virt_size
  pub small : s.virt_size < 2 ^ 64
  pub inside : s.seg_type ≡ segtype_load → s.virt_addr + s.virt_size ≤ size
  pub data_outside : (k : ℕ) → k < s.data_size → Outside dest size (image + s.data_offset + k)

abbrev pub AllFit : ℕ → ℕ → ℕ → List SegmentHeader → Type 0
AllFit image dest size [] = Unit
AllFit image dest size (s ∷ ss) = Fits image dest size s × AllFit image dest size ss

-- The places of the loaded segments hold their contents.
abbrev pub Loaded : Memory → Memory → ℕ → ℕ → List SegmentHeader → Type 0
Loaded orig mem image dest [] = Unit
Loaded orig mem image dest (s ∷ ss) =
    (s.seg_type ≡ segtype_load
      → (k : ℕ) → k < s.virt_size
      → mem (dest + s.virt_addr + k) ≡ contents orig image s k)
    × Loaded orig mem image dest ss

-- One segment: what `prepare` does to memory for it.
record SegmentDone (fuel : ℕ) (mem : Memory) (image dest : ℕ) (s : SegmentHeader) : Type 0 where
  after : Memory
  returns : prepare_segment fuel mem image dest s ≡ ok after
  off : (a : ℕ) → ¬ InSegment dest s a → after a ≡ mem a
  holds :
      s.seg_type ≡ segtype_load
      → (k : ℕ) → k < s.virt_size
      → after (dest + s.virt_addr + k) ≡ contents mem image s k

module _ (fuel image dest size : ℕ) where
  prepare_segment-done :
      (mem : Memory) (s : SegmentHeader)
      → Fits image dest size s
      → SegmentDone fuel mem image dest s
  unfolding prepare_segment
  prepare_segment-done mem s f = elim (Bool-cases (s.seg_type == segtype_load)) [
    | inl is ↦ record {
      after = load mem image dest s;
      returns = rw is;
      off = λ a out.
          load-off mem image dest s f.data_fits f.small a (beside s a ((==_iff _ _).0 is) out);
      holds = λ e k lt. load-contents mem image dest s f.data_fits f.small k lt;
    }
    | inr other ↦
        let static : (s.seg_type == segtype_dynamic) ≡ false = ground (arith, f.static) in
        record {
          after = mem;
          returns = rw (other, static);
          off = λ a out. refl;
          holds = λ e. absurd (ground arith);
        }
  ]
    where
      beside :
          (s : SegmentHeader) (a : ℕ)
          → s.seg_type ≡ segtype_load
          → ¬ InSegment dest s a
          → (a < dest + s.virt_addr) ⊎ (dest + s.virt_addr + s.virt_size ≤ a)
      beside s a is out = elim (dec_lt a (dest + s.virt_addr)) [
        | yes before ↦ inl before
        | no start ↦ elim (dec_lt a (dest + s.virt_addr + s.virt_size)) [
          | yes inside ↦ absurd (out (is, omega arith, inside))
          | no behind ↦ inr (omega arith)
        ]
      ]

  pub not-InSegment :
      (s : SegmentHeader) (a : ℕ)
      → Fits image dest size s
      → Outside dest size a
      → ¬ InSegment dest s a
  not-InSegment s a f out h = let inside = f.inside h.0 in omega arith

  -- The contents are those of the image before, as long as that was not touched.
  contents-same :
      (orig mem : Memory) (s : SegmentHeader)
      → Fits image dest size s
      → ((a : ℕ) → Outside dest size a → mem a ≡ orig a)
      → (k : ℕ) → contents mem image s k ≡ contents orig image s k
  contents-same orig mem s f agree k = elim (dec_lt k s.data_size) [
    | yes early ↦
        rw (lt→ltb k s.data_size early) (agree (image + s.data_offset + k) (f.data_outside k early))
    | no late ↦ rw (le→not-ltb k s.data_size (omega arith))
  ]

  -- What the loop gives: the loaded segments are in place, and no other address changes.
  pub record Prepared (orig mem : Memory) (at : ℕ) (ss : List SegmentHeader) : Type 0 where
    pub after : Memory
    pub returns : prepare_segments fuel (length ss) mem image dest at ≡ ok after
    pub off : (a : ℕ) → ¬ InSegments dest ss a → after a ≡ mem a
    pub loaded : Loaded orig after image dest ss

module _ (fuel image dest size : ℕ) where
  prepare_segments-suc :
      (mem m₁ : Memory) (left at : ℕ) (s : SegmentHeader)
      → segment mem at ≡ s
      → prepare_segment fuel mem image dest s ≡ ok m₁
      → prepare_segments fuel (suc left) mem image dest at
        ≡ prepare_segments fuel left m₁ image dest (at + 56)
  unfolding prepare_segments
  prepare_segments-suc mem m₁ left at s here done =
      let next = λ (m : Memory). prepare_segments fuel left m image dest (at + 56) in
      ap (λ x. prepare_segment fuel mem image dest x >>= next) here ∙ ap (λ o. o >>= next) done

  prepare_all :
      (orig mem : Memory) (at : ℕ) (ss : List SegmentHeader)
      → ((a : ℕ) → Outside dest size a → mem a ≡ orig a)
      → Reads orig at ss
      → ((a : ℕ) → at ≤ a → a < at + 56 * length ss → Outside dest size a)
      → AllFit image dest size ss
      → Apart dest ss
      → Prepared fuel image dest size orig mem at ss
  prepare_all orig mem at [] agree reads outside fit apart = record {
    after = mem;
    returns = unfold prepare_segments in refl;
    off = λ a out. refl;
    loaded = tt;
  }
  prepare_all orig mem at (s ∷ ss) agree reads outside fit apart =
      let here : segment mem at ≡ s =
        segment-same orig mem at (λ a l r. agree a (outside a l (omega arith))) ∙ reads.0 in
      let d = prepare_segment-done fuel image dest size mem s fit.0 in
      let agree₁ : (a : ℕ) → Outside dest size a → d.after a ≡ orig a =
        λ a out. d.off a (not-InSegment fuel image dest size s a fit.0 out) ∙ agree a out in
      let rest =
        prepare_all orig d.after (at + 56) ss agree₁ reads.1
          (λ a l r. outside a (omega arith) (omega arith)) fit.1 apart.1 in
      record {
        after = rest.after;
        returns = prepare_segments-suc mem d.after (length ss) at s here d.returns ∙ rest.returns;
        off = λ a out. rest.off a (λ h. out (inr h)) ∙ d.off a (λ h. out (inl h));
        loaded = (
          λ is k lt.
              rest.off (dest + s.virt_addr + k)
                (apart.0 (dest + s.virt_addr + k) (is, omega arith, omega arith))
              ∙ d.holds is k lt
              ∙ contents-same fuel image dest size orig mem s fit.0 agree k,
          rest.loaded,
        );
      }

  -- The loop of `prepare` over segments that fit into the buffer loads them and changes nothing else.
  pub prepare_segments-Prepared :
      (mem : Memory) (at : ℕ) (ss : List SegmentHeader)
      → Reads mem at ss
      → ((a : ℕ) → at ≤ a → a < at + 56 * length ss → Outside dest size a)
      → AllFit image dest size ss
      → Apart dest ss
      → Prepared fuel image dest size mem mem at ss
  prepare_segments-Prepared mem at ss reads outside fit apart =
      prepare_all mem mem at ss (λ a out. refl) reads outside fit apart
