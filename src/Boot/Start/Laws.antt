-- ===== src/Boot/Start/Laws.antt =====
-- The mode that is chosen, and the size of memory on both sides.
use simple_os_rs.Common.{
  ℕ, ◌^◌, ◌<◌, ◌≤◌, ◌≡◌, ◌⊎◌, inl, inr, refl, sym, ap, ◌∙◌, true, ◌&&◌, List, [], ◌∷◌, map, max,
  Option, none, some, ltb, leb, if◌then◌else◌, arith, Bool-cases,
}
use simple_os_rs.Common.Outcome.{ok, panic, expect_failed}
use simple_os_rs.Phys.Init.{end_of, max_from, max_address}
use simple_os_rs.Common.Bits.Disjoint.{bit_and-ones}
use simple_os_rs.Boot.Paging.{Descriptor, mapped_size, physical_size}
use simple_os_rs.Boot.Start.{
  VideoMode, is_raw, best_from, select_mode, screen_of, MemoryDescriptor, segment_of, memory_map,
}

-- A mode of pixels that can be written, of 1 to 1920 columns.
pub record Suitable (m : VideoMode) : Type 0 where
  pub raw : is_raw m.pixel_format ≡ true
  pub wide : 1 ≤ m.width
  pub narrow : m.width ≤ 1920

abbrev pub Member : VideoMode → List VideoMode → Type 0
Member m [] = ⊥
Member m (x ∷ xs) = (x ≡ m) ⊎ Member m xs

abbrev pub AllBelow : ℕ → List VideoMode → Type 0
AllBelow w [] = Unit
AllBelow w (m ∷ ms) = (Suitable m → m.width ≤ w) × AllBelow w ms

-- The widest of the modes.
pub record Widest (modes : List VideoMode) (m : VideoMode) : Type 0 where
  pub member : Member m modes
  pub suitable : Suitable m
  pub widest : AllBelow m.width modes

-- What the loop finds from the best width `x` on: a mode that is wider, or none.
abbrev pub Found : ℕ → List VideoMode → Option VideoMode → Option VideoMode → Type 0
Found x modes before found =
    ((found ≡ before) × AllBelow x modes)
    ⊎ ((m : VideoMode) × (found ≡ some m) × (x < m.width) × Widest modes m)

AllBelow-mono : (x y : ℕ) (modes : List VideoMode) → x ≤ y → AllBelow x modes → AllBelow y modes
AllBelow-mono x y [] le h = tt
AllBelow-mono x y (m ∷ ms) le h = ((λ s. omega (arith, h.0 s)), AllBelow-mono x y ms le h.1)

pub best_from-Found :
    (x : ℕ) (before : Option VideoMode) (modes : List VideoMode)
    → Found x modes before (best_from x before modes)
unfolding best_from
best_from-Found x before [] = inl (refl, tt)
best_from-Found x before (m ∷ modes) =
    elim (Bool-cases ((leb m.width 1920 && ltb x m.width) && is_raw m.pixel_format)) [
      | inl better ↦
          let wider : x < m.width = ground arith in
          let suitable : Suitable m = record {
            raw = ground arith;
            wide = omega arith;
            narrow = ground arith;
          } in
          elim (best_from-Found m.width (some m) modes) [
            | inl (same, below) ↦ inr (
              m,
              rw better same,
              wider,
              record {
                member = inl refl;
                suitable = suitable;
                widest = ((λ s. omega arith), below);
              },
            )
            | inr (found, e, lt, w) ↦ inr (
              found,
              rw better e,
              omega arith,
              record {
                member = inr w.member;
                suitable = w.suitable;
                widest = ((λ s. omega arith), w.widest);
              },
            )
          ]
      | inr worse ↦
          let not_wider : Suitable m → m.width ≤ x =
            λ s. let raw = s.raw in let narrow = s.narrow in ground arith in
          elim (best_from-Found x before modes) [
            | inl (same, below) ↦ inl (rw worse same, (not_wider, below))
            | inr (found, e, lt, w) ↦ inr (
              found,
              rw worse e,
              lt,
              record {
                member = inr w.member;
                suitable = w.suitable;
                widest = ((λ s. omega (arith, not_wider s)), w.widest);
              },
            )
          ]
    ]

-- Where a mode has pixels in a format that can be written and 1 to 1920 columns, the widest such
-- mode is set, and the screen is that mode's if the firmware can set it; otherwise the bootloader
-- panics.
pub select_mode-Widest :
    (set_mode : VideoMode → Option (ℕ → ℕ)) (modes : List VideoMode)
    → ((m : VideoMode) × Widest modes m
        × ((frame_buffer : ℕ → ℕ)
            → set_mode m ≡ some frame_buffer
            → select_mode set_mode modes ≡ ok (screen_of m frame_buffer)))
      ⊎ (AllBelow 0 modes × (select_mode set_mode modes ≡ panic expect_failed))
unfolding select_mode
select_mode-Widest set_mode modes = elim (best_from-Found 0 none modes) [
  | inl (e, below) ↦ inr (below, rw e)
  | inr (m, e, lt, w) ↦ inl (m, w, λ frame_buffer done. rw (e, done))
]

-- A descriptor as the page tables are made from it.
abbrev pub descriptor_of : MemoryDescriptor → Descriptor
descriptor_of entry = record { phys_start = entry.phys_start; page_count = entry.page_count }

pub max_from-physical_size :
    (size : ℕ) (entries : List MemoryDescriptor)
    → max_from size (memory_map entries) ≡ physical_size size (map descriptor_of entries)
max_from-physical_size size [] = refl
max_from-physical_size size (entry ∷ entries) =
    let end = end_of (segment_of entry) in
    let larger : max size end ≡ (if ltb size end then end else size) = ground arith in
    max_from-physical_size (max size end) entries ∙ rw larger

-- Before the mask.
max_address-physical_size :
    (entry : MemoryDescriptor) (entries : List MemoryDescriptor)
    → max_address (memory_map (entry ∷ entries))
      ≡ ok (physical_size 0 (map descriptor_of (entry ∷ entries)))
unfolding max_address
max_address-physical_size entry entries =
    let end = end_of (segment_of entry) in
    let first : end ≡ (if ltb 0 end then end else 0) = ground arith in
    rw (max_from-physical_size end entries)
      (ap (λ size. ok (physical_size size (map descriptor_of entries))) first)

-- For one memory map, not empty, that ends below 2^47, the size that the bootloader maps, without
-- the bits from 47 on, is the end of memory that the physical manager computes from the segments
-- it is given.
pub max_address-mapped_size :
    (entry : MemoryDescriptor) (entries : List MemoryDescriptor)
    → physical_size 0 (map descriptor_of (entry ∷ entries)) < 2 ^ 47
    → max_address (memory_map (entry ∷ entries))
      ≡ ok (mapped_size (physical_size 0 (map descriptor_of (entry ∷ entries))))
max_address-mapped_size entry entries small =
    max_address-physical_size entry entries
    ∙ ap (λ size. ok size)
        (sym (bit_and-ones 47 (physical_size 0 (map descriptor_of (entry ∷ entries))) small))
