-- ===== src/Phys/Buddy/Fit.antt =====
-- Since neighbours are always merged, an aligned run of free pages lies in one free block: the
-- allocator never fails for want of a merge.
use native.Mathlib.Nat.{div-add-mod, mul-le-mul_left, lt_of_mul-lt-mul_left, mul-mod_right}
use simple_os_rs.Common.{
  ℕ, zero, suc, ◌+◌, ◌*◌, ◌/◌, ◌%◌, ◌^◌, ◌<◌, ◌≤◌, ◌≡◌, ap, ◌∙◌, subst₂, arith, has, dec_lt,
}
use simple_os_rs.Common.Bits.{two-pow_pos, two-pow-suc}
use simple_os_rs.Phys.Order.{max_order}
use simple_os_rs.Phys.Order.Neighbours.{aligned_down, get_buddy_index-half}
use simple_os_rs.Phys.Buddy.Pages.{Blocks, In, Free, Covered, Valid, In-first}
use simple_os_rs.Phys.Buddy.Allocating.{Available}

-- Multiples of `p` that differ are at least `p` apart.
multiples_apart : (p a b : ℕ) → a % p ≡ 0 → b % p ≡ 0 → a < b → a + p ≤ b
multiples_apart p a b ha hb lt =
    let x = a / p in
    let y = b / p in
    let ea : p * x ≡ a = omega (arith, div-add-mod a p) in
    let eb : p * y ≡ b = omega (arith, div-add-mod b p) in
    let xy : x < y = lt_of_mul-lt-mul_left p (omega arith) in omega (arith, mul-le-mul_left p xy)

aligned_below : (k j a : ℕ) → k ≤ j → j ≤ max_order → a % 2 ^ j ≡ 0 → a % 2 ^ k ≡ 0
aligned_below k zero a le top h = let e : k ≡ 0 = omega arith in ap (λ (x : ℕ). a % 2 ^ x) e ∙ h
aligned_below k (suc j) a le top h = elim (dec_lt j k) [
  | yes same ↦ let e : k ≡ suc j = omega arith in ap (λ (x : ℕ). a % 2 ^ x) e ∙ h
  | no less ↦ aligned_below k j a (omega arith) (omega arith) (aligned_down j a (omega arith) h)
]

pow_multiple : (k j : ℕ) → k ≤ j → (q : ℕ) × (2 ^ j ≡ 2 ^ k * q)
pow_multiple k zero le = let e : k ≡ 0 = omega arith in (1, omega (arith, ap (λ (x : ℕ). 2 ^ x) e))
pow_multiple k (suc j) le = elim (dec_lt j k) [
  | yes same ↦ let e : k ≡ suc j = omega arith in (1, omega (arith, ap (λ (x : ℕ). 2 ^ x) e))
  | no less ↦
      let (q, e) = pow_multiple k j (omega arith) in (2 * q, omega (arith, e, two-pow-suc j))
]

end_aligned : (k j a : ℕ) → k ≤ j → a % 2 ^ k ≡ 0 → (a + 2 ^ j) % 2 ^ k ≡ 0
end_aligned k j a le h =
    let (q, e) = pow_multiple k j le in
    let x = a / 2 ^ k in
    let whole : a + 2 ^ j ≡ 2 ^ k * (x + q) = omega (arith, e, div-add-mod a (2 ^ k)) in
    ap (λ (t : ℕ). t % 2 ^ k) whole ∙ mul-mod_right (2 ^ k) (x + q)

-- An aligned block that shares a page with an aligned block at least as large lies within it.
within_larger :
    (k j i a p : ℕ)
    → k ≤ j
    → j ≤ max_order
    → i % 2 ^ k ≡ 0
    → a % 2 ^ j ≡ 0
    → In p i k
    → In p a j
    → (a ≤ i) × (i + 2 ^ k ≤ a + 2 ^ j)
within_larger k j i a p le top hi ha here there =
    let ha' = aligned_below k j a le top ha in
    (
      elim (dec_lt i a) [
        | yes before ↦ absurd (omega (arith, multiples_apart (2 ^ k) i a hi ha' before))
        | no after ↦ omega arith
      ],
      multiples_apart (2 ^ k) i (a + 2 ^ j) hi (end_aligned k j a le ha') (omega arith),
    )

-- A free block around an aligned block.
record Around (L : Blocks) (k i : ℕ) : Type 0 where
  order : ℕ
  index : ℕ
  large : k ≤ order
  free : Free L order index
  start : index ≤ i
  end : i + 2 ^ k ≤ index + 2 ^ order

module _ (L : Blocks) (n : ℕ) (v : Valid L n) where
  around : (k i p : ℕ) → i % 2 ^ k ≡ 0 → In p i k → (c : Covered L p) → k ≤ c.order → Around L k i
  around k i p hi here c le =
      let w =
        within_larger k c.order i c.index p le c.free.0 hi (v.aligned c.order c.index c.free) here
          c.within in
      record { order = c.order; index = c.index; large = le; free = c.free; start = w.0; end = w.1 }

  -- A free block around the lower half, and one around the upper half, are one free block.
  join :
      (k i : ℕ)
      → k < max_order
      → i % 2 ^ suc k ≡ 0
      → Around L k i
      → Around L k (i + 2 ^ k)
      → Around L (suc k) i
  join k i lt hi lo up = elim (dec_lt k lo.order) [
    | yes large ↦
        around (suc k) i i hi (In-first i (suc k))
          (record {
            order = lo.order;
            index = lo.index;
            free = lo.free;
            within = omega (arith, lo.start, lo.end, two-pow_pos k);
          })
          large
    | no small ↦ elim (dec_lt k up.order) [
      | yes large ↦
          around (suc k) i (i + 2 ^ k) hi (omega (arith, two-pow-suc k, two-pow_pos k))
            (record {
              order = up.order;
              index = up.index;
              free = up.free;
              within = omega (arith, up.start, up.end, two-pow_pos k);
            })
            large
      | no small' ↦
          let lo_order : lo.order ≡ k = omega (arith, lo.large) in
          let up_order : up.order ≡ k = omega (arith, up.large) in
          let lo_size = ap (λ (x : ℕ). 2 ^ x) lo_order in
          let up_size = ap (λ (x : ℕ). 2 ^ x) up_order in
          let lo_index : lo.index ≡ i = omega (arith, lo.start, lo.end, lo_size) in
          let up_index : up.index ≡ i + 2 ^ k = omega (arith, up.start, up.end, up_size) in
          let lo_free = subst₂ (Free L) lo_order lo_index lo.free in
          let up_free = subst₂ (Free L) up_order up_index up.free in
          let alone = v.merged k i lt lo_free in
          absurd (cc (alone, up_free.1, ap (λ x. has x (L k)) (get_buddy_index-half k i lt hi).0))
    ]
  ]

  -- An aligned run of free pages lies in one free block.
  run-Around :
      (k i : ℕ) → k ≤ max_order → i % 2 ^ k ≡ 0 → ((p : ℕ) → In p i k → Covered L p) → Around L k i
  run-Around zero i hk hi all = around 0 i i hi (In-first i 0) (all i (In-first i 0)) (omega arith)
  run-Around (suc k) i hk hi all =
      join k i hk hi
        (run-Around k i (omega arith) (aligned_down k i hk hi)
          λ p h. all p (omega (arith, two-pow-suc k)))
        (run-Around k (i + 2 ^ k) (omega arith) (get_buddy_index-half k i hk hi).1
          λ p h. all p (omega (arith, two-pow-suc k)))

  pub run-Available :
      (k i : ℕ) → k ≤ max_order → i % 2 ^ k ≡ 0 → ((p : ℕ) → In p i k → Covered L p) → Available L k
  run-Available k i hk hi all =
      let b = run-Around k i hk hi all in
      record { order = b.order; index = b.index; large = b.large; free = b.free }
