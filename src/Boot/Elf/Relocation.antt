-- ===== src/Boot/Elf/Relocation.antt =====
-- The dynamic segment and the relocations that `prepare` resolves.
use simple_os_rs.Common.{
  ℕ, zero, suc, ◌+◌, ◌*◌, ◌/◌, ◌%◌, ◌^◌, ◌<◌, ◌≤◌, ◌≡◌, ◌≢◌, ◌⊎◌, inl, inr, refl, ap, ◌∙◌, ◌==◌,
  if◌then◌else◌, arith, true, false, List, [], ◌∷◌, length, Bool-cases, dec_lt,
}
use simple_os_rs.Common.Outcome.{ok, panic, unsupported_relocation}
use simple_os_rs.Boot.Elf.Bytes.{Memory, read, in_range, write_u64, read-same, read-write_u64}
use simple_os_rs.Boot.Elf.{RelA, rela_at, de_tag_rela, de_tag_relasz, r_relative, dynamic, relocate}

-- A dynamic entry, by its tag and its value.
abbrev pub DynamicEntry : Type 0
DynamicEntry = ℕ × ℕ

-- The entries from `at` on are those of the list, none of them with tag 0, and then one with tag 0.
abbrev pub Ends : Memory → ℕ → List DynamicEntry → Type 0
Ends mem at [] = read mem at 8 ≡ 0
Ends mem at ((tag, value) ∷ es) =
    (read mem at 8 ≡ tag) × (read mem (at + 8) 8 ≡ value) × (tag ≢ 0) × Ends mem (at + 16) es

-- The value of the last entry with tag `t`, or `first` if there is none.
abbrev pub last_value : ℕ → ℕ → List DynamicEntry → ℕ
last_value t first [] = first
last_value t first ((tag, value) ∷ es) = last_value t (if tag == t then value else first) es

dynamic-suc :
    (fuel : ℕ) (mem : Memory) (at addr count tag value : ℕ)
    → read mem at 8 ≡ tag
    → read mem (at + 8) 8 ≡ value
    → tag ≢ 0
    → dynamic (suc fuel) mem at addr (count / 24)
      ≡ dynamic fuel mem
          (at + 16)
          (if tag == de_tag_rela then value else addr)
          ((if tag == de_tag_relasz then value else count) / 24)
unfolding dynamic
dynamic-suc fuel mem at addr count tag value et ev ne =
    let more : (tag == 0) ≡ false = ground arith in
    rw (et, ev, more)
      (elim (Bool-cases (tag == de_tag_relasz)) [ inl e ↦ rw e refl | inr e ↦ rw e refl ])

dynamic_run :
    (fuel : ℕ) (mem : Memory) (at addr count : ℕ) (es : List DynamicEntry)
    → Ends mem at es
    → length es < fuel
    → dynamic fuel mem at addr (count / 24)
      ≡ ok (last_value de_tag_rela addr es, last_value de_tag_relasz count es / 24)
dynamic_run zero mem at addr count es ends enough = absurd (omega arith)
dynamic_run (suc fuel) mem at addr count [] ends enough =
    let done : (read mem at 8 == 0) ≡ true = ground (arith, ends) in unfold dynamic in rw done
dynamic_run (suc fuel) mem at addr count ((tag, value) ∷ es) (et, ev, ne, ends) enough =
    dynamic-suc fuel mem at addr count tag value et ev ne
    ∙ dynamic_run fuel mem (at + 16) (if tag == de_tag_rela then value else addr)
        (if tag == de_tag_relasz then value else count) es ends (omega arith)

-- Where an entry with tag 0 follows fewer dynamic entries than the fuel, none of them with tag 0,
-- the loop over them ends with the value of the last entry for the address of the relocations,
-- and that for their size by 24; without such an entry it is 0.
pub dynamic-last_value :
    (fuel : ℕ) (mem : Memory) (at : ℕ) (es : List DynamicEntry)
    → Ends mem at es
    → length es < fuel
    → dynamic fuel mem at 0 0 ≡ ok (last_value de_tag_rela 0 es, last_value de_tag_relasz 0 es / 24)
dynamic-last_value fuel mem at es ends enough = dynamic_run fuel mem at 0 0 es ends enough

-- The relocations from `at` on are those of the list.
abbrev pub Reads : Memory → ℕ → List RelA → Type 0
Reads mem at [] = Unit
Reads mem at (r ∷ rs) = (rela_at mem at ≡ r) × Reads mem (at + 24) rs

-- Address `a` is one of the eight bytes that the relocation sets.
abbrev pub Target : ℕ → RelA → ℕ → Type 0
Target dest r a = (dest + r.addr ≤ a) × (a < dest + r.addr + 8)

abbrev pub Targets : ℕ → List RelA → ℕ → Type 0
Targets dest [] a = ⊥
Targets dest (r ∷ rs) a = Target dest r a ⊎ Targets dest rs a

-- No byte is set by two relocations.
abbrev pub Apart : ℕ → List RelA → Type 0
Apart dest [] = Unit
Apart dest (r ∷ rs) = ((a : ℕ) → Target dest r a → ¬ Targets dest rs a) × Apart dest rs

-- All are relative, and their words lie in the address space.
abbrev pub AllRelative : ℕ → List RelA → Type 0
AllRelative dest [] = Unit
AllRelative dest (r ∷ rs) =
    ((r.info % 2 ^ 32 ≡ r_relative) × (dest + r.addr + 8 ≤ 2 ^ 64)) × AllRelative dest rs

-- Each word is its addend, moved by the address of the buffer.
abbrev pub Resolved : Memory → ℕ → List RelA → Type 0
Resolved mem dest [] = Unit
Resolved mem dest (r ∷ rs) =
    (read mem (dest + r.addr) 8 ≡ (r.addend + dest) % 2 ^ 64) × Resolved mem dest rs

rela_at-same :
    (mem mem' : Memory) (at : ℕ)
    → ((a : ℕ) → at ≤ a → a < at + 24 → mem' a ≡ mem a)
    → rela_at mem' at ≡ rela_at mem at
unfolding rela_at
rela_at-same mem mem' at h =
    let same = λ (off : ℕ) (fits : off + 8 ≤ 24).
      read-same mem mem' (at + off) 8 (λ a l r. h a (omega arith) (omega arith)) in
    let first : read mem' at 8 ≡ read mem at 8 =
      read-same mem mem' at 8 (λ a l r. h a (omega arith) (omega arith)) in
    rw (first, same 8 (omega arith), same 16 (omega arith))

-- What `relocate` gives: the words are resolved, and no other byte changes.
pub record Relocated (mem : Memory) (dest at : ℕ) (rs : List RelA) : Type 0 where
  pub after : Memory
  pub returns : relocate (length rs) mem dest at ≡ ok after
  pub off : (a : ℕ) → ¬ Targets dest rs a → after a ≡ mem a
  pub resolved : Resolved after dest rs

relocate-suc :
    (left : ℕ) (mem : Memory) (dest at : ℕ) (r : RelA)
    → rela_at mem at ≡ r
    → r.info % 2 ^ 32 ≡ r_relative
    → dest + r.addr + 8 ≤ 2 ^ 64
    → relocate (suc left) mem dest at
      ≡ relocate left (write_u64 mem (dest + r.addr) ((r.addend + dest) % 2 ^ 64)) dest (at + 24)
unfolding relocate
relocate-suc left mem dest at r here is fits =
    let target : (dest + r.addr) % 2 ^ 64 ≡ dest + r.addr = omega arith in
    let relative : (r.info % 2 ^ 32 == r_relative) ≡ true = ground (arith, is) in
    let addr : read mem at 8 ≡ r.addr = ap (λ x. x.addr) here in
    let info : read mem (at + 8) 8 ≡ r.info = ap (λ x. x.info) here in
    let addend : read mem (at + 16) 8 ≡ r.addend = ap (λ x. x.addend) here in
    rw (addr, info, addend, relative, target)

write_u64-off : (mem : Memory) (at v a : ℕ) → (a < at) ⊎ (at + 8 ≤ a) → write_u64 mem at v a ≡ mem a
write_u64-off mem at v a h = let out : in_range a at 8 ≡ false = ground arith in rw out

beside : (dest a : ℕ) (r : RelA) → ¬ Target dest r a → (a < dest + r.addr) ⊎ (dest + r.addr + 8 ≤ a)
beside dest a r out = elim (dec_lt a (dest + r.addr)) [
  | yes before ↦ inl before
  | no start ↦ elim (dec_lt a (dest + r.addr + 8)) [
    | yes inside ↦ absurd (out (omega arith))
    | no behind ↦ inr (omega arith)
  ]
]

-- For relative relocations whose words lie in the address space, share no byte and lie outside
-- the relocations themselves, the loop of `prepare` over them returns; each word is then its
-- addend plus the address of the buffer, and no other byte changes.
pub relocate-Relocated :
    (mem : Memory) (dest at : ℕ) (rs : List RelA)
    → Reads mem at rs
    → AllRelative dest rs
    → Apart dest rs
    → ((a : ℕ) → at ≤ a → a < at + 24 * length rs → ¬ Targets dest rs a)
    → Relocated mem dest at rs
relocate-Relocated mem dest at [] reads relative apart outside = record {
  after = mem;
  returns = unfold relocate in refl;
  off = λ a out. refl;
  resolved = tt;
}
relocate-Relocated mem dest at (r ∷ rs) reads relative apart outside =
    let v = (r.addend + dest) % 2 ^ 64 in
    let mem₁ = write_u64 mem (dest + r.addr) v in
    let off₁ : (a : ℕ) → ¬ Target dest r a → mem₁ a ≡ mem a =
      λ a out. write_u64-off mem (dest + r.addr) v a (beside dest a r out) in
    let rest =
      relocate-Relocated mem₁ dest (at + 24) rs
        (still mem mem₁ (at + 24) rs reads.1
          λ a l h. off₁ a (λ t. outside a (omega arith) (omega arith) (inl t)))
        relative.1 apart.1 (λ a l h t. outside a (omega arith) (omega arith) (inr t)) in
    record {
      after = rest.after;
      returns =
          relocate-suc (length rs) mem dest at r reads.0 relative.0.0 relative.0.1 ∙ rest.returns;
      off = λ a out. rest.off a (λ t. out (inr t)) ∙ off₁ a (λ t. out (inl t));
      resolved = (
        read-same mem₁ rest.after (dest + r.addr) 8 (λ a l h. rest.off a (apart.0 a (l, h)))
            ∙ read-write_u64 mem (dest + r.addr) v (omega arith),
        rest.resolved,
      );
    }
  where
    still :
        (mem mem' : Memory) (at : ℕ) (rs : List RelA)
        → Reads mem at rs
        → ((a : ℕ) → at ≤ a → a < at + 24 * length rs → mem' a ≡ mem a)
        → Reads mem' at rs
    still mem mem' at [] reads h = tt
    still mem mem' at (r ∷ rs) reads h = (
      rela_at-same mem mem' at (λ a l k. h a l (omega arith)) ∙ reads.0,
      still mem mem' (at + 24) rs reads.1 (λ a l k. h a (omega arith) (omega arith)),
    )

-- A first relocation whose type is not the relative one makes the loop of `prepare` panic.
pub relocate-panic :
    (mem : Memory) (dest at left : ℕ)
    → (rela_at mem at).info % 2 ^ 32 ≢ r_relative
    → relocate (suc left) mem dest at ≡ panic unsupported_relocation
unfolding relocate
relocate-panic mem dest at left other =
    let no_match : ((rela_at mem at).info % 2 ^ 32 == r_relative) ≡ false = ground (arith, other) in
    rw no_match
