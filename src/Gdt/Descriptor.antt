-- ===== src/Gdt/Descriptor.antt =====
-- How the processor reads a descriptor of a task state segment, and the descriptors that `init`
-- writes.
use simple_os_rs.Common.{
  update, ℕ, zero, suc, ◌+◌, ◌-◌, ◌*◌, ◌/◌, ◌%◌, ◌^◌, ◌<◌, ◌≤◌, ◌≡◌, ◌⊎◌, inl, inr, refl, ◌∙◌, ◌==◌,
  arith, true, false, dec_lt, ℕ_discrete,
}
use simple_os_rs.Gdt.{
  Tables, tss_entry, low_word, high_word, tss_entries, write_tss_entry, size_of_tss, empty_tss,
}

-- The fields of a system descriptor of two words.
abbrev pub limit_of : ℕ → ℕ
limit_of low = low % 2 ^ 16 + low / 2 ^ 48 % 2 ^ 4 * 2 ^ 16

abbrev pub base_of : ℕ → ℕ → ℕ
base_of low high = low / 2 ^ 16 % 2 ^ 24 + low / 2 ^ 56 % 2 ^ 8 * 2 ^ 24 + high % 2 ^ 32 * 2 ^ 32

abbrev pub access_of : ℕ → ℕ
access_of low = low / 2 ^ 40 % 2 ^ 8

-- The words describe an available segment of 104 bytes at `tss`.
pub record Describes (low high tss : ℕ) : Type 0 where
  pub base : base_of low high ≡ tss
  pub limit : limit_of low ≡ size_of_tss - 1
  -- Present, of privilege 0, and of type 9, an available task state segment of 64 bits.
  pub access : access_of low ≡ 137

pub tss_entry-Describes :
    (tss : ℕ) → tss < 2 ^ 64 → Describes (low_word (tss_entry tss)) (high_word (tss_entry tss)) tss
unfolding tss_entry low_word high_word
tss_entry-Describes tss fits = record {
  base = omega arith;
  limit = omega arith;
  access = omega arith;
}

-- What the loop leaves from core `first` on: the first word of each descriptor, as the next one is
-- written over the second, and both words of the last.
pub record Slots (gdt after : ℕ → ℕ) (count first tss_mem : ℕ) : Type 0 where
  pub low :
      (j : ℕ)
      → first ≤ j
      → j < first + count
      → after (3 + j) ≡ low_word (tss_entry (tss_mem + j * size_of_tss))
  pub high :
      (last : ℕ)
      → first + count ≡ suc last
      → zero < count
      → after (4 + last) ≡ high_word (tss_entry (tss_mem + last * size_of_tss))
  pub off : (s : ℕ) → (s < 3 + first) ⊎ (3 + first + count < s) → after s ≡ gdt s
  pub same : count ≡ 0 → (s : ℕ) → after s ≡ gdt s

write_tss_entry-first :
    (gdt : ℕ → ℕ) (slot tss : ℕ)
    → write_tss_entry gdt slot (tss_entry tss) slot ≡ low_word (tss_entry tss)
write_tss_entry-first gdt slot tss =
    let other : (slot + 1 == slot) ≡ false = ground arith in
    let same : (slot == slot) ≡ true = ground arith in rw (other, same)

write_tss_entry-second :
    (gdt : ℕ → ℕ) (slot s tss : ℕ)
    → s ≡ slot + 1
    → write_tss_entry gdt slot (tss_entry tss) s ≡ high_word (tss_entry tss)
write_tss_entry-second gdt slot s tss e =
    let same : (slot + 1 == s) ≡ true = ground arith in rw same

write_tss_entry-off :
    (gdt : ℕ → ℕ) (slot s tss : ℕ)
    → (s < slot) ⊎ (slot + 1 < s)
    → write_tss_entry gdt slot (tss_entry tss) s ≡ gdt s
write_tss_entry-off gdt slot s tss h =
    let first : (slot == s) ≡ false = ground arith in
    let second : (slot + 1 == s) ≡ false = ground arith in rw (second, first)

pub tss_entries-Slots :
    (left first tss_mem : ℕ) (t : Tables)
    → Slots t.gdt (tss_entries left first tss_mem t).gdt left first tss_mem
unfolding tss_entries
tss_entries-Slots zero first tss_mem t = record {
  low = λ j l h. absurd (omega arith);
  high = λ last e pos. absurd (omega arith);
  off = λ s h. refl;
  same = λ e s. refl;
}
tss_entries-Slots (suc left) first tss_mem t =
    let here = tss_mem + first * size_of_tss in
    let gdt = write_tss_entry t.gdt (3 + first) (tss_entry here) in
    let rest =
      tss_entries-Slots left (suc first) tss_mem
        (record { gdt = gdt; tss = update t.tss 0 empty_tss }) in
    record {
      low = λ j l h. elim (ℕ_discrete first j) [
        | yes e ↦ rw (← e) (
            rest.off (3 + first) (inl (omega arith)) ∙ write_tss_entry-first t.gdt (3 + first) here)
        | no ne ↦ rest.low j (omega arith) (omega arith)
      ];
      high = λ last e pos. elim (dec_lt zero left) [
        | yes more ↦ rest.high last (omega arith) more
        | no none_left ↦
            let same : last ≡ first = omega arith in
            rw same (
              rest.same (omega arith) (4 + first)
              ∙ write_tss_entry-second t.gdt (3 + first) (4 + first) here (omega arith))
      ];
      off = λ s h.
          rest.off s (elim h [ inl before ↦ inl (omega arith) | inr behind ↦ inr (omega arith) ])
          ∙ write_tss_entry-off t.gdt (3 + first) s here
              (elim h [ inl before ↦ inl (omega arith) | inr behind ↦ inr (omega arith) ]);
      same = λ e s. absurd (omega arith);
    }
