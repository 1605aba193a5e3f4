-- ===== src/Boot/Elf/Names.antt =====
-- The search for the `.text` section in `get_text_addr`.
use simple_os_rs.Common.{
  ℕ, zero, suc, ◌+◌, ◌*◌, ◌%◌, ◌^◌, ◌<◌, ◌≡◌, ◌≢◌, refl, ap, ◌∙◌, ◌==◌, ltb, ◌&&◌, if◌then◌else◌,
  arith, Bool, true, false, List, [], ◌∷◌, length, Bool-cases, inl, inr,
}
use simple_os_rs.Common.Outcome.{ok}
use simple_os_rs.Boot.Elf.Bytes.{Memory, read}
use simple_os_rs.Boot.Elf.{
  SectionHeader, section, sht_progbits, header, strcmp, text_addr_from, get_text_addr,
}

-- The characters from `at` on, up to the null.
abbrev pub Text : Memory → ℕ → List ℕ → Type 0
Text mem at [] = mem at ≡ 0
Text mem at (c ∷ cs) = (mem at ≡ c) × (c ≢ 0) × Text mem (at + 1) cs

abbrev pub same_text : List ℕ → List ℕ → Bool
same_text [] [] = true
same_text [] (d ∷ ds) = false
same_text (c ∷ cs) [] = false
same_text (c ∷ cs) (d ∷ ds) = (c == d) && same_text cs ds

strcmp-suc :
    (fuel : ℕ) (mem : Memory) (a b c d : ℕ)
    → mem a ≡ c
    → mem b ≡ d
    → c ≢ 0
    → (c == d) ≡ true
    → strcmp (suc fuel) mem a b ≡ strcmp fuel mem (a + 1) (b + 1)
unfolding strcmp
strcmp-suc fuel mem a b c d ea eb ne same =
    let more : (c == 0) ≡ false = ground arith in rw (ea, eb, same, more)

-- With more fuel than the first text has characters, `strcmp` of two null-terminated texts tells
-- whether they are the same.
pub strcmp-same_text :
    (fuel : ℕ) (mem : Memory) (a b : ℕ) (cs ds : List ℕ)
    → Text mem a cs
    → Text mem b ds
    → length cs < fuel
    → strcmp fuel mem a b ≡ ok (same_text cs ds)
strcmp-same_text zero mem a b cs ds ta tb enough = absurd (omega arith)
strcmp-same_text (suc fuel) mem a b [] [] ta tb enough = unfold strcmp in rw (ta, tb)
strcmp-same_text (suc fuel) mem a b [] (d ∷ ds) ta (e, ne, tb) enough =
    let differ : (0 == d) ≡ false = ground arith in unfold strcmp in rw (ta, e, differ)
strcmp-same_text (suc fuel) mem a b (c ∷ cs) [] (e, ne, ta) tb enough =
    let differ : (c == 0) ≡ false = ground arith in unfold strcmp in rw (e, tb, differ)
strcmp-same_text (suc fuel) mem a b (c ∷ cs) (d ∷ ds) (ea, na, ta) (eb, nb, tb) enough =
    let rest = strcmp-same_text fuel mem (a + 1) (b + 1) cs ds ta tb (omega arith) in
    elim (Bool-cases (c == d)) [
      | inl same ↦ strcmp-suc fuel mem a b c d ea eb na same ∙ rw same rest
      | inr differ ↦ unfold strcmp in rw (ea, eb, differ)
    ]

-- The sections from `at` on with their names, as far as they are program data.
abbrev pub Sections : Memory → ℕ → ℕ → List (SectionHeader × List ℕ) → Type 0
Sections mem name_table at [] = Unit
Sections mem name_table at ((s, name) ∷ rest) =
    (section mem at ≡ s)
    × (s.sec_type ≡ sht_progbits → Text mem (name_table + s.name_offset) name)
    × Sections mem name_table (at + 64) rest

-- The address of the first section of program data with the name, or 0.
abbrev pub address_named : List ℕ → ℕ → List (SectionHeader × List ℕ) → ℕ
address_named text process [] = 0
address_named text process ((s, name) ∷ rest) =
    if (s.sec_type == sht_progbits) && same_text name text
    then (process + s.virt_addr) % 2 ^ 64
    else address_named text process rest

-- The names of the sections are shorter than the fuel.
abbrev pub NamesBelow : ℕ → List (SectionHeader × List ℕ) → Type 0
NamesBelow fuel [] = Unit
NamesBelow fuel ((s, name) ∷ rest) = (length name < fuel) × NamesBelow fuel rest

-- The section that holds the names.
abbrev pub names_header : Memory → ℕ → SectionHeader
names_header mem image =
    section mem
      (image + (header mem image).sh_offset + (header mem image).name_string_table_index * 64)

text_addr_from-suc :
    (fuel : ℕ) (mem : Memory) (left at name_table text process v : ℕ) (s : SectionHeader)
    (same : Bool)
    → section mem at ≡ s
    → (s.sec_type ≡ sht_progbits → strcmp fuel mem (name_table + s.name_offset) text ≡ ok same)
    → text_addr_from fuel mem left (at + 64) name_table text process ≡ ok v
    → text_addr_from fuel mem (suc left) at name_table text process
      ≡ ok (if (s.sec_type == sht_progbits) && same then (process + s.virt_addr) % 2 ^ 64 else v)
unfolding text_addr_from
text_addr_from-suc fuel mem left at name_table text process v s same here found rest =
    let name : read mem at 4 ≡ s.name_offset = ap (λ x. x.name_offset) here in
    let kind : read mem (at + 4) 4 ≡ s.sec_type = ap (λ x. x.sec_type) here in
    let virt : read mem (at + 16) 8 ≡ s.virt_addr = ap (λ x. x.virt_addr) here in
    elim (Bool-cases (s.sec_type == sht_progbits)) [
      | inl is ↦
          rw (name, kind, virt, is, found (ground arith), rest)
            (elim (Bool-cases same) [ inl e ↦ rw e refl | inr e ↦ rw e refl ])
      | inr other ↦ rw (kind, other, rest)
    ]

text_addr_from-address_named :
    (fuel : ℕ) (mem : Memory) (at name_table text process : ℕ) (name : List ℕ)
    (sections : List (SectionHeader × List ℕ))
    → Text mem text name
    → Sections mem name_table at sections
    → NamesBelow fuel sections
    → text_addr_from fuel mem (length sections) at name_table text process
      ≡ ok (address_named name process sections)
text_addr_from-address_named fuel mem at name_table text process name [] t read_all short =
    unfold text_addr_from in refl
text_addr_from-address_named fuel mem at name_table text process name ((s, found) ∷ rest) t
      (here, named, read_all) (below, short) =
    let later =
      text_addr_from-address_named fuel mem (at + 64) name_table text process name rest t read_all
        short in
    text_addr_from-suc fuel mem (length rest) at name_table text process
      (address_named name process rest) s (same_text found name) here
      (λ is.
        strcmp-same_text fuel mem (name_table + s.name_offset) text found name (named is) t below)
      later

-- For names shorter than the fuel and an index of the name table among the sections,
-- `get_text_addr` gives the address of the first section of program data with the name, and 0 if
-- there is none.
pub get_text_addr-address_named :
    (fuel : ℕ) (mem : Memory) (image text process : ℕ) (name : List ℕ)
    (sections : List (SectionHeader × List ℕ))
    → (header mem image).name_string_table_index < length sections
    → (header mem image).sh_entry_count ≡ length sections
    → Text mem text name
    → Sections mem
        (image + (names_header mem image).file_offset)
        (image + (header mem image).sh_offset)
        sections
    → NamesBelow fuel sections
    → get_text_addr fuel mem image text process ≡ ok (address_named name process sections)
unfolding get_text_addr
get_text_addr-address_named fuel mem image text process name sections below count t read_all short =
    let inside : ltb (header mem image).name_string_table_index (length sections) ≡ true =
      ground arith in
    rw (count, inside)
      (text_addr_from-address_named fuel mem (image + (header mem image).sh_offset)
        (image + (names_header mem image).file_offset) text process name sections t read_all short)
