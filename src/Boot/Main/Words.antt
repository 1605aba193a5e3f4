-- ===== src/Boot/Main/Words.antt =====
-- The words of the page table in memory.
use simple_os_rs.Common.{
  ℕ, ◌+◌, ◌-◌, ◌*◌, ◌/◌, ◌%◌, ◌^◌, ◌<◌, ◌≤◌, ◌≡◌, refl, ◌∙◌, true, arith, inl, List, ◌∷◌,
}
use simple_os_rs.Boot.Elf.Bytes.{Memory, in_range, write_u64, read-same, read-write_u64}
use simple_os_rs.Boot.Paging.{Buffer}
use simple_os_rs.Boot.Paging.Laws.{Filled}
use simple_os_rs.Boot.Main.{words_at, put_words}
use simple_os_rs.Boot.Main.Working.{Kept}

-- A word of 64 bits that was put in the pages is read back.
pub words_at-put_words :
    (mem : Memory) (ptr size : ℕ) (buffer : Buffer) (i : ℕ)
    → 8 * i + 8 ≤ size
    → buffer i < 2 ^ 64
    → words_at (put_words mem ptr size buffer) ptr i ≡ buffer i
words_at-put_words mem ptr size buffer i inside small =
    read-same (write_u64 mem (ptr + 8 * i) (buffer i)) (put_words mem ptr size buffer) (ptr + 8 * i)
      8
      (λ a l r.
        let here : in_range a ptr size ≡ true = ground arith in
        let there : in_range a (ptr + 8 * i) 8 ≡ true = ground arith in
        let word : (a - ptr) / 8 ≡ i = omega arith in
        let byte : (a - ptr) % 8 ≡ a - (ptr + 8 * i) = omega arith in
        rw (here, there, word, byte) refl)
    ∙ read-write_u64 mem (ptr + 8 * i) (buffer i) small

-- The words of an allocated block stay.
pub words_at-Kept :
    (bs : List (ℕ × ℕ)) (ptr n i : ℕ) (mem mem' : Memory)
    → Kept ((ptr, n) ∷ bs) mem mem'
    → i < n * 512
    → words_at mem' ptr i ≡ words_at mem ptr i
words_at-Kept bs ptr n i mem mem' kept lt =
    read-same mem mem' (ptr + 8 * i) 8
      (λ a l r. kept ptr n a (inl (refl, refl)) (omega arith) (omega arith))

-- Words that agree where they have 64 bits make a table that is filled as well.
pub Filled-same :
    (q n pdp_pages np nd len : ℕ) (b b' : Buffer)
    → n ≤ 256
    → np ≤ pdp_pages * 512
    → 512 + pdp_pages * 512 + nd ≤ len
    → (nd + n + pdp_pages + np + q) * 2 ^ 12 + 2 ^ 22 * nd < 2 ^ 63
    → ((i : ℕ) → i < len → b i < 2 ^ 64 → b' i ≡ b i)
    → Filled q n pdp_pages np nd b
    → Filled q n pdp_pages np nd b'
Filled-same q n pdp_pages np nd len b b' n_fits np_fits len_fits small same f = record {
  top = λ j lt.
      let (low, high) = f.top j lt in
      (
        same j (omega arith) (omega (arith, low)) ∙ low,
        same (512 - n + j) (omega arith) (omega (arith, high)) ∙ high,
      );
  middle = λ j lt. let e = f.middle j lt in same (512 + j) (omega arith) (omega (arith, e)) ∙ e;
  bottom = λ j lt.
      let e = f.bottom j lt in
      same (512 + pdp_pages * 512 + j) (omega arith) (omega (arith, e)) ∙ e;
}
