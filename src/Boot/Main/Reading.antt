-- ===== src/Boot/Main/Reading.antt =====
-- Reading the kernel's file on a firmware that works, and what becomes of it in memory.
use simple_os_rs.Common.{
  ℕ, ◌+◌, ◌-◌, ◌*◌, ◌^◌, ◌<◌, ◌≤◌, ◌≡◌, ◌⊎◌, inl, inr, refl, ap, ◌∙◌, true, false, List, ◌∷◌, leb,
  arith,
}
use simple_os_rs.Common.Outcome.{ok}
use simple_os_rs.Boot.Elf.Bytes.{Memory}
use simple_os_rs.Boot.Elf.Load.{Outside}
use simple_os_rs.Boot.Firmware.{Firmware}
use simple_os_rs.Boot.Allocator.{pages_of}
use simple_os_rs.Boot.Files.{read_file}
use simple_os_rs.Boot.Main.Working.{Disk, Owned, Kept, Holds, Works}
use simple_os_rs.Boot.Main.Laws.{allocate-Allocated}
use simple_os_rs.Boot.Main.{through, behind}

module _ (F : Firmware) (bytes top : ℕ) (disk : Disk) (works : Works F bytes top disk) where
  -- The file stands in a buffer of its own.
  pub record FileRead (k : ℕ) (filesystem : ℕ) (bs : List (ℕ × ℕ)) (m : F.Machine) : Type 0 where
    pub buffer : ℕ
    pub after : F.Machine
    pub returns :
        read_file F filesystem disk.path m
        ≡ ok (record { size = disk.size; buffer = buffer }, after)
    pub ready : works.Ready (k - pages_of disk.size) ((buffer, pages_of disk.size) ∷ bs) after
    pub holds : Holds (F.memory after) buffer disk.size disk.content
    pub below : buffer + pages_of disk.size * 4096 ≤ top
    pub kept : Kept bs (F.memory m) (F.memory after)

  pub read_file-FileRead :
      (k filesystem : ℕ) (bs : List (ℕ × ℕ)) (m : F.Machine)
      → works.Ready k bs m
      → disk.size + 4095 < 2 ^ 64
      → pages_of disk.size ≤ k
      → FileRead k filesystem bs m
  unfolding read_file
  read_file-FileRead k filesystem bs m ready small enough =
      let (volume, m₁, e₁, ready₁, k₁) = works.opens_volume k filesystem bs m ready in
      let (m₂, e₂, ready₂, k₂) = works.opens k volume bs m₁ ready₁ in
      let (m₃, e₃, ready₃, k₃) = works.sizes k bs m₂ ready₂ in
      let buffer = allocate-Allocated F bytes top disk works k disk.size bs m₃ ready₃ enough in
      let blocks = (buffer.ptr, pages_of disk.size) ∷ bs in
      let left = k - pages_of disk.size in
      let (m₅, e₅, ready₅, k₅) = works.regular left blocks buffer.after buffer.ready in
      let (m₆, e₆, ready₆, holds, k₆) =
        works.reads left buffer.ptr (pages_of disk.size) bs m₅ ready₅ (omega arith) in
      record {
        buffer = buffer.ptr;
        after = m₆;
        returns = rw (e₁, e₂, e₃, buffer.returns, e₅, e₆) refl;
        ready = ready₆;
        holds = holds;
        below = buffer.below;
        kept = λ q l a owned lo hi.
            k₆ q l a owned lo hi
            ∙ k₅ q l a (inr owned) lo hi
            ∙ buffer.kept q l a owned lo hi
            ∙ k₃ q l a owned lo hi
            ∙ k₂ q l a owned lo hi
            ∙ k₁ q l a owned lo hi;
      }

  -- What stands in an allocated block stays, so a file that is held there is held on.
  pub kept_file :
      (image n : ℕ) (bs : List (ℕ × ℕ)) (mem mem' : Memory)
      → Kept bs mem mem'
      → Owned image n bs
      → disk.size ≤ n * 4096
      → Holds mem image disk.size disk.content
      → Holds mem' image disk.size disk.content
  kept_file image n bs mem mem' kept owned fits holds i lt =
      kept image n (image + i) owned (omega arith) (omega arith) ∙ holds i lt

  -- Below the base the processor sees memory as it is.
  pub seen_file :
      (base image : ℕ) (mem : Memory)
      → image + disk.size ≤ base
      → Holds mem image disk.size disk.content
      → Holds (through base mem) image disk.size disk.content
  seen_file base image mem below holds i lt =
      let outside : leb base (image + i) ≡ false = ground arith in rw outside (holds i lt)

  -- What was stored in a block of pages stays there.
  pub block_stays :
      (bs : List (ℕ × ℕ)) (low n : ℕ) (mem : Memory) (m m' : F.Machine)
      → Kept ((low, n) ∷ bs) (F.memory (F.store mem m)) (F.memory m')
      → (a : ℕ) → low ≤ a
      → a < low + n * 4096
      → F.memory m' a ≡ mem a
  block_stays bs low n mem m m' kept a l r =
      kept low n a (inl (refl, refl)) l r ∙ ap (λ (x : Memory). x a) (works.stores mem m)

  -- Writes through the mirror change what they write and nothing else.
  pub behind-through :
      (base low size : ℕ) (mem seen : Memory) (a : ℕ)
      → ((b : ℕ) → Outside (base + low) size b → seen b ≡ through base mem b)
      → (a < low) ⊎ (low + size ≤ a)
      → behind base seen a ≡ mem a
  behind-through base low size mem seen a off out =
      let above : leb base (base + a) ≡ true = ground arith in
      let back : base + a - base ≡ a = omega arith in
      let outside : Outside (base + low) size (base + a) = ground arith in
      let last : through base mem (base + a) ≡ mem a = rw (above, back) refl in
      off (base + a) outside ∙ last
