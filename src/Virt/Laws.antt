-- ===== src/Virt/Laws.antt =====
-- When `phys_to_virt` and `virt_to_phys` are inverse.
use simple_os_rs.Common.{ℕ, ◌+◌, ◌^◌, ◌<◌, ◌≡◌, bit_and, arith}
use simple_os_rs.Common.Bits.Disjoint.{bit_or-add-bit_and, bit_or-below, cleared}
use simple_os_rs.Virt.{phys_to_virt, virt_to_phys}

-- For a physical address and a base, of 64 bits, that share no bit, `virt_to_phys` gives back the
-- address that `phys_to_virt` was given.
pub virt_to_phys-phys_to_virt :
    (base phys : ℕ)
    → base < 2 ^ 64
    → phys < 2 ^ 64
    → bit_and phys base ≡ 0
    → virt_to_phys base (phys_to_virt base phys) ≡ phys
unfolding virt_to_phys phys_to_virt
virt_to_phys-phys_to_virt base phys hb hp apart = cleared 64 phys base hp hb apart

-- Then the virtual address is the sum of the two.
pub phys_to_virt-add :
    (base phys : ℕ)
    → base < 2 ^ 64
    → phys < 2 ^ 64
    → bit_and phys base ≡ 0
    → phys_to_virt base phys ≡ phys + base
unfolding phys_to_virt
phys_to_virt-add base phys hb hp apart = omega (arith, bit_or-add-bit_and 64 phys base hp hb)

-- Words of 64 bits give a word of 64 bits.
pub phys_to_virt-below :
    (base phys : ℕ) → base < 2 ^ 64 → phys < 2 ^ 64 → phys_to_virt base phys < 2 ^ 64
unfolding phys_to_virt
phys_to_virt-below base phys hb hp = bit_or-below 64 phys base hp hb
