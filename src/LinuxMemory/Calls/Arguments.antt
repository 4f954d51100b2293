-- ===== src/LinuxMemory/Calls/Arguments.antt =====
-- fullerene-kernel/src/linux/memory.rs: which arguments `sys_mmap` accepts, and the page flags that
-- the protections become, in numbers and single bits.
use fullerene.Base.{
  ℕ, ◌+◌, ◌-◌, ◌*◌, ◌/◌, ◌%◌, ◌^◌, ◌<◌, ◌≡◌, ◌⊎◌, Bool, true, false, not, ◌||◌, List, refl,
  if◌then◌else◌, ltb, ◌==◌, arith, Bool-cases, inl, inr,
}
use fullerene.Base.Bits.{bit, bit_le, bit_and-pow, pow_pos, bit_and_three, bit_and_above_seven}
use fullerene.LinuxMemory.{ok, err, einval, enosys}
use fullerene.LinuxMemory.Range.{checked_page_range_lem}
use fullerene.LinuxMemory.Calls.{argument, has, mmap_flags, mprotect_flags, mmap_size}

bit_cases : (w b : ℕ) → (bit w b ≡ 0) ⊎ (bit w b ≡ 1)
bit_cases w b = elim (Bool-cases (bit w b == 0)) [
  | inl z ↦ inl (ground arith)
  | inr o ↦ inr (ground (arith, bit_le w b))
]

has-bit : (w b : ℕ) → has w (2 ^ b) ≡ (bit w b == 1)
has-bit w b = elim (bit_cases w b) [
  | inl z ↦ rw (bit_and-pow w b, z) (ground arith)
  | inr o ↦ let p = pow_pos b in rw (bit_and-pow w b, o) (ground arith)
]

-- The page flags: `mmap` always makes a page present (bit 0) and the user's (bit 2), `mprotect` makes
-- it the user's, and present unless the protection is 0. With both a present page is writable
-- (bit 1) exactly if the protection has its bit 1, and its code is not run (bit 63) exactly if the
-- protection lacks its bit 2. No other bits are set.
pub page_flags_lem :
    (prot : ℕ)
    → let access = 5 + 2 * bit prot 1 + 2 ^ 63 * (1 - bit prot 2) in
      (mmap_flags prot ≡ access) × (mprotect_flags prot ≡ (if prot == 0 then 4 else access))
unfolding mmap_flags mprotect_flags
page_flags_lem prot =
    let write = has-bit prot 1 in
    let exec = has-bit prot 2 in
    rw (write, exec)
      (elim (bit_cases prot 1) [
        | inl w ↦ elim (bit_cases prot 2) [
          | inl x ↦ rw (w, x) (refl, refl)
          | inr x ↦ rw (w, x) (refl, refl)
        ]
        | inr w ↦ elim (bit_cases prot 2) [
          | inl x ↦ rw (w, x) (refl, refl)
          | inr x ↦ rw (w, x) (refl, refl)
        ]
      ])

module _ (canonical : ℕ → Bool) (low_half : (a : ℕ) → a < 2 ^ 47 → canonical a ≡ true) where
  pub mmap_size_lem :
      (args : List ℕ)
      → let prot = argument args 2 % 2 ^ 32 in
        let flags = argument args 3 % 2 ^ 32 in
        let len = argument args 1 in
        let size = (len - 1 + 4095) / 4096 * 4096 in
        mmap_size canonical args ≡ (
          if ltb 7 prot || flags % 4 == 0 || flags % 4 == 3 || bit flags 4 == 1 || len == 0
          then err einval
          else if bit flags 5 == 0
          then err enosys
          else if not (argument args 5 == 0) || ltb 134217728 len || size == 0
          then err einval
          else ok size)
  unfolding mmap_size
  mmap_size_lem args =
      let prot : ℕ = argument args 2 % 2 ^ 32 in
      let flags : ℕ = argument args 3 % 2 ^ 32 in
      rw
        (
          bit_and_above_seven prot (omega arith),
          bit_and_three flags,
          has-bit flags 4,
          has-bit flags 5,
          checked_page_range_lem canonical low_half 0 (argument args 1) false (omega arith),
        )
        (ground arith)
