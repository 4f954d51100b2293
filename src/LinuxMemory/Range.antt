-- ===== src/LinuxMemory/Range.antt =====
-- Which ranges `checked_page_range` accepts, and what it makes of them.
use fullerene.Base.{
  ℕ, ◌+◌, ◌-◌, ◌*◌, ◌/◌, ◌%◌, ◌^◌, ◌≤◌, ◌<◌, ◌≡◌, ◌≢◌, ◌∙◌, Bool, true, not, ◌&&◌, ◌||◌, bit_and,
  if◌then◌else◌, leb, ltb, ◌==◌, arith, Bool-cases, inl, inr, dec_lt, ltb-true,
}
use fullerene.Base.Bits.{bit_and_offset, bit_and_page}
use fullerene.LinuxMemory.{
  ok, err, einval, checked_page_range, is_user_address, max_linux_memory, user_address_limit,
  not_page_mask,
}

-- The end of the page range: the address of the last byte, rounded up to a page.
abbrev pub end_of : ℕ → ℕ → ℕ
end_of addr length = (addr + length - 1 + 4095) / 4096 * 4096

abbrev pub start_of : ℕ → ℕ
start_of addr = addr - addr % 4096

module _ (canonical : ℕ → Bool) (low_half : (a : ℕ) → a < 2 ^ 47 → canonical a ≡ true) where
  -- In numbers: a length that is not 0 and at most 128 MB is accepted at an address that is
  -- aligned where that is asked for, if the pages from the one of the address up to the one that
  -- the last byte's address is rounded up to are some, are at most 128 MB and lie below 2 ^ 47;
  -- all else is EINVAL. It assumes that addresses below 2 ^ 47 are canonical.
  pub checked_page_range_lem :
      (addr length : ℕ) (aligned : Bool)
      → addr < 2 ^ 64
      → checked_page_range canonical addr length aligned ≡ (
          if not (length == 0)
            && leb length max_linux_memory
            && not (aligned && not (addr % 4096 == 0))
            && ltb (start_of addr) (end_of addr length)
            && leb (end_of addr length - start_of addr) max_linux_memory
            && leb (end_of addr length) user_address_limit
          then ok (start_of addr, end_of addr length - start_of addr)
          else err einval)
  unfolding checked_page_range is_user_address
  checked_page_range_lem addr length aligned h =
      elim (Bool-cases (length == 0 || ltb max_linux_memory length)) [
        | inl bad ↦ rw bad (ground arith)
        | inr good ↦
            rw (good, bit_and_offset addr)
              (elim (Bool-cases (aligned && not (addr % 4096 == 0))) [
                | inl bad ↦ rw bad (ground arith)
                | inr placed ↦
                    let bounds : (0 < length) × (length ≤ max_linux_memory) = ground arith in
                    let first : (if aligned then addr else bit_and addr not_page_mask)
                        ≡ start_of addr =
                      ground (arith, bit_and_page addr h) in
                    rw (placed, first)
                      (elim (dec_lt (addr + (length - 1) + 4095) (2 ^ 64)) [
                        | yes fits ↦
                            let end : bit_and (addr + (length - 1) + 4095) not_page_mask
                                ≡ end_of addr length =
                              bit_and_page (addr + (length - 1) + 4095) fits ∙ omega arith in
                            rw
                              (
                                ltb-true (addr + (length - 1)) (2 ^ 64) (omega arith),
                                ltb-true (addr + (length - 1) + 4095) (2 ^ 64) fits,
                                end,
                              )
                              (ground (
                                arith,
                                low_half (start_of addr),
                                low_half (end_of addr length - 1),
                              ))
                        | no over ↦ ground arith
                      ])
              ])
      ]

  -- An accepted range starts at the page of the address, is a positive number of whole pages,
  -- at most 128 MB, below 2 ^ 47, and reaches at least to the address of the last byte; it covers
  -- that byte too, unless the byte is the first of its page.
  pub checked_page_range-ok :
      (addr length : ℕ) (aligned : Bool) {start size : ℕ}
      → addr < 2 ^ 64
      → checked_page_range canonical addr length aligned ≡ ok (start, size)
      → (start ≡ start_of addr)
        × (size % 4096 ≡ 0)
        × (0 < size)
        × (size ≤ max_linux_memory)
        × (start + size ≤ user_address_limit)
        × (addr + length ≤ start + size + 1)
        × ((addr + length - 1) % 4096 ≢ 0 → addr + length ≤ start + size)
  checked_page_range-ok addr length aligned h e =
      ground (arith, checked_page_range_lem addr length aligned h)
