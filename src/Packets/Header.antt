-- ===== src/Packets/Header.antt =====
-- Which headers a receiver accepts: those of which the checksum is 0.
use fullerene.Base.{ℕ, ◌+◌, ◌-◌, ◌*◌, ◌/◌, ◌%◌, ◌^◌, ◌<◌, ◌≡◌, ◌↔◌, ◌∙◌, sym, ap, List, arith}
use fullerene.Packets.{
  IpProtocol, icmp, tcp, udp, to_u8, Ipv4Addr, Ipv4Header, new, to_be_bytes, to_be, octets,
  write_to, word_sum, fold_carry, checksum, built_header,
}
use fullerene.Packets.Checksum.{fold_carry_lem}

abbrev pub AreBytes : Ipv4Addr → Type 0
AreBytes x = (x.a < 256) × (x.b < 256) × (x.c < 256) × (x.d < 256)

-- The checksum of the sum `s`.
abbrev pub sum_checksum : ℕ → ℕ
sum_checksum s = 65535 - fold_carry 3 s

pub checksum-sum :
    (bytes : List ℕ) → word_sum bytes < 2 ^ 32 → checksum bytes ≡ sum_checksum (word_sum bytes)
unfolding checksum
checksum-sum bytes h =
    let wrapped : word_sum bytes % 2 ^ 32 ≡ word_sum bytes = omega arith in
    let low = (fold_carry_lem (word_sum bytes) h).0 in rw wrapped (omega (arith, low))

-- Adding the checksum of a sum to it gives the checksum 0.
pub sum_zero : (s : ℕ) → 0 < s → s + 65535 < 2 ^ 32 → sum_checksum (s + sum_checksum s) ≡ 0
sum_zero s p h =
    let (low, (k, e, q)) = fold_carry_lem s (omega arith) in
    let (low', (m, e', q')) = fold_carry_lem (s + sum_checksum s) (omega arith) in
    let pos = q p in let pos' = q' (omega arith) in omega (arith, low, e, low', e', pos, pos')

-- With its bytes exchanged it does so only if they are equal.
sum_zero_swapped :
    (s : ℕ)
    → 0 < s
    → s + 65535 < 2 ^ 32
    → (sum_checksum (s + to_be (sum_checksum s)) ≡ 0)
      ↔ (sum_checksum s % 256 ≡ sum_checksum s / 256)
unfolding to_be
sum_zero_swapped s p h =
    let (low, (k, e, q)) = fold_carry_lem s (omega arith) in
    let swapped : ℕ = sum_checksum s % 256 * 256 + sum_checksum s / 256 % 256 in
    let (low', (m, e', q')) = fold_carry_lem (s + swapped) (omega arith) in
    let pos = q p in
    let pos' = q' (omega arith) in
    (
      λ zeroed. omega (arith, low, e, low', e', pos, pos', zeroed),
      λ same. omega (arith, low, e, low', e', pos, pos', same),
    )

to_u8_small : (protocol : IpProtocol) → to_u8 protocol < 256
unfolding to_u8
to_u8_small icmp = omega arith
to_u8_small tcp = omega arith
to_u8_small udp = omega arith

module _ (total : ℕ) (src dst_addr : Ipv4Addr) (protocol : IpProtocol) (identification ttl : ℕ)
    (total_fits : total < 65536) (src_bytes : AreBytes src) (dst_bytes : AreBytes dst_addr)
    (identification_fits : identification < 65536) (ttl_fits : ttl < 256) where
  sum_bounds :
      let s = word_sum (write_to (new total identification ttl protocol src dst_addr)) in
      (0 < s) × (s + 65535 < 2 ^ 32)
  unfolding word_sum write_to new to_be_bytes octets
  sum_bounds =
      let small = to_u8_small protocol in
      (omega arith, omega (arith, small, src_bytes, dst_bytes, ttl_fits))

  sum-header_checksum :
      (c : ℕ)
      → c < 65536
      → let hdr = new total identification ttl protocol src dst_addr in
        word_sum (write_to (record hdr { header_checksum = c })) ≡ word_sum (write_to hdr) + c
  unfolding word_sum write_to new to_be_bytes octets
  sum-header_checksum c h = omega (arith, h)

  -- A header made of fields in range is accepted, its checksum being 0, if the checksum of the
  -- header without one is put into its field.
  pub checksum-header_checksum :
      let hdr = new total identification ttl protocol src dst_addr in
      checksum (write_to (record hdr { header_checksum = checksum (write_to hdr) })) ≡ 0
  checksum-header_checksum =
      let hdr : Ipv4Header = new total identification ttl protocol src dst_addr in
      let s : ℕ = word_sum (write_to hdr) in
      let own = checksum-sum (write_to hdr) (omega (arith, sum_bounds)) in
      let c : ℕ = checksum (write_to hdr) in
      let small : c < 65536 = omega (arith, own) in
      let all = sum-header_checksum c small in
      checksum-sum (write_to (record hdr { header_checksum = c }))
        (omega (arith, all, sum_bounds, small))
      ∙ ap sum_checksum (all ∙ ap (λ x. s + x) own)
      ∙ sum_zero s sum_bounds.0 sum_bounds.1

  -- The header that `build_packet` writes from fields in range is accepted, its checksum being 0,
  -- exactly if the two bytes of the checksum of the header without one are equal: it is stored
  -- with its bytes exchanged.
  pub checksum-built_header :
      let c = checksum (write_to (new total identification ttl protocol src dst_addr)) in
      (checksum (write_to (built_header total src dst_addr protocol identification ttl)) ≡ 0)
      ↔ (c % 256 ≡ c / 256)
  unfolding built_header to_be
  checksum-built_header =
      let hdr : Ipv4Header = new total identification ttl protocol src dst_addr in
      let s : ℕ = word_sum (write_to hdr) in
      let own = checksum-sum (write_to hdr) (omega (arith, sum_bounds)) in
      let c : ℕ = checksum (write_to hdr) in
      let small : c < 65536 = omega (arith, own) in
      let swapped_small : to_be c < 65536 = omega arith in
      let all = sum-header_checksum (to_be c) swapped_small in
      let received : checksum
            (write_to (built_header total src dst_addr protocol identification ttl))
          ≡ sum_checksum (s + to_be (sum_checksum s)) =
        checksum-sum (write_to (record hdr { header_checksum = to_be c }))
          (omega (arith, all, sum_bounds, swapped_small))
        ∙ ap sum_checksum (all ∙ ap (λ x. s + to_be x) own) in
      let (if_zero, if_same) = sum_zero_swapped s sum_bounds.0 sum_bounds.1 in
      (
        λ zeroed. omega (arith, own, if_zero (sym received ∙ zeroed)),
        λ same. received ∙ if_same (omega (arith, own, same)),
      )
