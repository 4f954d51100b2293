-- ===== src/Packets/Udp.antt =====
-- bonder/src/udp.rs: the UDP header, its checksum and `build_datagram`.
use fullerene.Base.{
  ℕ, ◌+◌, ◌-◌, ◌*◌, ◌/◌, ◌%◌, ◌^◌, ◌≤◌, ◌<◌, ◌≡◌, refl, ◌∙◌, ap, sym, subst, Option, none, some,
  List, [], ◌∷◌, ◌++◌, if◌then◌else◌, ltb, ltb-false, ◌==◌, length, drop, arith, Bool-cases, inl,
  inr,
}
use fullerene.Packets.{udp, to_u8, Ipv4Addr, to_be_bytes, octets, word_sum, fold_carry, checksum}
use fullerene.Packets.Checksum.{fold_carry_lem}
use fullerene.Packets.Header.{AreBytes, sum_checksum, checksum-sum, sum_zero}

pub record UdpHeader : Type 0 where
  pub src_port : ℕ
  pub dst_port : ℕ
  pub length : ℕ
  pub checksum : ℕ

pub new_udp : ℕ → ℕ → ℕ → UdpHeader
new_udp src_port dst_port payload_len = record {
  src_port = src_port;
  dst_port = dst_port;
  length = (8 + payload_len) % 65536;
  checksum = 0;
}

pub write_udp : UdpHeader → List ℕ
unfolding to_be_bytes
write_udp h =
    to_be_bytes h.src_port
    ++ (to_be_bytes h.dst_port ++ (to_be_bytes h.length ++ to_be_bytes h.checksum))

-- The bytes of the `PseudoHeader`.
pub pseudo_header : Ipv4Addr → Ipv4Addr → ℕ → List ℕ
unfolding to_be_bytes octets to_u8
pseudo_header src dst udp_length =
    octets src ++ (octets dst ++ (0 ∷ (to_u8 udp ∷ to_be_bytes udp_length)))

pub udp_checksum : Ipv4Addr → Ipv4Addr → ℕ → ℕ → List ℕ → ℕ
unfolding pseudo_header write_udp new_udp word_sum fold_carry
udp_checksum src dst src_port dst_port payload =
    let total_len = 8 + length payload in
    let sum =
      word_sum (pseudo_header src dst (total_len % 65536))
      + word_sum (write_udp (new_udp src_port dst_port (length payload)))
      + word_sum payload in
    let cs = 65535 - fold_carry 3 (sum % 2 ^ 32) % 65536 in if cs == 0 then 65535 else cs

-- The header that `build_datagram` writes.
pub datagram_header : Ipv4Addr → Ipv4Addr → ℕ → ℕ → List ℕ → UdpHeader
unfolding udp_checksum new_udp
datagram_header src dst_addr src_port dst_port payload =
    record (new_udp src_port dst_port (length payload)) {
      checksum = udp_checksum src dst_addr src_port dst_port payload;
    }

-- The number of bytes, and the buffer after the call.
pub build_datagram : Ipv4Addr → Ipv4Addr → ℕ → ℕ → List ℕ → List ℕ → Option (ℕ × List ℕ)
unfolding datagram_header write_udp
build_datagram src dst_addr src_port dst_port payload dst =
    let total = 8 + length payload in
    if ltb 65535 total
    then none
    else if ltb (length dst) total
    then none
    else some (
      total,
      write_udp (datagram_header src dst_addr src_port dst_port payload)
          ++ (payload ++ drop total dst),
    )

-- The eight bytes of a UDP header.
abbrev pub header_bytes : ℕ → ℕ → ℕ → ℕ → List ℕ
header_bytes src_port dst_port total sum =
    src_port / 256
    ∷ src_port % 256
    ∷ dst_port / 256
    ∷ dst_port % 256
    ∷ total / 256
    ∷ total % 256
    ∷ sum / 256
    ∷ sum % 256
    ∷ []

-- What a receiver sums before the datagram itself, by RFC 768.
abbrev pub receiver_prefix : Ipv4Addr → Ipv4Addr → ℕ → List ℕ
receiver_prefix x y total =
    x.a ∷ x.b ∷ x.c ∷ x.d ∷ y.a ∷ y.b ∷ y.c ∷ y.d ∷ 0 ∷ 17 ∷ total / 256 ∷ total % 256 ∷ []

abbrev pub Bytes : List ℕ → Type 0
Bytes [] = Unit {0}
Bytes (x ∷ xs) = (x < 256) × Bytes xs

word_sum_bound : (xs : List ℕ) → Bytes xs → 2 * word_sum xs ≤ 65535 * (length xs + 1)
unfolding word_sum
word_sum_bound [] p = omega arith
word_sum_bound (x ∷ []) p = omega (arith, p.0)
word_sum_bound (x ∷ (y ∷ xs)) p = omega (arith, p.0, p.1.0, word_sum_bound xs p.1.1)

-- A checksum of 0 is sent as 65535, which is accepted as well.
sum_zero_full :
    (s : ℕ) → 0 < s → s + 65535 < 2 ^ 32 → sum_checksum s ≡ 0 → sum_checksum (s + 65535) ≡ 0
sum_zero_full s p h zeroed =
    let (low, (k, e, q)) = fold_carry_lem s (omega arith) in
    let (low', (m, e', q')) = fold_carry_lem (s + 65535) (omega arith) in
    let pos' = q' (omega arith) in omega (arith, low, e, low', e', pos', zeroed)

sent_zero :
    (s : ℕ)
    → 0 < s
    → s + 65535 < 2 ^ 32
    → let c = sum_checksum s in sum_checksum (s + (if c == 0 then 65535 else c)) ≡ 0
sent_zero s p h = elim (Bool-cases (sum_checksum s == 0)) [
  | inl zeroed ↦ rw zeroed (sum_zero_full s p h (ground arith))
  | inr some_sum ↦ rw some_sum (sum_zero s p h)
]

sent_pos : (c : ℕ) → 0 < (if c == 0 then 65535 else c)
sent_pos c = ground arith

abbrev two : ℕ → List ℕ
two n = n / 256 ∷ (n % 256 ∷ [])

to_be_bytes-high : (n : ℕ) → n < 65536 → to_be_bytes n ≡ two n
unfolding to_be_bytes
to_be_bytes-high n h = let high : n / 256 % 256 ≡ n / 256 = omega arith in rw high refl

write_udp_lem :
    (h : UdpHeader)
    → h.src_port < 65536
    → h.dst_port < 65536
    → h.length < 65536
    → h.checksum < 65536
    → write_udp h ≡ header_bytes h.src_port h.dst_port h.length h.checksum
unfolding write_udp
write_udp_lem h p q r t =
    ap (λ xs. xs ++ (to_be_bytes h.dst_port ++ (to_be_bytes h.length ++ to_be_bytes h.checksum)))
      (to_be_bytes-high h.src_port p)
    ∙ ap (λ xs. two h.src_port ++ (xs ++ (to_be_bytes h.length ++ to_be_bytes h.checksum)))
        (to_be_bytes-high h.dst_port q)
    ∙ ap (λ xs. two h.src_port ++ (two h.dst_port ++ (xs ++ to_be_bytes h.checksum)))
        (to_be_bytes-high h.length r)
    ∙ ap (λ xs. two h.src_port ++ (two h.dst_port ++ (two h.length ++ xs)))
        (to_be_bytes-high h.checksum t)

sent_small : (c : ℕ) → c ≤ 65535 → (if c == 0 then 65535 else c) < 65536
sent_small c h = ground arith

module _ (src dst_addr : Ipv4Addr) (src_port dst_port : ℕ) (payload : List ℕ)
    (src_bytes : AreBytes src) (dst_bytes : AreBytes dst_addr) (src_port_fits : src_port < 65536)
    (dst_port_fits : dst_port < 65536) (bytes : Bytes payload)
    (fits : 8 + length payload ≤ 65535) where
  abbrev payload_sum : ℕ
  payload_sum =
      word_sum (pseudo_header src dst_addr ((8 + length payload) % 65536))
      + word_sum (write_udp (new_udp src_port dst_port (length payload)))
      + word_sum payload

  payload_sum_bounds : (0 < payload_sum) × (payload_sum + 65535 < 2 ^ 32)
  unfolding word_sum pseudo_header write_udp new_udp to_be_bytes octets to_u8
  payload_sum_bounds =
      let bound = word_sum_bound payload bytes in
      (omega arith, omega (arith, bound, src_bytes, dst_bytes, fits))

  udp_checksum-payload_sum :
      let c = sum_checksum payload_sum in
      udp_checksum src dst_addr src_port dst_port payload ≡ (if c == 0 then 65535 else c)
  unfolding udp_checksum
  udp_checksum-payload_sum =
      let wrapped : payload_sum % 2 ^ 32 ≡ payload_sum = omega (arith, payload_sum_bounds) in
      let low = (fold_carry_lem payload_sum (omega (arith, payload_sum_bounds))).0 in
      let short : fold_carry 3 payload_sum % 65536 ≡ fold_carry 3 payload_sum =
        omega (arith, low) in
      rw (wrapped, short) refl

  sum-datagram :
      let hdr = datagram_header src dst_addr src_port dst_port payload in
      hdr.checksum < 65536
      → word_sum (pseudo_header src dst_addr (8 + length payload) ++ (write_udp hdr ++ payload))
        ≡ payload_sum + hdr.checksum
  unfolding datagram_header word_sum pseudo_header write_udp new_udp to_be_bytes octets to_u8
  sum-datagram small = omega (arith, small, fits)

  written :
      let hdr = datagram_header src dst_addr src_port dst_port payload in
      hdr.checksum < 65536
      → write_udp hdr ≡ header_bytes src_port dst_port (8 + length payload) hdr.checksum
  unfolding datagram_header new_udp
  written small =
      let hdr : UdpHeader = datagram_header src dst_addr src_port dst_port payload in
      let whole : (8 + length payload) % 65536 ≡ 8 + length payload = omega (arith, fits) in
      write_udp_lem hdr src_port_fits dst_port_fits (omega arith) small
      ∙ ap (λ total. header_bytes src_port dst_port total hdr.checksum) whole

  prefixed :
      pseudo_header src dst_addr (8 + length payload)
      ≡ receiver_prefix src dst_addr (8 + length payload)
  unfolding pseudo_header octets to_u8
  prefixed = rw (to_be_bytes-high (8 + length payload) (omega (arith, fits))) refl

  sent_checksum :
      let hdr = datagram_header src dst_addr src_port dst_port payload in
      let c = sum_checksum payload_sum in
      (hdr.checksum ≡ (if c == 0 then 65535 else c)) × (0 < hdr.checksum) × (hdr.checksum < 65536)
  unfolding datagram_header
  sent_checksum =
      let c : ℕ = sum_checksum payload_sum in
      let e = udp_checksum-payload_sum in
      (
        e,
        subst (λ x. 0 < x) (sym e) (sent_pos c),
        subst (λ x. x < 65536) (sym e) (sent_small c (omega arith)),
      )

  accepted :
      let hdr = datagram_header src dst_addr src_port dst_port payload in
      checksum (pseudo_header src dst_addr (8 + length payload) ++ (write_udp hdr ++ payload)) ≡ 0
  accepted =
      let hdr : UdpHeader = datagram_header src dst_addr src_port dst_port payload in
      let (sent, some_sum, small) = sent_checksum in
      let all = sum-datagram small in
      checksum-sum (pseudo_header src dst_addr (8 + length payload) ++ (write_udp hdr ++ payload))
        (omega (arith, all, payload_sum_bounds, small))
      ∙ ap sum_checksum (all ∙ ap (λ x. payload_sum + x) sent)
      ∙ sent_zero payload_sum payload_sum_bounds.0 payload_sum_bounds.1

  -- `build_datagram`, given addresses and ports in range, a payload of bytes that makes at most 65535
  -- bytes with the header, and a buffer that holds them, writes eight bytes, which are the ports,
  -- the length of the whole and a checksum that is not 0, each with the high byte first, then the
  -- payload, and leaves the rest of the buffer. A receiver that puts the addresses, a 0, the
  -- protocol number 17 and the length before them, as RFC 768 says, finds the checksum 0.
  pub build_datagram-IsAccepted :
      (dst : List ℕ)
      → 8 + length payload ≤ length dst
      → let total = 8 + length payload in
        (sent : ℕ) × (0 < sent)
        × (sent < 65536)
        × (let datagram = header_bytes src_port dst_port total sent ++ payload in
            (build_datagram src dst_addr src_port dst_port payload dst
              ≡ some (total, datagram ++ drop total dst))
            × (checksum (receiver_prefix src dst_addr total ++ datagram) ≡ 0))
  unfolding build_datagram
  build_datagram-IsAccepted dst room =
      let hdr : UdpHeader = datagram_header src dst_addr src_port dst_port payload in
      let total : ℕ = 8 + length payload in
      let (sent, some_sum, small) = sent_checksum in
      (
        hdr.checksum,
        some_sum,
        small,
        (
          rw (ltb-false 65535 total fits, ltb-false (length dst) total room)
              (ap (λ h. some (total, h ++ (payload ++ drop total dst))) (written small)),
          subst (λ h. checksum (receiver_prefix src dst_addr total ++ (h ++ payload)) ≡ 0)
              (written small)
              (subst (λ q. checksum (q ++ (write_udp hdr ++ payload)) ≡ 0) prefixed accepted),
        ),
      )
