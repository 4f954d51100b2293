-- ===== src/Packets.antt =====
-- bonder/src/ipv4.rs: the IPv4 header, its checksum and `build_packet`, on a little-endian machine.
-- A byte is a number, and what is written into a buffer is the list of its bytes.
pub mod Checksum
pub mod Header
pub mod Udp
pub mod Ethernet
mod Tests
use fullerene.Base.{
  ℕ, zero, suc, ◌+◌, ◌-◌, ◌*◌, ◌/◌, ◌%◌, ◌^◌, ◌||◌, Option, none, some, List, [], ◌∷◌, ◌++◌,
  if◌then◌else◌, ltb, ◌==◌, length, drop,
}

pub data IpProtocol : Type 0 where
  icmp tcp udp : IpProtocol

pub to_u8 : IpProtocol → ℕ
to_u8 icmp = 1
to_u8 tcp = 6
to_u8 udp = 17

pub from_u8 : ℕ → Option IpProtocol
from_u8 v =
    if v == 1 then some icmp else if v == 6 then some tcp else if v == 17 then some udp else none

-- Its four bytes.
pub record Ipv4Addr : Type 0 where
  pub a : ℕ
  pub b : ℕ
  pub c : ℕ
  pub d : ℕ

pub record Ipv4Header : Type 0 where
  pub ver_ihl : ℕ
  pub dscp_ecn : ℕ
  pub total_length : ℕ
  pub identification : ℕ
  pub flags_frag : ℕ
  pub ttl : ℕ
  pub protocol : ℕ
  pub header_checksum : ℕ
  pub src_addr : Ipv4Addr
  pub dst_addr : Ipv4Addr

pub new : ℕ → ℕ → ℕ → IpProtocol → Ipv4Addr → Ipv4Addr → Ipv4Header
unfolding to_u8
new total_length identification ttl protocol src dst = record {
  ver_ihl = 69;
  dscp_ecn = 0;
  total_length = total_length;
  identification = identification;
  flags_frag = 0;
  ttl = ttl;
  protocol = to_u8 protocol;
  header_checksum = 0;
  src_addr = src;
  dst_addr = dst;
}

-- `u16::to_be_bytes` puts the high byte first.
pub to_be_bytes : ℕ → List ℕ
to_be_bytes n = n / 256 % 256 ∷ (n % 256 ∷ [])

-- `u16::to_be` on a little-endian machine exchanges the two bytes.
pub to_be : ℕ → ℕ
to_be n = n % 256 * 256 + n / 256 % 256

pub octets : Ipv4Addr → List ℕ
octets x = x.a ∷ (x.b ∷ (x.c ∷ (x.d ∷ [])))

pub write_to : Ipv4Header → List ℕ
unfolding to_be_bytes octets
write_to h =
    (h.ver_ihl ∷ (h.dscp_ecn ∷ []))
    ++ (to_be_bytes h.total_length
        ++ (to_be_bytes h.identification
            ++ (to_be_bytes h.flags_frag
                ++ ((h.ttl ∷ (h.protocol ∷ []))
                    ++ (to_be_bytes h.header_checksum
                        ++ (octets h.src_addr ++ octets h.dst_addr))))))

-- The sum of the 16-bit words, the last one padded with zeros.
pub word_sum : List ℕ → ℕ
word_sum [] = 0
word_sum (x ∷ []) = x * 256
word_sum (x ∷ (y ∷ rest)) = x * 256 + y + word_sum rest

-- The loop that folds the carry; three rounds are more than it needs for 32 bits.
pub fold_carry : ℕ → ℕ → ℕ
fold_carry zero sum = sum
fold_carry (suc fuel) sum =
    let rest = fold_carry fuel (sum % 65536 + sum / 65536) in if sum / 65536 == 0 then sum else rest

pub checksum : List ℕ → ℕ
unfolding word_sum fold_carry
checksum bytes = 65535 - fold_carry 3 (word_sum bytes % 2 ^ 32) % 65536

-- The header that `build_packet` writes.
pub built_header : ℕ → Ipv4Addr → Ipv4Addr → IpProtocol → ℕ → ℕ → Ipv4Header
unfolding new write_to checksum to_be
built_header total src dst_addr protocol identification ttl =
    let hdr = new total identification ttl protocol src dst_addr in
    record hdr { header_checksum = to_be (checksum (write_to hdr)) }

-- The number of bytes, and the buffer after the call.
pub build_packet : Ipv4Addr → Ipv4Addr → IpProtocol → ℕ → ℕ → List ℕ → List ℕ → Option (ℕ × List ℕ)
unfolding built_header
build_packet src dst_addr protocol identification ttl payload dst =
    let total = 20 + length payload in
    if ltb (length dst) total || ltb 65535 total
    then none
    else some (
      total,
      write_to (built_header total src dst_addr protocol identification ttl)
          ++ (payload ++ drop total dst),
    )
