-- ===== src/Packets/Tests.antt =====
-- Runs of the packet functions, and the theorems at a concrete header.
use fullerene.Base.{
  ℕ, ◌<◌, ◌/◌, ◌%◌, ◌≡◌, ◌↔◌, refl, none, some, [], ◌∷◌, ◌++◌, arith, replicate, drop,
}
use fullerene.Packets.{
  Ipv4Addr, udp, from_u8, to_u8, new, to_be_bytes, to_be, octets, write_to, word_sum, fold_carry,
  checksum, built_header, build_packet,
}
use fullerene.Packets.Udp.{header_bytes, receiver_prefix, build_datagram, build_datagram-IsAccepted}
use fullerene.Packets.Header.{checksum-built_header}

abbrev host : Ipv4Addr
host = record { a = 192; b = 168; c = 1; d = 10 }

abbrev broadcast : Ipv4Addr
broadcast = record { a = 255; b = 255; c = 255; d = 255 }

from_u8-to_u8 : from_u8 (to_u8 udp) ≡ some udp
unfolding from_u8 to_u8
from_u8-to_u8 = refl

-- The buffer is too small.
build_packet_small : build_packet host broadcast udp 7 64 (1 ∷ []) [] ≡ none
unfolding build_packet
build_packet_small = refl

checksum-built_header_example :
    let c = checksum (write_to (new 28 7 64 udp host broadcast)) in
    (checksum (write_to (built_header 28 host broadcast udp 7 64)) ≡ 0) ↔ (c % 256 ≡ c / 256)
checksum-built_header_example =
    checksum-built_header 28 host broadcast udp 7 64 (omega arith)
      (omega arith, omega arith, omega arith, omega arith)
      (omega arith, omega arith, omega arith, omega arith) (omega arith) (omega arith)

-- This header's checksum is 47384, of the bytes 185 and 24.
header_checksum_run : checksum (write_to (new 28 7 64 udp host broadcast)) ≡ 47384
unfolding checksum write_to new to_u8 to_be_bytes octets word_sum fold_carry
header_checksum_run = refl

-- So a receiver rejects the header that is built.
built_header_run : checksum (write_to (built_header 28 host broadcast udp 7 64)) ≡ 41055
unfolding built_header to_be checksum write_to new to_u8 to_be_bytes octets word_sum fold_carry
built_header_run = refl

build_datagram-IsAccepted_example :
    (sent : ℕ) × (0 < sent)
    × (sent < 65536)
    × ((build_datagram host broadcast 68 67 (1 ∷ 2 ∷ 3 ∷ []) (replicate 12 0)
          ≡ some (11, (header_bytes 68 67 11 sent ++ (1 ∷ 2 ∷ 3 ∷ [])) ++ drop 11 (replicate 12 0)))
        × (checksum (
              receiver_prefix host broadcast 11 ++ (header_bytes 68 67 11 sent ++ (1 ∷ 2 ∷ 3 ∷ [])))
            ≡ 0))
build_datagram-IsAccepted_example =
    build_datagram-IsAccepted host broadcast 68 67 (1 ∷ 2 ∷ 3 ∷ [])
      (omega arith, omega arith, omega arith, omega arith)
      (omega arith, omega arith, omega arith, omega arith) (omega arith) (omega arith)
      (omega arith, (omega arith, (omega arith, tt))) (omega arith) (replicate 12 0) (omega arith)
