-- ===== src/Packets/Ethernet.antt =====
-- bonder/src/ethernet.rs: Ethernet II frames.
use fullerene.Base.{
  ℕ, ◌+◌, ◌/◌, ◌%◌, ◌≤◌, ◌≡◌, refl, ap, Option, none, some, List, [], ◌∷◌, ◌++◌, if◌then◌else◌, ltb,
  ltb-false, ◌==◌, length, drop,
}

pub data EtherType : Type 0 where
  ipv4 arp : EtherType

pub to_u16 : EtherType → ℕ
to_u16 ipv4 = 2048
to_u16 arp = 2054

pub from_u16 : ℕ → Option EtherType
from_u16 v = if v == 2048 then some ipv4 else if v == 2054 then some arp else none

-- A `MacAddress` is the list of its six bytes.
pub record EthernetHeader : Type 0 where
  pub dst_mac : List ℕ
  pub src_mac : List ℕ
  pub ethertype : ℕ

pub write_to : EthernetHeader → List ℕ
write_to h = h.dst_mac ++ (h.src_mac ++ (h.ethertype / 256 % 256 ∷ (h.ethertype % 256 ∷ [])))

-- The number of bytes, and the buffer after the call.
pub build_frame : List ℕ → List ℕ → EtherType → List ℕ → List ℕ → Option (ℕ × List ℕ)
unfolding to_u16
build_frame dst_mac src_mac ethertype payload dst =
    let total = 14 + length payload in
    let et = to_u16 ethertype in
    if ltb (length dst) total
    then none
    else some
        (total, dst_mac ++ (src_mac ++ (et / 256 % 256 ∷ (et % 256 ∷ (payload ++ drop total dst)))))

-- The type of a frame is read back from its number.
from_u16-to_u16 : (t : EtherType) → from_u16 (to_u16 t) ≡ some t
unfolding from_u16 to_u16
from_u16-to_u16 ipv4 = refl
from_u16-to_u16 arp = refl

append_assoc : (a b c : List ℕ) → (a ++ b) ++ c ≡ a ++ (b ++ c)
append_assoc [] b c = refl
append_assoc (x ∷ a) b c = ap (λ l. x ∷ l) (append_assoc a b c)

-- In a buffer that holds it, `build_frame` writes what the header's own method writes, and then the
-- payload.
build_frame-write_to :
    (dst_mac src_mac : List ℕ) (t : EtherType) (payload dst : List ℕ)
    → 14 + length payload ≤ length dst
    → build_frame dst_mac src_mac t payload dst
      ≡ some (
        14 + length payload,
        write_to (record { dst_mac = dst_mac; src_mac = src_mac; ethertype = to_u16 t })
            ++ (payload ++ drop (14 + length payload) dst),
      )
unfolding build_frame write_to
build_frame-write_to dst_mac src_mac t payload dst room =
    let rest = payload ++ drop (14 + length payload) dst in
    let kind = to_u16 t / 256 % 256 ∷ (to_u16 t % 256 ∷ []) in
    rw
      (
        ltb-false (length dst) (14 + length payload) room,
        append_assoc dst_mac (src_mac ++ kind) rest,
        append_assoc src_mac kind rest,
      )
      refl
