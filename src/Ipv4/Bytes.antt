-- ===== src/Ipv4/Bytes.antt =====
-- The address as a number and as four bytes, and the tests that read its leading bits.
use corosio.Base.{◌≤◌, ◌≡◌, ◌↔◌, true, arith}
use corosio.Ipv4.{
  Ipv4Address, IsValid, Bytes4, AreBytes, of_bytes, to_bytes, is_loopback, is_multicast,
}

pub to_bytes-AreBytes : (a : Ipv4Address) → AreBytes (to_bytes a)
unfolding to_bytes
to_bytes-AreBytes a = omega arith

pub of_bytes-IsValid : (b : Bytes4) → AreBytes b → IsValid (of_bytes b)
unfolding of_bytes
of_bytes-IsValid b h = omega arith

-- The constructor from bytes undoes to_bytes on a 32-bit address.
pub of_bytes-to_bytes : (a : Ipv4Address) → IsValid a → of_bytes (to_bytes a) ≡ a
unfolding of_bytes to_bytes
of_bytes-to_bytes a h = ground arith

-- to_bytes undoes the constructor from bytes.
pub to_bytes-of_bytes : (b : Bytes4) → AreBytes b → to_bytes (of_bytes b) ≡ b
unfolding of_bytes to_bytes
to_bytes-of_bytes b h = ground arith

-- Of a 32-bit address: is_loopback accepts exactly 127.0.0.0 to 127.255.255.255, where the first
-- byte is 127, and is_multicast exactly 224.0.0.0 to 239.255.255.255, by the first byte too.
pub address_classes :
    (a : Ipv4Address)
    → IsValid a
    → ((is_loopback a ≡ true) ↔ ((to_bytes a).b0 ≡ 127))
      × ((is_multicast a ≡ true) ↔ ((224 ≤ (to_bytes a).b0) × ((to_bytes a).b0 ≤ 239)))
unfolding is_loopback is_multicast to_bytes
address_classes a h = ground arith
