-- ===== src/Stun.antt =====
-- custom_components/intratone/stun.py: the STUN responder of the media ports.
-- `none` is an exception that the function raises.
pub mod Binding
mod Tests
use ha_intratone.Base.{
  ℕ, suc, ◌+◌, ◌/◌, Bool, false, ◌&&◌, String, Option, none, some, List, [], ◌∷◌, ◌++◌, bit_xor,
  take, drop, length, ltb, ◌==◌, if◌then◌else◌,
}
use ha_intratone.Base.Bytes.{Bytes, be16, be32, read16, read32}

-- `_MAGIC_COOKIE`
abbrev pub magic_cookie : ℕ
magic_cookie = 0x2112_A442

abbrev pub binding_request : ℕ
binding_request = 0x0001

abbrev pub binding_response : ℕ
binding_response = 0x0101

abbrev pub attr_xor_mapped_address : ℕ
attr_xor_mapped_address = 0x0020

abbrev pub family_ipv4 : ℕ
family_ipv4 = 0x01

abbrev pub stun_header_size : ℕ
stun_header_size = 20

-- The fields that `struct.unpack(">HHI12s", data[:20])` gives to the test: type and cookie.
unfoldable pub is_stun_binding_request : Bytes → Bool
is_stun_binding_request d =
    if ltb (length d) stun_header_size
    then false
    else read16 d 0 == binding_request && read32 d 4 == magic_cookie

-- `zip(addr_bytes, cookie bytes, strict=False)`: as many items as the shorter has.
unfoldable pub xor_bytes : Bytes → Bytes → Bytes
xor_bytes [] cs = []
xor_bytes (b ∷ bs) [] = []
xor_bytes (b ∷ bs) (c ∷ cs) = bit_xor b c ∷ xor_bytes bs cs

-- `struct.pack(">H", n)`, which refuses a number of more than 16 bits.
unfoldable pub pack16 : ℕ → Option Bytes
pack16 n = if ltb n 65536 then some (be16 n) else none

-- The attribute: type, length 8, a zero byte, the family, the port and the address.
unfoldable pub xor_mapped_attr : Bytes → Bytes → Bytes
xor_mapped_attr x_port x_addr =
    be16 attr_xor_mapped_address ++ be16 8 ++ 0 ∷ family_ipv4 ∷ x_port ++ x_addr

-- The 20 bytes of a response's header, which echo the transaction.
unfoldable pub response_header : ℕ → Bytes → Bytes
response_header attr_len txid = be16 binding_response ++ be16 attr_len ++ be32 magic_cookie ++ txid

-- `addr_bytes` is what `socket.inet_aton` made of the address, `none` where it raised.
build_from : Bytes → Option Bytes → ℕ → Option Bytes
unfolding pack16 xor_bytes xor_mapped_attr response_header
build_from request none port = none
build_from request (some addr_bytes) port = elim (pack16 (bit_xor port (magic_cookie / 65536))) [
  | none ↦ none
  | some x_port ↦
      let attr = xor_mapped_attr x_port (xor_bytes addr_bytes (be32 magic_cookie)) in
      some (response_header (length attr) (take 12 (drop 8 request)) ++ attr)
]

-- `inet_aton` is the socket library's; a request of fewer than 20 bytes fails to unpack.
unfoldable pub build_binding_response : (String → Option Bytes) → Bytes → String → ℕ → Option Bytes
unfolding build_from
build_binding_response inet_aton request ip port =
    if ltb (length request) stun_header_size then none else build_from request (inet_aton ip) port
