-- ===== src/Stun/Binding.antt =====
-- stun.py: what a Binding Response tells the gateway.
use ha_intratone.Base.{
  ℕ, ◌≤◌, ◌<◌, ◌≡◌, subst, ap, ◌∙◌, false, String, Option, some, [], ◌∷◌, ◌++◌, bit_xor, take, drop,
  length, length-take, length-drop, drop-append_all, take-append_all, lt→ltb, le→ltb, length-append,
  arith,
}
use ha_intratone.Base.Bits.{bit_xor-lt, bit_xor_twice}
use ha_intratone.Base.Bytes.{Bytes, AreBytes, be32, be16, byte_at, read16}
use ha_intratone.Stun.{
  magic_cookie, is_stun_binding_request, pack16, xor_bytes, xor_mapped_attr, response_header,
  build_from, build_binding_response,
}

-- RFC 5389 read from the other side: the attributes begin behind the 20 bytes of the header, and
-- the port and the four address bytes of XOR-MAPPED-ADDRESS are masked with the cookie.
abbrev pub attributes : Bytes → Bytes
attributes r = drop 20 r

abbrev pub txid : Bytes → Bytes
txid r = take 12 (drop 8 r)

abbrev pub mapped_port : Bytes → ℕ
mapped_port r = bit_xor (read16 (attributes r) 6) 0x2112

abbrev pub mapped_address : Bytes → Bytes
mapped_address r =
    let a = attributes r in
    bit_xor (byte_at a 8) 0x21
    ∷ bit_xor (byte_at a 9) 0x12
    ∷ bit_xor (byte_at a 10) 0xA4
    ∷ bit_xor (byte_at a 11) 0x42
    ∷ []

abbrev attr : ℕ → ℕ → ℕ → ℕ → ℕ → Bytes
attr port a b c e =
    unfold xor_mapped_attr xor_bytes in
    xor_mapped_attr (be16 (bit_xor port 0x2112))
      (xor_bytes (a ∷ b ∷ c ∷ e ∷ []) (be32 magic_cookie))

-- The response of `build_from`, written out.
abbrev response : Bytes → ℕ → ℕ → ℕ → ℕ → ℕ → Bytes
response t port a b c e = unfold response_header in response_header 12 t ++ attr port a b c e

length-txid : (d : Bytes) → 20 ≤ length d → length (txid d) ≡ 12
length-txid d h = omega (arith, length-take 12 (drop 8 d), length-drop 8 d)

masked_port : (port : ℕ) → port < 65536 → bit_xor port 0x2112 < 65536
masked_port port h = bit_xor-lt 16 port 0x2112 h (omega arith)

unmask16 : (port : ℕ) → port < 65536 → bit_xor (bit_xor port 0x2112) 0x2112 ≡ port
unmask16 port h = bit_xor_twice 16 port 0x2112 h (omega arith)

unmask8 : (b c : ℕ) → b < 256 → c < 256 → bit_xor (bit_xor b c) c ≡ b
unmask8 b c h k = bit_xor_twice 8 b c h k

pack16-small : (n : ℕ) → n < 65536 → pack16 n ≡ some (be16 n)
unfolding pack16
pack16-small n h = rw (lt→ltb _ _ h)

build_from-response :
    (d : Bytes) (port a b c e : ℕ)
    → port < 65536
    → build_from d (some (a ∷ b ∷ c ∷ e ∷ [])) port ≡ some (response (txid d) port a b c e)
unfolding build_from
build_from-response d port a b c e small =
    rw (pack16-small (bit_xor port 0x2112) (masked_port port small), build_from)

build-response :
    (inet_aton : String → Option Bytes) (d : Bytes) (ip : String) (port a b c e : ℕ)
    → 20 ≤ length d
    → inet_aton ip ≡ some (a ∷ b ∷ c ∷ e ∷ [])
    → port < 65536
    → build_binding_response inet_aton d ip port ≡ some (response (txid d) port a b c e)
unfolding build_binding_response
build-response inet_aton d ip port a b c e long known small =
    rw (le→ltb _ _ long, known) (build_from-response d port a b c e small)

drop_front : (t ys : Bytes) → length t ≡ 12 → drop 12 (t ++ ys) ≡ ys
drop_front t ys h = subst (λ n. drop n (t ++ ys) ≡ ys) h (drop-append_all t ys)

take_front : (t ys : Bytes) → length t ≡ 12 → take 12 (t ++ ys) ≡ t
take_front t ys h = subst (λ n. take n (t ++ ys) ≡ t) h (take-append_all t ys)

-- What a gateway reads off the response, for a transaction of 12 bytes.
abbrev pub Reads : Bytes → ℕ → ℕ → ℕ → ℕ → ℕ → Bytes → Type 0
Reads t port a b c e r =
    (length r ≡ 32)
    × (txid r ≡ t)
    × (mapped_port r ≡ port)
    × (mapped_address r ≡ a ∷ b ∷ c ∷ e ∷ [])
    × (is_stun_binding_request r ≡ false)

response-Reads :
    (t : Bytes) (port a b c e : ℕ)
    → length t ≡ 12
    → port < 65536
    → a < 256
    → b < 256
    → c < 256
    → e < 256
    → Reads t port a b c e (response t port a b c e)
unfolding is_stun_binding_request response_header xor_mapped_attr xor_bytes
response-Reads t port a b c e len small ha hb hc he = (
  ground (arith, length-append t (attr port a b c e)),
  take_front t (attr port a b c e) len,
  rw (drop_front t (attr port a b c e) len)
      (ap (λ n. bit_xor n 0x2112) (omega arith) ∙ unmask16 port small),
  rw (drop_front t (attr port a b c e) len) (
      cc (
        unmask8 a 0x21 ha (omega arith),
        unmask8 b 0x12 hb (omega arith),
        unmask8 c 0xA4 hc (omega arith),
        unmask8 e 0x42 he (omega arith),
      )),
  ground arith,
)

-- To a request of at least 20 bytes from an IPv4 address and a 16-bit port the answer is a
-- response of 32 bytes that echoes the transaction, from which the other side, undoing the
-- cookie's mask, reads just that port and address, and which is itself no binding request.
pub build_binding_response_lem :
    (inet_aton : String → Option Bytes) (d : Bytes) (ip : String) (port a b c e : ℕ)
    → 20 ≤ length d
    → inet_aton ip ≡ some (a ∷ b ∷ c ∷ e ∷ [])
    → port < 65536
    → AreBytes (a ∷ b ∷ c ∷ e ∷ [])
    → (r : Bytes) × (build_binding_response inet_aton d ip port ≡ some r)
      × Reads (txid d) port a b c e r
build_binding_response_lem inet_aton d ip port a b c e long known small octets = (
  response (txid d) port a b c e,
  build-response inet_aton d ip port a b c e long known small,
  response-Reads (txid d) port a b c e (length-txid d long) small octets.0 octets.1.0 octets.1.1.0
      octets.1.1.1.0,
)
