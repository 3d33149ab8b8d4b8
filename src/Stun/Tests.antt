-- ===== src/Stun/Tests.antt =====
-- Runs of the STUN responder.
use ha_intratone.Base.{◌≡◌, refl, [], ◌∷◌, some, arith, true, String, Option}
use ha_intratone.Base.Bytes.{Bytes}
use ha_intratone.Stun.Binding.{txid, Reads, build_binding_response_lem}
use ha_intratone.Stun.{is_stun_binding_request, build_binding_response}

abbrev request : Bytes
request =
    0 ∷ 1 ∷ 0 ∷ 0 ∷ 0x21 ∷ 0x12 ∷ 0xA4 ∷ 0x42 ∷ 1 ∷ 2 ∷ 3 ∷ 4 ∷ 5 ∷ 6 ∷ 7 ∷ 8 ∷ 9 ∷ 10 ∷ 11 ∷ 12
    ∷ []

abbrev inet_aton : String → Option Bytes
inet_aton _ = some (192 ∷ 0 ∷ 2 ∷ 1 ∷ [])

request_is_one : is_stun_binding_request request ≡ true
unfolding is_stun_binding_request
request_is_one = refl

response_bytes :
    build_binding_response inet_aton request "192.0.2.1" 32853
    ≡ some (
        1 ∷ 1 ∷ 0 ∷ 12 ∷ 0x21 ∷ 0x12 ∷ 0xA4 ∷ 0x42 ∷ 1 ∷ 2 ∷ 3 ∷ 4 ∷ 5 ∷ 6 ∷ 7 ∷ 8 ∷ 9 ∷ 10 ∷ 11
        ∷ 12 ∷ 0 ∷ 0x20 ∷ 0 ∷ 8 ∷ 0 ∷ 1 ∷ 0xa1 ∷ 0x47 ∷ 0xe1 ∷ 0x12 ∷ 0xa6 ∷ 0x43 ∷ [])
unfolding build_binding_response
response_bytes = refl

build_binding_response_example :
    (r : Bytes) × (build_binding_response inet_aton request "192.0.2.1" 32853 ≡ some r)
    × Reads (txid request) 32853 192 0 2 1 r
build_binding_response_example =
    build_binding_response_lem inet_aton request "192.0.2.1" 32853 192 0 2 1 (omega arith) refl
      (omega arith) (omega arith)
