-- ===== src/Rtp/Packet.antt =====
-- audio_bridge.py: RTP packets, PLI feedback and VP8 keyframes.
use ha_intratone.Base.{
  ℕ, ◌+◌, ◌*◌, ◌/◌, ◌%◌, ◌^◌, Bool, true, false, Option, none, some, ◌∷◌, ◌++◌, ◌>>=◌, length, ltb,
  leb, ◌==◌, ◌||◌, not, if◌then◌else◌, replicate,
}
use ha_intratone.Base.Bytes.{Bytes, be16, be32, byte_at}

-- `_RTP_HEADER_SIZE`, `_PCMU_PAYLOAD_TYPE` and `_SAMPLES_PER_PACKET`
abbrev pub rtp_header_size : ℕ
rtp_header_size = 12

abbrev pub pcmu_payload_type : ℕ
pcmu_payload_type = 0

abbrev pub samples_per_packet : ℕ
samples_per_packet = 160

-- `_SILENCE_PAYLOAD`
unfoldable pub silence_payload : Bytes
silence_payload = replicate samples_per_packet 0xFF

-- `_build_pli_packet`
unfoldable pub build_pli_packet : ℕ → ℕ → Bytes
build_pli_packet sender_ssrc media_ssrc =
    (2 * 64 + 1) ∷ 206 ∷ be16 2 ++ be32 (sender_ssrc % 2 ^ 32) ++ be32 (media_ssrc % 2 ^ 32)

-- `_build_rtp_packet`
unfoldable pub build_rtp_packet : ℕ → ℕ → ℕ → Bytes → Bytes
build_rtp_packet seq timestamp ssrc payload =
    0x80 ∷ pcmu_payload_type ∷ be16 (seq % 2 ^ 16)
    ++ be32 (timestamp % 2 ^ 32)
    ++ be32 (ssrc % 2 ^ 32)
    ++ payload

-- `(b >> k) & 1`
abbrev pub bit : ℕ → ℕ → Bool
bit k b = b / 2 ^ k % 2 == 1

-- The number of bytes of a field that is there or not.
abbrev pub one_if : Bool → ℕ
one_if true = 1
one_if false = 0

-- The offset behind the PictureID, if the extension byte announces one.
unfoldable pub after_picture_id : Bytes → ℕ → Option ℕ
after_picture_id payload ext =
    if bit 7 ext
    then if leb (length payload) 2
      then none
      else some (2 + (if bit 7 (byte_at payload 2) then 2 else 1))
    else some 2

-- The length of the payload descriptor, as far as its bytes are there.
unfoldable pub descriptor_size : Bytes → Option ℕ
unfolding after_picture_id
descriptor_size payload =
    if bit 7 (byte_at payload 0)
    then if leb (length payload) 1
      then none
      else (let ext = byte_at payload 1 in
          (after_picture_id payload ext >>= λ o.
          some (o + one_if (bit 6 ext) + one_if (bit 5 ext || bit 4 ext))))
    else some 1

unfoldable pub is_key_at : Bytes → Option ℕ → Bool
is_key_at payload none = false
is_key_at payload (some offset) =
    if leb (length payload) offset then false else byte_at payload offset % 2 == 0

-- `_is_vp8_keyframe`
unfoldable pub is_vp8_keyframe : Bytes → Bool
unfolding descriptor_size is_key_at
is_vp8_keyframe payload =
    if ltb (length payload) 4
    then false
    else if not (bit 4 (byte_at payload 0)) || not (byte_at payload 0 % 8 == 0)
    then false
    else is_key_at payload (descriptor_size payload)
