-- ===== src/Rtp/Video.antt =====
-- audio_bridge.py: the video endpoint (`_VideoRtpProtocol`). What only feeds a log line is left
-- out. Times are nanoseconds of the monotonic clock since `_clock_t0`, read once in a handler.
pub mod Loopback
pub mod Placeholder
use ha_intratone.Base.{
  ℕ, zero, suc, ◌+◌, ◌-◌, ◌*◌, ◌/◌, ◌%◌, ◌^◌, max, Bool, true, false, Option, none, some, List, [],
  ◌∷◌, ◌++◌, length, take, drop, ltb, leb, ◌==◌, ◌&&◌, ◌||◌, not, if◌then◌else◌, get_or, String,
  is_some, is_empty,
}
use ha_intratone.Base.Bytes.{Bytes, be16, be32, byte_at, read32}
use ha_intratone.Base.Integers.{ℤ, pos, negsuc, difference, ◌+ℤ◌, low_bits, max_with}
use ha_intratone.Stun.{is_stun_binding_request, build_binding_response}
use ha_intratone.Rtp.Packet.{rtp_header_size, is_vp8_keyframe}
use ha_intratone.Rtp.Stats.{Addr, addr_eq, add, PtStats, SsrcStats, count_pt, count_ssrc}

-- `_VP8_MAX_PAYLOAD`, `_VP8_PAYLOAD_TYPE`, `_VIDEO_LOOPBACK_SSRC` and, in nanoseconds,
-- `_VIDEO_PLACEHOLDER_RESUME_S`
abbrev pub vp8_max_payload : ℕ
vp8_max_payload = 1200

abbrev pub vp8_payload_type : ℕ
vp8_payload_type = 96

abbrev pub video_loopback_ssrc : ℕ
video_loopback_ssrc = 0x1D7A_7000

abbrev pub video_placeholder_resume : ℕ
video_placeholder_resume = 2000000000

-- The chunks of a frame, each behind its descriptor byte. Every round takes bytes away, so
-- `length frame` rounds are enough.
unfoldable pub packets_from : ℕ → ℕ → Bytes → List Bytes
packets_from zero desc frame = []
packets_from (suc fuel) desc [] = []
packets_from (suc fuel) desc (b ∷ bs) =
    (desc ∷ take vp8_max_payload (b ∷ bs)) ∷ packets_from fuel 0x00 (drop vp8_max_payload (b ∷ bs))

-- `_VP8_PLACEHOLDER_PACKETS` of the keyframe in the assets.
unfoldable pub placeholder_packets : Bytes → List Bytes
unfolding packets_from
placeholder_packets frame = packets_from (length frame) 0x10 frame

-- The fields, with the answers to STUN requests and the packets handed to `sendto` for ffmpeg. The
-- transport is there or not, and so is the timer of the placeholder.
pub record VideoRtp : Type 0 where
  pub transport : Bool
  pub stun_requests : ℕ
  pub rtp_packets_forwarded : ℕ
  pub non_rtp_count : ℕ
  pub unique_sources : List Addr
  pub pt_stats : List (ℕ × PtStats)
  pub ssrc_stats : List (ℕ × SsrcStats)
  pub start_time : Option ℕ
  pub first_rtp_at : Option ℕ
  pub first_keyframe_at : Option ℕ
  pub keyframe_received : Bool
  pub placeholder_frames_sent : ℕ
  pub placeholder_handle : Bool
  pub out_seq : ℕ
  pub last_out_ts : ℕ
  pub ts_offset : Option ℤ
  pub last_real_at : ℕ
  pub answers : List (Addr × Bytes)
  pub fed : List Bytes

-- `__init__`
unfoldable pub init : VideoRtp
init = record {
  transport = false;
  stun_requests = 0;
  rtp_packets_forwarded = 0;
  non_rtp_count = 0;
  unique_sources = [];
  pt_stats = [];
  ssrc_stats = [];
  start_time = none;
  first_rtp_at = none;
  first_keyframe_at = none;
  keyframe_received = false;
  placeholder_frames_sent = 0;
  placeholder_handle = false;
  out_seq = 0;
  last_out_ts = 0;
  ts_offset = none;
  last_real_at = 0;
  answers = [];
  fed = [];
}

-- `connection_made`, `connection_lost` and `close`
unfoldable pub connection_made : VideoRtp → VideoRtp
connection_made s = record s { transport = true }

unfoldable pub connection_lost : VideoRtp → VideoRtp
connection_lost s = record s { transport = false }

unfoldable pub close : VideoRtp → VideoRtp
close s = record s { placeholder_handle = false; transport = false }

-- `_next_clock_ts`: the 90 kHz clock, past the last timestamp.
unfoldable pub next_clock_ts : ℕ → VideoRtp → ℕ
next_clock_ts now s = max (now * 9 / 100000) (s.last_out_ts + 1)

-- The packet of `_send_to_ffmpeg`.
unfoldable pub loopback_packet : Bytes → ℕ → ℤ → Bytes → Bytes
loopback_packet header01 seq ts rest =
    header01 ++ be16 (seq % 2 ^ 16) ++ be32 (low_bits 32 ts) ++ be32 video_loopback_ssrc ++ rest

-- `_send_to_ffmpeg`; an OSError of `sendto` is passed over.
unfoldable pub send_to_ffmpeg : Bytes → ℤ → Bytes → VideoRtp → VideoRtp
unfolding loopback_packet
send_to_ffmpeg header01 ts rest s = if not s.transport then s else record s {
  fed = s.fed ++ loopback_packet header01 s.out_seq ts rest ∷ [];
  out_seq = s.out_seq + 1;
  last_out_ts = max_with s.last_out_ts ts;
}

-- The packets of one placeholder frame: the marker goes on the last.
unfoldable pub send_placeholder : List Bytes → ℕ → VideoRtp → VideoRtp
unfolding send_to_ffmpeg
send_placeholder [] ts s = s
send_placeholder (p ∷ []) ts s = send_to_ffmpeg (0x80 ∷ (0x80 + vp8_payload_type) ∷ []) (pos ts) p s
send_placeholder (p ∷ q ∷ ps) ts s =
    send_placeholder (q ∷ ps) ts (send_to_ffmpeg (0x80 ∷ vp8_payload_type ∷ []) (pos ts) p s)

-- The real stream has stalled: the placeholder takes over.
unfoldable pub resume : ℕ → VideoRtp → VideoRtp
resume now s =
    if is_some s.ts_offset && leb video_placeholder_resume (now - s.last_real_at)
    then record s { ts_offset = none }
    else s

unfoldable pub show_placeholder : Bytes → ℕ → VideoRtp → VideoRtp
unfolding send_placeholder next_clock_ts
show_placeholder frame now s =
    if is_some s.ts_offset
    then s
    else (let s' = send_placeholder (placeholder_packets frame) (next_clock_ts now s) s in
        record s' { placeholder_frames_sent = s'.placeholder_frames_sent + 1 })

-- `_placeholder_tick` and `start_placeholder`
unfoldable pub placeholder_tick : Bytes → ℕ → VideoRtp → VideoRtp
unfolding resume show_placeholder
placeholder_tick frame now s =
    if not s.transport
    then record s { placeholder_handle = false }
    else record (show_placeholder frame now (resume now s)) { placeholder_handle = true }

unfoldable pub answer_stun : Option Bytes → Addr → VideoRtp → VideoRtp
answer_stun none addr s = record s { stun_requests = s.stun_requests + 1 }
answer_stun (some msg) addr s = record s {
  stun_requests = s.stun_requests + 1;
  answers = s.answers ++ (addr, msg) ∷ [];
}

-- The statistics and the milestones of an RTP packet.
unfoldable pub note_packet : ℕ → Bytes → VideoRtp → VideoRtp
unfolding count_pt count_ssrc
note_packet now datagram s =
    let pt = byte_at datagram 1 % 128 in
    let ssrc = read32 datagram 8 in
    let key = is_vp8_keyframe (drop 12 datagram) in
    record s {
      pt_stats = count_pt pt (length datagram - 12) ssrc 0 s.pt_stats;
      ssrc_stats = count_ssrc ssrc pt s.ssrc_stats;
      first_rtp_at = some (get_or s.first_rtp_at now);
      first_keyframe_at = if not s.keyframe_received && key then some now else s.first_keyframe_at;
      keyframe_received = s.keyframe_received || key;
    }

-- A packet of the live stream goes to ffmpeg with its own two first bytes and its payload.
unfoldable pub forward : ℕ → Bytes → ℤ → VideoRtp → VideoRtp
unfolding send_to_ffmpeg
forward now datagram offset s =
    let s' =
      send_to_ffmpeg (take 2 datagram) (read32 datagram 4 +ℤ offset) (drop 12 datagram)
        (record s { ts_offset = some offset; last_real_at = now }) in
    record s' { rtp_packets_forwarded = s'.rtp_packets_forwarded + 1 }

-- The gate: nothing before the first keyframe, and on the placeholder only a keyframe takes over.
unfoldable pub pass_gate : ℕ → Bytes → Option ℤ → VideoRtp → VideoRtp
unfolding forward next_clock_ts
pass_gate now datagram (some offset) s =
    if not s.keyframe_received then s else forward now datagram offset s
pass_gate now datagram none s =
    if not s.keyframe_received
    then s
    else if not (is_vp8_keyframe (drop 12 datagram))
    then s
    else forward now datagram (difference (next_clock_ts now s) (read32 datagram 4)) s

unfoldable pub take_rtp : ℕ → Bytes → VideoRtp → VideoRtp
unfolding note_packet pass_gate
take_rtp now datagram s = pass_gate now datagram s.ts_offset (note_packet now datagram s)

-- `datagram_received`
unfoldable pub datagram_received : (String → Option Bytes) → ℕ → Bytes → Addr → VideoRtp → VideoRtp
unfolding answer_stun take_rtp add
datagram_received inet_aton now datagram (host, port) s =
    let s' = record s {
      start_time = some (get_or s.start_time now);
      unique_sources = add addr_eq (host, port) s.unique_sources;
    } in
    if not s.transport
    then s
    else if is_stun_binding_request datagram
    then answer_stun (build_binding_response inet_aton datagram host port) (host, port) s'
    else if ltb (length datagram) rtp_header_size || not (byte_at datagram 0 / 64 % 4 == 2)
    then record s' { non_rtp_count = s'.non_rtp_count + 1 }
    else take_rtp now datagram s'
