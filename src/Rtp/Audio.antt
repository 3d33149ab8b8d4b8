-- ===== src/Rtp/Audio.antt =====
-- audio_bridge.py: the audio endpoint (`_RtpProtocol`). What only feeds a log line is left out.
pub mod Keepalive
use ha_intratone.Base.{
  ℕ, ◌+◌, ◌-◌, ◌*◌, ◌/◌, ◌%◌, ◌^◌, Bool, true, false, Option, none, some, List, [], ◌∷◌, ◌++◌,
  length, drop, ltb, leb, ◌==◌, ◌&&◌, ◌||◌, not, if◌then◌else◌, get_or, String,
}
use ha_intratone.Base.Bytes.{Bytes, byte_at, read16, read32}
use ha_intratone.Stun.{is_stun_binding_request, build_binding_response}
use ha_intratone.Rtp.Packet.{
  rtp_header_size, samples_per_packet, silence_payload, build_rtp_packet, bit,
}
use ha_intratone.Rtp.Stats.{Addr, addr_eq, add, find, put, PtStats, SsrcStats, count_pt, count_ssrc}

-- The fields, with what was sent and the payloads that went to `on_ulaw`. The transport is there or
-- not, and so is the keepalive task. Times are the monotonic clock's.
pub record AudioRtp : Type 0 where
  pub remote_addr : Addr
  pub ssrc : ℕ
  pub send_keepalives : Bool
  pub transport : Bool
  pub keepalive_task : Bool
  pub send_seq : ℕ
  pub send_ts : ℕ
  pub packets_received : ℕ
  pub packets_sent : ℕ
  pub bytes_received_total : ℕ
  pub stun_count : ℕ
  pub non_rtp_count : ℕ
  pub seq_gaps : ℕ
  pub start_time : Option ℕ
  pub pt_stats : List (ℕ × PtStats)
  pub ssrc_stats : List (ℕ × SsrcStats)
  pub unique_sources : List Addr
  pub last_seq_by_ssrc : List (ℕ × ℕ)
  pub sent : List (Addr × Bytes)
  pub delivered : List Bytes

-- `__init__`
unfoldable pub init : Addr → ℕ → Bool → AudioRtp
init remote ssrc keepalives = record {
  remote_addr = remote;
  ssrc = ssrc;
  send_keepalives = keepalives;
  transport = false;
  keepalive_task = false;
  send_seq = 0;
  send_ts = 0;
  packets_received = 0;
  packets_sent = 0;
  bytes_received_total = 0;
  stun_count = 0;
  non_rtp_count = 0;
  seq_gaps = 0;
  start_time = none;
  pt_stats = [];
  ssrc_stats = [];
  unique_sources = [];
  last_seq_by_ssrc = [];
  sent = [];
  delivered = [];
}

-- `connection_made`
unfoldable pub connection_made : AudioRtp → AudioRtp
connection_made s = record s {
  transport = true;
  keepalive_task = s.send_keepalives || s.keepalive_task;
}

-- `connection_lost` and `close`
unfoldable pub connection_lost : AudioRtp → AudioRtp
connection_lost s = record s { keepalive_task = false }

unfoldable pub close : AudioRtp → AudioRtp
close s = record s { keepalive_task = false; transport = false }

-- A message to an address, if there is one and the transport is there.
unfoldable pub reply : Option Bytes → Addr → AudioRtp → AudioRtp
reply none addr s = s
reply (some msg) addr s = if s.transport then record s { sent = s.sent ++ (addr, msg) ∷ [] } else s

unfoldable pub answer_stun : (String → Option Bytes) → Bytes → Addr → AudioRtp → AudioRtp
unfolding reply
answer_stun inet_aton datagram (host, port) s =
    reply (build_binding_response inet_aton datagram host port) (host, port)
      (record s { stun_count = s.stun_count + 1 })

-- Where the payload begins: `none` where the extension's header is cut off.
unfoldable pub header_len : Bytes → Option ℕ
header_len datagram =
    let base = rtp_header_size + byte_at datagram 0 % 16 * 4 in
    if bit 4 (byte_at datagram 0)
    then if ltb (length datagram) (base + 4)
      then none
      else some (base + (4 + read16 datagram (base + 2) * 4))
    else some base

-- `(a - b) & 0xFFFF` on 16-bit numbers
abbrev pub minus16 : ℕ → ℕ → ℕ
minus16 a b = (a + 2 ^ 16 - b) % 2 ^ 16

-- A small jump of the sequence number is a gap.
unfoldable pub is_gap : Option ℕ → ℕ → Bool
is_gap none seq = false
is_gap (some last) seq =
    let expected = (last + 1) % 2 ^ 16 in
    let delta = minus16 seq expected in not (seq == expected) && ltb 0 delta && ltb delta 1000

-- What a packet with a payload does.
unfoldable pub take_packet : Bytes → Bytes → AudioRtp → AudioRtp
unfolding count_pt count_ssrc find put is_gap
take_packet datagram payload s =
    let pt = byte_at datagram 1 % 128 in
    let seq = read16 datagram 2 in
    let ssrc = read32 datagram 8 in
    record s {
      packets_received = s.packets_received + 1;
      pt_stats = count_pt pt (length payload) ssrc (s.packets_received + 1) s.pt_stats;
      ssrc_stats = count_ssrc ssrc pt s.ssrc_stats;
      seq_gaps = s.seq_gaps + (if is_gap (find ssrc s.last_seq_by_ssrc) seq then 1 else 0);
      last_seq_by_ssrc = put ssrc seq s.last_seq_by_ssrc;
      delivered = s.delivered ++ payload ∷ [];
    }

unfoldable pub take_payload : Bytes → Option ℕ → AudioRtp → AudioRtp
unfolding take_packet
take_payload datagram none s = s
take_payload datagram (some n) s =
    if leb (length datagram) n then s else take_packet datagram (drop n datagram) s

-- `datagram_received`
unfoldable pub datagram_received : (String → Option Bytes) → ℕ → Bytes → Addr → AudioRtp → AudioRtp
unfolding answer_stun header_len take_payload add
datagram_received inet_aton now datagram addr s =
    let s' = record s {
      start_time = some (get_or s.start_time now);
      bytes_received_total = s.bytes_received_total + length datagram;
      unique_sources = add addr_eq addr s.unique_sources;
    } in
    if is_stun_binding_request datagram
    then answer_stun inet_aton datagram addr s'
    else if ltb (length datagram) rtp_header_size
    then record s' { non_rtp_count = s'.non_rtp_count + 1 }
    else if not (byte_at datagram 0 / 64 % 4 == 2)
    then record s' { non_rtp_count = s'.non_rtp_count + 1 }
    else take_payload datagram (header_len datagram) s'

-- The packet of one round of the silence loop.
abbrev pub silence_packet : AudioRtp → Bytes
silence_packet s = build_rtp_packet s.send_seq s.send_ts s.ssrc silence_payload

-- One round of `_silence_loop`; `sends` tells whether `sendto` went without an OSError.
unfoldable pub silence_tick : Bool → AudioRtp → AudioRtp
silence_tick sends s = if not s.transport then s else record s {
  sent = s.sent ++ (if sends then (s.remote_addr, silence_packet s) ∷ [] else []);
  packets_sent = s.packets_sent + (if sends then 1 else 0);
  send_seq = (s.send_seq + 1) % 2 ^ 16;
  send_ts = (s.send_ts + samples_per_packet) % 2 ^ 32;
}
