-- ===== src/Rtp/Tests.antt =====
-- Runs of the media endpoints.
use ha_intratone.Base.{
  true, false, Option, none, some, List, [], ◌∷◌, ◌++◌, ◌≡◌, ◌%◌, ◌^◌, ◌==◌, refl, arith, inl,
  String, length,
}
use ha_intratone.Base.Bytes.{Bytes}
use ha_intratone.Rtp.Packet.{build_rtp_packet, is_vp8_keyframe}
use ha_intratone.Rtp.Stats.{Addr, find}
use ha_intratone.Rtp.Rtcp
use ha_intratone.Rtp.Rtcp.{RtcpInput, request, new_endpoint, rtcp_run, AllPli, rtcp_run-AllPli}
use ha_intratone.Rtp.Pli.{Pli, waiting, asks, pli_loop, Asked, pli_loop-Asked}
use ha_intratone.Rtp.Keyframe.{Extension, long_id, descriptor, is_vp8_keyframe-descriptor}
use ha_intratone.Rtp.Audio.{AudioRtp, datagram_received}
use ha_intratone.Rtp.Audio.Keepalive.{
  Heard, HeardAll, hear, ticks, datagram_received-build_rtp_packet, silence_loop-HeardAll,
}
use ha_intratone.Stun.{is_stun_binding_request}
use ha_intratone.Rtp.Video
use ha_intratone.Rtp.Video.{init, placeholder_packets, placeholder_tick}
use ha_intratone.Rtp.Video.Placeholder.{joined, AllFit, placeholder_packets_lem}
use ha_intratone.Rtp.Video.Loopback.{Input, made, tick, received, run, Numbered, run-Numbered}

abbrev inet_aton : String → Option Bytes
inet_aton _ = some (192 ∷ 0 ∷ 2 ∷ 1 ∷ [])

abbrev gateway : Addr
gateway = ("192.0.2.1", 40000)

-- An audio endpoint whose next sequence number is the last of 16 bits.
abbrev speaker : AudioRtp
speaker = record {
  remote_addr = gateway;
  ssrc = 0x12345678;
  send_keepalives = true;
  transport = true;
  keepalive_task = true;
  send_seq = 65535;
  send_ts = 4294967200;
  packets_received = 0;
  packets_sent = 0;
  bytes_received_total = 0;
  stun_count = 0;
  non_rtp_count = 0;
  seq_gaps = 0;
  start_time = none;
  pt_stats = [];
  ssrc_stats = [];
  unique_sources = [];
  last_seq_by_ssrc = [];
  sent = [];
  delivered = [];
}

silence_loop-HeardAll_example :
    HeardAll inet_aton 5 gateway 3 speaker
      (hear inet_aton 5 gateway (ticks inet_aton 5 gateway 3 speaker).sent speaker)
unfolding find
silence_loop-HeardAll_example =
    silence_loop-HeardAll inet_aton 5 gateway 3 speaker speaker refl refl (inl refl)

datagram_received-build_rtp_packet_example :
    Heard inet_aton 5 gateway
      (7 ∷ 8 ∷ [])
      (65536 % 2 ^ 16)
      (9 % 2 ^ 32)
      speaker
      (datagram_received inet_aton 5 (build_rtp_packet 65536 1 9 (7 ∷ 8 ∷ [])) gateway speaker)
unfolding find
datagram_received-build_rtp_packet_example =
    datagram_received-build_rtp_packet inet_aton 5 gateway 65536 1 9 7 (8 ∷ []) speaker

abbrev extension : Extension
extension = record {
  picture_id = long_id 5 6;
  tl0_index = some 9;
  has_tid = true;
  has_key_index = false;
  tid_key_index = 3;
  spare = 0;
}

is_vp8_keyframe-descriptor_example :
    is_vp8_keyframe (descriptor 0 (some extension) ++ 16 ∷ 2 ∷ []) ≡ (16 % 2 == 0)
unfolding descriptor
is_vp8_keyframe-descriptor_example =
    is_vp8_keyframe-descriptor 0 (some extension) 16 (2 ∷ []) (omega arith)

placeholder_packets_lem_example :
    (joined (placeholder_packets (1 ∷ 2 ∷ 3 ∷ [])) ≡ 1 ∷ 2 ∷ 3 ∷ [])
    × AllFit (placeholder_packets (1 ∷ 2 ∷ 3 ∷ []))
placeholder_packets_lem_example = placeholder_packets_lem (1 ∷ 2 ∷ 3 ∷ [])

-- A VP8 keyframe, and a packet that continues it.
abbrev keyframe : Bytes
keyframe = build_rtp_packet 7 90000 9 (0x10 ∷ 0 ∷ 1 ∷ 2 ∷ [])

abbrev continued : Bytes
continued = build_rtp_packet 9 90000 9 (0 ∷ 1 ∷ 1 ∷ 2 ∷ [])

abbrev inputs : List Input
inputs =
    made
    ∷ tick 1000
    ∷ received 2000000 continued gateway
    ∷ received 3000000 keyframe gateway
    ∷ received 4000000 continued gateway
    ∷ tick 5000000000
    ∷ received 5000000001 continued gateway
    ∷ []

run-Numbered_example : Numbered 0 (run inet_aton (1 ∷ 2 ∷ []) inputs init).fed
run-Numbered_example = run-Numbered inet_aton (1 ∷ 2 ∷ []) inputs

-- Placeholder, keyframe and its continuation, and the placeholder again: four packets.
four_packets : length (run inet_aton (1 ∷ 2 ∷ []) inputs init).fed ≡ 4
unfolding run init build_rtp_packet Video.datagram_received placeholder_tick Video.connection_made
    placeholder_packets is_stun_binding_request is_vp8_keyframe
four_packets = refl

abbrev feedback : List RtcpInput
feedback =
    request true 9
    ∷ Rtcp.made
    ∷ request true 9
    ∷ request false 9
    ∷ Rtcp.received
    ∷ request true 9
    ∷ []

rtcp_run-AllPli_example :
    AllPli gateway 7 (rtcp_run feedback (new_endpoint gateway 7)).sent
    × ((rtcp_run feedback (new_endpoint gateway 7)).pli_sent
        ≡ length (rtcp_run feedback (new_endpoint gateway 7)).sent)
rtcp_run-AllPli_example = rtcp_run-AllPli gateway 7 feedback

abbrev asking : Pli
asking = record { endpoint = new_endpoint gateway 7; gate = false; failures = 0 }

pli_loop-Asked_example :
    Asked
      (λ i. waiting true)
      false
      1
      asking
      (pli_loop (λ i. waiting true) false (asks true true ∷ []) 9 asking)
pli_loop-Asked_example = pli_loop-Asked (λ i. waiting true) false (asks true true ∷ []) 9 asking
