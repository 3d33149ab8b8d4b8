-- ===== src/Rtp/Rtcp.antt =====
-- audio_bridge.py: the RTCP endpoint (`_VideoRtcpProtocol`) and its keyframe requests.
use ha_intratone.Base.{
  ℕ, ◌+◌, ◌*◌, ◌%◌, ◌^◌, Bool, true, false, List, [], ◌∷◌, ◌++◌, length, ◌≡◌, refl, arith, not,
  if-cases, if◌then◌else◌, length-append,
}
use ha_intratone.Base.Bytes.{Bytes, read16, read32}
use ha_intratone.Rtp.Packet.{build_pli_packet}
use ha_intratone.Rtp.Stats.{Addr}

-- The fields, with the packets that went out and where to; the transport is there or not.
pub record RtcpEndpoint : Type 0 where
  pub remote_addr : Addr
  pub local_ssrc : ℕ
  pub transport : Bool
  pub pli_sent : ℕ
  pub rtcp_received : ℕ
  pub sent : List (Addr × Bytes)

-- `__init__`
unfoldable pub new_endpoint : Addr → ℕ → RtcpEndpoint
new_endpoint remote ssrc = record {
  remote_addr = remote;
  local_ssrc = ssrc;
  transport = false;
  pli_sent = 0;
  rtcp_received = 0;
  sent = [];
}

-- `send_pli`; `sends` tells whether `sendto` went without an OSError.
unfoldable pub send_pli : Bool → ℕ → RtcpEndpoint → RtcpEndpoint
send_pli sends media_ssrc s = if not s.transport then s else if not sends then s else record s {
  sent = s.sent ++ (s.remote_addr, build_pli_packet s.local_ssrc media_ssrc) ∷ [];
  pli_sent = s.pli_sent + 1;
}

-- What reaches the endpoint. `lost` and `closed` are `connection_lost` and `close`, `received` is
-- `datagram_received`, which only counts.
pub data RtcpInput : Type 0 where
  made lost closed received : RtcpInput
  request : Bool → ℕ → RtcpInput

unfoldable pub rtcp_act : RtcpInput → RtcpEndpoint → RtcpEndpoint
unfolding send_pli
rtcp_act made s = record s { transport = true }
rtcp_act lost s = record s { transport = false }
rtcp_act closed s = record s { transport = false }
rtcp_act received s = record s { rtcp_received = s.rtcp_received + 1 }
rtcp_act (request sends media_ssrc) s = send_pli sends media_ssrc s

unfoldable pub rtcp_run : List RtcpInput → RtcpEndpoint → RtcpEndpoint
unfolding rtcp_act
rtcp_run [] s = s
rtcp_run (i ∷ is) s = rtcp_run is (rtcp_act i s)

-- A feedback packet of RFC 4585: version 2 and format 1, type 206, its length in words less one, and
-- the sender's source.
abbrev pub IsPli : Addr → ℕ → Addr × Bytes → Type 0
IsPli remote ssrc (to, p) =
    (to ≡ remote)
    × (read16 p 0 ≡ (2 * 64 + 1) * 256 + 206)
    × ((read16 p 2 + 1) * 4 ≡ length p)
    × (read32 p 4 ≡ ssrc % 2 ^ 32)

abbrev pub AllPli : Addr → ℕ → List (Addr × Bytes) → Type 0
AllPli remote ssrc [] = Unit {0}
AllPli remote ssrc (p ∷ ps) = IsPli remote ssrc p × AllPli remote ssrc ps

AllPli-append :
    (remote : Addr) (ssrc : ℕ) (ps : List (Addr × Bytes)) (p : Addr × Bytes)
    → AllPli remote ssrc ps
    → IsPli remote ssrc p
    → AllPli remote ssrc (ps ++ p ∷ [])
AllPli-append remote ssrc [] p h one = (one, tt)
AllPli-append remote ssrc (q ∷ ps) p (first, rest) one =
    (first, AllPli-append remote ssrc ps p rest one)

build_pli_packet-IsPli :
    (remote : Addr) (ssrc media : ℕ) → IsPli remote ssrc (remote, build_pli_packet ssrc media)
unfolding build_pli_packet
build_pli_packet-IsPli remote ssrc media = (refl, refl, refl, omega arith)

record Sound (remote : Addr) (ssrc : ℕ) (s : RtcpEndpoint) : Type 0 where
  peer : s.remote_addr ≡ remote
  source : s.local_ssrc ≡ ssrc
  counted : s.pli_sent ≡ length s.sent
  packets : AllPli remote ssrc s.sent

module _ (remote : Addr) (ssrc : ℕ) where
  rtcp_act-Sound :
      (i : RtcpInput) (s : RtcpEndpoint) → Sound remote ssrc s → Sound remote ssrc (rtcp_act i s)
  unfolding rtcp_act send_pli
  rtcp_act-Sound made s h = record {
    peer = h.peer;
    source = h.source;
    counted = h.counted;
    packets = h.packets;
  }
  rtcp_act-Sound lost s h = record {
    peer = h.peer;
    source = h.source;
    counted = h.counted;
    packets = h.packets;
  }
  rtcp_act-Sound closed s h = record {
    peer = h.peer;
    source = h.source;
    counted = h.counted;
    packets = h.packets;
  }
  rtcp_act-Sound received s h = record {
    peer = h.peer;
    source = h.source;
    counted = h.counted;
    packets = h.packets;
  }
  rtcp_act-Sound (request sends media) s h =
      if-cases (Sound remote ssrc) (not s.transport) (λ down. h)
        (λ up.
          if-cases (Sound remote ssrc) (not sends) (λ failed. h)
            (λ went. record {
              peer = h.peer;
              source = h.source;
              counted = omega (
                arith,
                h.counted,
                length-append s.sent ((s.remote_addr, build_pli_packet s.local_ssrc media) ∷ []),
              );
              packets =
                  AllPli-append remote ssrc s.sent _ h.packets
                    (rw (h.peer, h.source) (build_pli_packet-IsPli remote ssrc media));
            }))

  rtcp_run-Sound :
      (is : List RtcpInput) (s : RtcpEndpoint)
      → Sound remote ssrc s
      → Sound remote ssrc (rtcp_run is s)
  unfolding rtcp_run
  rtcp_run-Sound [] s h = h
  rtcp_run-Sound (i ∷ is) s h = rtcp_run-Sound is (rtcp_act i s) (rtcp_act-Sound i s h)

-- Whatever reaches the endpoint, every packet that it has sent is a well-formed PLI packet with the
-- endpoint's own source, sent to its peer, and `pli_sent` is their number.
pub rtcp_run-AllPli :
    (remote : Addr) (ssrc : ℕ) (is : List RtcpInput)
    → AllPli remote ssrc (rtcp_run is (new_endpoint remote ssrc)).sent
      × ((rtcp_run is (new_endpoint remote ssrc)).pli_sent
          ≡ length (rtcp_run is (new_endpoint remote ssrc)).sent)
unfolding new_endpoint
rtcp_run-AllPli remote ssrc is =
    let start : Sound remote ssrc (new_endpoint remote ssrc) = record {
      peer = refl;
      source = refl;
      counted = refl;
      packets = tt;
    } in
    let h = rtcp_run-Sound remote ssrc is (new_endpoint remote ssrc) start in (h.packets, h.counted)
