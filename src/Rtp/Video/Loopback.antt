-- ===== src/Rtp/Video/Loopback.antt =====
-- audio_bridge.py: the stream that ffmpeg is given, placeholder and live packets together.
use ha_intratone.Base.{
  ℕ, suc, get_or, ◌+◌, ◌-◌, ◌/◌, ◌%◌, ◌^◌, ◌≤◌, ◌||◌, Option, none, some, List, [], ◌∷◌, ◌++◌,
  length, drop, ltb, if-cases, subst, leb, ◌≡◌, refl, arith, ap, sym, ◌∙◌, String, is_some, not,
  ◌==◌, length-append, ◌&&◌,
}
use ha_intratone.Base.Bytes.{Bytes, read16, read32, byte_at}
use ha_intratone.Base.Integers.{ℤ, pos}
use ha_intratone.Stun.{is_stun_binding_request, build_binding_response}
use ha_intratone.Rtp.Packet.{is_vp8_keyframe}
use ha_intratone.Rtp.Stats.{Addr, add, addr_eq}
use ha_intratone.Rtp.Video.{
  VideoRtp, video_loopback_ssrc, video_placeholder_resume, init, connection_made, connection_lost,
  close, loopback_packet, send_to_ffmpeg, send_placeholder, placeholder_packets, next_clock_ts,
  show_placeholder, resume, placeholder_tick, answer_stun, note_packet, forward, pass_gate,
  take_rtp, datagram_received,
}

-- The sequence number and the source of a packet.
abbrev pub Stamped : ℕ → Bytes → Type 0
Stamped i p = (read16 p 2 ≡ i % 2 ^ 16) × (read32 p 8 ≡ video_loopback_ssrc)

-- The packets are numbered one after the other from `i` on, and have one source.
abbrev pub Numbered : ℕ → List Bytes → Type 0
Numbered i [] = Unit {0}
Numbered i (p ∷ ps) = Stamped i p × Numbered (suc i) ps

Numbered-append :
    (i : ℕ) (ps : List Bytes) (p : Bytes)
    → Numbered i ps
    → Stamped (i + length ps) p
    → Numbered i (ps ++ p ∷ [])
Numbered-append i [] p h (a, b) = ((omega (arith, a), b), tt)
Numbered-append i (q ∷ ps) p (first, rest) (a, b) =
    (first, Numbered-append (suc i) ps p rest (omega (arith, a), b))

loopback_packet-Stamped :
    (a b seq : ℕ) (ts : ℤ) (rest : Bytes) → Stamped seq (loopback_packet (a ∷ b ∷ []) seq ts rest)
unfolding loopback_packet
loopback_packet-Stamped a b seq ts rest = (omega arith, refl)

record Inv (s : VideoRtp) : Type 0 where
  numbers : Numbered 0 s.fed
  next_one : length s.fed ≡ s.out_seq

module _ {s : VideoRtp} (h : Inv s) where
  -- What leaves the packets alone.
  kept : (s' : VideoRtp) → s'.fed ≡ s.fed → s'.out_seq ≡ s.out_seq → Inv s'
  kept s' e f = record { numbers = rw e h.numbers; next_one = ap length e ∙ h.next_one ∙ sym f }

  send_to_ffmpeg-Inv :
      (a b : ℕ) (ts : ℤ) (rest : Bytes) → Inv (send_to_ffmpeg (a ∷ b ∷ []) ts rest s)
  unfolding send_to_ffmpeg
  send_to_ffmpeg-Inv a b ts rest =
      let packet = loopback_packet (a ∷ b ∷ []) s.out_seq ts rest in
      let stamped : Stamped (0 + length s.fed) packet =
        subst (λ n. Stamped n packet) (omega (arith, h.next_one))
          (loopback_packet-Stamped a b s.out_seq ts rest) in
      if-cases Inv (not s.transport) (λ down. h)
        (λ up. record {
          numbers = Numbered-append 0 s.fed packet h.numbers stamped;
          next_one = omega (arith, h.next_one, length-append s.fed (packet ∷ []));
        })

send_placeholder-Inv :
    (ps : List Bytes) (ts : ℕ) {s : VideoRtp} → Inv s → Inv (send_placeholder ps ts s)
unfolding send_placeholder
send_placeholder-Inv [] ts h = h
send_placeholder-Inv (p ∷ []) ts h = send_to_ffmpeg-Inv h _ _ (pos ts) p
send_placeholder-Inv (p ∷ q ∷ ps) ts h =
    send_placeholder-Inv (q ∷ ps) ts (send_to_ffmpeg-Inv h _ _ (pos ts) p)

resume-Inv : (now : ℕ) {s : VideoRtp} → Inv s → Inv (resume now s)
unfolding resume
resume-Inv now {s} h =
    if-cases Inv (is_some s.ts_offset && leb video_placeholder_resume (now - s.last_real_at))
      (λ stalled. kept h (record s { ts_offset = none }) refl refl) (λ live. h)

show_placeholder-Inv :
    (frame : Bytes) (now : ℕ) {s : VideoRtp} → Inv s → Inv (show_placeholder frame now s)
unfolding show_placeholder
show_placeholder-Inv frame now {s} h =
    if-cases Inv (is_some s.ts_offset) (λ live. h)
      (λ idle.
        kept (send_placeholder-Inv (placeholder_packets frame) (next_clock_ts now s) h) _ refl refl)

placeholder_tick-Inv :
    (frame : Bytes) (now : ℕ) {s : VideoRtp} → Inv s → Inv (placeholder_tick frame now s)
unfolding placeholder_tick
placeholder_tick-Inv frame now {s} h =
    if-cases Inv (not s.transport) (λ down. kept h _ refl refl)
      (λ up. kept (show_placeholder-Inv frame now (resume-Inv now h)) _ refl refl)

answer_stun-Inv :
    (m : Option Bytes) (addr : Addr) {s : VideoRtp} → Inv s → Inv (answer_stun m addr s)
unfolding answer_stun
answer_stun-Inv none addr h = kept h _ refl refl
answer_stun-Inv (some msg) addr h = kept h _ refl refl

forward-Inv :
    (now : ℕ) (a b : ℕ) (rest : Bytes) (offset : ℤ) {s : VideoRtp}
    → Inv s
    → Inv (forward now (a ∷ b ∷ rest) offset s)
unfolding forward
forward-Inv now a b rest offset {s} h =
    kept
      (send_to_ffmpeg-Inv
        (kept h (record s { ts_offset = some offset; last_real_at = now }) refl refl) a b _ _)
      _ refl refl

pass_gate-Inv :
    (now : ℕ) (a b : ℕ) (rest : Bytes) (o : Option ℤ) {s : VideoRtp}
    → Inv s
    → Inv (pass_gate now (a ∷ b ∷ rest) o s)
unfolding pass_gate
pass_gate-Inv now a b rest (some offset) {s} h =
    if-cases Inv (not s.keyframe_received) (λ early. h) (λ on. forward-Inv now a b rest offset h)
pass_gate-Inv now a b rest none {s} h =
    if-cases Inv (not s.keyframe_received) (λ early. h)
      (λ on.
        if-cases Inv (not (is_vp8_keyframe (drop 10 rest))) (λ other. h)
          (λ key. forward-Inv now a b rest _ h))

take_rtp-Inv :
    (now : ℕ) (datagram : Bytes) {s : VideoRtp}
    → 12 ≤ length datagram
    → Inv s
    → Inv (take_rtp now datagram s)
unfolding take_rtp note_packet
take_rtp-Inv now [] long h = elim long [ ]
take_rtp-Inv now (a ∷ []) long h = absurd (omega arith)
take_rtp-Inv now (a ∷ b ∷ rest) {s} long h =
    pass_gate-Inv now a b rest s.ts_offset (kept h (note_packet now (a ∷ b ∷ rest) s) refl refl)

-- What every datagram changes.
abbrev noted : ℕ → Addr → VideoRtp → VideoRtp
noted now addr s = record s {
  start_time = some (get_or s.start_time now);
  unique_sources = add addr_eq addr s.unique_sources;
}

datagram_received-Inv :
    (inet_aton : String → Option Bytes) (now : ℕ) (d : Bytes) (addr : Addr) {s : VideoRtp}
    → Inv s
    → Inv (datagram_received inet_aton now d addr s)
unfolding datagram_received
datagram_received-Inv inet_aton now d (host, port) {s} h =
    if-cases Inv (not s.transport) (λ down. h)
      (λ up.
        if-cases Inv (is_stun_binding_request d)
          (λ stun.
            answer_stun-Inv (build_binding_response inet_aton d host port) (host, port)
              (kept h _ refl refl))
          (λ other.
            if-cases Inv (ltb (length d) 12 || not (byte_at d 0 / 64 % 4 == 2))
              (λ stray. kept h _ refl refl)
              (λ rtp.
                take_rtp-Inv now d (ground arith) (kept h (noted now (host, port) s) refl refl))))

-- What reaches the endpoint: the transport's callbacks, the timer, `close` and datagrams.
pub data Input : Type 0 where
  made lost closed : Input
  tick : ℕ → Input
  received : ℕ → Bytes → Addr → Input

-- The placeholder's frame stands in the assets.
module _ (inet_aton : String → Option Bytes) (frame : Bytes) where
  unfoldable pub act : Input → VideoRtp → VideoRtp
  act made s = connection_made s
  act lost s = connection_lost s
  act closed s = close s
  act (tick now) s = placeholder_tick frame now s
  act (received now d addr) s = datagram_received inet_aton now d addr s

  unfoldable pub run : List Input → VideoRtp → VideoRtp
  unfolding act
  run [] s = s
  run (i ∷ is) s = run is (act i s)

  act-Inv : (i : Input) {s : VideoRtp} → Inv s → Inv (act i s)
  unfolding act connection_made connection_lost close
  act-Inv made h = kept h _ refl refl
  act-Inv lost h = kept h _ refl refl
  act-Inv closed h = kept h _ refl refl
  act-Inv (tick now) h = placeholder_tick-Inv frame now h
  act-Inv (received now d addr) h = datagram_received-Inv inet_aton now d addr h

  run-Inv : (is : List Input) {s : VideoRtp} → Inv s → Inv (run is s)
  unfolding run
  run-Inv [] h = h
  run-Inv (i ∷ is) h = run-Inv is (act-Inv i h)

  -- Whatever arrives in whatever order, the packets that ffmpeg is given form one stream: the
  -- sequence numbers count from 0 without a gap (modulo 2 ^ 16), and all have the loopback's source,
  -- placeholder and live packets alike.
  pub run-Numbered : (is : List Input) → Numbered 0 (run is init).fed
  unfolding init
  run-Numbered is =
      let start : Inv init = record { numbers = tt; next_one = refl } in (run-Inv is start).numbers
