-- ===== src/Rtp/Audio/Keepalive.antt =====
-- audio_bridge.py: what the receiving side makes of the packets of the silence loop.
use ha_intratone.Base.{
  ℕ, zero, suc, ◌+◌, ◌%◌, ◌^◌, true, false, Option, none, some, List, [], ◌∷◌, ◌++◌, length, ◌≡◌,
  ◌⊎◌, inl, inr, refl, arith, sym, ap, ◌∙◌, subst, replicate, append-nil, append_assoc, String, ltb,
  le→ltb, lt→leb, Bool-cases, get_or, ◌≤◌, ◌<◌, ◌==◌, if◌then◌else◌,
}
use ha_intratone.Base.Bytes.{Bytes, read16, read32}
use ha_intratone.Stun.{is_stun_binding_request}
use ha_intratone.Rtp.Packet.{silence_payload, samples_per_packet, build_rtp_packet}
use ha_intratone.Rtp.Stats.{Addr, add, addr_eq, find, find-put}
use ha_intratone.Rtp.Audio.{
  AudioRtp, datagram_received, take_payload, take_packet, header_len, is_gap, minus16, silence_tick,
  silence_packet,
}

module _ (inet_aton : String → Option Bytes) (now : ℕ) (addr : Addr) where
  -- The sequence number is the one awaited after the last packet of its source, if there was one.
  abbrev pub InStep : ℕ → ℕ → AudioRtp → Type 0
  InStep seq ssrc s =
      (find ssrc s.last_seq_by_ssrc ≡ none)
      ⊎ (last : ℕ) × (find ssrc s.last_seq_by_ssrc ≡ some last) × ((last + 1) % 2 ^ 16 ≡ seq)

  -- What the packet says of the numbers of its source: it is the awaited one or the first, or it is
  -- `n` numbers ahead, which is one more gap if they are fewer than 1000.
  abbrev pub Numbers : ℕ → ℕ → AudioRtp → ℕ → Type 0
  Numbers seq ssrc s gaps =
      (InStep seq ssrc s × (gaps ≡ s.seq_gaps))
      ⊎ (last n : ℕ) × (find ssrc s.last_seq_by_ssrc ≡ some last)
        × (1 ≤ n)
        × (n < 2 ^ 16)
        × ((last + 1 + n) % 2 ^ 16 ≡ seq)
        × (((n < 1000) × (gaps ≡ s.seq_gaps + 1)) ⊎ ((1000 ≤ n) × (gaps ≡ s.seq_gaps)))

  -- What one good packet leaves behind.
  pub record Heard (payload : Bytes) (seq ssrc : ℕ) (s s' : AudioRtp) : Type 0 where
    pub payload_out : s'.delivered ≡ s.delivered ++ payload ∷ []
    pub counted : s'.packets_received ≡ s.packets_received + 1
    pub numbers : Numbers seq ssrc s s'.seq_gaps
    pub all_rtp : s'.non_rtp_count ≡ s.non_rtp_count
    pub last_seq : find ssrc s'.last_seq_by_ssrc ≡ some seq

  module _ (seq ts ssrc b : ℕ) (bs : Bytes) where
    abbrev pub packet : Bytes
    packet = build_rtp_packet seq ts ssrc (b ∷ bs)

    packet_not_stun : is_stun_binding_request packet ≡ false
    unfolding is_stun_binding_request build_rtp_packet
    packet_not_stun = elim (Bool-cases (ltb (length packet) 20)) [ inl e ↦ simp e | inr e ↦ simp e ]

    abbrev noted : AudioRtp → AudioRtp
    noted s = record s {
      start_time = some (get_or s.start_time now);
      bytes_received_total = s.bytes_received_total + length packet;
      unique_sources = add addr_eq addr s.unique_sources;
    }

    packet_taken :
        (s : AudioRtp)
        → datagram_received inet_aton now packet addr s ≡ take_packet packet (b ∷ bs) (noted s)
    unfolding datagram_received build_rtp_packet header_len take_payload
    packet_taken s = rw (
      packet_not_stun,
      le→ltb (length packet) 12 (omega arith),
      lt→leb (length packet) 12 (omega arith),
    )

    packet_seq : read16 packet 2 ≡ seq % 2 ^ 16
    unfolding build_rtp_packet
    packet_seq = omega arith

    packet_ssrc : read32 packet 8 ≡ ssrc % 2 ^ 32
    unfolding build_rtp_packet
    packet_ssrc = omega arith

    is_gap-Numbers :
        (s : AudioRtp) (o : Option ℕ)
        → find (ssrc % 2 ^ 32) s.last_seq_by_ssrc ≡ o
        → Numbers
            (seq % 2 ^ 16)
            (ssrc % 2 ^ 32)
            s
            (s.seq_gaps + (if is_gap o (seq % 2 ^ 16) then 1 else 0))
    unfolding is_gap
    is_gap-Numbers s none e = inl (inl e, omega arith)
    is_gap-Numbers s (some last) e = elim (Bool-cases (seq % 2 ^ 16 == (last + 1) % 2 ^ 16)) [
      | inl next ↦ inl (inr (last, e, ground arith), simp next (omega arith))
      | inr skips ↦ inr (
        last,
        minus16 (seq % 2 ^ 16) ((last + 1) % 2 ^ 16),
        e,
        ground arith,
        omega arith,
        omega arith,
        elim (Bool-cases (ltb (minus16 (seq % 2 ^ 16) ((last + 1) % 2 ^ 16)) 1000)) [
          | inl near ↦ inl (ground arith, ground arith)
          | inr far ↦ inr (ground arith, ground arith)
        ],
      )
    ]

    -- Whatever was received before, a packet of `_build_rtp_packet` with a payload is taken for one:
    -- its payload is delivered, it is counted, and its number is remembered for its source. No gap
    -- is seen if it is the first of its source or carries the awaited number; if it is ahead of
    -- that, one gap is counted for fewer than 1000 missing numbers, and none for more.
    pub datagram_received-build_rtp_packet :
        (s : AudioRtp)
        → Heard
            (b ∷ bs)
            (seq % 2 ^ 16)
            (ssrc % 2 ^ 32)
            s
            (datagram_received inet_aton now packet addr s)
    unfolding take_packet
    datagram_received-build_rtp_packet s = rw (packet_taken s) (record {
      payload_out = refl;
      counted = refl;
      numbers =
          rw (packet_seq, packet_ssrc)
            (is_gap-Numbers s (find (ssrc % 2 ^ 32) s.last_seq_by_ssrc) refl);
      all_rtp = refl;
      last_seq =
          rw (packet_seq, packet_ssrc) (find-put (ssrc % 2 ^ 32) (seq % 2 ^ 16) s.last_seq_by_ssrc);
    })

  -- No gap is seen at the awaited number.
  Numbers-InStep :
      (q i gaps : ℕ) (s : AudioRtp) → InStep q i s → Numbers q i s gaps → gaps ≡ s.seq_gaps
  Numbers-InStep q i gaps s h (inl (again, same)) = same
  Numbers-InStep q i gaps s (inl fresh) (inr (last, n, e, low, high, ahead, g)) = cc
  Numbers-InStep q i gaps s (inr (last', e', next)) (inr (last, n, e, low, high, ahead, g)) =
      let same : last ≡ last' = cc (e, e') in absurd (omega (arith, same, next, ahead, low, high))

  -- The payloads and counts after `n` more packets.
  pub record HeardAll (n : ℕ) (s s' : AudioRtp) : Type 0 where
    pub payloads : s'.delivered ≡ s.delivered ++ replicate n silence_payload
    pub counts : s'.packets_received ≡ s.packets_received + n
    pub gaps : s'.seq_gaps ≡ s.seq_gaps
    pub strays : s'.non_rtp_count ≡ s.non_rtp_count

  -- The datagrams are received one after the other.
  unfoldable pub hear : List (Addr × Bytes) → AudioRtp → AudioRtp
  hear [] s = s
  hear ((to, p) ∷ ps) s = hear ps (datagram_received inet_aton now p addr s)

  -- `n` rounds of the loop in which every `sendto` succeeds, and the datagrams that they send.
  unfoldable pub ticks : ℕ → AudioRtp → AudioRtp
  ticks zero a = a
  ticks (suc n) a = ticks n (silence_tick true a)

  stream : ℕ → AudioRtp → List (Addr × Bytes)
  stream zero a = []
  stream (suc n) a = (a.remote_addr, silence_packet a) ∷ stream n (silence_tick true a)

  abbrev ticked : AudioRtp → AudioRtp
  ticked a = record a {
    sent = a.sent ++ (a.remote_addr, silence_packet a) ∷ [];
    packets_sent = a.packets_sent + 1;
    send_seq = (a.send_seq + 1) % 2 ^ 16;
    send_ts = (a.send_ts + samples_per_packet) % 2 ^ 32;
  }

  silence_tick-ticked : (a : AudioRtp) → a.transport ≡ true → silence_tick true a ≡ ticked a
  unfolding silence_tick
  silence_tick-ticked a up = ground (arith, up)

  sent-ticks : (n : ℕ) (a : AudioRtp) → a.transport ≡ true → (ticks n a).sent ≡ a.sent ++ stream n a
  unfolding ticks stream
  sent-ticks zero a up = sym (append-nil a.sent)
  sent-ticks (suc n) a up =
      ap (λ b. (ticks n b).sent) (silence_tick-ticked a up)
      ∙ sent-ticks n (ticked a) up
      ∙ append_assoc a.sent ((a.remote_addr, silence_packet a) ∷ []) (stream n (ticked a))
      ∙ ap (λ b. a.sent ++ (a.remote_addr, silence_packet a) ∷ stream n b)
          (sym (silence_tick-ticked a up))

  after_one :
      (a s : AudioRtp)
      → Heard silence_payload
          (a.send_seq % 2 ^ 16)
          (a.ssrc % 2 ^ 32)
          s
          (datagram_received inet_aton now (silence_packet a) addr s)
  unfolding silence_payload
  after_one a s = datagram_received-build_rtp_packet a.send_seq a.send_ts a.ssrc _ _ s

  after_more :
      {q i n : ℕ} {s s₁ s₂ : AudioRtp}
      → InStep q i s
      → Heard silence_payload q i s s₁
      → HeardAll n s₁ s₂
      → HeardAll (suc n) s s₂
  after_more {q} {i} {n} {s} {s₁} step h g = record {
    payloads =
        rw (g.payloads, h.payload_out)
          (append_assoc s.delivered (silence_payload ∷ []) (replicate n silence_payload));
    counts = omega (arith, g.counts, h.counted);
    gaps = g.gaps ∙ Numbers-InStep q i s₁.seq_gaps s step h.numbers;
    strays = g.strays ∙ h.all_rtp;
  }

  after_stream :
      (n : ℕ) (a s : AudioRtp)
      → a.transport ≡ true
      → InStep (a.send_seq % 2 ^ 16) (a.ssrc % 2 ^ 32) s
      → HeardAll n s (hear (stream n a) s)
  unfolding hear stream
  after_stream zero a s up h = record {
    payloads = sym (append-nil s.delivered);
    counts = omega arith;
    gaps = refl;
    strays = refl;
  }
  after_stream (suc n) a s up h =
      let h₁ = after_one a s in
      rw (silence_tick-ticked a up) (
        after_more h h₁
          (after_stream n (ticked a) _ up (inr (a.send_seq % 2 ^ 16, h₁.last_seq, omega arith))))

  -- The packets of `n` rounds of the silence loop, received in order, are all delivered: none is
  -- taken for anything but RTP and no gap is seen, though the sequence number wraps around. The
  -- loop's transport is open and every `sendto` succeeds; it has sent nothing before, and its next
  -- number is the one that the receiver awaits, or the receiver has seen nothing of its source.
  pub silence_loop-HeardAll :
      (n : ℕ) (a s : AudioRtp)
      → a.transport ≡ true
      → a.sent ≡ []
      → InStep (a.send_seq % 2 ^ 16) (a.ssrc % 2 ^ 32) s
      → HeardAll n s (hear (ticks n a).sent s)
  silence_loop-HeardAll n a s up quiet h =
      subst (λ ps. HeardAll n s (hear ps s))
        (sym (sent-ticks n a up ∙ ap (λ ps. ps ++ stream n a) quiet)) (after_stream n a s up h)
