-- ===== src/Rtp/Video/Placeholder.antt =====
-- audio_bridge.py: the packets of the placeholder frame.
use ha_intratone.Base.{
  ℕ, zero, suc, ◌≤◌, List, [], ◌∷◌, ◌++◌, length, drop, ◌≡◌, refl, arith, take-append-drop,
  length-take, length-drop, ◌+◌,
}
use ha_intratone.Base.Bytes.{Bytes}
use ha_intratone.Rtp.Video.{vp8_max_payload, packets_from, placeholder_packets}

-- The bytes behind the descriptors.
unfoldable pub joined : List Bytes → Bytes
joined [] = []
joined (p ∷ ps) = drop 1 p ++ joined ps

abbrev pub AllFit : List Bytes → Type 0
AllFit [] = Unit {0}
AllFit (p ∷ ps) = (length p ≤ vp8_max_payload + 1) × AllFit ps

packets_from_lem :
    (n desc : ℕ) (frame : Bytes)
    → length frame ≤ n
    → (joined (packets_from n desc frame) ≡ frame) × AllFit (packets_from n desc frame)
unfolding packets_from joined
packets_from_lem zero desc [] h = (refl, tt)
packets_from_lem zero desc (b ∷ bs) h = absurd (omega arith)
packets_from_lem (suc n) desc [] h = (refl, tt)
packets_from_lem (suc n) desc (b ∷ bs) h =
    let (whole, fit) =
      packets_from_lem n 0 (drop vp8_max_payload (b ∷ bs))
        (omega (arith, length-drop vp8_max_payload (b ∷ bs))) in
    (
      rw whole (take-append-drop vp8_max_payload (b ∷ bs)),
      (omega (arith, length-take vp8_max_payload (b ∷ bs)), fit),
    )

-- Behind their descriptor bytes the placeholder's packets hold the whole frame, in order, and no
-- packet is longer than the largest payload and its descriptor.
pub placeholder_packets_lem :
    (frame : Bytes)
    → (joined (placeholder_packets frame) ≡ frame) × AllFit (placeholder_packets frame)
unfolding placeholder_packets
placeholder_packets_lem frame = packets_from_lem (length frame) 0x10 frame (omega arith)
