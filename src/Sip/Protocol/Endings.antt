-- ===== src/Sip/Protocol/Endings.antt =====
-- sip_client.py: which responses end a call that is up.
use ha_intratone.Base.{ℕ, Bool, ◌≤◌, ◌⊎◌, false, Option, some, ◌≡◌}
use ha_intratone.Base.Bytes.{Bytes}
use ha_intratone.Sip.Types.{confirmed, SipMessage, PendingCall, Client, Libs}
use ha_intratone.Sip.Build.{build_ack}
use ha_intratone.Sip.Client.{terminate}
use ha_intratone.Sip.Client.Response.{names_other, cseq_method}
use ha_intratone.Sip.Protocol.Step.{Live, with_sent}

module _ (libs : Libs) (msg : SipMessage) (raw : Bytes) (k : PendingCall) (c : Client)
    (l : Live k c) (up : k.state ≡ confirmed) where
  -- Nothing is raised or reported, and the same call is up afterwards; only its mark of an offer
  -- under way may be cleared.
  abbrev pub Spares : Option Client → Type 0
  Spares m =
      (c' : Client) × (busy : Bool) × (m ≡ some c')
      × (c'.call ≡ some (record k { reinvite_in_progress = busy }))
      × (c'.events ≡ c.events)

  -- A final code other than a success, whose CSeq does not name a method other than INVITE, while no
  -- offer of this side is under way.
  abbrev pub Fatal : ℕ → Type 0
  Fatal code =
      (300 ≤ code) × (names_other (cseq_method msg) ≡ false) × (k.reinvite_in_progress ≡ false)

  -- The failure is acknowledged, and the call is over.
  abbrev pub Ends : Option Client → Type 0
  Ends m = m ≡ some (terminate k (with_sent (build_ack k msg k.target_uri) c))

  -- What becomes of the call, by the response.
  abbrev Falls : ℕ → Option Client → Type 0
  Falls code m = ((¬ Fatal code) × Spares m) ⊎ (Fatal code × Ends m)
