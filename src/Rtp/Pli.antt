-- ===== src/Rtp/Pli.antt =====
-- audio_bridge.py: the loop that asks the gateway for keyframes (`_pli_loop`), from its first video
-- packet on.
use ha_intratone.Base.{
  ℕ, zero, suc, ◌+◌, ◌≤◌, Bool, true, false, List, [], ◌∷◌, ◌≡◌, ◌⊎◌, inl, inr, refl, arith, length,
  if-cases, if◌then◌else◌, not,
}
use ha_intratone.Rtp.Rtcp.{RtcpEndpoint, send_pli}

-- What a round of the burst finds: an endpoint is gone, the keyframe is there, or neither; then the PLI
-- is sent, with or without an OSError.
pub data Look : Type 0 where
  gone arrived : Look
  waiting : Bool → Look

-- A periodic round: an endpoint is gone, or the PLI is sent and the keyframe arrives within a second or
-- does not.
pub data Round : Type 0 where
  absent : Round
  asks : Bool → Bool → Round

-- The RTCP endpoint, the gate `keyframe_received` of the video endpoint, and the calls of
-- `on_video_failure`.
pub record Pli : Type 0 where
  pub endpoint : RtcpEndpoint
  pub gate : Bool
  pub failures : ℕ

pub data Burst : Type 0 where
  left got exhausted : Burst

-- `_PLI_MAX_SENDS`
abbrev pub pli_max_sends : ℕ
pli_max_sends = 10

-- The initial burst: `n` rounds are left, of which the next is round `i`.
unfoldable pub burst : ℕ → (ℕ → Look) → ℕ → ℕ → RtcpEndpoint → Burst × RtcpEndpoint
unfolding send_pli
burst zero look i media s = (exhausted, s)
burst (suc n) look i media s = elim (look i) [
  | gone ↦ (left, s)
  | arrived ↦ (got, s)
  | waiting sends ↦ burst n look (i + 1) media (send_pli sends media s)
]

-- The periodic rounds: the gate closes for the PLI, and opens with its keyframe or after a second.
unfoldable pub periodic : List Round → ℕ → Pli → Pli
unfolding send_pli
periodic [] media s = s
periodic (absent ∷ rs) media s = s
periodic (asks sends true ∷ rs) media s =
    periodic rs media (record s { endpoint = send_pli sends media s.endpoint; gate = true })
periodic (asks sends false ∷ rs) media s =
    periodic rs media (record s { endpoint = send_pli sends media s.endpoint; gate = true })

-- After the burst; `late` tells whether the keyframe came in the last wait.
unfoldable pub after_burst : Bool → List Round → ℕ → Pli → Burst × RtcpEndpoint → Pli
unfolding periodic
after_burst late rounds media s (left, e) = record s { endpoint = e }
after_burst late rounds media s (got, e) = periodic rounds media (record s { endpoint = e })
after_burst late rounds media s (exhausted, e) =
    if late
    then periodic rounds media (record s { endpoint = e })
    else record s { endpoint = e; failures = s.failures + 1 }

-- `_pli_loop`, with a callback for the failure.
unfoldable pub pli_loop : (ℕ → Look) → Bool → List Round → ℕ → Pli → Pli
unfolding after_burst burst
pli_loop look late rounds media s =
    after_burst late rounds media s (burst pli_max_sends look 0 media s.endpoint)

send_pli_once :
    (sends : Bool) (media : ℕ) (s : RtcpEndpoint)
    → (send_pli sends media s).pli_sent ≤ s.pli_sent + 1
unfolding send_pli
send_pli_once sends media s =
    let P : RtcpEndpoint → Type 0 = λ t. t.pli_sent ≤ s.pli_sent + 1 in
    if-cases P (not s.transport) (λ gone. omega arith)
      (λ there. if-cases P (not sends) (λ error. omega arith) (λ sent. omega arith))

-- The rounds from `i` on all wait.
abbrev pub AllWait : ℕ → (ℕ → Look) → ℕ → Type 0
AllWait zero look i = Unit {0}
AllWait (suc n) look i = ((sends : Bool) × (look i ≡ waiting sends)) × AllWait n look (i + 1)

-- What the burst has done.
abbrev Bursts : ℕ → (ℕ → Look) → ℕ → ℕ → Burst × RtcpEndpoint → Type 0
Bursts n look i sent (exhausted, e) = (e.pli_sent ≤ sent + n) × AllWait n look i
Bursts n look i sent (_, e) = e.pli_sent ≤ sent + n

longer :
    (n : ℕ) (look : ℕ → Look) (i sent : ℕ) (sends : Bool) (s : RtcpEndpoint)
    (r : Burst × RtcpEndpoint)
    → look i ≡ waiting sends
    → s.pli_sent ≤ sent + 1
    → Bursts n look (i + 1) s.pli_sent r
    → Bursts (suc n) look i sent r
longer n look i sent sends s (left, e) q l h = omega arith
longer n look i sent sends s (got, e) q l h = omega arith
longer n look i sent sends s (exhausted, e) q l (h, w) = (omega arith, ((sends, q), w))

found-Bursts :
    (n : ℕ) (look : ℕ → Look) (i media : ℕ) (s : RtcpEndpoint) (l : Look)
    → look i ≡ l
    → ((t : RtcpEndpoint) → Bursts n look (i + 1) t.pli_sent (burst n look (i + 1) media t))
    → Bursts (suc n) look i s.pli_sent (elim l [
      | gone ↦ (left, s)
      | arrived ↦ (got, s)
      | waiting sends ↦ burst n look (i + 1) media (send_pli sends media s)
    ])
found-Bursts n look i media s gone e k = omega arith
found-Bursts n look i media s arrived e k = omega arith
found-Bursts n look i media s (waiting sends) e k =
    longer n look i s.pli_sent sends (send_pli sends media s) _ e (send_pli_once sends media s)
      (k (send_pli sends media s))

burst-Bursts :
    (n : ℕ) (look : ℕ → Look) (i media : ℕ) (s : RtcpEndpoint)
    → Bursts n look i s.pli_sent (burst n look i media s)
unfolding burst
burst-Bursts zero look i media s = (omega arith, tt)
burst-Bursts (suc n) look i media s =
    found-Bursts n look i media s (look i) refl (burst-Bursts n look (i + 1) media)

-- The periodic rounds, one PLI each at most.
Rounds : ℕ → Pli → Pli → Type 0
Rounds n s t = (t.endpoint.pli_sent ≤ s.endpoint.pli_sent + n) × (t.failures ≡ s.failures)

periodic-Rounds :
    (rs : List Round) (media : ℕ) (s : Pli) → Rounds (length rs) s (periodic rs media s)
unfolding periodic Rounds
periodic-Rounds [] media s = (omega arith, refl)
periodic-Rounds (absent ∷ rs) media s = (omega arith, refl)
periodic-Rounds (asks sends true ∷ rs) media s =
    let t = record s { endpoint = send_pli sends media s.endpoint; gate = true } in
    let (l, e) = periodic-Rounds rs media t in
    (omega (arith, send_pli_once sends media s.endpoint), e)
periodic-Rounds (asks sends false ∷ rs) media s =
    let t = record s { endpoint = send_pli sends media s.endpoint; gate = true } in
    let (l, e) = periodic-Rounds rs media t in
    (omega (arith, send_pli_once sends media s.endpoint), e)

-- The PLIs that were sent are bounded, and a failure was reported at most once, for a burst that waited
-- in vain to its end.
abbrev pub Asked : (ℕ → Look) → Bool → ℕ → Pli → Pli → Type 0
Asked look late n s t =
    (t.endpoint.pli_sent ≤ s.endpoint.pli_sent + (10 + n))
    × ((t.failures ≡ s.failures)
        ⊎ ((t.failures ≡ s.failures + 1) × AllWait 10 look 0 × (late ≡ false)))

then_periodic :
    (look : ℕ → Look) (late : Bool) (rs : List Round) (media : ℕ) (s : Pli) (e : RtcpEndpoint)
    → e.pli_sent ≤ s.endpoint.pli_sent + 10
    → Asked look late (length rs) s (periodic rs media (record s { endpoint = e }))
unfolding Rounds
then_periodic look late rs media s e h =
    let (l, f) = periodic-Rounds rs media (record s { endpoint = e }) in (omega arith, inl f)

after_burst-Asked :
    (look : ℕ → Look) (late : Bool) (rs : List Round) (media : ℕ) (s : Pli)
    (r : Burst × RtcpEndpoint)
    → Bursts 10 look 0 s.endpoint.pli_sent r
    → Asked look late (length rs) s (after_burst late rs media s r)
unfolding after_burst
after_burst-Asked look late rs media s (left, e) h = (omega arith, inl refl)
after_burst-Asked look late rs media s (got, e) h = then_periodic look late rs media s e h
after_burst-Asked look late rs media s (exhausted, e) (h, w) =
    if-cases (Asked look late (length rs) s) late (λ there. then_periodic look late rs media s e h)
      (λ vain. (omega arith, inr (refl, w, vain)))

-- The loop sends at most ten PLIs before its periodic rounds and at most one in each of these. It reports
-- a failure of the video at most once, and only if the ten rounds of the burst all found no keyframe and
-- none came in the last wait.
pub pli_loop-Asked :
    (look : ℕ → Look) (late : Bool) (rounds : List Round) (media : ℕ) (s : Pli)
    → Asked look late (length rounds) s (pli_loop look late rounds media s)
unfolding pli_loop
pli_loop-Asked look late rounds media s =
    after_burst-Asked look late rounds media s _ (burst-Bursts 10 look 0 media s.endpoint)
