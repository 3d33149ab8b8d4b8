-- ===== src/Bridge/Account.antt =====
-- audio_bridge.py: what the bridge owns, and what is left when it is torn down.
use ha_intratone.Base.{
  ℕ, ◌==◌, false, none, List, [], ◌∷◌, ◌++◌, if-cases, ◌≡◌, ◌⊎◌, inl, inr, refl, ==_iff,
}
use ha_intratone.Bridge.State.{
  Phase, idle, spawning, wrapping_audio, wrapping_video, wrapping_rtcp, pushing, Bridge, those,
  all_sockets, open_sockets, torn_down, stop, unwind_partial_start, checkpoint,
}

-- `s in xs`
abbrev pub Has : ℕ → List ℕ → Type 0
Has s [] = ⊥
Has s (x ∷ xs) = (s ≡ x) ⊎ Has s xs

pub in_left : (s : ℕ) (xs ys : List ℕ) → Has s xs → Has s (xs ++ ys)
in_left s [] ys h = absurd h
in_left s (x ∷ xs) ys (inl e) = inl e
in_left s (x ∷ xs) ys (inr h) = inr (in_left s xs ys h)

pub in_right : (s : ℕ) (xs ys : List ℕ) → Has s ys → Has s (xs ++ ys)
in_right s [] ys h = h
in_right s (x ∷ xs) ys h = inr (in_right s xs ys h)

pub in_either : (s : ℕ) (xs ys : List ℕ) → Has s (xs ++ ys) → Has s xs ⊎ Has s ys
in_either s [] ys h = inr h
in_either s (x ∷ xs) ys (inl e) = inl (inl e)
in_either s (x ∷ xs) ys (inr h) = elim (in_either s xs ys h) [ inl k ↦ inl (inr k) | inr k ↦ inr k ]

-- More on the right of a list.
pub wider :
    (s : ℕ) (xs ys zs : List ℕ) → (Has s ys → Has s zs) → Has s (xs ++ ys) → Has s (xs ++ zs)
wider s xs ys zs f h = elim (in_either s xs ys h) [
  | inl k ↦ in_left s xs zs k
  | inr k ↦ in_right s xs zs (f k)
]

-- Where a socket is: closed, left, in a transport, or among those that the start still holds.
abbrev pub places : Bridge → List ℕ → List ℕ
places b pending = b.closed ++ (b.left ++ (open_sockets b ++ pending))

-- The sockets that a suspended start has not wrapped yet.
abbrev pub pending : Phase → List ℕ
pending idle = []
pending (spawning s) = all_sockets s
pending (wrapping_audio s) = all_sockets s
pending (wrapping_video r v c) = v ∷ those c
pending (wrapping_rtcp r v c) = those c
pending (pushing s) = []

-- Nothing runs.
pub record Clean (b : Bridge) : Type 0 where
  pub no_process : b.process ≡ none
  pub no_rtp : b.rtp_transport ≡ none
  pub no_video : b.video_rtp_transport ≡ none
  pub no_rtcp : b.video_rtcp_transport ≡ none
  pub no_pli : b.pli_task ≡ false
  pub no_stats : b.stats_task ≡ false

-- What holds where a start is suspended. When none is, the last start was the last to come, or nothing
-- runs.
abbrev pub Fit : Phase → Bridge → Type 0
Fit idle b = (b.snapshot ≡ b.generation) ⊎ Clean b
Fit (spawning s) b = Clean b
Fit (wrapping_audio s) b =
    (b.rtp_transport ≡ none)
    × (b.video_rtp_transport ≡ none)
    × (b.video_rtcp_transport ≡ none)
    × (b.stats_task ≡ false)
Fit (wrapping_video r v c) b =
    (b.video_rtp_transport ≡ none) × (b.video_rtcp_transport ≡ none) × (b.stats_task ≡ false)
Fit (wrapping_rtcp r v c) b = (b.video_rtcp_transport ≡ none) × (b.stats_task ≡ false)
Fit (pushing s) b = b.stats_task ≡ false

pub record OwnedAt (phase : Phase) (b : Bridge) : Type 0 where
  pub fit : Fit phase b
  pub sockets : (s : ℕ) → Has s b.given → Has s (places b (pending phase))
  pub processes : (p : ℕ) → Has p b.processes → Has p (b.ended ++ those b.process)

abbrev pub Owned : Bridge → Type 0
Owned b = OwnedAt b.phase b

-- Tearing down closes what was open; what was held is closed too, or still held.
torn_sockets :
    (b : Bridge) (held socks rest : List ℕ) (s : ℕ)
    → (Has s held → Has s socks ⊎ Has s rest)
    → Has s (places b held)
    → Has s ((b.closed ++ (open_sockets b ++ socks)) ++ (b.left ++ rest))
torn_sockets b held socks rest s f h =
    let new = b.closed ++ (open_sockets b ++ socks) in
    let shut = λ (k : Has s (open_sockets b ++ socks)).
      in_left s new (b.left ++ rest) (in_right s b.closed (open_sockets b ++ socks) k) in
    elim (in_either s b.closed (b.left ++ (open_sockets b ++ held)) h) [
      | inl k ↦ in_left s new (b.left ++ rest) (in_left s b.closed (open_sockets b ++ socks) k)
      | inr k ↦ elim (in_either s b.left (open_sockets b ++ held) k) [
        | inl l ↦ in_right s new (b.left ++ rest) (in_left s b.left rest l)
        | inr l ↦ elim (in_either s (open_sockets b) held l) [
          | inl o ↦ shut (in_left s (open_sockets b) socks o)
          | inr o ↦ elim (f o) [
            | inl q ↦ shut (in_right s (open_sockets b) socks q)
            | inr q ↦ in_right s new (b.left ++ rest) (in_right s b.left rest q)
          ]
        ]
      ]
    ]

pub unwind-Owned :
    (b : Bridge) (held socks : List ℕ)
    → b.stats_task ≡ false
    → ((s : ℕ) → Has s b.given → Has s (places b held))
    → ((s : ℕ) → Has s held → Has s socks)
    → ((p : ℕ) → Has p b.processes → Has p (b.ended ++ those b.process))
    → Owned (unwind_partial_start socks b)
unfolding unwind_partial_start torn_down
unwind-Owned b held socks e h f p = record {
  fit = inr (record {
    no_process = refl;
    no_rtp = refl;
    no_video = refl;
    no_rtcp = refl;
    no_pli = refl;
    no_stats = e;
  });
  sockets = λ s k. torn_sockets b held socks [] s (λ o. inl (f s o)) (h s k);
  processes = λ q k. in_left q (b.ended ++ those b.process) [] (p q k);
}

pub checkpoint-Owned :
    (b : Bridge) (phase : Phase)
    → b.stats_task ≡ false
    → ((s : ℕ) → Has s b.given → Has s (places b (pending phase)))
    → ((p : ℕ) → Has p b.processes → Has p (b.ended ++ those b.process))
    → (b.snapshot ≡ b.generation → Fit phase (record b { phase = phase }))
    → Owned (checkpoint (pending phase) phase b)
unfolding checkpoint
checkpoint-Owned b phase e h p g =
    if-cases Owned (b.snapshot == b.generation)
      (λ live. record {
        fit = g ((==_iff b.snapshot b.generation).0 live);
        sockets = h;
        processes = p;
      })
      (λ late. unwind-Owned b (pending phase) (pending phase) e h (λ s k. k) p)

Clean-Fit : (phase : Phase) (b : Bridge) → Clean b → Fit phase b
Clean-Fit idle b c = inr c
Clean-Fit (spawning s) b c = c
Clean-Fit (wrapping_audio s) b c = (c.no_rtp, c.no_video, c.no_rtcp, c.no_stats)
Clean-Fit (wrapping_video r v k) b c = (c.no_video, c.no_rtcp, c.no_stats)
Clean-Fit (wrapping_rtcp r v k) b c = (c.no_rtcp, c.no_stats)
Clean-Fit (pushing s) b c = c.no_stats

pub stop-Clean : (b : Bridge) → Clean (stop b)
unfolding stop torn_down
stop-Clean b = record {
  no_process = refl;
  no_rtp = refl;
  no_video = refl;
  no_rtcp = refl;
  no_pli = refl;
  no_stats = refl;
}

pub stop-Owned : (b : Bridge) → Owned b → Owned (stop b)
unfolding stop torn_down
stop-Owned b h = record {
  fit = Clean-Fit b.phase (stop b) (stop-Clean b);
  sockets =
      λ s k. torn_sockets b (pending b.phase) [] (pending b.phase) s (λ o. inr o) (h.sockets s k);
  processes = λ p k. in_left p (b.ended ++ those b.process) [] (h.processes p k);
}
