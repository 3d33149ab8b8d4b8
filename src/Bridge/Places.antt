-- ===== src/Bridge/Places.antt =====
-- audio_bridge.py: a socket that goes from the start that holds it to its transport.
use ha_intratone.Base.{ℕ, Option, none, some, List, [], ◌∷◌, ◌++◌, ◌≡◌, inl, inr}
use ha_intratone.Bridge.State.{those}
use ha_intratone.Bridge.Account.{Has, in_either, in_left, in_right, wider}

-- A socket that goes from those held to its transport.
pub to_audio :
    (s rtp : ℕ) (held : List ℕ) (o u w : Option ℕ)
    → o ≡ none
    → Has s ((those o ++ (those u ++ those w)) ++ rtp ∷ held)
    → Has s ((rtp ∷ (those u ++ those w)) ++ held)
to_audio s rtp held (some r) u w e h = cc
to_audio s rtp held none u w e h = elim (in_either s (those u ++ those w) (rtp ∷ held) h) [
  | inl k ↦ inr (in_left s (those u ++ those w) held k)
  | inr (inl k) ↦ inl k
  | inr (inr k) ↦ inr (in_right s (those u ++ those w) held k)
]

pub to_video :
    (s v : ℕ) (held : List ℕ) (o u w : Option ℕ)
    → u ≡ none
    → Has s ((those o ++ (those u ++ those w)) ++ v ∷ held)
    → Has s ((those o ++ v ∷ those w) ++ held)
to_video s v held o (some r) w e h = cc
to_video s v held o none w e h = elim (in_either s (those o ++ those w) (v ∷ held) h) [
  | inl k ↦
      in_left s (those o ++ v ∷ those w) held
        (wider s (those o) (those w) (v ∷ those w) (λ l. inr l) k)
  | inr (inl k) ↦
      in_left s (those o ++ v ∷ those w) held (in_right s (those o) (v ∷ those w) (inl k))
  | inr (inr k) ↦ in_right s (those o ++ v ∷ those w) held k
]

pub to_rtcp :
    (s : ℕ) (o u w c : Option ℕ)
    → w ≡ none
    → Has s ((those o ++ (those u ++ those w)) ++ those c)
    → Has s ((those o ++ (those u ++ those c)) ++ [])
to_rtcp s o u (some r) c e h = cc
to_rtcp s o u none c e h =
    in_left s (those o ++ (those u ++ those c)) []
      (elim (in_either s (those o ++ (those u ++ [])) (those c) h) [
        | inl k ↦
            wider s (those o) (those u ++ []) (those u ++ those c)
              (wider s (those u) [] (those c) (λ l. absurd l)) k
        | inr k ↦ in_right s (those o) (those u ++ those c) (in_right s (those u) (those c) k)
      ])

-- The closed and the left ones stay where they are.
pub deeper :
    (s : ℕ) (closed left xs ys : List ℕ)
    → (Has s xs → Has s ys)
    → Has s (closed ++ (left ++ xs))
    → Has s (closed ++ (left ++ ys))
deeper s closed left xs ys f = wider s closed (left ++ xs) (left ++ ys) (wider s left xs ys f)

pub left_all :
    (s : ℕ) (left wrapped socks : List ℕ)
    → Has s (left ++ (wrapped ++ socks))
    → Has s ((left ++ socks) ++ (wrapped ++ []))
left_all s left wrapped socks h = elim (in_either s left (wrapped ++ socks) h) [
  | inl k ↦ in_left s (left ++ socks) (wrapped ++ []) (in_left s left socks k)
  | inr k ↦ elim (in_either s wrapped socks k) [
    | inl l ↦ in_right s (left ++ socks) (wrapped ++ []) (in_left s wrapped [] l)
    | inr l ↦ in_left s (left ++ socks) (wrapped ++ []) (in_right s left socks l)
  ]
]

pub closed_too :
    (s : ℕ) (closed left wrapped socks : List ℕ)
    → Has s (closed ++ (left ++ (wrapped ++ socks)))
    → Has s ((closed ++ socks) ++ (left ++ (wrapped ++ [])))
closed_too s closed left wrapped socks h =
    let rest = left ++ (wrapped ++ []) in
    elim (in_either s closed (left ++ (wrapped ++ socks)) h) [
      | inl k ↦ in_left s (closed ++ socks) rest (in_left s closed socks k)
      | inr k ↦ elim (in_either s left (wrapped ++ socks) k) [
        | inl l ↦ in_right s (closed ++ socks) rest (in_left s left (wrapped ++ []) l)
        | inr l ↦ elim (in_either s wrapped socks l) [
          | inl q ↦
              in_right s (closed ++ socks) rest
                (in_right s left (wrapped ++ []) (in_left s wrapped [] q))
          | inr q ↦ in_left s (closed ++ socks) rest (in_right s closed socks q)
        ]
      ]
    ]
