-- ===== src/Rtp/Stats.antt =====
-- audio_bridge.py: the sets and dictionaries in which the media endpoints keep their statistics.
use ha_intratone.Base.{
  ℕ, ◌+◌, Bool, Option, none, some, List, [], ◌∷◌, ◌==◌, ◌&&◌, if◌then◌else◌, ◌≡◌, arith, String,
  get_or,
}
use ha_intratone.Base.Text.{codes, text_eq}

-- A host and a port.
abbrev pub Addr : Type 0
Addr = String × ℕ

abbrev pub addr_eq : Addr → Addr → Bool
addr_eq (h, p) (i, q) = text_eq (codes h) (codes i) && p == q

-- `set.add`, on a list without repeated items.
unfoldable pub add {ℓ} : {A : Type ℓ} → (A → A → Bool) → A → List A → List A
add eq x [] = x ∷ []
add eq x (y ∷ ys) = let rest = add eq x ys in if eq x y then y ∷ ys else y ∷ rest

module _ {ℓ} {V : Type ℓ} where
  -- `d.get(k)` and `d[k] = v`
  unfoldable pub find : ℕ → List (ℕ × V) → Option V
  find k [] = none
  find k ((j, v) ∷ d) = let rest = find k d in if k == j then some v else rest

  unfoldable pub put : ℕ → V → List (ℕ × V) → List (ℕ × V)
  put k v [] = (k, v) ∷ []
  put k v ((j, w) ∷ d) = let rest = put k v d in if k == j then (k, v) ∷ d else (j, w) ∷ rest

  -- A key that was written is found again.
  pub find-put : (k : ℕ) (v : V) (d : List (ℕ × V)) → find k (put k v d) ≡ some v
  unfolding find put
  find-put k v [] = ground arith
  find-put k v ((j, w) ∷ d) = ground (arith, find-put k v d)

-- An entry of `pt_stats`; the video endpoint leaves out the last field, which is 0 there.
pub record PtStats : Type 0 where
  pub count : ℕ
  pub sizes : List ℕ
  pub ssrcs : List ℕ
  pub first_seen_packet : ℕ

-- An entry of `ssrc_stats`.
pub record SsrcStats : Type 0 where
  pub count : ℕ
  pub pts : List ℕ

unfoldable pub count_pt : ℕ → ℕ → ℕ → ℕ → List (ℕ × PtStats) → List (ℕ × PtStats)
unfolding find put add
count_pt pt size ssrc packet d =
    let new : PtStats = record { count = 0; sizes = []; ssrcs = []; first_seen_packet = packet } in
    let st = get_or (find pt d) new in
    put pt
      (record {
        count = st.count + 1;
        sizes = add (λ a b. a == b) size st.sizes;
        ssrcs = add (λ a b. a == b) ssrc st.ssrcs;
        first_seen_packet = st.first_seen_packet;
      })
      d

unfoldable pub count_ssrc : ℕ → ℕ → List (ℕ × SsrcStats) → List (ℕ × SsrcStats)
unfolding find put add
count_ssrc ssrc pt d =
    let new : SsrcStats = record { count = 0; pts = [] } in
    let ss = get_or (find ssrc d) new in
    put ssrc (record { count = ss.count + 1; pts = add (λ a b. a == b) pt ss.pts }) d
