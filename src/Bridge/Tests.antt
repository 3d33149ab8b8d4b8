-- ===== src/Bridge/Tests.antt =====
-- Runs of the bridge.
use ha_intratone.Base.{◌≡◌, refl, some}
use ha_intratone.Bridge.State.{
  Sockets, Bridge, new_bridge, starts, spawns, wraps, stops, step, idle,
}
use ha_intratone.Bridge.Account.{Clean}
use ha_intratone.Bridge.Runs.{Reached, made, next, Settled, reached-Settled}
use ha_intratone.Bridge.Late.{stop_wins}

abbrev sockets : Sockets
sockets = record { rtp = 16384; video = some (16386, some 16387) }

new_bridge-Clean : Clean new_bridge
unfolding new_bridge
new_bridge-Clean = record {
  no_process = refl;
  no_rtp = refl;
  no_video = refl;
  no_rtcp = refl;
  no_pli = refl;
  no_stats = refl;
}

-- A start that has ffmpeg and its audio endpoint, and waits for the video endpoint.
abbrev half : Bridge
half = step wraps (step (spawns 41) (step (starts sockets) new_bridge))

half_Reached : Reached half
half_Reached = next wraps (next (spawns 41) (next (starts sockets) made new_bridge-Clean) tt) tt

stop_wins_example :
    ((step wraps (step stops half)).phase ≡ idle) × Settled (step wraps (step stops half))
unfolding step new_bridge
stop_wins_example = stop_wins half wraps half_Reached tt

abbrev stopped : Bridge
stopped = step wraps (step stops half)

reached-Settled_example : Settled stopped
unfolding step new_bridge
reached-Settled_example =
    reached-Settled stopped (next wraps (next stops half_Reached tt) tt) refl (λ e. cc)
