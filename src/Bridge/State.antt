-- ===== src/Bridge/State.antt =====
-- audio_bridge.py: the start and the stop of the bridge (`_do_start`, `stop`,
-- `_unwind_partial_start`, `_kill_ffmpeg_now`), cut at the awaits of `_do_start`.
use ha_intratone.Base.{
  ℕ, ◌+◌, ◌==◌, Bool, true, false, Option, none, some, List, [], ◌∷◌, ◌++◌, if◌then◌else◌,
}

-- The sockets that a start is given. As `CallManager` calls it, the video sockets are given exactly
-- when video was negotiated.
pub record Sockets : Type 0 where
  pub rtp : ℕ
  pub video : Option (ℕ × Option ℕ)

-- Where `_do_start` is suspended: at the spawn of ffmpeg (or the adoption of a prewarmed one), at the
-- wraps of the sockets, or at the wait for ffmpeg's push.
pub data Phase : Type 0 where
  idle : Phase
  spawning wrapping_audio pushing : Sockets → Phase
  wrapping_video wrapping_rtcp : ℕ → ℕ → Option ℕ → Phase

-- The fields, with `snapshot` for the local `generation` of the last start, the sockets that starts took
-- over, those closed and those that a failed spawn left, the processes and those that ended.
pub record Bridge : Type 0 where
  pub generation : ℕ
  pub snapshot : ℕ
  pub phase : Phase
  pub process : Option ℕ
  pub rtp_transport : Option ℕ
  pub has_video_rtp : Bool
  pub video_rtp_transport : Option ℕ
  pub video_rtcp_transport : Option ℕ
  pub pli_task : Bool
  pub stats_task : Bool
  pub given : List ℕ
  pub closed : List ℕ
  pub left : List ℕ
  pub processes : List ℕ
  pub ended : List ℕ

-- `__init__`
unfoldable pub new_bridge : Bridge
new_bridge = record {
  generation = 0;
  snapshot = 0;
  phase = idle;
  process = none;
  rtp_transport = none;
  has_video_rtp = false;
  video_rtp_transport = none;
  video_rtcp_transport = none;
  pli_task = false;
  stats_task = false;
  given = [];
  closed = [];
  left = [];
  processes = [];
  ended = [];
}

abbrev pub those : Option ℕ → List ℕ
those none = []
those (some s) = s ∷ []

abbrev pub video_sockets : Option (ℕ × Option ℕ) → List ℕ
video_sockets none = []
video_sockets (some (v, c)) = v ∷ those c

abbrev pub all_sockets : Sockets → List ℕ
all_sockets s = s.rtp ∷ video_sockets s.video

-- The sockets of the open transports.
abbrev pub open_sockets : Bridge → List ℕ
open_sockets b =
    those b.rtp_transport ++ (those b.video_rtp_transport ++ those b.video_rtcp_transport)

-- What `stop` and `_unwind_partial_start` have in common: every endpoint is closed, the PLI task is
-- cancelled and ffmpeg is ended, after which the attributes are `None`.
unfoldable pub torn_down : List ℕ → Bridge → Bridge
torn_down sockets b = record b {
  process = none;
  rtp_transport = none;
  has_video_rtp = false;
  video_rtp_transport = none;
  video_rtcp_transport = none;
  pli_task = false;
  closed = b.closed ++ (open_sockets b ++ sockets);
  ended = b.ended ++ those b.process;
}

-- `stop`
unfoldable pub stop : Bridge → Bridge
unfolding torn_down
stop b = record (torn_down [] b) { generation = b.generation + 1; stats_task = false }

-- `_unwind_partial_start`, after which the start raises.
unfoldable pub unwind_partial_start : List ℕ → Bridge → Bridge
unfolding torn_down
unwind_partial_start sockets b = record (torn_down sockets b) { phase = idle }

-- A checkpoint: the start goes on, or a `stop` has come in between.
unfoldable pub checkpoint : List ℕ → Phase → Bridge → Bridge
unfolding unwind_partial_start
checkpoint sockets phase b =
    if b.snapshot == b.generation
    then record b { phase = phase }
    else unwind_partial_start sockets b

-- The start begins, on a bridge that is not running.
unfoldable pub begin : Sockets → Bridge → Bridge
begin s b = record b {
  snapshot = b.generation;
  phase = spawning s;
  given = b.given ++ all_sockets s;
}

-- ffmpeg is there.
unfoldable pub spawned : ℕ → Sockets → Bridge → Bridge
unfolding checkpoint
spawned p s b =
    checkpoint (all_sockets s) (wrapping_audio s)
      (record b { process = some p; processes = b.processes ++ p ∷ [] })

-- The spawn raises: nothing catches it in `_do_start` or `start`.
unfoldable pub spawn_failed : Sockets → Bridge → Bridge
spawn_failed s b = record b { phase = idle; left = b.left ++ all_sockets s }

-- The audio socket is wrapped. The video endpoint is made if the start goes on; the unwinding drops it.
unfoldable pub audio_wrapped : ℕ → Option (ℕ × Option ℕ) → Bridge → Bridge
unfolding checkpoint
audio_wrapped rtp none b =
    checkpoint [] (pushing (record { rtp = rtp; video = none }))
      (record b { rtp_transport = some rtp })
audio_wrapped rtp (some (v, c)) b =
    checkpoint (v ∷ those c) (wrapping_video rtp v c)
      (record b { rtp_transport = some rtp; has_video_rtp = true })

-- The video socket is wrapped; then comes the RTCP socket, if there is one.
unfoldable pub video_wrapped : ℕ → ℕ → Option ℕ → Bridge → Bridge
unfolding checkpoint
video_wrapped rtp v none b =
    checkpoint [] (pushing (record { rtp = rtp; video = some (v, none) }))
      (record b { video_rtp_transport = some v })
video_wrapped rtp v (some c) b =
    if b.has_video_rtp
    then record b { video_rtp_transport = some v; phase = wrapping_rtcp rtp v (some c) }
    else checkpoint [] (pushing (record { rtp = rtp; video = some (v, some c) }))
        (record b { video_rtp_transport = some v; closed = b.closed ++ c ∷ [] })

unfoldable pub rtcp_wrapped : ℕ → ℕ → Option ℕ → Bridge → Bridge
unfolding checkpoint
rtcp_wrapped rtp v c b =
    checkpoint [] (pushing (record { rtp = rtp; video = some (v, c) }))
      (record b { video_rtcp_transport = c; pli_task = true })

-- The wrap of the RTCP socket raises: it is closed, and the start goes on without PLI.
unfoldable pub rtcp_failed : ℕ → ℕ → Option ℕ → Bridge → Bridge
unfolding checkpoint
rtcp_failed rtp v c b =
    checkpoint [] (pushing (record { rtp = rtp; video = some (v, c) }))
      (record b { closed = b.closed ++ those c })

-- ffmpeg has pushed, or the wait for it has timed out.
unfoldable pub pushed : Bridge → Bridge
unfolding unwind_partial_start
pushed b =
    if b.snapshot == b.generation
    then record b { phase = idle; stats_task = true }
    else unwind_partial_start [] b

-- What the awaits of `_do_start` give back, its cancellation, and `stop`.
pub data Event : Type 0 where
  starts : Sockets → Event
  spawns : ℕ → Event
  wraps fails pushes cancels stops : Event

unfoldable pub resume : Event → Phase → Bridge → Bridge
unfolding begin spawned spawn_failed audio_wrapped video_wrapped rtcp_wrapped rtcp_failed pushed
    unwind_partial_start stop
resume stops ph b = stop b
resume (starts s) idle b = begin s b
resume (spawns p) (spawning s) b = spawned p s b
resume fails (spawning s) b = spawn_failed s b
resume cancels (spawning s) b = unwind_partial_start (all_sockets s) b
resume wraps (wrapping_audio s) b = audio_wrapped s.rtp s.video b
resume fails (wrapping_audio s) b = unwind_partial_start (all_sockets s) b
resume cancels (wrapping_audio s) b = unwind_partial_start (all_sockets s) b
resume wraps (wrapping_video r v c) b = video_wrapped r v c b
resume fails (wrapping_video r v c) b = unwind_partial_start (v ∷ those c) b
resume cancels (wrapping_video r v c) b = unwind_partial_start (r ∷ v ∷ those c) b
resume wraps (wrapping_rtcp r v c) b = rtcp_wrapped r v c b
resume fails (wrapping_rtcp r v c) b = rtcp_failed r v c b
resume cancels (wrapping_rtcp r v c) b = unwind_partial_start (r ∷ v ∷ those c) b
resume pushes (pushing s) b = pushed b
resume cancels (pushing s) b = unwind_partial_start (all_sockets s) b
resume e ph b = b

unfoldable pub step : Event → Bridge → Bridge
unfolding resume
step e b = resume e b.phase b
