-- ===== src/Fcm/State.antt =====
-- fcm_listener.py: the supervisor, one run of the client, and the connection state.
use ha_intratone.Base.{
  ℕ, ◌*◌, min, ltb, Bool, true, false, List, [], ◌∷◌, ◌++◌, not, if◌then◌else◌, ◌&&◌,
}
use ha_intratone.Base.Text.{Text, truthy, text_eq}

-- The fields, with what the state listeners were told, and whether the repair for a stale token stands.
pub record Listener : Type 0 where
  pub stopping : Bool
  pub connected : Bool
  pub told : List Bool
  pub stale_token : Bool

-- `__init__`
unfoldable pub new_listener : Listener
new_listener = record { stopping = false; connected = false; told = []; stale_token = false }

-- `a == b`
abbrev pub same : Bool → Bool → Bool
same true b = b
same false b = not b

-- `_set_connected`
unfoldable pub set_connected : Bool → Listener → Listener
set_connected connected l =
    if same l.connected connected
    then l
    else record l { connected = connected; told = l.told ++ connected ∷ [] }

-- `_check_token_registration`, with `store.fcm_token` and the live token.
unfoldable pub check_token_registration : Text → Text → Listener → Listener
unfolding text_eq
check_token_registration registered token l =
    if truthy registered && truthy token && not (text_eq token registered)
    then record l { stale_token = true }
    else record l { stale_token = false }

-- What a health check finds: the client has stopped itself, or whether it is started.
pub data Health : Type 0 where
  dead : Health
  alive : Bool → Health

-- The health checks of a run, until the client is dead or the listener is stopping.
unfoldable pub health_checks : List Health → Listener → Listener
unfolding set_connected
health_checks [] l = l
health_checks (dead ∷ hs) l = l
health_checks (alive started ∷ hs) l =
    if l.stopping then l else health_checks hs (set_connected started l)

-- What a run of the client gives: it fails before it is started, or it comes up, with its token and
-- `store.fcm_token`, and is then looked after.
pub data Session : Type 0 where
  refused : Session
  up : Bool → Text → Text → List Health → Session

-- `_run_once`
unfoldable pub run_once : Session → Listener → Listener
unfolding set_connected check_token_registration health_checks
run_once refused l = l
run_once (up started registered token hs) l =
    set_connected false
      (health_checks hs (check_token_registration registered token (set_connected started l)))

-- `async_stop`
unfoldable pub async_stop : Listener → Listener
unfolding set_connected
async_stop l = set_connected false (record l { stopping = true })

-- `async_start`
unfoldable pub async_start : Listener → Listener
async_start l = record l { stopping = false }

abbrev pub backoff_initial : ℕ
backoff_initial = 5

abbrev pub backoff_max : ℕ
backoff_max = 300

abbrev pub healthy_run : ℕ
healthy_run = 60

-- How a run ends in the supervisor: it returns, or it raises after some seconds.
pub data Run : Type 0 where
  graceful : Run
  crash : ℕ → Run

-- The pause after a crash, from the back-off so far.
unfoldable pub pause : ℕ → ℕ → ℕ
pause elapsed backoff = if ltb healthy_run elapsed then backoff_initial else backoff

-- The pauses of `_supervisor`, from the back-off so far.
unfoldable pub pauses : ℕ → List Run → List ℕ
unfolding pause
pauses backoff [] = []
pauses backoff (graceful ∷ rs) = []
pauses backoff (crash elapsed ∷ rs) =
    pause elapsed backoff ∷ pauses (min (pause elapsed backoff * 2) backoff_max) rs

-- `_supervisor`
unfoldable pub supervisor : List Run → List ℕ
unfolding pauses
supervisor rs = pauses backoff_initial rs
