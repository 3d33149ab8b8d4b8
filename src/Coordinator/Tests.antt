-- ===== src/Coordinator/Tests.antt =====
-- Runs of the coordinator.
use ha_intratone.Base.{
  ◌≢◌, length, ◌≡◌, refl, some, none, true, false, [], ◌∷◌, Option, Bool, inr, drop,
}
use ha_intratone.Base.Text.{Text, codes, text_eq}
use ha_intratone.Sip.Types.{Libs}
use ha_intratone.Calls.Manager.{Manager, new_manager, async_start}
use ha_intratone.Calls.Start.{start_call_begins, start_call_resumes}
use ha_intratone.Sip.Client.{call, connection_made, init}
use ha_intratone.Calls.Shutdown.{start, step}
use ha_intratone.Coordinator.State.{
  Seconds, PendingInvite, Coordinator, new_coordinator, attach_call_manager,
}
use ha_intratone.Coordinator.Push.{Payload, handle_push}
use ha_intratone.Coordinator.Taps.{
  Network, Placing, ring_of, ensure_begins, ensure_resumes, ensure_call_started,
}
use ha_intratone.Coordinator.Agree.{active_of}
use ha_intratone.Coordinator.Runs.{
  push, in_manager, happens, Reached, attached, next, view, connects,
}
use ha_intratone.Coordinator.Rings.{Latest, reached-Rung}
use ha_intratone.Coordinator.Updates.{heard}
use ha_intratone.Coordinator.Answer.{good, Picked, ensure-placed}

abbrev libs : Libs
libs = record {
  content_length = λ b. none;
  parse_sip = λ b. none;
  via_lines = λ b. [];
  record_route_lines = λ b. [];
  rtp_info = λ b. none;
  video_port = λ b. none;
  connection_ip = λ b. none;
  kv_matches = λ b. [];
  md5_hex = λ b. [];
  token_hex = λ n. codes "0011223344556677";
  hex_value = λ t. 0;
  sip_instance = codes "urn:uuid:0";
  int_of = λ s. none;
}

abbrev no_float : Text → Option Seconds
no_float s = none

abbrev visitor : Payload
visitor =
    (codes "call_id", codes "1")
    ∷ (codes "message", codes "Hall")
    ∷ (codes "LOGIN_TO_CALL", codes "door")
    ∷ (codes "LOGIN", codes "user")
    ∷ (codes "PASS", codes "secret")
    ∷ (codes "ip_adress", codes "192.0.2.1")
    ∷ []

abbrev host : Text
host = codes "192.0.2.7"

abbrev fresh : Coordinator
fresh = attach_call_manager (new_manager host true) new_coordinator

abbrev manager : Manager
manager = async_start (new_manager host true)

abbrev or_fresh : Option Coordinator → Coordinator
or_fresh none = fresh
or_fresh (some c) = c

abbrev ready : Coordinator
ready = or_fresh (happens libs no_float (in_manager start) fresh)

abbrev rung : Coordinator
rung = or_fresh (happens libs no_float (push 100 visitor) ready)

abbrev network : Network
network = good 7 16384 (16386, 16387) (some 50000)

abbrev begun : Coordinator
begun = (ensure_begins network rung).1

abbrev invite : PendingInvite
invite = record {
  fcm_call_id = codes "1";
  target_uri = codes "sip:door@192.0.2.1";
  target_host = codes "192.0.2.1";
  sip_username = codes "user";
  sip_password = codes "secret";
  started = false;
  answer_called = false;
  stream_ready = false;
  max_duration_s = none;
}

ready_ok : happens libs no_float (in_manager start) fresh ≡ some ready
unfolding happens step attach_call_manager
ready_ok = refl

rung_ok : happens libs no_float (push 100 visitor) ready ≡ some rung
unfolding happens handle_push step text_eq attach_call_manager new_manager async_start
rung_ok = refl

abbrev marked : PendingInvite
marked = record invite { started = true }

abbrev kept : Placing
kept = record {
  ring_seq = 1;
  invite = marked;
  start = record { asked = ring_of marked network; rtp_port = 16384; video_rtp_port = some 16386 };
}

abbrev viewed : Coordinator
viewed = (ensure_resumes libs kept (some (some 50000)) begun).1

at_rung : (loose : Bool) → Reached libs no_float (new_manager host true) loose rung none
at_rung loose =
    next (push 100 visitor) (next (in_manager start) attached tt ready_ok) (inr refl) rung_ok

waiting : (loose : Bool) → Reached libs no_float (new_manager host true) loose begun (some kept)
unfolding happens handle_push step text_eq attach_call_manager new_coordinator new_manager
    async_start ensure_begins start_call_begins
waiting loose = view network (at_rung loose)

run : (loose : Bool) → Reached libs no_float (new_manager host true) loose viewed none
run loose = connects kept (some (some 50000)) (waiting loose) (inr refl)

rung_pending : rung.pending ≡ some invite
unfolding happens handle_push step text_eq attach_call_manager new_coordinator new_manager
    async_start
rung_pending = refl

rung_manager : rung.call_manager ≡ some manager
unfolding happens handle_push step text_eq attach_call_manager new_coordinator new_manager
    async_start
rung_manager = refl

reached-Rung_example :
    (length (heard viewed.updates).triggered ≡ viewed.ring_seq)
    × Latest viewed.ring_seq viewed.ringing (heard viewed.updates).triggered
reached-Rung_example =
    reached-Rung libs no_float (new_manager host true) true viewed none (run true)

ensure-placed_example : Picked invite rung (ensure_call_started libs network rung)
unfolding async_start new_manager
ensure-placed_example =
    ensure-placed libs 7 16384 (16386, 16387) (some 50000) invite manager rung rung_pending refl
      refl rung_manager refl refl

-- A second push while the start of the first one waits, and a tap on it once the call is placed: the
-- tap is refused, and the coordinator tracks no call though one is active.
abbrev neighbour : Payload
neighbour = (codes "call_id", codes "2") ∷ drop 1 visitor

abbrev overtaken : Coordinator
overtaken =
    (ensure_call_started libs network (
      (ensure_resumes libs kept (some (some 50000))
        (or_fresh (happens libs no_float (push 110 neighbour) begun))).1)).1

overtaken_lost : (overtaken.active_sip_call_id ≡ none) × (active_of overtaken.call_manager ≢ none)
unfolding happens handle_push step text_eq attach_call_manager new_coordinator new_manager
    async_start ensure_begins start_call_begins ensure_call_started start_call_resumes
    ensure_resumes call connection_made init
overtaken_lost = (refl, λ e. cc)
