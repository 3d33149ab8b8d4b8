-- ===== src/Calls/Tests.antt =====
-- Runs of the call manager.
use ha_intratone.Base.{none, some, [], ◌∷◌, ◌≡◌, refl, true}
use ha_intratone.Base.Text.{codes}
use ha_intratone.Sip.Types.{Libs}
use ha_intratone.Sip.Client.{call, connection_made, init}
use ha_intratone.Calls.Manager.{Manager, new_manager, async_start, async_stop}
use ha_intratone.Calls.Start.{Ring, Waiting, start_call_begins, start_call_resumes}

abbrev libs : Libs
libs = record {
  content_length = λ b. none;
  parse_sip = λ b. none;
  via_lines = λ b. [];
  record_route_lines = λ b. [];
  rtp_info = λ b. none;
  video_port = λ b. none;
  connection_ip = λ b. none;
  kv_matches = λ b. [];
  md5_hex = λ b. [];
  token_hex = λ n. codes "0011223344556677";
  hex_value = λ t. 0;
  sip_instance = codes "urn:uuid:0";
  int_of = λ s. none;
}

abbrev visit : Ring
visit = record {
  target_uri = codes "sip:door@192.0.2.1";
  sip_username = codes "user";
  sip_password = codes "secret";
  monotonic_ns = 7;
  rtp_socket = some 16384;
  rtp_pair = some (16386, 16387);
}

abbrev idle : Manager
idle = async_start (new_manager (codes "192.0.2.7") true)

abbrev begun : Manager
begun = (start_call_begins visit idle).1

abbrev start_of_visit : Waiting
start_of_visit = record { asked = visit; rtp_port = 16384; video_rtp_port = some 16386 }

-- The connection of the visit is made.
abbrev rung : Manager
rung = (start_call_resumes libs start_of_visit (some (some 50000)) begun).1

-- The three sockets of the ring are closed by the stop, before and after the connection is made.
three_closed : (async_stop rung).closed_sockets ≡ 16384 ∷ 16386 ∷ 16387 ∷ []
unfolding async_stop start_call_begins start_call_resumes async_start new_manager call
    connection_made init
three_closed = refl

three_closed_early : (async_stop begun).closed_sockets ≡ 16384 ∷ 16386 ∷ 16387 ∷ []
unfolding async_stop start_call_begins async_start new_manager
three_closed_early = refl

-- A second start while the first one waits forgets the sockets of the first: the stop does not close
-- them.
abbrev later_visit : Ring
later_visit = record visit { rtp_socket = some 16388; rtp_pair = some (16390, 16391) }

first_forgotten :
    (async_stop (start_call_begins later_visit begun).1).closed_sockets ≡ 16388 ∷ 16390 ∷ 16391 ∷ []
unfolding async_stop start_call_begins async_start new_manager
first_forgotten = refl
