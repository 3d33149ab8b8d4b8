-- ===== src/Lib.antt =====
-- Verification of the Intratone doorbell integration for Home Assistant
-- (custom_components/intratone).
--
-- A ring of the intercom becomes a SIP call. `sip_client.py` dials the server over one TCP
-- connection per call and negotiates audio and video; `digest_auth.py` answers the server's
-- challenges; `call_manager.py` binds the RTP sockets of a call, owns its SIP client and starts and
-- stops the bridge; the media endpoints of `audio_bridge.py` receive the RTP streams, answer the STUN
-- probes with `stun.py` and hand the video on to ffmpeg.
-- `coordinator.py` receives the pushes, has `call_manager.py` place the call when the user taps, and
-- shows the stream; `event.py` fires the doorbell; `rest_api.py` speaks to the server that sends the
-- pushes and opens the other accesses; `fcm_listener.py` keeps the client of the pushes running.
--
-- Files:
--   Base.antt, Base/        numbers, bytes, texts, lists, tests on them, and fallible chains
--   Stun.antt, Stun/        stun.py
--   Digest.antt             digest_auth.py
--   Sip/Types.antt          the data of sip_client.py, and the external code as the record `Libs`
--   Sip/Header/             the header parsers (_split_route_values, _extract_record_routes,
--                           _extract_uri_from_contact, _extract_video_endpoint); Routes: the theorem
--                           on _split_route_values
--   Sip/Build/              the message builders (_build_invite, _build_sdp, _build_ack, ...)
--   Sip/Client/             Wire: _send, _terminate; Ok: _handle_ok; Response: _handle_response,
--                           _handle_auth_challenge; Dispatch: _dispatch and the server's requests;
--                           Api: the public methods and the transport's callbacks
--   Sip/Receive.antt        data_received, _extract_one_message; Sip/Receive/ the theorems on them
--   Sip/Protocol/           what a call goes through: Step, Received, Asked, Runs, Requests, Endings
--   Rtp/Packet.antt         RTP packets, PLI packets and the VP8 keyframe test; Rtp/Keyframe.antt the
--                           payload descriptors
--   Rtp/Audio.antt          _RtpProtocol; Rtp/Audio/ the theorems on the silence loop
--   Rtp/Video.antt          _VideoRtpProtocol; Rtp/Video/ the theorems on the stream to ffmpeg
--   Rtp/Rtcp.antt           _VideoRtcpProtocol; Rtp/Pli.antt: _pli_loop
--   Bridge/                 AudioBridge: State (_do_start, stop, _unwind_partial_start); Account,
--                           Places, Owned, Runs and Late are the theorems
--   Calls/                  call_manager.py: Manager, Start (start_call) and Bridge (_spawn_bridge)
--                           model CallManager;
--                           Sockets, Life and Shutdown are the theorems on its RTP sockets,
--                           Reports, Ends, Steps and Moves what each step reports of the call
--   Coordinator/            coordinator.py: State (set_stream_url), Push (async_handle_push,
--                           _async_handle_call_cancel), Taps (async_ensure_call_started,
--                           async_open_door, async_toggle_backlight); Doorbell: event.py; Agree,
--                           Changes, Freed, World, Waiting, Runs, Updates, Rings and Answer are the
--                           theorems
--   Rest/                   rest_api.py: Json the bodies, Session one request (_post_form,
--                           _parse_json_response), Auth (authenticate_device, refresh_jwt), Calls
--                           (answer_call, open_access, _get_json, _mobipass_post), Access
--                           (list_access), Onboarding (the calls before there is an entry);
--                           Bounds, Failures, Verdicts, Openable, Recovery and Registered are the
--                           theorems
--   Fcm/                    fcm_listener.py: State (_supervisor, _run_once, _set_connected); Backoff and
--                           Told are the theorems
--
-- A method is a function from the state to the state, under Option where the code can raise: `none`
-- is an exception that leaves the method. The client's state is the record `Client`: the fields of
-- the class, the messages written to the transport, the callbacks made and the number of random
-- tokens drawn. `int` of a status code is a parameter too, and raises where it does. An object that is changed in place is put back into the state. Regular expressions,
-- `voip_utils`, `hashlib`, `secrets`, `socket.inet_aton` and the clocks are parameters.
--
-- Loops: `data_received` and `_extract_one_message` run on one round more than the buffer has bytes,
-- which is enough since every round takes a message off. The placeholder's packets are cut in as
-- many rounds as the frame has bytes.
--
-- The coordinator holds its manager, which calls back `set_stream_url` for each report of an active or
-- ended call (`deliver`, the lambdas of `async_setup_entry`). `start_call` is two steps, before and
-- after the await of its connection (`start_call_begins`, `start_call_resumes`), and so is
-- `async_ensure_call_started` around it (`ensure_begins`, `ensure_resumes`);
-- `ensure_call_started` composes these for a run in which nothing happens meanwhile. An event of the
-- run is a push, the beginning of a tap, the answer of a connection, the end of a tap after its wait
-- for the stream, or a step of the manager. That a start is cancelled while it waits is no event.
--
-- The REST client runs against any server, a function from the requests so far to the reply, with one
-- caller at a time.
--
-- The bridge is a step machine: its state holds where `_do_start` is suspended, and an event is what an
-- await gives back, a cancellation or a stop. The call manager is modelled without it: the calls that it
-- makes of the bridge are listed as effects, and what they return is an input.
--
-- Not modelled: the prewarmed ffmpeg, its command line and its output, the push client itself, the
-- entities other than the doorbell and the set-up of Home Assistant, which are input and output and
-- glue between these parts, and all log lines.
pub mod Base
pub mod Stun
pub mod Digest
pub mod Sip
pub mod Rtp
pub mod Bridge
pub mod Calls
pub mod Coordinator
pub mod Rest
pub mod Fcm
