-- ===== src/Sip/Client/Dispatch.antt =====
-- sip_client.py: the routing of received messages.
use ha_intratone.Base.{Bool, false, Option, none, some, ◌>>=◌, ◌&&◌, not, if◌then◌else◌}
use ha_intratone.Base.Bytes.{Bytes}
use ha_intratone.Base.Text.{Text, codes, truthy, lookup, text_eq, lower}
use ha_intratone.Sip.Types.{SipMessage, PendingCall, Client, Libs}
use ha_intratone.Sip.Build.{build_200_for, build_reinvite_answer}
use ha_intratone.Sip.Client.Wire.{send, terminate}
use ha_intratone.Sip.Client.Response.{handle_response}

-- `msg_call_id and msg_call_id != call.call_id`
abbrev pub is_foreign : Option Text → Text → Bool
is_foreign none call_id = false
is_foreign (some id) call_id = truthy id && not (text_eq id call_id)

-- `_handle_bye`
unfoldable pub handle_bye : Libs → PendingCall → SipMessage → Bytes → Client → Option Client
unfolding send terminate
handle_bye libs call msg raw c = do
  c' ← send (build_200_for libs msg raw) c
  some (terminate call c')

-- `_handle_reinvite`
unfoldable pub handle_reinvite : Libs → PendingCall → SipMessage → Bytes → Client → Option Client
unfolding send
handle_reinvite libs call msg raw c = send (build_reinvite_answer libs call msg raw) c

-- `_handle_server_message`
unfoldable pub handle_server_message : Libs → SipMessage → Bytes → Client → Option Client
unfolding send
handle_server_message libs msg raw c = send (build_200_for libs msg raw) c

-- A request by its method; an ACK and any other method change nothing.
unfoldable pub handle_request :
    Libs → Text → PendingCall → SipMessage → Bytes → Client → Option Client
unfolding handle_bye handle_reinvite handle_server_message
handle_request libs method call msg raw c =
    if text_eq method (codes "bye")
    then handle_bye libs call msg raw c
    else if text_eq method (codes "invite")
    then handle_reinvite libs call msg raw c
    else if text_eq method (codes "message")
    then handle_server_message libs msg raw c
    else some c

unfoldable pub by_method :
    Libs → Option Text → PendingCall → SipMessage → Bytes → Client → Option Client
unfolding handle_request handle_response
by_method libs none call msg raw c = handle_response libs call msg raw c
by_method libs (some method) call msg raw c = handle_request libs (lower method) call msg raw c

unfoldable pub dispatch_to : Libs → Option PendingCall → SipMessage → Bytes → Client → Option Client
unfolding by_method
dispatch_to libs none msg raw c = some c
dispatch_to libs (some call) msg raw c =
    if is_foreign (lookup (codes "call-id") msg.headers) call.call_id
    then some c
    else by_method libs msg.method call msg raw c

-- `_dispatch`
unfoldable pub dispatch : Libs → SipMessage → Bytes → Client → Option Client
unfolding dispatch_to
dispatch libs msg raw c = dispatch_to libs c.call msg raw c
