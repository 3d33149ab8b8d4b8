-- ===== src/Sip/Client/Wire.antt =====
-- sip_client.py: sending, and the end of a call.
use ha_intratone.Base.{suc, Bool, true, false, Option, none, some, [], ◌∷◌, ◌++◌}
use ha_intratone.Base.Bytes.{Bytes}
use ha_intratone.Base.Text.{Text}
use ha_intratone.Sip.Types.{
  CallState, terminated, PendingCall, Transport, absent, active, closing, call_terminated, Client,
  Libs,
}

-- `call.state != CallState.TERMINATED`
unfoldable pub is_live : CallState → Bool
is_live terminated = false
is_live _ = true

-- A change of the call object, which `_call` refers to.
unfoldable pub put_call : PendingCall → Client → Client
put_call call c = record c { call = some call }

unfoldable pub written : Transport → Bytes → Client → Option Client
written absent msg c = none
written (active p) msg c = some (record c { sent = c.sent ++ msg ∷ [] })
written (closing p) msg c = some (record c { sent = c.sent ++ msg ∷ [] })

-- `_send`, with its assertion. What is written to a closing transport is listed too.
unfoldable pub send : Bytes → Client → Option Client
unfolding written
send msg c = written c.transport msg c

-- `if transport is not None and not transport.is_closing(): transport.close()`
unfoldable pub closed : Transport → Transport
closed absent = absent
closed (active p) = closing p
closed (closing p) = closing p

unfoldable pub end_call : CallState → PendingCall → Client → Client
unfolding closed
end_call terminated call c = c
end_call _ call c = record c {
  call = none;
  events = c.events ++ call_terminated call.call_id ∷ [];
  transport = closed c.transport;
}

-- `_terminate`
unfoldable pub terminate : PendingCall → Client → Client
unfolding end_call
terminate call c = end_call call.state call c

-- A fresh token, and the client that has drawn it.
abbrev pub draw : Libs → Client → Text × Client
draw libs c = (libs.token_hex c.drawn, record c { drawn = suc c.drawn })
