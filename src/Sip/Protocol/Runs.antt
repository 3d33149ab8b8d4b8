-- ===== src/Sip/Protocol/Runs.antt =====
-- sip_client.py: a whole call, under any sequence of messages, requests and a lost connection.
use ha_intratone.Base.{ℕ, Bool, Option, none, some, List, [], ◌∷◌, ◌≡◌, refl, ◌>>=◌, ap, ◌∙◌}
use ha_intratone.Base.Bytes.{Bytes}
use ha_intratone.Base.Text.{Text}
use ha_intratone.Sip.Types.{
  SipMessage, CallEstablished, PendingCall, call_established, call_terminated, Client, Libs,
}
use ha_intratone.Sip.Client.{
  dispatch, connection_lost, send_open_door, send_mute_off, send_backlight,
  send_reinvite_audio_only, hang_up, call, init, connection_made,
}
use ha_intratone.Sip.Client.Api.{Dial, new_call}
use ha_intratone.Sip.Protocol.Step.{
  dialing, talking, phase, Live, Step, kept, answered, ended, Does,
}
use ha_intratone.Sip.Protocol.Received.{IsNumeric, dispatch-Step}
use ha_intratone.Sip.Protocol.Asked.{
  Asks, send_in_dialog_message-Step, send_reinvite_audio_only-Step, hang_up-Step,
  connection_lost-Step, Rests, RestsAsked, send_in_dialog_message-RestsAsked,
  send_reinvite_audio_only-RestsAsked, hang_up-Rests, dispatch-Rests, connection_lost-Rests,
}

-- What can reach a client after `call`.
pub data Input : Type 0 where
  received : SipMessage → Bytes → Input
  open_door : Text → Text → Input
  mute_off : Text → Input
  backlight : Text → Input
  drop_video : Text → Input
  hang : Text → Input
  lost : Input

-- The client after a request, whose answer goes to the caller.
abbrev client_of : Option (Bool × Client) → Option Client
client_of none = none
client_of (some (b, c)) = some c

unfoldable pub act : Libs → Input → Client → Option Client
act libs (received msg raw) c = dispatch libs msg raw c
act libs (open_door id code) c = client_of (send_open_door libs id code c)
act libs (mute_off id) c = client_of (send_mute_off libs id c)
act libs (backlight id) c = client_of (send_backlight libs id c)
act libs (drop_video id) c = client_of (send_reinvite_audio_only libs id c)
act libs (hang id) c = hang_up libs id c
act libs lost c = some (connection_lost c)

-- Every status code that is received is a number for `int`.
abbrev pub IsReadable : Libs → Input → Type 0
IsReadable libs (received msg raw) = IsNumeric libs msg
IsReadable libs _ = Unit {0}

abbrev pub AllNumeric : Libs → List Input → Type 0
AllNumeric libs [] = Unit {0}
AllNumeric libs (i ∷ is) = IsReadable libs i × AllNumeric libs is

-- A run ends at the first exception.
unfoldable pub run : Libs → List Input → Client → Option Client
run libs [] c = some c
run libs (i ∷ is) c = act libs i c >>= run libs is

-- What the owner of a call has been told, by how far the call has come.
pub data Told (id : Text) (c : Client) : Type 0 where
  silent :
      (k : PendingCall)
      → Live k c
      → k.call_id ≡ id
      → phase k.state ≡ dialing
      → c.events ≡ []
      → Told id c
  up :
      (k : PendingCall) (info : CallEstablished)
      → Live k c
      → k.call_id ≡ id
      → phase k.state ≡ talking
      → info.call_id ≡ id
      → c.events ≡ call_established info ∷ []
      → Told id c
  missed : c.call ≡ none → c.events ≡ call_terminated id ∷ [] → Told id c
  finished :
      (info : CallEstablished)
      → c.call ≡ none
      → info.call_id ≡ id
      → c.events ≡ call_established info ∷ call_terminated id ∷ []
      → Told id c

Asks-Does :
    {k : PendingCall} {c : Client} (m : Option (Bool × Client))
    → Asks k c m
    → Does k c (client_of m)
Asks-Does m (b, c', done, step) = (c', ap client_of done, step)

act-Step :
    (libs : Libs) (i : Input) (k : PendingCall) (c : Client)
    → Live k c
    → IsReadable libs i
    → Does k c (act libs i c)
unfolding act send_open_door send_mute_off send_backlight
act-Step libs (received msg raw) k c l n = dispatch-Step libs msg raw k c l n
act-Step libs (open_door id code) k c l n =
    Asks-Does _ (send_in_dialog_message-Step libs id k c l _)
act-Step libs (mute_off id) k c l n = Asks-Does _ (send_in_dialog_message-Step libs id k c l _)
act-Step libs (backlight id) k c l n = Asks-Does _ (send_in_dialog_message-Step libs id k c l _)
act-Step libs (drop_video id) k c l n = Asks-Does _ (send_reinvite_audio_only-Step libs id k c l)
act-Step libs (hang id) k c l n = hang_up-Step libs l id
act-Step libs lost k c l n = (connection_lost c, refl, connection_lost-Step k c l)

RestsAsked-Rests :
    {c : Client} (m : Option (Bool × Client))
    → c.call ≡ none
    → RestsAsked c m
    → Rests c (client_of m)
RestsAsked-Rests {c} m free e = (c, ap client_of e, free, refl)

act-Rests : (libs : Libs) (i : Input) (c : Client) → c.call ≡ none → Rests c (act libs i c)
unfolding act send_open_door send_mute_off send_backlight
act-Rests libs (received msg raw) c free = dispatch-Rests libs c free msg raw
act-Rests libs (open_door id code) c free =
    RestsAsked-Rests _ free (send_in_dialog_message-RestsAsked libs c free id _)
act-Rests libs (mute_off id) c free =
    RestsAsked-Rests _ free (send_in_dialog_message-RestsAsked libs c free id _)
act-Rests libs (backlight id) c free =
    RestsAsked-Rests _ free (send_in_dialog_message-RestsAsked libs c free id _)
act-Rests libs (drop_video id) c free =
    RestsAsked-Rests _ free (send_reinvite_audio_only-RestsAsked libs c free id)
act-Rests libs (hang id) c free = hang_up-Rests libs c free id
act-Rests libs lost c free = connection_lost-Rests c free

dialling-Told :
    {id : Text} {k : PendingCall} {c c' : Client}
    → k.call_id ≡ id
    → phase k.state ≡ dialing
    → c.events ≡ []
    → Step k c c'
    → Told id c'
dialling-Told e d quiet (kept k' l same p mono told) = silent k' l (same ∙ e) (p ∙ d) (told ∙ quiet)
dialling-Told e d quiet (answered k' info l same d' t mono i told) =
    up k' info l (same ∙ e) t (i ∙ e) (rw (told, quiet))
dialling-Told e d quiet (ended gone told) = missed gone (rw (told, quiet, e))

talking-Told :
    {id : Text} {k : PendingCall} {c c' : Client} (info : CallEstablished)
    → k.call_id ≡ id
    → phase k.state ≡ talking
    → info.call_id ≡ id
    → c.events ≡ call_established info ∷ []
    → Step k c c'
    → Told id c'
talking-Told info e t i heard (kept k' l same p mono told) =
    up k' info l (same ∙ e) (p ∙ t) i (told ∙ heard)
talking-Told info e t i heard (answered k' info' l same d t' mono i' told) = cc
talking-Told info e t i heard (ended gone told) = finished info gone i (rw (told, heard, e))

act-Told :
    (libs : Libs) (i : Input) {id : Text} {c : Client}
    → IsReadable libs i
    → Told id c
    → (c' : Client) × (act libs i c ≡ some c') × Told id c'
act-Told libs i {c} n (silent k l e d quiet) =
    let (c', done, step) = act-Step libs i k c l n in (c', done, dialling-Told e d quiet step)
act-Told libs i {c} n (up k info l e t same heard) =
    let (c', done, step) = act-Step libs i k c l n in
    (c', done, talking-Told info e t same heard step)
act-Told libs i {c} n (missed free heard) =
    let (c', done, free', same) = act-Rests libs i c free in (c', done, missed free' (same ∙ heard))
act-Told libs i {c} n (finished info free e heard) =
    let (c', done, free', same) = act-Rests libs i c free in
    (c', done, finished info free' e (same ∙ heard))

run-Told :
    (libs : Libs) (is : List Input) (id : Text) (c : Client)
    → AllNumeric libs is
    → Told id c
    → (c' : Client) × (run libs is c ≡ some c') × Told id c'
unfolding run
run-Told libs [] id c n h = (c, refl, h)
run-Told libs (i ∷ is) id c n h =
    let (c₁, done, h₁) = act-Told libs i n.0 h in
    let (c₂, done₂, h₂) = run-Told libs is id c₁ n.1 h₁ in (c₂, rw done done₂, h₂)

placed-Told :
    (libs : Libs) (d : Dial) (host : Text) (port : Option ℕ)
    → (id : Text) × (c : Client) × (call libs d (connection_made port (init host)) ≡ some (id, c))
      × Told id c
unfolding call connection_made init phase
placed-Told libs d host port = (
  _,
  _,
  refl,
  silent (new_call libs d (connection_made port (init host)) (libs.token_hex 0))
      (record { placed = refl; going = λ e. cc; connected = λ e. cc }) refl refl refl,
)

-- Over an open connection a call is placed, and then no sequence of received messages, requests of
-- the user and losses of the connection raises an exception, provided that every status code received is a number
-- for `int`. In the end its owner has been told
-- nothing while the call is being dialled, only of its answer while it is up, and of its end just
-- once when it is gone, after the answer if there was one; each time under the id of that call.
pub call-Told :
    (libs : Libs) (d : Dial) (host : Text) (port : Option ℕ) (is : List Input)
    → AllNumeric libs is
    → (id : Text) × (c c' : Client) × (call libs d (connection_made port (init host))
        ≡ some (id, c))
      × (run libs is c ≡ some c')
      × Told id c'
call-Told libs d host port is n =
    let (id, c, placed, h) = placed-Told libs d host port in
    let (c', done, h') = run-Told libs is id c n h in (id, c, c', placed, done, h')
