-- ===== src/Sip/Protocol/Step.antt =====
-- sip_client.py: how one input can change a client that has a live call.
use ha_intratone.Base.{
  true, ℕ, Option, List, ◌>>=◌, ◌∙◌, ◌≤◌, none, some, [], ◌∷◌, ◌++◌, ◌≡◌, ◌≢◌, refl, arith,
}
use ha_intratone.Base.Bytes.{Bytes}
use ha_intratone.Sip.Types.{
  CallState, inviting, authenticating, confirmed, terminated, CallEstablished, PendingCall,
  Transport, absent, active, closing, call_established, call_terminated, Client,
}
use ha_intratone.Sip.Client.{is_live, send, terminate}

-- How far a call has come.
pub data Phase : Type 0 where
  dialing talking over : Phase

unfoldable pub phase : CallState → Phase
phase inviting = dialing
phase authenticating = dialing
phase confirmed = talking
phase terminated = over

-- A client with a call in progress, over a transport.
pub record Live (k : PendingCall) (c : Client) : Type 0 where
  pub placed : c.call ≡ some k
  pub going : phase k.state ≢ over
  pub connected : c.transport ≢ absent

-- The call goes on in its phase, the answer is reported, or the end is reported.
pub data Step (k : PendingCall) (c c' : Client) : Type 0 where
  kept :
      (k' : PendingCall)
      → Live k' c'
      → k'.call_id ≡ k.call_id
      → phase k'.state ≡ phase k.state
      → k.cseq ≤ k'.cseq
      → c'.events ≡ c.events
      → Step k c c'
  answered :
      (k' : PendingCall) (info : CallEstablished)
      → Live k' c'
      → k'.call_id ≡ k.call_id
      → phase k.state ≡ dialing
      → phase k'.state ≡ talking
      → k.cseq ≤ k'.cseq
      → info.call_id ≡ k.call_id
      → c'.events ≡ c.events ++ call_established info ∷ []
      → Step k c c'
  ended : c'.call ≡ none → c'.events ≡ c.events ++ call_terminated k.call_id ∷ [] → Step k c c'

-- The client with one more message written.
abbrev pub with_sent : Bytes → Client → Client
with_sent msg c = record c { sent = c.sent ++ msg ∷ [] }

module _ (msg : Bytes) (c : Client) where
  send_at : (t : Transport) → c.transport ≡ t → t ≢ absent → send msg c ≡ some (with_sent msg c)
  unfolding send
  send_at absent e up = absurd (up refl)
  send_at (active p) e up = ground arith
  send_at (closing p) e up = ground arith

  pub send_lem : c.transport ≢ absent → send msg c ≡ some (with_sent msg c)
  send_lem up = send_at c.transport refl up

-- What `_terminate` does to a call that is not over.
pub terminate_at :
    (s : CallState) (k : PendingCall) (c : Client)
    → k.state ≡ s
    → phase s ≢ over
    → ((terminate k c).call ≡ none)
      × ((terminate k c).events ≡ c.events ++ call_terminated k.call_id ∷ [])
unfolding terminate phase
terminate_at inviting k c e going = ground arith
terminate_at authenticating k c e going = ground arith
terminate_at confirmed k c e going = ground arith
terminate_at terminated k c e going = absurd (going refl)

-- The end of a live call, after messages were sent.
pub terminate-ended :
    (k k' : PendingCall) (c c' : Client)
    → phase k'.state ≢ over
    → k'.call_id ≡ k.call_id
    → c'.events ≡ c.events
    → Step k c (terminate k' c')
terminate-ended k k' c c' going id same =
    let (gone, told) = terminate_at k'.state k' c' refl going in ended gone (rw (told, same, id))

-- The handler does not raise, and what it does is one step.
abbrev pub Does : PendingCall → Client → Option Client → Type 0
Does k c m = (c' : Client) × (m ≡ some c') × Step k c c'

module _ {k : PendingCall} {c : Client} (l : Live k c) where
  pub unchanged : Step k c c
  unchanged = kept k l refl refl (omega arith) refl

  -- Nothing but messages was added.
  pub sent-Step : (msg : Bytes) → Step k c (with_sent msg c)
  sent-Step msg =
      kept k (record { placed = l.placed; going = l.going; connected = l.connected }) refl refl
        (omega arith) refl

  -- A call that goes on in the same phase, put back after a message.
  pub updated-Step :
      (k' : PendingCall) (msgs : List Bytes) (n : ℕ)
      → k'.call_id ≡ k.call_id
      → phase k'.state ≡ phase k.state
      → k.cseq ≤ k'.cseq
      → Step k c (record c { call = some k'; sent = msgs; drawn = n })
  updated-Step k' msgs n id same mono =
      kept k' (record { placed = refl; going = rw same l.going; connected = l.connected }) id same
        mono refl

-- A step depends on the client before it through the events alone.
rebase :
    {k : PendingCall} {c₁ c' : Client} (c : Client)
    → c₁.events ≡ c.events
    → Step k c₁ c'
    → Step k c c'
rebase c e (kept k' l id same mono quiet) = kept k' l id same mono (quiet ∙ e)
rebase c e (answered k' info l id d t mono i told) = answered k' info l id d t mono i (rw (told, e))
rebase c e (ended gone told) = ended gone (rw (told, e))

module _ {k : PendingCall} {c : Client} (l : Live k c) (msg : Bytes) where
  pub with_sent-Live : Live k (with_sent msg c)
  with_sent-Live = record { placed = l.placed; going = l.going; connected = l.connected }

  -- First a message, then what follows it.
  pub after_send :
      (f : Client → Option Client)
      → Does k (with_sent msg c) (f (with_sent msg c))
      → Does k c (send msg c >>= f)
  after_send f (c', done, step) = (c', rw (send_lem msg c l.connected) done, rebase c refl step)

pub draw-Does :
    {k : PendingCall} {c : Client} {m : Option Client} (n : ℕ)
    → Does k (record c { drawn = n }) m
    → Does k c m
draw-Does {c} n (c', done, step) = (c', done, rebase c refl step)

pub is_live_of_going : (s : CallState) → phase s ≢ over → is_live s ≡ true
unfolding phase is_live
is_live_of_going inviting going = refl
is_live_of_going authenticating going = refl
is_live_of_going confirmed going = refl
is_live_of_going terminated going = absurd (going refl)
