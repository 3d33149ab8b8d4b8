-- ===== src/Sip/Receive/Chunks.antt =====
-- sip_client.py: how TCP cuts the stream into reads makes no difference.
use ha_intratone.Base.{
  ℕ, suc, ◌≤◌, ◌<◌, Option, none, some, ◌++◌, ◌≡◌, refl, sym, arith, length, append_assoc,
  length-append, ◌∙◌, ap, ◌>>=◌,
}
use ha_intratone.Base.Bytes.{Bytes}
use ha_intratone.Sip.Types.{Libs}
use ha_intratone.Sip.Receive.{Receiver, frame, data_received}
use ha_intratone.Sip.Receive.Drain.{
  drain, data_received-drain, drain-append, drain-shorter, drain_complete,
}

-- The second read, after what the first has left.
second_read :
    (libs : Libs) (k : ℕ) (buf b : Bytes) (m : Option Receiver)
    → ((r : Receiver) → m ≡ some r → length r.rx_buf ≤ length buf)
    → length (buf ++ b) < k
    → (m >>= λ r. drain libs k (r.rx_buf ++ b) r.client) ≡ (m >>= data_received libs b)
second_read libs k buf b none short h = refl
second_read libs k buf b (some r) short h = sym (
    data_received-drain libs k b r
      (omega (arith, short r refl, length-append r.rx_buf b, length-append buf b)))

-- Two reads do what one read of both their bytes does: the messages are cut off, parsed and handled
-- alike, an exception is raised by both or by neither, and the same bytes are left in the buffer.
pub data_received-append :
    (libs : Libs) (a b : Bytes) (r : Receiver)
    → data_received libs (a ++ b) r ≡ (data_received libs a r >>= data_received libs b)
data_received-append libs a b r =
    let buf = r.rx_buf in
    let k = suc (length ((buf ++ a) ++ b)) in
    let n = suc (length (buf ++ a)) in
    let regroup = append_assoc buf a b in
    data_received-drain libs k (a ++ b) r (omega (arith, ap length regroup))
    ∙ ap (λ s. drain libs k s r.client) (sym regroup)
    ∙ drain-append libs n k k (buf ++ a) b r.client (omega arith) (omega arith) (omega arith)
    ∙ second_read libs k (buf ++ a) b (drain libs n (buf ++ a) r.client)
        (λ r' e. drain-shorter libs n (buf ++ a) r.client r' e) (omega arith)
    ∙ ap (λ m. m >>= data_received libs b) (sym (data_received-drain libs n a r (omega arith)))

-- When a read has been handled, no complete message is left in the buffer.
pub data_received_complete :
    (libs : Libs) (chunk : Bytes) (r r' : Receiver)
    → data_received libs chunk r ≡ some r'
    → frame libs r'.rx_buf ≡ none
data_received_complete libs chunk r r' h =
    let n = suc (length (r.rx_buf ++ chunk)) in
    drain_complete libs n (r.rx_buf ++ chunk) r.client r' (omega arith)
      (sym (data_received-drain libs n chunk r (omega arith)) ∙ h)
