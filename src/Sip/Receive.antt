-- ===== src/Sip/Receive.antt =====
-- sip_client.py: the framing of SIP messages in the TCP stream (`data_received`).
mod Cut
mod Drain
pub mod Chunks
use ha_intratone.Base.{
  Bool, false, ◌==◌, ◌&&◌, ℕ, zero, suc, ◌+◌, Option, none, some, ◌++◌, length, ◌>>=◌, take, drop,
  get_or, ltb, if◌then◌else◌, List, [], ◌∷◌,
}
use ha_intratone.Base.Bytes.{Bytes}
use ha_intratone.Sip.Types.{SipMessage, Client, Libs}
use ha_intratone.Sip.Client.{dispatch}

-- The buffer begins with CR LF CR LF.
unfoldable pub at_blank_line : Bytes → Bool
at_blank_line (a ∷ b ∷ c ∷ d ∷ rest) = a == 13 && b == 10 && c == 13 && d == 10
at_blank_line _ = false

-- `self._rx_buf.find(b"\r\n\r\n")`
unfoldable pub find_blank_line : Bytes → Option ℕ
unfolding at_blank_line
find_blank_line [] = none
find_blank_line (b ∷ bs) =
    let later = find_blank_line bs in
    if at_blank_line (b ∷ bs) then some 0 else elim later [ none ↦ none | some i ↦ some (suc i) ]

-- One message and what stands behind it: `none` while the buffer is incomplete.
unfoldable pub frame_from : Libs → Bytes → Option ℕ → Option (Bytes × Bytes)
frame_from libs buf none = none
frame_from libs buf (some header_end) =
    let total = header_end + 4 + get_or (libs.content_length (take (header_end + 4) buf)) 0 in
    if ltb (length buf) total then none else some (take total buf, drop total buf)

unfoldable pub frame : Libs → Bytes → Option (Bytes × Bytes)
unfolding frame_from
frame libs buf = frame_from libs buf (find_blank_line buf)

-- `_extract_one_message`: the message, if there is one, and the buffer that is left. A message that
-- does not parse is dropped. Every round takes bytes away, so `suc (length buf)` rounds are enough.
unfoldable pub extract_one_message : Libs → ℕ → Bytes → Option (Bytes × SipMessage) × Bytes
extract_one_message libs zero buf = (none, buf)
extract_one_message libs (suc fuel) buf = elim (frame libs buf) [
  | none ↦ (none, buf)
  | some (raw, rest) ↦ elim (libs.parse_sip raw) [
    | none ↦ extract_one_message libs fuel rest
    | some msg ↦ (some (raw, msg), rest)
  ]
]

-- The client with its `_rx_buf`.
pub record Receiver : Type 0 where
  pub client : Client
  pub rx_buf : Bytes

-- One round of the loop: stop where no message was found, else handle it and go on.
unfoldable pub handle_found :
    Libs
    → (Receiver → Option Receiver)
    → Option (Bytes × SipMessage) × Bytes
    → Client
    → Option Receiver
handle_found libs again (none, rest) c = some (record { client = c; rx_buf = rest })
handle_found libs again (some (raw, msg), rest) c =
    dispatch libs msg raw c >>= λ c'. again (record { client = c'; rx_buf = rest })

-- The loop of `data_received`, on as many rounds as the buffer has bytes, and one more.
unfoldable pub receive : Libs → ℕ → Receiver → Option Receiver
unfolding extract_one_message handle_found
receive libs zero r = some r
receive libs (suc fuel) r =
    handle_found libs (receive libs fuel)
      (extract_one_message libs (suc (length r.rx_buf)) r.rx_buf) r.client

-- `data_received`
unfoldable pub data_received : Libs → Bytes → Receiver → Option Receiver
unfolding receive
data_received libs chunk r =
    let buf = r.rx_buf ++ chunk in receive libs (suc (length buf)) (record r { rx_buf = buf })
