-- ===== src/Ipc/Core/Routing.antt =====
-- `send_fast` and `recv_fast`: which channel a message goes to or comes from.
use zeroxos_os.Base.{
  ℕ, ◌≡◌, refl, Option, none, some, List, [], ◌∷◌, if◌then◌else◌, ◌==◌, arith, add64,
}
use zeroxos_os.Ipc.Message.{FastMessage}
use zeroxos_os.Ipc.Channel
use zeroxos_os.Ipc.Channel.{FastChannel, SendResult}
use zeroxos_os.Ipc.Core.{
  IpcCore, channel_full, no_such_channel, SendFast, done, failed, send_loop, send_fast, recv_loop,
  recv_fast,
}

-- The channel that an id names.
abbrev pub chan_of : ℕ → List (ℕ × ℕ × FastChannel) → Option FastChannel
chan_of id [] = none
chan_of id ((i, _, chan) ∷ rest) = if i == id then some chan else chan_of id rest

-- What a send reports of the channel it was for.
abbrev pub report : FastMessage → Option FastChannel → SendFast
report msg none = failed no_such_channel
report msg (some chan) = elim (Channel.send chan msg).0 [
  | SendResult.sent ↦ done
  | SendResult.full _ ↦ failed channel_full
]

send_loop_result :
    (id : ℕ) (msg : FastMessage) (l : List (ℕ × ℕ × FastChannel))
    → (send_loop id msg l).0 ≡ report msg (chan_of id l)
unfolding send_loop
send_loop_result id msg [] = refl
send_loop_result id msg ((i, key, chan) ∷ rest) = ground (arith, send_loop_result id msg rest)

abbrev pub map_option : (FastChannel → FastChannel) → Option FastChannel → Option FastChannel
map_option f none = none
map_option f (some c) = some (f c)

send_loop_chan :
    (id j : ℕ) (msg : FastMessage) (l : List (ℕ × ℕ × FastChannel))
    → chan_of j (send_loop id msg l).1
      ≡ (if id == j then map_option (λ c. (Channel.send c msg).1) (chan_of j l) else chan_of j l)
unfolding send_loop
send_loop_chan id j msg [] = ground arith
send_loop_chan id j msg ((i, key, chan) ∷ rest) = ground (arith, send_loop_chan id j msg rest)

-- `send_fast` reports what the first channel with the id answers to the message, or that there is
-- no such channel; only that channel changes, by its own `send`; the count of sent messages grows
-- by one exactly on success, and the count of received ones stays.
pub send_fast_lem :
    (c : IpcCore) (id : ℕ) (msg : FastMessage)
    → let (r, c') = send_fast c id msg in
      (r ≡ report msg (chan_of id c.fast_channels))
      × ((j : ℕ)
          → chan_of j c'.fast_channels ≡ (
              if id == j
              then map_option (λ ch. (Channel.send ch msg).1) (chan_of j c.fast_channels)
              else chan_of j c.fast_channels))
      × (c'.messages_sent ≡ elim r [ done ↦ add64 c.messages_sent 1 | failed _ ↦ c.messages_sent ])
      × (c'.messages_received ≡ c.messages_received)
unfolding send_fast
send_fast_lem c id msg = (
  ground (arith, send_loop_result id msg c.fast_channels),
  λ j. ground (arith, send_loop_chan id j msg c.fast_channels),
  ground arith,
  ground arith,
)

recv_loop_result :
    (id : ℕ) (l : List (ℕ × ℕ × FastChannel))
    → (recv_loop id l).0 ≡ elim (chan_of id l) [ none ↦ none | some ch ↦ (Channel.recv ch).0 ]
unfolding recv_loop
recv_loop_result id [] = refl
recv_loop_result id ((i, key, chan) ∷ rest) = ground (arith, recv_loop_result id rest)

recv_loop_chan :
    (id j : ℕ) (l : List (ℕ × ℕ × FastChannel))
    → chan_of j (recv_loop id l).1
      ≡ (if id == j then map_option (λ ch. (Channel.recv ch).1) (chan_of j l) else chan_of j l)
unfolding recv_loop
recv_loop_chan id j [] = ground arith
recv_loop_chan id j ((i, key, chan) ∷ rest) = ground (arith, recv_loop_chan id j rest)

-- `recv_fast` delivers what the first channel with the id delivers, or nothing where there is
-- none; only that channel changes, by its own `recv`; the count of received messages grows by one
-- exactly where a message is delivered, and the count of sent ones stays.
pub recv_fast_lem :
    (c : IpcCore) (id : ℕ)
    → let (m, c') = recv_fast c id in
      (m ≡ elim (chan_of id c.fast_channels) [ none ↦ none | some ch ↦ (Channel.recv ch).0 ])
      × ((j : ℕ)
          → chan_of j c'.fast_channels ≡ (
              if id == j
              then map_option (λ ch. (Channel.recv ch).1) (chan_of j c.fast_channels)
              else chan_of j c.fast_channels))
      × (c'.messages_received
          ≡ elim m [ some _ ↦ add64 c.messages_received 1 | none ↦ c.messages_received ])
      × (c'.messages_sent ≡ c.messages_sent)
unfolding recv_fast
recv_fast_lem c id = (
  ground (arith, recv_loop_result id c.fast_channels),
  λ j. ground (arith, recv_loop_chan id j c.fast_channels),
  ground arith,
  ground arith,
)
