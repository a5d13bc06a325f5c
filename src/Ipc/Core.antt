-- ===== src/Ipc/Core.antt =====
-- `IpcCore` and `ShmChannel` of crates/zerox-kernel/src/ipc.rs.
pub mod Routing
pub mod Counters
use zeroxos_os.Base.{
  ℕ, ◌+◌, ◌*◌, ◌%◌, ◌^◌, bit_or, Bool, true, false, Option, none, some, List, [], ◌∷◌,
  if◌then◌else◌, ◌==◌, length, push, add64, u64_mod,
}
use zeroxos_os.Ipc.Message.{FastMessage}
use zeroxos_os.Ipc.Channel
use zeroxos_os.Ipc.Channel.{FastChannel, SendResult}

pub record ShmChannel : Type 0 where
  pub id : ℕ
  pub size : ℕ
  pub producer : ℕ
  pub consumer : ℕ

pub record IpcCore : Type 0 where
  pub fast_channels : List (ℕ × ℕ × FastChannel)
  pub shm_channels : List ShmChannel
  pub next_channel_id : ℕ
  pub messages_sent : ℕ
  pub messages_received : ℕ

pub data SendError : Type 0 where
  channel_full no_such_channel : SendError

pub data SendFast : Type 0 where
  done : SendFast
  failed : SendError → SendFast

pub new : IpcCore
new = record {
  fast_channels = [];
  shm_channels = [];
  next_channel_id = 1;
  messages_sent = 0;
  messages_received = 0;
}

-- `(a << 32) | b`
pub endpoints : ℕ → ℕ → ℕ
endpoints a b = bit_or (a * 2 ^ 32 % u64_mod) b

pub create_fast_channel : IpcCore → ℕ → ℕ → ℕ → ℕ × IpcCore
create_fast_channel c a b capacity =
    let id = c.next_channel_id in
    (
      id,
      record c {
        fast_channels = push c.fast_channels (id, endpoints a b, Channel.new capacity);
        next_channel_id = add64 c.next_channel_id 1;
      },
    )

-- The loop of `send_fast` over the channels: the first one with the id is sent to.
pub send_loop : ℕ → FastMessage → List (ℕ × ℕ × FastChannel) → SendFast × List (ℕ × ℕ × FastChannel)
send_loop id msg [] = (failed no_such_channel, [])
send_loop id msg ((i, key, chan) ∷ rest) =
    let (r, chan') = Channel.send chan msg in
    let (r', rest') = send_loop id msg rest in
    if i == id
    then (
      elim r [ SendResult.sent ↦ done | SendResult.full _ ↦ failed channel_full ],
      (i, key, chan') ∷ rest,
    )
    else (r', (i, key, chan) ∷ rest')

pub send_fast : IpcCore → ℕ → FastMessage → SendFast × IpcCore
send_fast c id msg =
    let (r, chans) = send_loop id msg c.fast_channels in
    elim r [
      | done ↦ (done, record c { fast_channels = chans; messages_sent = add64 c.messages_sent 1 })
      | failed e ↦ (failed e, record c { fast_channels = chans })
    ]

-- The loop of `recv_fast`.
pub recv_loop : ℕ → List (ℕ × ℕ × FastChannel) → Option FastMessage × List (ℕ × ℕ × FastChannel)
recv_loop id [] = (none, [])
recv_loop id ((i, key, chan) ∷ rest) =
    let (m, chan') = Channel.recv chan in
    let (m', rest') = recv_loop id rest in
    if i == id then (m, (i, key, chan') ∷ rest) else (m', (i, key, chan) ∷ rest')

pub recv_fast : IpcCore → ℕ → Option FastMessage × IpcCore
recv_fast c id =
    let (m, chans) = recv_loop id c.fast_channels in
    elim m [
      | some msg ↦ (
        some msg,
        record c { fast_channels = chans; messages_received = add64 c.messages_received 1 },
      )
      | none ↦ (none, record c { fast_channels = chans })
    ]

pub create_shm_channel : IpcCore → ℕ → ℕ → ℕ → ℕ × IpcCore
create_shm_channel c producer consumer size =
    let id = c.next_channel_id in
    (
      id,
      record c {
        shm_channels =
            push c.shm_channels
              (record { id = id; size = size; producer = producer; consumer = consumer });
        next_channel_id = add64 c.next_channel_id 1;
      },
    )

pub record IpcStats : Type 0 where
  pub fast_channels : ℕ
  pub shm_channels : ℕ
  pub messages_sent : ℕ
  pub messages_received : ℕ

pub stats : IpcCore → IpcStats
stats c = record {
  fast_channels = length c.fast_channels;
  shm_channels = length c.shm_channels;
  messages_sent = c.messages_sent;
  messages_received = c.messages_received;
}
