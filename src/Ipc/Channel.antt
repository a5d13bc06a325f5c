-- ===== src/Ipc/Channel.antt =====
-- `FastChannel` of crates/zerox-kernel/src/ipc.rs: a bounded buffer with two counters.
pub mod Fifo
use zeroxos_os.Base.{
  ℕ, ◌+◌, ◌%◌, Bool, true, false, Option, none, some, List, [], ◌∷◌, ◌++◌, if◌then◌else◌, leb,
  length, push, add64,
}
use zeroxos_os.Ipc.Message.{FastMessage}

pub record FastChannel : Type 0 where
  pub capacity : ℕ
  pub buffer : List FastMessage
  pub sent : ℕ
  pub received : ℕ

pub new : ℕ → FastChannel
new capacity = record { capacity = capacity; buffer = []; sent = 0; received = 0 }

-- `Result<(), FastMessage>`: a full channel gives the message back.
pub data SendResult : Type 0 where
  sent : SendResult
  full : FastMessage → SendResult

pub send : FastChannel → FastMessage → SendResult × FastChannel
send c msg =
    if leb c.capacity (length c.buffer)
    then (full msg, c)
    else (SendResult.sent, record c { buffer = push c.buffer msg; sent = add64 c.sent 1 })

pub recv : FastChannel → Option FastMessage × FastChannel
recv c = elim c.buffer [
  | [] ↦ (none, c)
  | msg ∷ rest ↦ (some msg, record c { buffer = rest; received = add64 c.received 1 })
]
