-- ===== src/Ipc/Message.antt =====
-- `FastMessage` of crates/zerox-kernel/src/ipc.rs. Bytes are numbers below 256.
pub mod Payload
use zeroxos_os.Base.{ℕ, ◌-◌, ◌%◌, min, List, [], ◌∷◌, ◌++◌, length, take, replicate}

abbrev pub fast_msg_max : ℕ
fast_msg_max = 64

pub record FastMessage : Type 0 where
  pub src : ℕ
  pub dst : ℕ
  pub len : ℕ
  pub payload : List ℕ

-- The payload is cut at 64 bytes, or filled up with zeroes; the length is cast to `u8`.
pub new : ℕ → ℕ → List ℕ → FastMessage
new src dst payload =
    let len = min (length payload) fast_msg_max in
    record {
      src = src;
      dst = dst;
      len = len % 256;
      payload = take len payload ++ replicate (fast_msg_max - len) 0;
    }

pub as_bytes : FastMessage → List ℕ
as_bytes m = take m.len m.payload
