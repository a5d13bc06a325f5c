-- ===== src/Ipc/Tests.antt =====
-- The theorems on messages, channels and the core at small inputs.
use zeroxos_os.Base.{◌≡◌, refl, ◌++◌, some, List, [], ◌∷◌, take, arith}
use zeroxos_os.Ipc.Message.{FastMessage, fast_msg_max, new, as_bytes}
use zeroxos_os.Ipc.Message.Payload.{as_bytes-new}
use zeroxos_os.Ipc.Channel.{FastChannel, recv}
use zeroxos_os.Ipc.Channel.Fifo.{Call, sends, receives, run, IsValid, run-order}
use zeroxos_os.Ipc.Core.{IpcCore, send_fast, recv_fast}
use zeroxos_os.Ipc.Core.Routing.{report, send_fast_lem, recv_fast_lem}
use zeroxos_os.Ipc.Core.Counters.{
  CoreIsValid, send_fasts, recv_fasts, core_after, core_after-CoreIsValid,
}

abbrev hello : FastMessage
hello = record { src = 1; dst = 2; len = 2; payload = 104 ∷ 105 ∷ [] }

abbrev channel : FastChannel
channel = record { capacity = 2; buffer = hello ∷ []; sent = 4; received = 3 }

abbrev core : IpcCore
core = record {
  fast_channels = (1, 42, channel) ∷ [];
  shm_channels = [];
  next_channel_id = 2;
  messages_sent = 4;
  messages_received = 3;
}

abbrev calls : List Call
calls = sends hello ∷ receives ∷ sends hello ∷ receives ∷ []

as_bytes-new_example : as_bytes (new 1 2 (5 ∷ 6 ∷ [])) ≡ take fast_msg_max (5 ∷ 6 ∷ [])
as_bytes-new_example = (as_bytes-new 1 2 (5 ∷ 6 ∷ [])).0

channel-IsValid : IsValid channel
channel-IsValid = record { bounded = omega arith; counted = refl }

run-order_example :
    (run channel calls).1 ++ (run channel calls).2.buffer ≡ (hello ∷ []) ++ (run channel calls).0
run-order_example = run-order channel calls

send_fast_lem_example : (send_fast core 1 hello).0 ≡ report hello (some channel)
send_fast_lem_example = (send_fast_lem core 1 hello).0

recv_fast_lem_example : (recv_fast core 1).0 ≡ (recv channel).0
recv_fast_lem_example = (recv_fast_lem core 1).0

core-CoreIsValid : CoreIsValid core
core-CoreIsValid = record {
  entries = ((omega arith, channel-IsValid), tt);
  sends = refl;
  receipts = refl;
}

core_after-CoreIsValid_example :
    CoreIsValid (core_after core (send_fasts 1 hello ∷ recv_fasts 1 ∷ recv_fasts 9 ∷ []))
core_after-CoreIsValid_example =
    core_after-CoreIsValid core (send_fasts 1 hello ∷ recv_fasts 1 ∷ recv_fasts 9 ∷ [])
      core-CoreIsValid
