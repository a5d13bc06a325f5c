-- ===== src/Ipc/Core/Counters.antt =====
-- The counters of the core and of its channels, the capacities and the ids, through every call.
use zeroxos_os.Base.{
  ℕ, ◌+◌, ◌%◌, ◌≤◌, ◌<◌, ◌≡◌, refl, Option, none, some, List, [], ◌∷◌, if◌then◌else◌, ◌==◌, push,
  arith, All, All-push, add64, u64_mod,
}
use zeroxos_os.Ipc.Message.{FastMessage}
use zeroxos_os.Ipc.Channel
use zeroxos_os.Ipc.Channel.{FastChannel, SendResult}
use zeroxos_os.Ipc.Channel.Fifo.{
  IsValid, sends, receives, after-IsValid, new-IsValid, send_counts, recv_counts, new_counts,
}
use zeroxos_os.Ipc.Core.{
  IpcCore, SendFast, done, failed, create_fast_channel, send_loop, send_fast, recv_loop, recv_fast,
}
use zeroxos_os.Ipc.Core.Routing.{chan_of}

-- The sums of the channels' own counters.
abbrev pub total_sent : List (ℕ × ℕ × FastChannel) → ℕ
total_sent [] = 0
total_sent ((_, _, chan) ∷ rest) = chan.sent + total_sent rest

abbrev pub total_received : List (ℕ × ℕ × FastChannel) → ℕ
total_received [] = 0
total_received ((_, _, chan) ∷ rest) = chan.received + total_received rest

abbrev pub Entry : ℕ → ℕ × ℕ × FastChannel → Type 0
Entry next (i, _, chan) = (i < next) × IsValid chan

-- Ids are below the next one, channels are valid, and the core's counters are the channels' sums.
pub record CoreIsValid (c : IpcCore) : Type 0 where
  pub entries : All (Entry c.next_channel_id) c.fast_channels
  pub sends : c.messages_sent ≡ total_sent c.fast_channels % u64_mod
  pub receipts : c.messages_received ≡ total_received c.fast_channels % u64_mod

send_loop_entries :
    (n id : ℕ) (msg : FastMessage) (l : List (ℕ × ℕ × FastChannel))
    → All (Entry n) l
    → All (Entry n) (send_loop id msg l).1
unfolding send_loop
send_loop_entries n id msg [] h = tt
send_loop_entries n id msg ((i, key, chan) ∷ rest) h =
    ground (arith, send_loop_entries n id msg rest h.1, after-IsValid chan (sends msg) h.0.1)

recv_loop_entries :
    (n id : ℕ) (l : List (ℕ × ℕ × FastChannel)) → All (Entry n) l → All (Entry n) (recv_loop id l).1
unfolding recv_loop
recv_loop_entries n id [] h = tt
recv_loop_entries n id ((i, key, chan) ∷ rest) h =
    ground (arith, recv_loop_entries n id rest h.1, after-IsValid chan receives h.0.1)

abbrev one_if_done : SendFast → ℕ
one_if_done done = 1
one_if_done (failed e) = 0

send_loop_total :
    (id : ℕ) (msg : FastMessage) (l : List (ℕ × ℕ × FastChannel))
    → (total_sent (send_loop id msg l).1 % u64_mod
        ≡ (total_sent l + one_if_done (send_loop id msg l).0) % u64_mod)
      × (total_received (send_loop id msg l).1 ≡ total_received l)
unfolding send_loop
send_loop_total id msg [] = (refl, refl)
send_loop_total id msg ((i, key, chan) ∷ rest) =
    ground (arith, send_loop_total id msg rest, send_counts chan msg)

abbrev one_if_some : Option FastMessage → ℕ
one_if_some none = 0
one_if_some (some m) = 1

recv_loop_total :
    (id : ℕ) (l : List (ℕ × ℕ × FastChannel))
    → (total_received (recv_loop id l).1 % u64_mod
        ≡ (total_received l + one_if_some (recv_loop id l).0) % u64_mod)
      × (total_sent (recv_loop id l).1 ≡ total_sent l)
unfolding recv_loop
recv_loop_total id [] = (refl, refl)
recv_loop_total id ((i, key, chan) ∷ rest) =
    ground (arith, recv_loop_total id rest, recv_counts chan)

send_fast-CoreIsValid :
    (c : IpcCore) (id : ℕ) (msg : FastMessage) → CoreIsValid c → CoreIsValid (send_fast c id msg).1
unfolding send_fast
send_fast-CoreIsValid c id msg v = ground (
  arith,
  send_loop_entries c.next_channel_id id msg c.fast_channels v.entries,
  send_loop_total id msg c.fast_channels,
)

recv_fast-CoreIsValid : (c : IpcCore) (id : ℕ) → CoreIsValid c → CoreIsValid (recv_fast c id).1
unfolding recv_fast
recv_fast-CoreIsValid c id v = ground (
  arith,
  recv_loop_entries c.next_channel_id id c.fast_channels v.entries,
  recv_loop_total id c.fast_channels,
)

Entry-mono : (m n : ℕ) (l : List (ℕ × ℕ × FastChannel)) → m ≤ n → All (Entry m) l → All (Entry n) l
Entry-mono m n [] h a = tt
Entry-mono m n (e ∷ l) h a = ((omega arith, a.0.1), Entry-mono m n l h a.1)

total-push :
    (l : List (ℕ × ℕ × FastChannel)) (i key capacity : ℕ)
    → (total_sent (push l (i, key, Channel.new capacity)) ≡ total_sent l)
      × (total_received (push l (i, key, Channel.new capacity)) ≡ total_received l)
total-push [] i key capacity =
    let (s, r) = new_counts capacity in (omega (arith, s), omega (arith, r))
total-push (e ∷ l) i key capacity =
    (omega (arith, (total-push l i key capacity).0), omega (arith, (total-push l i key capacity).1))

chan_of_fresh :
    (n j : ℕ) (l : List (ℕ × ℕ × FastChannel)) (ch : FastChannel) (key : ℕ)
    → All (Entry n) l
    → chan_of j (push l (n, key, ch)) ≡ (if n == j then some ch else chan_of j l)
chan_of_fresh n j [] ch key h = refl
chan_of_fresh n j ((i, k, c) ∷ l) ch key h = ground (arith, chan_of_fresh n j l ch key h.1)

-- In a valid core whose next id does not wrap around, a new channel gets an id that named none and
-- now names an empty channel of that capacity; every other id names what it named before, and the
-- core stays valid.
pub create_fast_channel_lem :
    (c : IpcCore) (a b capacity : ℕ)
    → CoreIsValid c
    → c.next_channel_id + 1 < u64_mod
    → let (id, c') = create_fast_channel c a b capacity in
      CoreIsValid c'
      × ((j : ℕ)
          → chan_of j c'.fast_channels
            ≡ (if id == j then some (Channel.new capacity) else chan_of j c.fast_channels))
unfolding create_fast_channel
create_fast_channel_lem c a b capacity v h = (
  record {
    entries =
        All-push (Entry (add64 c.next_channel_id 1)) c.fast_channels _
          (Entry-mono c.next_channel_id (add64 c.next_channel_id 1) c.fast_channels (omega arith)
            v.entries)
          (omega arith, new-IsValid capacity);
    sends = omega (arith, v.sends, (total-push c.fast_channels c.next_channel_id _ capacity).0);
    receipts =
        omega (arith, v.receipts, (total-push c.fast_channels c.next_channel_id _ capacity).1);
  },
  λ j. chan_of_fresh c.next_channel_id j c.fast_channels (Channel.new capacity) _ v.entries,
)

pub data CoreCall : Type 0 where
  send_fasts : ℕ → FastMessage → CoreCall
  recv_fasts : ℕ → CoreCall

abbrev pub core_after : IpcCore → List CoreCall → IpcCore
core_after c [] = c
core_after c (send_fasts id msg ∷ xs) = core_after (send_fast c id msg).1 xs
core_after c (recv_fasts id ∷ xs) = core_after (recv_fast c id).1 xs

-- From a valid core, through any history of sends and receives, ids stay below the next one, the
-- channels stay within their capacities, and the two message counters of the core are the sums of
-- the counters of the channels, up to wrap-around.
pub core_after-CoreIsValid :
    (c : IpcCore) (xs : List CoreCall) → CoreIsValid c → CoreIsValid (core_after c xs)
core_after-CoreIsValid c [] v = v
core_after-CoreIsValid c (send_fasts id msg ∷ xs) v =
    core_after-CoreIsValid (send_fast c id msg).1 xs (send_fast-CoreIsValid c id msg v)
core_after-CoreIsValid c (recv_fasts id ∷ xs) v =
    core_after-CoreIsValid (recv_fast c id).1 xs (recv_fast-CoreIsValid c id v)
