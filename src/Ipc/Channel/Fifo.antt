-- ===== src/Ipc/Channel/Fifo.antt =====
-- A channel as a bounded first-in first-out queue.
use mathlib.Core.List.{append-nil, append_assoc}
use zeroxos_os.Base.{
  ◌↔◌, ℕ, ◌+◌, ◌%◌, ◌≤◌, ◌≡◌, refl, sym, ap, ◌∙◌, none, some, List, [], ◌∷◌, ◌++◌, length, arith,
  length-push, u64_mod,
}
use zeroxos_os.Ipc.Message.{FastMessage}
use zeroxos_os.Ipc.Channel.{FastChannel, SendResult, new, send, recv}

pub data Call : Type 0 where
  sends : FastMessage → Call
  receives : Call

-- What a call adds to the messages accepted, and to those delivered.
abbrev pub accepted_by : FastChannel → Call → List FastMessage
accepted_by c (sends m) = elim (send c m).0 [ SendResult.sent ↦ m ∷ [] | SendResult.full _ ↦ [] ]
accepted_by c receives = []

abbrev pub delivered_by : FastChannel → Call → List FastMessage
delivered_by c (sends m) = []
delivered_by c receives = elim (recv c).0 [ some m ↦ m ∷ [] | none ↦ [] ]

abbrev pub after : FastChannel → Call → FastChannel
after c (sends m) = (send c m).1
after c receives = (recv c).1

-- A whole history: the messages accepted, those delivered, and the channel at the end.
pub run : FastChannel → List Call → List FastMessage × List FastMessage × FastChannel
run c [] = ([], [], c)
run c (x ∷ xs) =
    let (accepted, delivered, c') = run (after c x) xs in
    (accepted_by c x ++ accepted, delivered_by c x ++ delivered, c')

-- The buffer is within the capacity, and the counters differ by its length.
pub record IsValid (c : FastChannel) : Type 0 where
  pub bounded : length c.buffer ≤ c.capacity
  pub counted : c.sent ≡ (c.received + length c.buffer) % u64_mod

step_order :
    (c : FastChannel) (x : Call)
    → delivered_by c x ++ (after c x).buffer ≡ c.buffer ++ accepted_by c x
unfolding send recv
step_order c (sends m) = ground (arith, append-nil c.buffer)
step_order c receives = ground (arith, append-nil c.buffer)

-- Messages come out of a channel in the order in which they were accepted, and none is lost,
-- doubled or made up, through any sequence of sends and receives: what was delivered, followed by
-- what is in the buffer at the end, is what was in the buffer at the start, followed by what was
-- accepted.
pub run-order :
    (c : FastChannel) (xs : List Call)
    → let (accepted, delivered, c') = run c xs in delivered ++ c'.buffer ≡ c.buffer ++ accepted
unfolding run
run-order c [] = sym (append-nil c.buffer)
run-order c (x ∷ xs) =
    let (accepted, delivered, c') = run (after c x) xs in
    append_assoc (delivered_by c x) delivered c'.buffer
    ∙ ap (◌++◌ (delivered_by c x)) (run-order (after c x) xs)
    ∙ sym (append_assoc (delivered_by c x) (after c x).buffer accepted)
    ∙ ap (λ (l : List FastMessage). l ++ accepted) (step_order c x)
    ∙ append_assoc c.buffer (accepted_by c x) accepted

pub after-IsValid :
    (c : FastChannel) (x : Call)
    → IsValid c
    → IsValid (after c x) × ((after c x).capacity ≡ c.capacity)
unfolding send recv
after-IsValid c (sends m) v = ground (arith, length-push c.buffer m)
after-IsValid c receives v = ground arith

-- From a valid channel, through any sequence of sends and receives, the buffer stays within the
-- capacity, the capacity stays, and the counter of what was sent is the counter of what was
-- received and the messages in the buffer together, up to wrap-around.
pub run-IsValid :
    (c : FastChannel) (xs : List Call)
    → IsValid c
    → IsValid (run c xs).2 × ((run c xs).2.capacity ≡ c.capacity)
unfolding run
run-IsValid c [] v = (v, refl)
run-IsValid c (x ∷ xs) v =
    let (w, kept) = after-IsValid c x v in
    let (v', e) = run-IsValid (after c x) xs w in (v', e ∙ kept)

pub new-IsValid : (capacity : ℕ) → IsValid (new capacity)
unfolding new
new-IsValid capacity = record { bounded = omega arith; counted = refl }

-- A valid channel refuses a message, gives it back and is unchanged, exactly when the buffer holds
-- as many messages as the capacity.
pub send-full_iff :
    (c : FastChannel) (m : FastMessage)
    → IsValid c
    → (send c m ≡ (SendResult.full m, c)) ↔ (length c.buffer ≡ c.capacity)
unfolding send
send-full_iff c m v = (λ e. ground arith, λ e. ground arith)

-- The counters of one call.
pub send_counts :
    (c : FastChannel) (m : FastMessage)
    → ((send c m).1.sent % u64_mod
        ≡ (c.sent + elim (send c m).0 [ SendResult.sent ↦ 1 | SendResult.full _ ↦ 0 ]) % u64_mod)
      × ((send c m).1.received ≡ c.received)
unfolding send
send_counts c m = ground arith

pub recv_counts :
    (c : FastChannel)
    → ((recv c).1.received % u64_mod
        ≡ (c.received + elim (recv c).0 [ some _ ↦ 1 | none ↦ 0 ]) % u64_mod)
      × ((recv c).1.sent ≡ c.sent)
unfolding recv
recv_counts c = ground arith

pub new_counts : (capacity : ℕ) → ((new capacity).sent ≡ 0) × ((new capacity).received ≡ 0)
unfolding new
new_counts capacity = (refl, refl)
