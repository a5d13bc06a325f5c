-- ===== src/Scheduler/State.antt =====
-- The operations that change a thread's state: `yield_thread`, `preempt`, `on_frame_complete`.
use zeroxos_os.Base.{
  ℕ, ◌+◌, ◌-◌, ◌<◌, min, ◌≡◌, ◌≢◌, refl, Bool, true, false, ◌&&◌, Option, none, some, List, [], ◌∷◌,
  if◌then◌else◌, ◌==◌, ltb, find, update_first, is_some_eq, arith,
}
use zeroxos_os.Base.Int.{pos}
use zeroxos_os.Scheduler.{Scheduler, SchedThread, mlfq, ready, mlfq_levels}

-- `t.policy == Policy::Mlfq`
abbrev is_mlfq : SchedThread → Bool
is_mlfq t = elim t.policy [ mlfq ↦ true | _ ↦ false ]

-- The body of the `if let`: an interactive thread goes one queue down, whatever it used.
unfoldable pub yielded : SchedThread → SchedThread
yielded t = record t {
  state = ready;
  mlfq_level =
      if is_mlfq t && ltb t.mlfq_level (mlfq_levels - 1) then t.mlfq_level + 1 else t.mlfq_level;
  quantum_used = 0;
}

unfoldable pub yield_thread : Scheduler → ℕ → Scheduler
unfolding yielded
yield_thread s id = record s {
  threads = update_first (λ t. t.id == id) yielded s.threads;
  current = if is_some_eq s.current id then none else s.current;
}

unfoldable pub preempt : Scheduler → Scheduler
preempt s = elim s.current [ some id ↦ yield_thread s id | none ↦ s ]

-- `Priority::GAMING_FOREGROUND` is 20.
unfoldable pub promoted : SchedThread → SchedThread
promoted t = record t { mlfq_level = 0; priority = pos 20 }

unfoldable pub on_frame_complete : Scheduler → ℕ → ℕ → Scheduler
unfolding promoted
on_frame_complete s now render_thread = record s {
  last_frame_complete_ns = now;
  threads = update_first (λ t. t.id == render_thread) promoted s.threads;
}

abbrev pub find_id : ℕ → List SchedThread → Option SchedThread
find_id id ts = find (λ t. t.id == id) ts

abbrev pub map_thread : (SchedThread → SchedThread) → Option SchedThread → Option SchedThread
map_thread f none = none
map_thread f (some t) = some (f t)

-- A change that keeps ids reaches the thread with the id, and no other.
find-update_first :
    (id j : ℕ) (change : SchedThread → SchedThread) (ts : List SchedThread)
    → ((t : SchedThread) → (change t).id ≡ t.id)
    → find_id j (update_first (λ t. t.id == id) change ts)
      ≡ (if j == id then map_thread change (find_id j ts) else find_id j ts)
find-update_first id j change [] keep = ground arith
find-update_first id j change (t ∷ ts) keep =
    ground (arith, find-update_first id j change ts keep, keep t)

-- `yield_thread` changes the first thread with the id, as `yielded` says, and no other, and the
-- thread is not the current one afterwards.
pub yield_thread_lem :
    (s : Scheduler) (id j : ℕ)
    → (find_id j (yield_thread s id).threads
        ≡ (if j == id then map_thread yielded (find_id j s.threads) else find_id j s.threads))
      × ((yield_thread s id).current ≢ some id)
unfolding yield_thread
yield_thread_lem s id j =
    (find-update_first id j yielded s.threads (λ t. refl), λ e. not_current s.current e)
  where
    not_current : (c : Option ℕ) → (if is_some_eq c id then none else c) ≡ some id → ⊥
    not_current none e = cc
    not_current (some k) e = ground arith

-- Of a thread whose queue level is in range, a yield makes the thread ready and moves an
-- interactive one a queue lower, down to the last, however much of its quantum it has used; the
-- level stays in range.
pub yielded_level :
    (t : SchedThread)
    → t.mlfq_level < mlfq_levels
    → ((yielded t).mlfq_level
        ≡ elim t.policy [ mlfq ↦ min (t.mlfq_level + 1) (mlfq_levels - 1) | _ ↦ t.mlfq_level ])
      × ((yielded t).mlfq_level < mlfq_levels)
      × ((yielded t).state ≡ ready)
unfolding yielded
yielded_level t h = (ground arith, ground arith, refl)
