-- ===== src/Scheduler/Ready.antt =====
-- `pick_next` and the threads that are ready.
use zeroxos_os.Base.{ℕ, ◌≡◌, Bool, true, false, Option, none, some, List, [], ◌∷◌, ◌++◌, All, arith}
use zeroxos_os.Scheduler.{
  Scheduler, SchedThread, Priority, is_ready, deadline_of, realtime_of, mlfq_of, cfs_of,
}
use zeroxos_os.Scheduler.Best.{IsNone}
use zeroxos_os.Scheduler.Pick.{
  pick_next, Picks, by_deadline, by_priority, by_level, by_vruntime, idle, pick_next-Picked,
}

-- A ready thread of the list with the id.
abbrev pub HasReady : List SchedThread → ℕ → Type 0
HasReady ts id =
    (before : List SchedThread) × (t : SchedThread) × (after : List SchedThread) × (ts
      ≡ before ++ (t ∷ after))
    × (t.id ≡ id)
    × (is_ready t ≡ true)

deadline_ready :
    (t : SchedThread) (id d : ℕ) → deadline_of t ≡ some (id, d) → (t.id ≡ id) × (is_ready t ≡ true)
unfolding deadline_of
deadline_ready t id d e = ground arith

realtime_ready :
    (t : SchedThread) (id p : ℕ) → realtime_of t ≡ some (id, p) → (t.id ≡ id) × (is_ready t ≡ true)
unfolding realtime_of
realtime_ready t id p e = ground arith

mlfq_ready :
    (gaming : Bool) (t : SchedThread) (id : ℕ) (k : ℕ × Priority)
    → mlfq_of gaming t ≡ some (id, k)
    → (t.id ≡ id) × (is_ready t ≡ true)
unfolding mlfq_of
mlfq_ready gaming t id k e = ground arith

cfs_ready :
    (t : SchedThread) (id v : ℕ) → cfs_of t ≡ some (id, v) → (t.id ≡ id) × (is_ready t ≡ true)
unfolding cfs_of
cfs_ready t id v e = ground arith

-- A thread that no class offers is not ready.
not_offered :
    (gaming : Bool) (t : SchedThread)
    → realtime_of t ≡ none
    → mlfq_of gaming t ≡ none
    → cfs_of t ≡ none
    → is_ready t ≡ false
unfolding realtime_of mlfq_of cfs_of
not_offered gaming t a b c = ground arith

abbrev pub NotReady : SchedThread → Type 0
NotReady t = is_ready t ≡ false

none_ready :
    (gaming : Bool) (ts : List SchedThread)
    → All (IsNone realtime_of) ts
    → All (IsNone (mlfq_of gaming)) ts
    → All (IsNone cfs_of) ts
    → All NotReady ts
none_ready gaming [] a b c = tt
none_ready gaming (t ∷ ts) a b c =
    (not_offered gaming t a.0 b.0 c.0, none_ready gaming ts a.1 b.1 c.1)

-- What a choice says about readiness.
abbrev pub Serves : Scheduler → Option ℕ → Type 0
Serves s none = All NotReady s.threads
Serves s (some id) = HasReady s.threads id

Picks-Serves : {s : Scheduler} {now : ℕ} {r : Option ℕ} → Picks s now r → Serves s r
Picks-Serves (by_deadline id d f _) = (
  f.before,
  f.chosen,
  f.after,
  f.place,
  (deadline_ready f.chosen id d f.offers).0,
  (deadline_ready f.chosen id d f.offers).1,
)
Picks-Serves (by_priority id p _ f) = (
  f.before,
  f.chosen,
  f.after,
  f.place,
  (realtime_ready f.chosen id p f.offers).0,
  (realtime_ready f.chosen id p f.offers).1,
)
Picks-Serves {s} (by_level id k _ f) = (
  f.before,
  f.chosen,
  f.after,
  f.place,
  (mlfq_ready s.gaming_mode f.chosen id k f.offers).0,
  (mlfq_ready s.gaming_mode f.chosen id k f.offers).1,
)
Picks-Serves (by_vruntime id v _ _ f) = (
  f.before,
  f.chosen,
  f.after,
  f.place,
  (cfs_ready f.chosen id v f.offers).0,
  (cfs_ready f.chosen id v f.offers).1,
)
Picks-Serves {s} (idle a b c) = none_ready s.gaming_mode s.threads a b c

-- The thread that `pick_next` chooses is a ready one of the scheduler, and it chooses none only if
-- no thread is ready.
pub pick_next-Serves : (s : Scheduler) (now : ℕ) → Serves s (pick_next s now).0
pick_next-Serves s now = Picks-Serves (pick_next-Picked s now).0
