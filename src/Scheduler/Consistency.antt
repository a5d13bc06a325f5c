-- ===== src/Scheduler/Consistency.antt =====
-- The invariant of the scheduler: queue levels in range, and a `current` that names a thread.
use zeroxos_os.Base.{
  ℕ, ◌<◌, ◌≡◌, ◌≢◌, refl, sym, subst, ◌∙◌, inl, inr, Bool-cases, Bool, true, false, ◌&&◌, not,
  Option, none, some, List, [], ◌∷◌, ◌++◌, if◌then◌else◌, ◌==◌, retain, push, update_first,
  is_some_eq, All, All-push, All-retain, arith,
}
use zeroxos_os.Scheduler.{
  Scheduler, SchedThread, mlfq_levels, new, add_thread, remove_thread, set_gaming_mode, tick,
}
use zeroxos_os.Scheduler.Pick.{pick_next, pick_next-Picked}
use zeroxos_os.Scheduler.Ready.{pick_next-Serves, Serves}
use zeroxos_os.Scheduler.State.{yielded, yield_thread, preempt, promoted, on_frame_complete}

abbrev pub InRange : SchedThread → Type 0
InRange t = t.mlfq_level < mlfq_levels

abbrev pub has_id : ℕ → List SchedThread → Bool
has_id id [] = false
has_id id (t ∷ ts) = if t.id == id then true else has_id id ts

-- Every queue level exists, and `current` is a thread of the scheduler.
abbrev pub Known : Option ℕ → List SchedThread → Type 0
Known none ts = Unit
Known (some id) ts = has_id id ts ≡ true

pub record IsConsistent (s : Scheduler) : Type 0 where
  pub levels : All InRange s.threads
  pub known : Known s.current s.threads

has_id-update_first :
    (id j : ℕ) (change : SchedThread → SchedThread) (ts : List SchedThread)
    → ((t : SchedThread) → (change t).id ≡ t.id)
    → has_id j (update_first (λ t. t.id == id) change ts) ≡ has_id j ts
has_id-update_first id j change [] keep = refl
has_id-update_first id j change (t ∷ ts) keep =
    ground (arith, has_id-update_first id j change ts keep, keep t)

levels-update_first :
    (id : ℕ) (change : SchedThread → SchedThread) (ts : List SchedThread)
    → ((t : SchedThread) → InRange t → InRange (change t))
    → All InRange ts
    → All InRange (update_first (λ t. t.id == id) change ts)
levels-update_first id change [] keep h = tt
levels-update_first id change (t ∷ ts) keep h = elim (Bool-cases (t.id == id)) [
  | inl e ↦ rw e (keep t h.0, h.1)
  | inr e ↦ rw e (h.0, levels-update_first id change ts keep h.1)
]

has_id-retain :
    (id j : ℕ) (ts : List SchedThread)
    → has_id j (retain (λ t. not (t.id == id)) ts) ≡ (has_id j ts && not (j == id))
has_id-retain id j [] = refl
has_id-retain id j (t ∷ ts) = ground (arith, has_id-retain id j ts)

has_id-push :
    (j : ℕ) (ts : List SchedThread) (t : SchedThread)
    → has_id j ts ≡ true
    → has_id j (push ts t) ≡ true
has_id-push j [] t h = absurd (cc)
has_id-push j (u ∷ ts) t h = ground (arith, has_id-push j ts t)

has_id-middle :
    (j : ℕ) (before after : List SchedThread) (t : SchedThread)
    → t.id ≡ j
    → has_id j (before ++ (t ∷ after)) ≡ true
has_id-middle j [] after t e = ground arith
has_id-middle j (u ∷ before) after t e = ground (arith, has_id-middle j before after t e)

-- The operations, with the time that a call reads.
pub data Op : Type 0 where
  adds : SchedThread → Op
  removes : ℕ → Op
  sets_mode : Bool → Option ℕ → Op
  ticks : Op
  picks : ℕ → Op
  yields : ℕ → Op
  preempts : Op
  completes_frame : ℕ → ℕ → Op

pub apply : Scheduler → Op → Scheduler
apply s (adds t) = add_thread s t
apply s (removes id) = remove_thread s id
apply s (sets_mode enabled pid) = set_gaming_mode s enabled pid
apply s ticks = tick s
apply s (picks now) = (pick_next s now).1
apply s (yields id) = yield_thread s id
apply s preempts = preempt s
apply s (completes_frame now id) = on_frame_complete s now id

-- A thread that is added has a queue level that exists.
abbrev pub IsOrderly : Op → Type 0
IsOrderly (adds t) = InRange t
IsOrderly _ = Unit

Known-after_clear :
    (c : Option ℕ) (id : ℕ) (ts us : List SchedThread)
    → ((j : ℕ) → j ≢ id → has_id j ts ≡ true → has_id j us ≡ true)
    → Known c ts
    → Known (if is_some_eq c id then none else c) us
Known-after_clear none id ts us keep h = tt
Known-after_clear (some j) id ts us keep h = elim (Bool-cases (j == id)) [
  | inl e ↦ rw e tt
  | inr e ↦ rw e (keep j (λ z. ground arith) h)
]

Known-mono :
    (c : Option ℕ) (ts us : List SchedThread)
    → ((j : ℕ) → has_id j ts ≡ true → has_id j us ≡ true)
    → Known c ts
    → Known c us
Known-mono none ts us keep h = tt
Known-mono (some j) ts us keep h = keep j h

remove-IsConsistent : (s : Scheduler) (id : ℕ) → IsConsistent s → IsConsistent (remove_thread s id)
unfolding remove_thread
remove-IsConsistent s id v = record {
  levels = All-retain InRange (λ t. not (t.id == id)) s.threads v.levels;
  known =
      Known-after_clear s.current id s.threads _
        (λ j other h. ground (arith, has_id-retain id j s.threads)) v.known;
}

yield-IsConsistent : (s : Scheduler) (id : ℕ) → IsConsistent s → IsConsistent (yield_thread s id)
unfolding yield_thread yielded
yield-IsConsistent s id v = record {
  levels = levels-update_first id yielded s.threads (λ t h. ground arith) v.levels;
  known =
      Known-after_clear s.current id s.threads _
        (λ j other h. has_id-update_first id j yielded s.threads (λ t. refl) ∙ h) v.known;
}

pick-IsConsistent : (s : Scheduler) (now : ℕ) → IsConsistent s → IsConsistent (pick_next s now).1
pick-IsConsistent s now v =
    let (_, e) = pick_next-Picked s now in
    subst IsConsistent (sym e)
      (record { levels = v.levels; known = served (pick_next s now).0 (pick_next-Serves s now) })
  where
    served : (r : Option ℕ) → Serves s r → Known r s.threads
    served none h = tt
    served (some id) (before, t, after, place, same, _) =
        subst (λ ts. has_id id ts ≡ true) (sym place) (has_id-middle id before after t same)

frame-IsConsistent :
    (s : Scheduler) (now id : ℕ) → IsConsistent s → IsConsistent (on_frame_complete s now id)
unfolding on_frame_complete promoted
frame-IsConsistent s now id v = record {
  levels = levels-update_first id promoted s.threads (λ t h. omega arith) v.levels;
  known =
      Known-mono s.current s.threads _
        (λ j h. has_id-update_first id j promoted s.threads (λ t. refl) ∙ h) v.known;
}

preempt_from :
    (s : Scheduler) (c : Option ℕ) → s.current ≡ c → IsConsistent s → IsConsistent (preempt s)
unfolding preempt
preempt_from s none e v = rw (e, preempt) v
preempt_from s (some id) e v = rw (e, preempt) (yield-IsConsistent s id v)

apply-IsConsistent :
    (s : Scheduler) (op : Op) → IsOrderly op → IsConsistent s → IsConsistent (apply s op)
unfolding apply add_thread set_gaming_mode tick
apply-IsConsistent s (adds t) h v = record {
  levels = All-push InRange s.threads t v.levels h;
  known = Known-mono s.current s.threads _ (λ j k. has_id-push j s.threads t k) v.known;
}
apply-IsConsistent s (removes id) h v = remove-IsConsistent s id v
apply-IsConsistent s (sets_mode enabled pid) h v = record { levels = v.levels; known = v.known }
apply-IsConsistent s ticks h v = record { levels = v.levels; known = v.known }
apply-IsConsistent s (picks now) h v = pick-IsConsistent s now v
apply-IsConsistent s (yields id) h v = yield-IsConsistent s id v
apply-IsConsistent s preempts h v = preempt_from s s.current refl v
apply-IsConsistent s (completes_frame now id) h v = frame-IsConsistent s now id v

pub run : Scheduler → List Op → Scheduler
run s [] = s
run s (op ∷ ops) = run (apply s op) ops

-- Through any history of operations in which the threads that are added have a queue level that
-- exists, every queue level stays in range and the thread that `current` names is in the
-- scheduler, if this holds at the start.
pub run-IsConsistent :
    (s : Scheduler) (ops : List Op) → All IsOrderly ops → IsConsistent s → IsConsistent (run s ops)
unfolding run
run-IsConsistent s [] h v = v
run-IsConsistent s (op ∷ ops) h v =
    run-IsConsistent (apply s op) ops h.1 (apply-IsConsistent s op h.0 v)

pub new-IsConsistent : IsConsistent new
unfolding new
new-IsConsistent = record { levels = tt; known = tt }
