-- ===== src/Process/Tables.antt =====
-- Ids, lookups and threads in the tables of process.rs.
use Prim.Native.String.{String}
use zeroxos_os.Base.{
  ℕ, ◌+◌, ◌≤◌, ◌<◌, ◌≡◌, refl, ◌∙◌, not, Option, none, some, List, [], ◌∷◌, if◌then◌else◌, ◌==◌,
  push, retain, find, update_first, All, All-push, arith, add64, u64_mod,
}
use zeroxos_os.Process.{
  ProcessState, runnable, killed, Process, new_process, Thread, new_thread, ProcessTable, spawn,
  spawn_thread, finish, kill, exit, get,
}

abbrev pub find_pid : ℕ → List Process → Option Process
find_pid pid ps = find (λ p. p.pid == pid) ps

abbrev pub map_process : (Process → Process) → Option Process → Option Process
map_process f none = none
map_process f (some p) = some (f p)

find_pid-update_first :
    (pid j : ℕ) (change : Process → Process) (ps : List Process)
    → ((p : Process) → (change p).pid ≡ p.pid)
    → find_pid j (update_first (λ p. p.pid == pid) change ps)
      ≡ (if j == pid then map_process change (find_pid j ps) else find_pid j ps)
find_pid-update_first pid j change [] keep = ground arith
find_pid-update_first pid j change (p ∷ ps) keep =
    ground (arith, find_pid-update_first pid j change ps keep, keep p)

abbrev pub Below : ℕ → Process → Type 0
Below n p = p.pid < n

find_pid-push_fresh :
    (n j : ℕ) (ps : List Process) (q : Process)
    → All (Below n) ps
    → q.pid ≡ n
    → find_pid j (push ps q) ≡ (if j == n then some q else find_pid j ps)
find_pid-push_fresh n j [] q h e = ground arith
find_pid-push_fresh n j (p ∷ ps) q h e = ground (arith, find_pid-push_fresh n j ps q h.1 e)

-- Every id given out is below the next one.
abbrev pub TidBelow : ℕ → Thread → Type 0
TidBelow n th = th.tid < n

pub record IsFresh (t : ProcessTable) : Type 0 where
  pub pids : All (Below t.next_pid) t.processes
  pub tids : All (TidBelow t.next_tid) t.threads

Below-mono : (m n : ℕ) (ps : List Process) → m ≤ n → All (Below m) ps → All (Below n) ps
Below-mono m n [] h a = tt
Below-mono m n (p ∷ ps) h a = (omega arith, Below-mono m n ps h a.1)

TidBelow-mono : (m n : ℕ) (ts : List Thread) → m ≤ n → All (TidBelow m) ts → All (TidBelow n) ts
TidBelow-mono m n [] h a = tt
TidBelow-mono m n (t ∷ ts) h a = (omega arith, TidBelow-mono m n ts h a.1)

-- In a table whose ids are all below the next ones, with a next pid that does not wrap around, a
-- spawn gives a pid that no process has; it names a runnable process of that name with no threads,
-- every other pid names what it named before, no thread changes, and the ids stay fresh.
pub spawn_lem :
    (t : ProcessTable) (name : String) (now : ℕ)
    → IsFresh t
    → t.next_pid + 1 < u64_mod
    → let (pid, t') = spawn t name now in
      IsFresh t'
      × (t'.threads ≡ t.threads)
      × ((j : ℕ)
          → get t' j ≡ (
              if j == pid
              then some (record (new_process pid name) { started_ns = now; state = runnable })
              else get t j))
unfolding spawn get
spawn_lem t name now v h = (
  record {
    pids =
        All-push (Below (add64 t.next_pid 1)) t.processes _
          (Below-mono t.next_pid (add64 t.next_pid 1) t.processes (omega arith) v.pids)
          (omega arith);
    tids = v.tids;
  },
  refl,
  λ j. find_pid-push_fresh t.next_pid j t.processes _ v.pids refl,
)

-- A thread that is spawned has a tid that no thread has, and is listed by its process if there is
-- one; no other process changes.
pub spawn_thread_lem :
    (t : ProcessTable) (pid : ℕ)
    → IsFresh t
    → t.next_tid + 1 < u64_mod
    → let (tid, t') = spawn_thread t pid in
      All (TidBelow t'.next_tid) t'.threads
      × (t'.threads ≡ push t.threads (new_thread tid pid))
      × ((j : ℕ)
          → get t' j ≡ (
              if j == pid
              then map_process (λ p. record p { threads = push p.threads tid }) (get t j)
              else get t j))
unfolding spawn_thread get new_thread
spawn_thread_lem t pid v h = (
  All-push (TidBelow (add64 t.next_tid 1)) t.threads _
      (TidBelow-mono t.next_tid (add64 t.next_tid 1) t.threads (omega arith) v.tids) (omega arith),
  refl,
  λ j. find_pid-update_first pid j _ t.processes (λ p. refl),
)

-- How many threads of a process there are.
abbrev pub threads_of : ℕ → List Thread → ℕ
threads_of pid [] = 0
threads_of pid (t ∷ ts) = (if t.pid == pid then 1 else 0) + threads_of pid ts

threads_of-retain :
    (pid j : ℕ) (ts : List Thread)
    → threads_of j (retain (λ th. not (th.pid == pid)) ts)
      ≡ (if j == pid then 0 else threads_of j ts)
threads_of-retain pid j [] = ground arith
threads_of-retain pid j (t ∷ ts) = ground (arith, threads_of-retain pid j ts)

abbrev pub Finished : ProcessTable → ℕ → ProcessState → ProcessTable → Type 0
Finished t pid state t' =
    ((j : ℕ)
      → get t' j
        ≡ (if j == pid then map_process (λ p. record p { state = state }) (get t j) else get t j))
    × ((j : ℕ) → threads_of j t'.threads ≡ (if j == pid then 0 else threads_of j t.threads))

finish-Finished :
    (t : ProcessTable) (pid : ℕ) (state : ProcessState) → Finished t pid state (finish t pid state)
unfolding finish get
finish-Finished t pid state = (
  λ j. find_pid-update_first pid j _ t.processes (λ p. refl),
  λ j. threads_of-retain pid j t.threads,
)

-- `kill` and `exit` set the state of the process, if there is one, and remove every thread of it;
-- every other process, and the number of threads of each, stays.
pub kill-exit-Finished :
    (t : ProcessTable) (pid code : ℕ)
    → Finished t pid killed (kill t pid)
      × Finished t pid (ProcessState.exited code) (exit t pid code)
unfolding kill exit
kill-exit-Finished t pid code =
    (finish-Finished t pid killed, finish-Finished t pid (ProcessState.exited code))

threads_of-push :
    (j : ℕ) (ts : List Thread) (th : Thread)
    → threads_of j (push ts th) ≡ threads_of j ts + (if th.pid == j then 1 else 0)
threads_of-push j [] th = omega arith
threads_of-push j (u ∷ ts) th = omega (arith, threads_of-push j ts th)

-- `spawn_thread` does not look at the state of the process: one that was killed gets a thread again.
pub spawn_thread_after_kill :
    (t : ProcessTable) (pid : ℕ) → threads_of pid (spawn_thread (kill t pid) pid).1.threads ≡ 1
unfolding spawn_thread kill finish new_thread
spawn_thread_after_kill t pid =
    threads_of-push pid (retain (λ th. not (th.pid == pid)) t.threads) _
    ∙ ground (arith, threads_of-retain pid pid t.threads)
