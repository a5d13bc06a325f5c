-- ===== src/Process.antt =====
-- crates/zerox-kernel/src/process.rs: the process and thread tables. The time at which a process is
-- spawned is an argument; an `i32` exit code is its bit pattern.
pub mod Tables
mod Tests
use Prim.Native.String.{String}
use zeroxos_os.Base.{
  ℕ, ◌+◌, Bool, true, false, not, Option, none, some, List, [], ◌∷◌, if◌then◌else◌, ◌==◌, length,
  push, retain, find, update_first, add64,
}
use zeroxos_os.Security.{CapabilitySet, empty_set}

pub data ProcessState : Type 0 where
  new runnable blocked : ProcessState
  exited : ℕ → ProcessState
  killed : ProcessState

pub record Process : Type 0 where
  pub pid : ℕ
  pub parent : Option ℕ
  pub name : String
  pub state : ProcessState
  pub threads : List ℕ
  pub caps : CapabilitySet
  pub is_game : Bool
  pub is_foreground : Bool
  pub started_ns : ℕ
  pub cpu_time_ns : ℕ

pub new_process : ℕ → String → Process
new_process pid name = record {
  pid = pid;
  parent = none;
  name = name;
  state = new;
  threads = [];
  caps = empty_set;
  is_game = false;
  is_foreground = false;
  started_ns = 0;
  cpu_time_ns = 0;
}

pub data ThreadState : Type 0 where
  ready running blocked exited : ThreadState

pub record Thread : Type 0 where
  pub tid : ℕ
  pub pid : ℕ
  pub state : ThreadState
  pub user_stack_top : ℕ
  pub kernel_stack_top : ℕ

pub new_thread : ℕ → ℕ → Thread
new_thread tid pid = record {
  tid = tid;
  pid = pid;
  state = ready;
  user_stack_top = 0;
  kernel_stack_top = 0;
}

pub record ProcessTable : Type 0 where
  pub processes : List Process
  pub threads : List Thread
  pub next_pid : ℕ
  pub next_tid : ℕ

pub new_table : ProcessTable
new_table = record { processes = []; threads = []; next_pid = 1; next_tid = 1 }

pub spawn : ProcessTable → String → ℕ → ℕ × ProcessTable
unfolding new_process
spawn t name now =
    let pid = t.next_pid in
    let p = new_process pid name in
    (
      pid,
      record t {
        next_pid = add64 t.next_pid 1;
        processes = push t.processes (record p { started_ns = now; state = runnable });
      },
    )

pub spawn_thread : ProcessTable → ℕ → ℕ × ProcessTable
spawn_thread t pid =
    let tid = t.next_tid in
    (
      tid,
      record t {
        next_tid = add64 t.next_tid 1;
        threads = push t.threads (new_thread tid pid);
        processes =
            update_first (λ p. p.pid == pid) (λ p. record p { threads = push p.threads tid })
              t.processes;
      },
    )

-- `kill` and `exit` differ in the state that they leave.
pub finish : ProcessTable → ℕ → ProcessState → ProcessTable
finish t pid state = record t {
  processes = update_first (λ p. p.pid == pid) (λ p. record p { state = state }) t.processes;
  threads = retain (λ th. not (th.pid == pid)) t.threads;
}

pub kill : ProcessTable → ℕ → ProcessTable
kill t pid = finish t pid killed

pub exit : ProcessTable → ℕ → ℕ → ProcessTable
exit t pid code = finish t pid (ProcessState.exited code)

pub get : ProcessTable → ℕ → Option Process
get t pid = find (λ p. p.pid == pid) t.processes

pub process_count : ProcessTable → ℕ
process_count t = length t.processes

pub thread_count : ProcessTable → ℕ
thread_count t = length t.threads
