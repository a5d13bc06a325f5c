-- ===== src/Kernel.antt =====
-- crates/zerox-kernel/src/lib.rs and error.rs: the kernel as the sum of its parts, and its boot. The
-- clock of the platform is read by the caller; `init` of the scheduler, of security and of IPC only
-- write to the log.
pub mod Boot
mod Tests
use Prim.Native.String.{String}
use zeroxos_os.Base.{ℕ, Bool, true, false, if◌then◌else◌, ◌==◌}
use zeroxos_os.Memory.Manager.{MemoryManager, Statics, init as init_memory, new as new_memory}
use zeroxos_os.Ipc.Core.{IpcCore, new as new_ipc}
use zeroxos_os.Security.{SecurityManager, new as new_security}
use zeroxos_os.Scheduler.{Scheduler, new as new_scheduler, tick as tick_scheduler}
use zeroxos_os.Process.{ProcessTable, new_table}
use zeroxos_os.Driver.{DriverRegistry, new_registry, init as init_drivers}

pub data KernelError : Type 0 where
  memory_init out_of_memory scheduler_init not_booted permission_denied unsupported : KernelError

-- The text that `Display` writes.
pub message : KernelError → String
message memory_init = "memory manager failed to initialize (no usable RAM)"
message out_of_memory = "out of memory"
message scheduler_init = "scheduler failed to initialize"
message not_booted = "kernel subsystem used before boot completed"
message permission_denied = "capability check denied the operation"
message unsupported = "operation not supported on this build/architecture"

-- `KernelResult<()>`.
pub data KernelResult : Type 0 where
  booted_ok : KernelResult
  boot_error : KernelError → KernelResult

pub record Kernel : Type 0 where
  pub scheduler : Scheduler
  pub memory : MemoryManager
  pub ipc : IpcCore
  pub security : SecurityManager
  pub process : ProcessTable
  pub drivers : DriverRegistry
  pub booted : Bool
  pub boot_time_ns : ℕ

pub new_kernel : Kernel
new_kernel = record {
  scheduler = new_scheduler;
  memory = new_memory;
  ipc = new_ipc;
  security = new_security;
  process = new_table;
  drivers = new_registry;
  booted = false;
  boot_time_ns = 0;
}

-- What `boot` does after the memory manager is initialized.
pub boot_services : Kernel → KernelResult × Kernel
boot_services k =
    if k.memory.buddy.total_pages == 0
    then (boot_error memory_init, k)
    else (booted_ok, record k { drivers = init_drivers k.drivers; booted = true })

pub boot : Kernel → Statics → ℕ → KernelResult × (Kernel × Statics)
boot k g now =
    let (memory, g') = init_memory k.memory g in
    let (r, k') = boot_services (record k { boot_time_ns = now; memory = memory }) in
    if k.booted then (booted_ok, (k, g)) else (r, (k', g'))

pub tick : Kernel → Kernel
tick k = record k { scheduler = tick_scheduler k.scheduler }
