-- ===== src/Kernel/Tests.antt =====
-- The boot on concrete kernels.
use zeroxos_os.Base.{◌≡◌, refl, false}
use zeroxos_os.Memory.Buddy.Alloc.{IsWf}
use zeroxos_os.Memory.Manager.{Statics}
use zeroxos_os.Memory.Manager.Accounts.{IsBalanced}
use zeroxos_os.Memory.Manager.Regions.{new_manager-IsWf}
use zeroxos_os.Kernel.{new_kernel, boot}
use zeroxos_os.Kernel.Boot.{boot_lem}

abbrev zero_counters : Statics
zero_counters = record {
  total_memory = 0;
  free_memory = 0;
  pages_allocated = 0;
  cow_faults = 0;
  huge_pages = 0;
}

new_kernel-IsWf :
    IsWf new_kernel.memory.buddy
    × (new_kernel.memory.buddy.free_pages ≡ new_kernel.memory.buddy.total_pages)
    × (new_kernel.booted ≡ false)
unfolding new_kernel
new_kernel-IsWf = (new_manager-IsWf.0, new_manager-IsWf.1, refl)

boot_lem_example :
    IsBalanced (boot new_kernel zero_counters 7).1.0.memory (boot new_kernel zero_counters 7).1.1
boot_lem_example =
    (boot_lem new_kernel zero_counters 7 new_kernel-IsWf.2 new_kernel-IsWf.0 new_kernel-IsWf.1).1
