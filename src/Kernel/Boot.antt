-- ===== src/Kernel/Boot.antt =====
-- The boot of lib.rs, on a new kernel and on one that was booted.
use zeroxos_os.Base.{inl, inr, Bool-cases, ℕ, ◌≡◌, ◌≢◌, refl, true, false, ==_ne}
use zeroxos_os.Memory.Buddy.Alloc.{IsWf}
use zeroxos_os.Memory.Manager.{Statics, init as init_memory}
use zeroxos_os.Memory.Manager.Accounts.{IsBalanced, init-IsBalanced}
use zeroxos_os.Memory.Manager.Regions.{init_pages}
use zeroxos_os.Driver.{init as init_drivers}
use zeroxos_os.Kernel.{Kernel, booted_ok, boot_services, boot}

boot_services_lem :
    (k : Kernel)
    → k.memory.buddy.total_pages ≢ 0
    → boot_services k ≡ (booted_ok, record k { drivers = init_drivers k.drivers; booted = true })
unfolding boot_services
boot_services_lem k h = rw (==_ne k.memory.buddy.total_pages 0 h) refl

-- The whole of a boot of a kernel that was not booted.
boot_whole :
    (k : Kernel) (g : Statics) (now : ℕ)
    → k.booted ≡ false
    → boot k g now ≡ (
      booted_ok,
      (
        record k {
          boot_time_ns = now;
          memory = (init_memory k.memory g).0;
          drivers = init_drivers k.drivers;
          booted = true;
        },
        (init_memory k.memory g).1,
      ),
    )
unfolding boot
boot_whole k g now e =
    let started = record k { boot_time_ns = now; memory = (init_memory k.memory g).0 } in
    rw (boot_services_lem started (init_pages k.memory g), e) refl

boot_again :
    (k : Kernel) (g : Statics) (now : ℕ) → k.booted ≡ true → boot k g now ≡ (booted_ok, (k, g))
unfolding boot
boot_again k g now e = rw e refl

-- A boot never fails, whatever the memory it finds: `init` gives an empty allocator 256 MB, so
-- that the test for no usable memory never succeeds. The kernel is then booted, and a boot after
-- it changes nothing.
pub boot-boot :
    (k : Kernel) (g : Statics) (now later : ℕ)
    → let (r, (k', g')) = boot k g now in
      (r ≡ booted_ok) × (k'.booted ≡ true) × (boot k' g' later ≡ (booted_ok, (k', g')))
boot-boot k g now later = elim (Bool-cases k.booted) [
  | inl e ↦ rw (boot_again k g now e) (refl, e, boot_again k g later e)
  | inr e ↦ rw (boot_whole k g now e) (refl, refl, boot_again _ _ later refl)
]

-- The first boot of a kernel whose allocator is well-formed and untouched succeeds: FREE_MEMORY
-- and TOTAL_MEMORY are the size of the free pages, the baseline drivers are registered, the clock
-- value is stored, and the scheduler, IPC, security and process table are as they were.
pub boot_lem :
    (k : Kernel) (g : Statics) (now : ℕ)
    → k.booted ≡ false
    → IsWf k.memory.buddy
    → k.memory.buddy.free_pages ≡ k.memory.buddy.total_pages
    → let (r, (k', g')) = boot k g now in
      (r ≡ booted_ok)
      × IsBalanced k'.memory g'
      × (g'.total_memory ≡ g'.free_memory)
      × (k'.drivers ≡ init_drivers k.drivers)
      × (k'.boot_time_ns ≡ now)
      × (k'.scheduler ≡ k.scheduler)
      × (k'.ipc ≡ k.ipc)
      × (k'.security ≡ k.security)
      × (k'.process ≡ k.process)
boot_lem k g now e wf untouched =
    let (balanced, same, _) = init-IsBalanced k.memory g wf untouched in
    rw (boot_whole k g now e) (refl, balanced, same, refl, refl, refl, refl, refl, refl)
