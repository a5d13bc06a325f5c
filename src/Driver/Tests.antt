-- ===== src/Driver/Tests.antt =====
-- The driver registry on concrete calls, and the theorems of driver.rs on them.
use zeroxos_os.Base.{◌≡◌, refl, some, [], ◌∷◌}
use zeroxos_os.Driver.{
  register_all, user, kernel, nvme_class, audio_class, crashed, Driver, new_driver, DriverRegistry,
  new_registry, register, init, find_driver, crash, count,
}
use zeroxos_os.Driver.Crash.{crash-stays_down, call_init, call_start, perform_all}

abbrev nvme : Driver
nvme = new_driver "nvme" nvme_class kernel "BlockDriver"

abbrev audio : Driver
audio = new_driver "audio" audio_class user "AudioInterface"

abbrev two_drivers : DriverRegistry
two_drivers = register (register new_registry nvme) audio

baseline_count : count (init new_registry) ≡ 13
unfolding count init new_registry register_all register
baseline_count = refl

nvme-found : find_driver two_drivers "nvme" ≡ some nvme
unfolding find_driver register new_registry new_driver
nvme-found = refl

audio-found : find_driver two_drivers "audio" ≡ some audio
unfolding find_driver register new_registry new_driver
audio-found = refl

nvme-is_kernel : nvme.location ≡ kernel
unfolding new_driver
nvme-is_kernel = refl

crash-stays_down_example :
    find_driver
      (perform_all (crash two_drivers "nvme") (call_init "nvme" ∷ call_start "nvme" ∷ []))
      "nvme"
    ≡ some (record nvme { state = crashed })
unfolding new_driver
crash-stays_down_example =
    crash-stays_down two_drivers "nvme" nvme (call_init "nvme" ∷ call_start "nvme" ∷ []) nvme-found
      refl tt
