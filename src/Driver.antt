-- ===== src/Driver.antt =====
-- crates/zerox-kernel/src/driver.rs: the driver registry and the life of a driver. `log` calls have
-- no effect on it.
pub mod Life
pub mod Crash
mod Tests
use Prim.Native.String.{String}
use text.Mathlib.Text
use zeroxos_os.Base.{
  ℕ, Bool, true, false, Option, none, some, List, [], ◌∷◌, if◌then◌else◌, length, push, find,
  update_first,
}

pub data DriverClass : Type 0 where
  gpu_class nvme_class usb_class display_class network_class bluetooth_class audio_class :
      DriverClass
  sensor_class printer_class virtio_class : DriverClass

pub data DriverLocation : Type 0 where
  kernel user paravirtualized : DriverLocation

pub data DriverState : Type 0 where
  not_loaded loaded initialized active crashed unloaded : DriverState

pub record Driver : Type 0 where
  pub name : String
  pub class : DriverClass
  pub location : DriverLocation
  pub state : DriverState
  pub implements : String

pub new_driver : String → DriverClass → DriverLocation → String → Driver
new_driver name class location implements = record {
  name = name;
  class = class;
  location = location;
  state = not_loaded;
  implements = implements;
}

pub record DriverRegistry : Type 0 where
  pub drivers : List Driver

pub new_registry : DriverRegistry
new_registry = record { drivers = [] }

pub register : DriverRegistry → Driver → DriverRegistry
register r d = record { drivers = push r.drivers d }

abbrev pub baseline : List Driver
baseline =
    new_driver "gpu-nvidia" gpu_class kernel "GpuInterface"
    ∷ new_driver "gpu-amd" gpu_class kernel "GpuInterface"
    ∷ new_driver "gpu-intel" gpu_class kernel "GpuInterface"
    ∷ new_driver "gpu-mali" gpu_class kernel "GpuInterface"
    ∷ new_driver "gpu-adreno" gpu_class kernel "GpuInterface"
    ∷ new_driver "nvme" nvme_class kernel "BlockDriver"
    ∷ new_driver "xhci" usb_class kernel "UsbHost"
    ∷ new_driver "display" display_class kernel "DisplayController"
    ∷ new_driver "audio-hda" audio_class user "AudioInterface"
    ∷ new_driver "bluetooth" bluetooth_class user "BtInterface"
    ∷ new_driver "virtio-gpu" virtio_class paravirtualized "GpuInterface"
    ∷ new_driver "virtio-blk" virtio_class paravirtualized "BlockDriver"
    ∷ new_driver "virtio-net" virtio_class paravirtualized "NetDriver"
    ∷ []

pub register_all : DriverRegistry → List Driver → DriverRegistry
register_all r [] = r
register_all r (d ∷ ds) = register_all (register r d) ds

pub init : DriverRegistry → DriverRegistry
init r = register_all r baseline

abbrev pub named : String → Driver → Bool
named name d = Text.◌==◌ d.name name

-- `self.drivers.iter_mut().find(|d| d.name == name)`, read and written.
pub find_driver : DriverRegistry → String → Option Driver
find_driver r name = find (named name) r.drivers

pub set_state : DriverRegistry → String → DriverState → DriverRegistry
set_state r name s = record {
  drivers = update_first (named name) (λ d. record d { state = s }) r.drivers;
}

abbrev pub is_loaded : DriverState → Bool
is_loaded s = elim s [ DriverState.loaded ↦ true | _ ↦ false ]

abbrev pub is_initialized : DriverState → Bool
is_initialized s = elim s [ DriverState.initialized ↦ true | _ ↦ false ]

abbrev pub is_user : DriverLocation → Bool
is_user l = elim l [ DriverLocation.user ↦ true | _ ↦ false ]

-- `Ok(())`, or the text of the error.
pub data DriverResult : Type 0 where
  done : DriverResult
  failed : String → DriverResult

pub load : DriverRegistry → String → DriverResult × DriverRegistry
load r name = elim (find_driver r name) [
  | none ↦ (failed "driver not found", r)
  | some d ↦ (done, set_state r name loaded)
]

pub init_driver : DriverRegistry → String → DriverResult × DriverRegistry
init_driver r name = elim (find_driver r name) [
  | none ↦ (failed "driver not found", r)
  | some d ↦
      if is_loaded d.state
      then (done, set_state r name initialized)
      else (failed "driver not loaded", r)
]

pub start : DriverRegistry → String → DriverResult × DriverRegistry
start r name = elim (find_driver r name) [
  | none ↦ (failed "driver not found", r)
  | some d ↦
      if is_initialized d.state
      then (done, set_state r name active)
      else (failed "driver not initialized", r)
]

pub crash : DriverRegistry → String → DriverRegistry
crash r name = elim (find_driver r name) [
  | none ↦ r
  | some d ↦
      let stopped = set_state r name crashed in
      if is_user d.location then set_state stopped name active else stopped
]

pub count : DriverRegistry → ℕ
count r = length r.drivers
