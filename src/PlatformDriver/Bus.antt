-- ===== src/PlatformDriver/Bus.antt =====
-- The two modules of asm_11/ex_2_platform, ex_2_device.c and ex_2_driver.c, loaded and unloaded in any
-- order. As documented, the platform bus calls the probe of a driver when a device of its name and the
-- driver are both there, on loading whichever comes second, and keeps both where the probe fails; and
-- it calls the driver's `remove` for a device that is bound, before either of them goes.
pub mod Held
mod Tests
use Prim.Native.String.{String}
use linux_assignment.Prelude.{
  ℕ, ◌≡◌, ◌≢◌, List, [], ◌∷◌, ◌++◌, Bool, true, false, not, if◌then◌else◌, ℤ, pos, negsuc, is_neg,
}
use linux_assignment.Kernel.Calls.{Answers, Call, Pointer, valid, err}
use linux_assignment.PlatformDriver.Device.{driver_name, platform_dev_init}
use linux_assignment.PlatformDriver.Probe.{platform_driver_probe, platform_driver_remove}

-- `.name` of `multi_char_driver`
abbrev pub name : String
name = "multi_char_dev"

pub record System : Type 0 where
  pub device : Bool  -- whether the device is registered
  pub driver : Bool  -- whether the driver is
  pub bound : Bool
  pub calls : List Call  -- what probe and remove have called so far

abbrev pub start : System
start = record { device = false; driver = false; bound = false; calls = [] }

-- The bus calls `probe`, which the kernel gives some answers.
abbrev pub probed : System → Answers → System
probed s a = record {
  device = true;
  driver = true;
  bound = not (is_neg (platform_driver_probe a).0);
  calls = s.calls ++ (platform_driver_probe a).1;
}

-- The bus calls `remove` if the two are bound.
abbrev pub removed : System → System
removed s = record s {
  bound = false;
  calls = s.calls ++ (if s.bound then platform_driver_remove.1 else []);
}

pub data Step (s : System) : System → Type 0 where
  device_refused : (n : ℕ) → s.device ≡ false → platform_dev_init (err n) ≡ negsuc n → Step s s
  device_alone :
      s.device ≡ false
      → s.driver ≡ false
      → platform_dev_init valid ≡ pos 0
      → Step s (record s { device = true })
  device_other :
      s.device ≡ false
      → s.driver ≡ true
      → driver_name ≢ name
      → platform_dev_init valid ≡ pos 0
      → Step s (record s { device = true })
  device_probed :
      (a : Answers)
      → s.device ≡ false
      → s.driver ≡ true
      → driver_name ≡ name
      → platform_dev_init valid ≡ pos 0
      → Step s (probed s a)
  device_exit : s.device ≡ true → Step s (record (removed s) { device = false })
  driver_refused : s.driver ≡ false → Step s s
  driver_alone : s.driver ≡ false → s.device ≡ false → Step s (record s { driver = true })
  driver_other :
      s.driver ≡ false → s.device ≡ true → driver_name ≢ name → Step s (record s { driver = true })
  driver_probed :
      (a : Answers) → s.driver ≡ false → s.device ≡ true → driver_name ≡ name → Step s (probed s a)
  driver_exit : s.driver ≡ true → Step s (record (removed s) { driver = false })

pub data Steps (s : System) : System → Type 0 where
  here : Steps s s
  next : {t v : System} → Steps s t → Step t v → Steps s v
