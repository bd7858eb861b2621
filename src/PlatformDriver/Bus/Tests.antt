-- ===== src/PlatformDriver/Bus/Tests.antt =====
-- The theorem on the modules of asm_11/ex_2_platform after both were loaded, the driver first.
use linux_assignment.Prelude.{◌≡◌, ◌⊎◌, refl, false, true, pos}
use linux_assignment.Kernel.Calls.{Answers, Resource, numbers, class, holds, valid}
use linux_assignment.PlatformDriver.Device.{platform_dev_init}
use linux_assignment.PlatformDriver.Bus.{
  System, start, driver_alone, device_probed, Steps, here, next,
}
use linux_assignment.PlatformDriver.Bus.Held.{held_while_bound}

abbrev granted : Answers
granted = record { region = pos 0; class = valid; added = λ i. pos 0; created = λ i. valid }

registered : platform_dev_init valid ≡ pos 0
unfolding platform_dev_init
registered = refl

abbrev both_loaded : (s : System) × Steps start s
both_loaded =
    (_, next (next here (driver_alone refl refl)) (device_probed granted refl refl refl registered))

held_while_bound_example :
    let s = both_loaded.0 in
    ((s.bound ≡ false) × ((r : Resource) → holds r false s.calls ≡ false))
    ⊎ ((s.bound ≡ true)
        × (s.device ≡ true)
        × (s.driver ≡ true)
        × (holds numbers false s.calls ≡ true)
        × (holds class false s.calls ≡ true))
held_while_bound_example = held_while_bound both_loaded.1
