-- ===== src/Registration/Tests.antt =====
-- The theorems on loading and unloading the single-device drivers, at answers of the kernel.
use linux_assignment.Prelude.{ℕ, ◌≡◌, refl, ◌++◌, true, false, not, ◌&&◌, pos, negsuc, is_neg}
use linux_assignment.Kernel.Calls.{
  Answers, Resource, numbers, class, cdev, device, valid, err, holds, releases_held,
}
use linux_assignment.Registration.{
  char, etx_driver_init, etx_driver_exit, Succeeds, load_unload, init_failed,
}
use linux_assignment.Registration.Char

abbrev good : Answers
good = record { region = pos 0; class = valid; added = λ i. pos 0; created = λ i. valid }

-- the class cannot be made
abbrev no_class : Answers
no_class = record { region = pos 0; class = err 11; added = λ i. pos 0; created = λ i. valid }

good-Succeeds : Succeeds good
good-Succeeds = record { region = refl; added = refl; class = refl; created = refl }

load_unload_example :
    (holds (cdev 0) false ((etx_driver_init char good).1 ++ etx_driver_exit char) ≡ false)
    × (releases_held (cdev 0) false ((etx_driver_init char good).1 ++ etx_driver_exit char) ≡ true)
load_unload_example = load_unload char good (cdev 0) good-Succeeds

refused : (etx_driver_init char no_class).0 ≡ negsuc 0
unfolding Char.etx_driver_init
refused = refl

init_failed_example :
    (holds numbers false (etx_driver_init char no_class).1 ≡ false)
    × (holds class false (etx_driver_init char no_class).1 ≡ false)
    × ((i : ℕ) → holds (device i) false (etx_driver_init char no_class).1 ≡ false)
    × ((r : Resource) → releases_held r false (etx_driver_init char no_class).1 ≡ true)
    × (holds (cdev 0) false (etx_driver_init char no_class).1
        ≡ not (is_neg no_class.region) && not (is_neg (no_class.added 0)))
init_failed_example = init_failed char no_class refused
