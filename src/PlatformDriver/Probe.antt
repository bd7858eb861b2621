-- ===== src/PlatformDriver/Probe.antt =====
-- Binding and unbinding the driver of asm_11/ex_2_platform/ex_2_driver.c: the calls made, in order. Of
-- their arguments only the minor is kept: the names and the owner have no part in what is held.
use linux_assignment.Prelude.{ℕ, zero, suc, List, [], ◌∷◌, ◌++◌, if◌then◌else◌, ℤ, pos, is_neg}
use linux_assignment.Kernel.Calls.{
  Answers, Call, alloc_chrdev_region, unregister_chrdev_region, cdev_init, cdev_add, cdev_del,
  class_create, set_devnode, class_destroy, device_create, device_destroy, is_err, ptr_err,
}

abbrev num_devices : ℕ
num_devices = 5

create_devices : Answers → (rounds i : ℕ) → List Call
create_devices a zero i = []
create_devices a (suc rounds) i =
    cdev_init i
    ∷ cdev_add i (a.added i)
    ∷ device_create i (a.created i)
    ∷ create_devices a rounds (suc i)

unfoldable pub platform_driver_probe : Answers → ℤ × List Call
unfolding create_devices
platform_driver_probe a =
    if is_neg a.region
    then (a.region, alloc_chrdev_region a.region ∷ [])
    else if is_err a.class
    then (
      ptr_err a.class,
      alloc_chrdev_region a.region ∷ class_create a.class ∷ unregister_chrdev_region ∷ [],
    )
    else (
      pos 0,
      alloc_chrdev_region a.region
          ∷ class_create a.class
          ∷ set_devnode
          ∷ create_devices a num_devices 0,
    )

destroy_devices : (rounds i : ℕ) → List Call
destroy_devices zero i = []
destroy_devices (suc rounds) i = device_destroy i ∷ cdev_del i ∷ destroy_devices rounds (suc i)

unfoldable pub platform_driver_remove : ℤ × List Call
unfolding destroy_devices
platform_driver_remove =
    (pos 0, destroy_devices num_devices 0 ++ (class_destroy ∷ unregister_chrdev_region ∷ []))
