-- ===== src/Registration/Ioctl.antt =====
-- Loading and unloading the driver with an ioctl, asm_11/ex_3/ex_3.c.
use linux_assignment.Prelude.{List, [], ◌∷◌, ◌++◌, if◌then◌else◌, ℤ, pos, negsuc, is_neg}
use linux_assignment.Kernel.Calls.{
  Answers, Call, alloc_chrdev_region, unregister_chrdev_region, cdev_init, cdev_add, cdev_del,
  class_create, set_devnode, class_destroy, device_create, device_destroy, is_err,
}

-- The labels of the error paths.
abbrev r_class : List Call
r_class = unregister_chrdev_region ∷ []

abbrev r_device : List Call
r_device = class_destroy ∷ r_class

unfoldable pub etx_driver_init : Answers → ℤ × List Call
etx_driver_init a =
    if is_neg a.region
    then (negsuc 0, alloc_chrdev_region a.region ∷ [])
    else if is_neg (a.added 0)
    then (negsuc 0, added ++ r_class)
    else if is_err a.class
    then (negsuc 0, added ++ (class_create a.class ∷ r_class))
    else if is_err (a.created 0)
    then (
      negsuc 0,
      added ++ (class_create a.class ∷ set_devnode ∷ device_create 0 (a.created 0) ∷ r_device),
    )
    else (pos 0, added ++ (class_create a.class ∷ set_devnode ∷ device_create 0 (a.created 0) ∷ []))
  where
    added : List Call
    added = alloc_chrdev_region a.region ∷ cdev_init 0 ∷ cdev_add 0 (a.added 0) ∷ []

unfoldable pub etx_driver_exit : List Call
etx_driver_exit = device_destroy 0 ∷ class_destroy ∷ cdev_del 0 ∷ unregister_chrdev_region ∷ []
