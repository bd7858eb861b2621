-- ===== src/MultiDriver/Setup.antt =====
-- Loading and unloading the driver of asm_11/ex_2_multi2/ex_2_multi2.c: the calls made, in order.
use linux_assignment.Prelude.{
  ℕ, zero, suc, ◌<◌, ◌≡◌, ◌↔◌, ◌⊎◌, List, [], ◌∷◌, ◌++◌, true, false, if◌then◌else◌, arith, ℤ, pos,
  is_neg,
}
use linux_assignment.Kernel.Calls.{
  Answers, Call, alloc_chrdev_region, unregister_chrdev_region, cdev_init, cdev_add, cdev_del,
  class_create, set_devnode, class_destroy, device_create, device_destroy, is_err, ptr_err,
  Resource, numbers, class, cdev, device, holds, releases_held,
}
use linux_assignment.MultiDriver.{num_devices}

-- The loop of `multi_driver_init`, from the device with minor `i` on; no answer is looked at.
create_from : Answers → (rounds i : ℕ) → List Call
create_from a zero i = []
create_from a (suc rounds) i =
    cdev_init i
    ∷ cdev_add i (a.added i)
    ∷ device_create i (a.created i)
    ∷ create_from a rounds (suc i)

unfoldable pub multi_driver_init : Answers → ℤ × List Call
unfolding create_from
multi_driver_init a =
    if is_neg a.region
    then (a.region, alloc_chrdev_region a.region ∷ [])
    else if is_err a.class
    then (
      ptr_err a.class,
      alloc_chrdev_region a.region ∷ class_create a.class ∷ unregister_chrdev_region ∷ [],
    )
    else (
      pos 0,
      alloc_chrdev_region a.region
          ∷ class_create a.class
          ∷ set_devnode
          ∷ create_from a num_devices 0,
    )

destroy_from : (rounds i : ℕ) → List Call
destroy_from zero i = []
destroy_from (suc rounds) i = device_destroy i ∷ cdev_del i ∷ destroy_from rounds (suc i)

unfoldable pub multi_driver_exit : List Call
unfolding destroy_from
multi_driver_exit = destroy_from num_devices 0 ++ (class_destroy ∷ unregister_chrdev_region ∷ [])

-- Loading returns 0 exactly when the kernel gives the device numbers and the class, whatever becomes
-- of the devices; and it returns 0, or holds nothing of any kind when it returns.
pub multi_driver_init_lem :
    (a : Answers) (r : Resource)
    → (((multi_driver_init a).0 ≡ pos 0) ↔ ((is_neg a.region ≡ false) × (is_err a.class ≡ false)))
      × (((multi_driver_init a).0 ≡ pos 0) ⊎ (holds r false (multi_driver_init a).1 ≡ false))
unfolding multi_driver_init
multi_driver_init_lem a numbers = ((λ h. ground arith, λ h. ground arith), ground arith)
multi_driver_init_lem a class = ((λ h. ground arith, λ h. ground arith), ground arith)
multi_driver_init_lem a (cdev j) = ((λ h. ground arith, λ h. ground arith), ground arith)
multi_driver_init_lem a (device j) = ((λ h. ground arith, λ h. ground arith), ground arith)

-- No call that may fail does.
pub record Succeeds (a : Answers) : Type 0 where
  pub region : is_neg a.region ≡ false
  pub class : is_err a.class ≡ false
  pub added : (i : ℕ) → i < num_devices → is_neg (a.added i) ≡ false
  pub created : (i : ℕ) → i < num_devices → is_err (a.created i) ≡ false

-- When every call of loading succeeds, nothing is held after loading and unloading, and each release
-- on the way is of something held.
pub load_unload_all :
    (a : Answers) (r : Resource)
    → Succeeds a
    → (holds r false ((multi_driver_init a).1 ++ multi_driver_exit) ≡ false)
      × (releases_held r false ((multi_driver_init a).1 ++ multi_driver_exit) ≡ true)
unfolding multi_driver_init multi_driver_exit
load_unload_all a numbers h = ground (arith, h.region, h.class)
load_unload_all a class h = ground (arith, h.region, h.class)
load_unload_all a (cdev j) h =
    ground (arith, h.region, h.class, h.added 0, h.added 1, h.added 2, h.added 3, h.added 4)
load_unload_all a (device j) h =
    ground
      (arith, h.region, h.class, h.created 0, h.created 1, h.created 2, h.created 3, h.created 4)

-- If the kernel gives the device numbers and the class but refuses a `cdev` of the five, loading
-- returns 0 all the same, and loading and unloading deletes that `cdev`, which was never added.
pub deletes_unadded :
    (a : Answers) (i : ℕ)
    → is_neg a.region ≡ false
    → is_err a.class ≡ false
    → i < num_devices
    → is_neg (a.added i) ≡ true
    → ((multi_driver_init a).0 ≡ pos 0)
      × (releases_held (cdev i) false ((multi_driver_init a).1 ++ multi_driver_exit) ≡ false)
unfolding multi_driver_init multi_driver_exit
deletes_unadded a zero r c lt bad = (ground arith, ground arith)
deletes_unadded a (suc zero) r c lt bad = (ground arith, ground arith)
deletes_unadded a (suc (suc zero)) r c lt bad = (ground arith, ground arith)
deletes_unadded a (suc (suc (suc zero))) r c lt bad = (ground arith, ground arith)
deletes_unadded a (suc (suc (suc (suc zero)))) r c lt bad = (ground arith, ground arith)
deletes_unadded a (suc (suc (suc (suc (suc i))))) r c lt bad = absurd (omega arith)
