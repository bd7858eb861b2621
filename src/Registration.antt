-- ===== src/Registration.antt =====
-- Loading and unloading the three single-device drivers: asm_11/ex_1/ex_1.c, asm_11/ex_2/ex_2.c and
-- asm_11/ex_3/ex_3.c. A function returns the calls that it makes, in order, each with its answer.
pub mod Stub
pub mod Char
pub mod Ioctl
mod Tests
use linux_assignment.Prelude.{
  ℕ, ◌≡◌, ◌↔◌, ◌⊎◌, List, ◌++◌, Bool, true, false, not, ◌&&◌, arith, ℤ, pos, negsuc, is_neg,
}
use linux_assignment.Kernel.Calls.{
  Answers, Call, Resource, numbers, class, cdev, device, is_err, holds, releases_held,
}

pub data Source : Type 0 where
  stub : Source
  char : Source
  ioctl : Source

abbrev pub etx_driver_init : Source → Answers → ℤ × List Call
etx_driver_init stub = Stub.etx_driver_init
etx_driver_init char = Char.etx_driver_init
etx_driver_init ioctl = Ioctl.etx_driver_init

abbrev pub etx_driver_exit : Source → List Call
etx_driver_exit stub = Stub.etx_driver_exit
etx_driver_exit char = Char.etx_driver_exit
etx_driver_exit ioctl = Ioctl.etx_driver_exit

-- No call that may fail does.
pub record Succeeds (a : Answers) : Type 0 where
  pub region : is_neg a.region ≡ false
  pub added : is_neg (a.added 0) ≡ false
  pub class : is_err a.class ≡ false
  pub created : is_err (a.created 0) ≡ false

-- Each of the three drivers returns 0 or -1 when it is loaded, and 0 exactly when every call that may
-- fail succeeds.
pub init-eq-zero_iff :
    (s : Source) (a : Answers)
    → (((etx_driver_init s a).0 ≡ pos 0) ⊎ ((etx_driver_init s a).0 ≡ negsuc 0))
      × (((etx_driver_init s a).0 ≡ pos 0) ↔ Succeeds a)
unfolding Stub.etx_driver_init Char.etx_driver_init Ioctl.etx_driver_init
init-eq-zero_iff stub a = (ground arith, (λ h. ground arith, λ h. ground arith))
init-eq-zero_iff _ a = (ground arith, (λ h. ground arith, λ h. ground arith))

-- When every call of loading succeeds, nothing is held after loading and unloading, and each release
-- on the way is of something held.
pub load_unload :
    (s : Source) (a : Answers) (r : Resource)
    → Succeeds a
    → (holds r false ((etx_driver_init s a).1 ++ etx_driver_exit s) ≡ false)
      × (releases_held r false ((etx_driver_init s a).1 ++ etx_driver_exit s) ≡ true)
unfolding Stub.etx_driver_init Stub.etx_driver_exit Char.etx_driver_init Char.etx_driver_exit
    Ioctl.etx_driver_init Ioctl.etx_driver_exit
load_unload stub a numbers h = ground arith
load_unload _ a class h = ground arith
load_unload _ a r h = ground arith

-- A load that returns -1 holds neither device numbers nor a class nor a device, and releases only
-- what it holds; but it still holds the `cdev` if there were device numbers and the `cdev` was
-- added.
pub init_failed :
    (s : Source) (a : Answers)
    → (etx_driver_init s a).0 ≡ negsuc 0
    → (holds numbers false (etx_driver_init s a).1 ≡ false)
      × (holds class false (etx_driver_init s a).1 ≡ false)
      × ((i : ℕ) → holds (device i) false (etx_driver_init s a).1 ≡ false)
      × ((r : Resource) → releases_held r false (etx_driver_init s a).1 ≡ true)
      × (holds (cdev 0) false (etx_driver_init s a).1
          ≡ not (is_neg a.region) && not (is_neg (a.added 0)))
unfolding Stub.etx_driver_init Char.etx_driver_init Ioctl.etx_driver_init
init_failed stub a h = (
  ground arith,
  ground arith,
  λ i. ground arith,
  elim [
    | numbers ↦ ground arith
    | class ↦ ground arith
    | cdev i ↦ ground arith
    | device i ↦ ground arith
  ],
  ground arith,
)
init_failed _ a h = (
  ground arith,
  ground arith,
  λ i. ground arith,
  elim [
    | numbers ↦ ground arith
    | class ↦ ground arith
    | cdev i ↦ ground arith
    | device i ↦ ground arith
  ],
  ground arith,
)
