-- ===== src/Kernel/Calls.antt =====
-- The calls by which a driver registers a character device, each with the kernel's answer, and what
-- a driver holds after a sequence of them. That a call acquires or releases a resource is the
-- documented effect of that call; which calls are made, and when, is the drivers'.
use linux_assignment.Prelude.{
  ℕ, Bool, true, false, not, ◌&&◌, List, [], ◌∷◌, ◌==◌, if◌then◌else◌, ℤ, pos, negsuc, is_neg,
}

-- A pointer that may be an error, as `IS_ERR` tells: `err n` is ERR_PTR(-(n + 1)).
pub data Pointer : Type 0 where
  valid : Pointer
  err : ℕ → Pointer

abbrev pub is_err : Pointer → Bool
is_err valid = false
is_err (err n) = true

-- PTR_ERR, of an error
abbrev pub ptr_err : Pointer → ℤ
ptr_err valid = pos 0
ptr_err (err n) = negsuc n

-- A number is the minor of a device.
pub data Call : Type 0 where
  alloc_chrdev_region : ℤ → Call
  unregister_chrdev_region : Call
  cdev_init : ℕ → Call
  cdev_add : ℕ → ℤ → Call
  cdev_del : ℕ → Call
  class_create : Pointer → Call
  set_devnode : Call
  class_destroy : Call
  device_create : ℕ → Pointer → Call
  device_destroy : ℕ → Call

-- The kernel's answers to the calls of one initialisation.
pub record Answers : Type 0 where
  pub region : ℤ
  pub class : Pointer
  pub added : ℕ → ℤ
  pub created : ℕ → Pointer

pub data Resource : Type 0 where
  numbers : Resource  -- the range of device numbers
  class : Resource
  cdev : ℕ → Resource
  device : ℕ → Resource

-- whether a call acquires a resource
abbrev pub acquires : Call → Resource → Bool
acquires (alloc_chrdev_region ret) numbers = not (is_neg ret)
acquires (class_create p) class = not (is_err p)
acquires (cdev_add i ret) (cdev j) = not (is_neg ret) && (i == j)
acquires (device_create i p) (device j) = not (is_err p) && (i == j)
acquires _ _ = false

-- whether a call releases a resource
abbrev pub releases : Call → Resource → Bool
releases unregister_chrdev_region numbers = true
releases class_destroy class = true
releases (cdev_del i) (cdev j) = i == j
releases (device_destroy i) (device j) = i == j
releases _ _ = false

-- Whether the resource is held after the calls, given whether it was before them.
abbrev pub holds : Resource → Bool → List Call → Bool
holds r held [] = held
holds r held (c ∷ cs) =
    holds r (if acquires c r then true else if releases c r then false else held) cs

-- Whether each call that releases the resource is made while it is held.
abbrev pub releases_held : Resource → Bool → List Call → Bool
releases_held r held [] = true
releases_held r held (c ∷ cs) =
    (if releases c r then held else true)
    && releases_held r (if acquires c r then true else if releases c r then false else held) cs
