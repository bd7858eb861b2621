-- ===== src/DeviceTree.antt =====
-- Platform drivers of asm_12 that read their device's node. The calls on a node are of the kernel: a
-- parameter. A call that finds nothing returns an error, or NULL, and writes to no variable.
pub mod Sensor
pub mod Node
use Prim.Native.String.{String}
use linux_assignment.Prelude.{
  ℕ, zero, suc, ◌+◌, ◌-◌, ◌*◌, ◌^◌, List, [], ◌∷◌, Option, none, some, ltb, if◌then◌else◌, ℤ, pos,
  negsuc, Outcome, done, fault,
}

pub record NodeCalls : Type 1 where
  pub DeviceNode : Type 0
  pub of_property_read_u32 : DeviceNode → String → Option ℕ
  pub of_property_read_string : DeviceNode → String → Option String
  pub of_get_property : DeviceNode → String → Option (List ℕ)  -- the bytes
  pub children : DeviceNode → List DeviceNode

-- What `%d` prints of a `u32`.
abbrev pub as_int : ℕ → ℤ
as_int n = if ltb n (2 ^ 31) then pos n else negsuc (2 ^ 32 - 1 - n)

-- A variable after a call that may write to it, where `none` is one that nothing has written to.
abbrev pub after_call {ℓ} : {A : Type ℓ} → (answer old : Option A) → Option A
after_call none old = old
after_call (some a) old = some a

abbrev pub value_of {ℓ} : {A : Type ℓ} → Option A → Outcome A
value_of none = fault
value_of (some a) = done a
