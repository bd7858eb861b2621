-- ===== src/DeviceTree/Node.antt =====
-- asm_12/ex_2/Platform_driver/driver_2.c: the probe that reads several properties and the children of
-- the node. None of the answers of the calls is looked at.
pub mod Missing
pub mod Stale
mod Tests
use Prim.Native.String.{String}
use linux_assignment.Prelude.{
  ℕ, zero, suc, ◌+◌, ◌*◌, ◌/◌, List, [], ◌∷◌, Option, none, some, length, slice, ℤ, pos, Outcome,
  done, ◌>>=◌,
}
use linux_assignment.DeviceTree.{NodeCalls, as_int, after_call, value_of}

pub data Message : Type 0 where
  threshold_is : ℕ → Message
  label_is : String → Message
  values_are : List ℤ → Message
  child_found : (speed : ℕ) → (name : String) → Message

-- `be32_to_cpu` of the bytes of a cell
abbrev pub from_be : (high : ℕ) → List ℕ → ℕ
from_be high [] = high
from_be high (b ∷ bs) = from_be (high * 256 + b) bs

-- The loop over `count` cells from cell `i` on.
unfoldable pub print_values : (count i : ℕ) → List ℕ → Outcome (List ℤ)
print_values zero i vals = done []
print_values (suc count) i vals = do
  cell ← slice vals (4 * i) 4
  rest ← print_values count (i + 1) vals
  done (as_int (from_be 0 cell) ∷ rest)

module _ (c : NodeCalls) where
  open c use {DeviceNode, of_property_read_u32, of_property_read_string, of_get_property, children}

  -- The loop over the children, with the variables that it shares.
  unfoldable pub print_children :
      List DeviceNode → (speed : Option ℕ) → (child_name : Option String) → Outcome (List Message)
  print_children [] speed child_name = done []
  print_children (child ∷ nodes) speed child_name = do
    let speed' = after_call (of_property_read_u32 child "speed") speed
    let child_name' = after_call (of_property_read_string child "name") child_name
    s ← value_of speed'
    n ← value_of child_name'
    rest ← print_children nodes speed' child_name'
    done (child_found s n ∷ rest)

  unfoldable pub my_probe : DeviceNode → Outcome (ℤ × List Message)
  my_probe np = do
    vals ← value_of (of_get_property np "values")
    threshold ← value_of (after_call (of_property_read_u32 np "threshold") none)
    label ← value_of (after_call (of_property_read_string np "label") none)
    values ← print_values (length vals / 4) 0 vals
    found ← print_children (children np) none none
    done (pos 0, threshold_is threshold ∷ label_is label ∷ values_are values ∷ found)
