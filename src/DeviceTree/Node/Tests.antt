-- ===== src/DeviceTree/Node/Tests.antt =====
-- The theorems on asm_12/ex_2/Platform_driver/driver_2.c for a node with two children, of which the
-- second has no "speed".
use Prim.Native.String.{String}
use linux_assignment.Prelude.{ℕ, ◌≡◌, ◌↔◌, ◌⊎◌, refl, [], ◌∷◌, Option, none, some, get_elem?, fault}
use linux_assignment.DeviceTree.{NodeCalls, after_call}
use linux_assignment.DeviceTree.Node.{child_found, print_children, my_probe}
use linux_assignment.DeviceTree.Node.Missing.{IsLacking, my_probe-fault_iff}
use linux_assignment.DeviceTree.Node.Stale.{stale_speed}

data Node : Type 0 where
  top : Node
  motor : Node
  fan : Node

abbrev read_u32 : Node → String → Option ℕ
read_u32 top name = some 42
read_u32 motor name = some 100
read_u32 fan name = none

abbrev calls : NodeCalls
calls = record {
  DeviceNode = Node;
  of_property_read_u32 = read_u32;
  of_property_read_string = λ node name. some "text";
  of_get_property = λ node name. some (0 ∷ 0 ∷ 1 ∷ 2 ∷ []);
  children = λ node. motor ∷ fan ∷ [];
}

my_probe-fault_iff_example : (my_probe calls top ≡ fault) ↔ (
    (calls.of_get_property top "values" ≡ none)
    ⊎ ((read_u32 top "threshold" ≡ none)
        ⊎ ((calls.of_property_read_string top "label" ≡ none)
            ⊎ IsLacking calls (motor ∷ fan ∷ []))))
my_probe-fault_iff_example = my_probe-fault_iff calls top

stale_speed_example :
    (k : ℕ) × (a : String) × (k' : ℕ) × (b : String) × (get_elem?
        (child_found 100 "text" ∷ child_found 100 "text" ∷ [])
        0
      ≡ some (child_found k a))
    × (get_elem? (child_found 100 "text" ∷ child_found 100 "text" ∷ []) 1 ≡ some (child_found k' b))
    × (after_call (read_u32 fan "speed") (some k) ≡ some k')
unfolding print_children
stale_speed_example =
    stale_speed calls (motor ∷ fan ∷ []) none none
      (child_found 100 "text" ∷ child_found 100 "text" ∷ []) 0 fan refl refl
