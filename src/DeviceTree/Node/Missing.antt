-- ===== src/DeviceTree/Node/Missing.antt =====
-- asm_12/ex_2/Platform_driver/driver_2.c: which properties the probe cannot do without.
use linux_assignment.Prelude.{
  ℕ, zero, suc, ◌+◌, ◌*◌, ◌/◌, ◌≤◌, ◌≡◌, ◌≢◌, ◌↔◌, ◌⊎◌, inl, inr, refl, arith, List, [], ◌∷◌,
  Option, none, some, Option-cases, length, slice-done, take, drop, ℤ, Outcome, done, fault, ◌>>=◌,
}
use Prim.Native.String.{String}
use linux_assignment.DeviceTree.{NodeCalls, as_int, after_call}
use linux_assignment.DeviceTree.Node.{from_be, print_values, print_children, my_probe}

-- The loop over the cells stays within the bytes of the property.
pub print_values-total :
    (count i : ℕ) (vals : List ℕ)
    → 4 * (i + count) ≤ length vals
    → (values : List ℤ) × (print_values count i vals ≡ done values) × (length values ≡ count)
unfolding print_values
print_values-total zero i vals h = ([], refl, refl)
print_values-total (suc count) i vals h =
    let (rest, printed, size) = print_values-total count (i + 1) vals (omega arith) in
    (
      as_int (from_be 0 (take 4 (drop (4 * i) vals))) ∷ rest,
      rw (slice-done vals (4 * i) 4 (omega arith), printed) refl,
      omega (arith, size),
    )

-- A variable that has a value keeps one.
still_some {ℓ} :
    {A : Type ℓ} (answer : Option A) (old : A) → (a : A) × (after_call answer (some old) ≡ some a)
still_some none old = (old, refl)
still_some (some a) old = (a, refl)

bind-ne_fault {ℓ κ} :
    {A : Type ℓ} {B : Type κ} (out : Outcome A) (f : A → B)
    → out ≢ fault
    → (out >>= λ a. done (f a)) ≢ fault
bind-ne_fault (done a) f h = λ e. cc
bind-ne_fault fault f h = absurd (h refl)

module _ (c : NodeCalls) where
  open c use {DeviceNode, of_property_read_u32, of_property_read_string, of_get_property, children}

  -- Nothing has been written to a variable when it is printed for the first child.
  abbrev pub IsLacking : List DeviceNode → Type 0
  IsLacking [] = ⊥
  IsLacking (child ∷ nodes) =
      (of_property_read_u32 child "speed" ≡ none) ⊎ (of_property_read_string child "name" ≡ none)

  print_children-total :
      (nodes : List DeviceNode) (speed : ℕ) (child_name : String)
      → print_children c nodes (some speed) (some child_name) ≢ fault
  unfolding print_children
  print_children-total [] speed child_name = λ e. cc
  print_children-total (child ∷ nodes) speed child_name =
      let (s, has_speed) = still_some (of_property_read_u32 child "speed") speed in
      let (n, has_name) = still_some (of_property_read_string child "name") child_name in
      rw (has_speed, has_name) (bind-ne_fault _ _ (print_children-total nodes s n))

  print_children-fault_iff :
      (nodes : List DeviceNode) → (print_children c nodes none none ≡ fault) ↔ IsLacking nodes
  unfolding print_children
  print_children-fault_iff [] = ground arith
  print_children-fault_iff (child ∷ nodes) =
      elim (Option-cases (of_property_read_u32 child "speed")) [
        | inl no_speed ↦ ground arith
        | inr (s, speed) ↦ elim (Option-cases (of_property_read_string child "name")) [
          | inl no_name ↦ ground arith
          | inr (n, name) ↦ ground (arith, print_children-total nodes s n)
        ]
      ]

  -- The probe uses a variable that nothing has written to exactly when the node has no "values", no
  -- "threshold" or no "label", or when it has children and the first of them has no "speed" or no "name".
  pub my_probe-fault_iff :
      (np : DeviceNode)
      → (my_probe c np ≡ fault) ↔ (
          (of_get_property np "values" ≡ none)
          ⊎ ((of_property_read_u32 np "threshold" ≡ none)
              ⊎ ((of_property_read_string np "label" ≡ none) ⊎ IsLacking (children np))))
  unfolding my_probe
  my_probe-fault_iff np = elim (Option-cases (of_get_property np "values")) [
    | inl no_values ↦ ground arith
    | inr (vals, got) ↦
        let (values, printed, size) = print_values-total (length vals / 4) 0 vals (omega arith) in
        ground (arith, got, printed, print_children-fault_iff (children np))
  ]
