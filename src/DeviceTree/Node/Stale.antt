-- ===== src/DeviceTree/Node/Stale.antt =====
-- asm_12/ex_2/Platform_driver/driver_2.c: what the probe prints for a child that has no "speed".
use linux_assignment.Prelude.{
  ℕ, zero, suc, ◌≡◌, inl, inr, ap, ◌∙◌, arith, List, [], ◌∷◌, Option, some, get_elem?, Option-cases,
  Outcome-cases, done,
}
use Prim.Native.String.{String}
use linux_assignment.DeviceTree.{NodeCalls, after_call}
use linux_assignment.DeviceTree.Node.{Message, child_found, print_children}

-- A run over the first child that came to its end.
abbrev pub IsFirst :
    (c : NodeCalls)
    → c.DeviceNode
    → List c.DeviceNode
    → Option ℕ
    → Option String
    → List Message
    → Type 0
IsFirst c child nodes speed child_name found =
    (k : ℕ) × (a : String) × (rest : List Message) × (after_call
        (c.of_property_read_u32 child "speed") speed
      ≡ some k)
    × (after_call (c.of_property_read_string child "name") child_name ≡ some a)
    × (print_children c nodes (some k) (some a) ≡ done rest)
    × (found ≡ child_found k a ∷ rest)

module _ (c : NodeCalls) where
  open c use {DeviceNode, of_property_read_u32, of_property_read_string}

  print_children-IsFirst :
      (child : DeviceNode) (nodes : List DeviceNode) (speed : Option ℕ) (child_name : Option String)
      (found : List Message)
      → print_children c (child ∷ nodes) speed child_name ≡ done found
      → IsFirst c child nodes speed child_name found
  unfolding print_children
  print_children-IsFirst child nodes speed child_name found e =
      elim (Option-cases (after_call (of_property_read_u32 child "speed") speed)) [
        | inl no_speed ↦ absurd (ground (arith, (rw no_speed at e)))
        | inr (k, own) ↦
            elim (Option-cases (after_call (of_property_read_string child "name") child_name)) [
              | inl no_name ↦ absurd (ground (arith, (rw (own, no_name) at e)))
              | inr (a, name) ↦ elim (Outcome-cases (print_children c nodes (some k) (some a))) [
                | inl (rest, r) ↦
                    (k, a, rest, own, name, r, ground (arith, (rw (own, name, r) at e)))
                | inr failed ↦ absurd (ground (arith, (rw (own, name, failed) at e)))
              ]
            ]
      ]

  -- Where the loop over the children comes to its end, every child but the first is printed with its own
  -- "speed" if it has one, and otherwise with the speed that was printed for the child before it.
  pub stale_speed :
      (nodes : List DeviceNode) (speed : Option ℕ) (child_name : Option String)
      (found : List Message) (i : ℕ) (child : DeviceNode)
      → print_children c nodes speed child_name ≡ done found
      → get_elem? nodes (suc i) ≡ some child
      → (k : ℕ) × (a : String) × (k' : ℕ) × (b : String) × (get_elem? found i
          ≡ some (child_found k a))
        × (get_elem? found (suc i) ≡ some (child_found k' b))
        × (after_call (of_property_read_u32 child "speed") (some k) ≡ some k')
  stale_speed [] speed child_name found i child e here = absurd (ground arith)
  stale_speed (first ∷ []) speed child_name found i child e here = absurd (ground arith)
  stale_speed (first ∷ next ∷ nodes) speed child_name found zero child e here =
      let (k, a, rest, own, name, r, f) =
        print_children-IsFirst first (next ∷ nodes) speed child_name found e in
      let (k', b, rest', own', name', r', f') =
        print_children-IsFirst next nodes (some k) (some a) rest r in
      (k, a, k', b, ground (arith, f), ground (arith, f, f'), ground (arith, own', here))
  stale_speed (first ∷ next ∷ nodes) speed child_name found (suc i) child e here =
      let (k, a, rest, own, name, r, f) =
        print_children-IsFirst first (next ∷ nodes) speed child_name found e in
      let (k1, a1, k2, a2, at, at', own') =
        stale_speed (next ∷ nodes) (some k) (some a) rest i child r here in
      (
        k1,
        a1,
        k2,
        a2,
        ap (λ xs. get_elem? xs (suc i)) f ∙ at,
        ap (λ xs. get_elem? xs (suc (suc i))) f ∙ at',
        own',
      )
