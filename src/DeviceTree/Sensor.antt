-- ===== src/DeviceTree/Sensor.antt =====
-- asm_12/ex_1/Platfrom_driver/driver.c: the probe that needs one property.
use linux_assignment.Prelude.{
  ℕ, ◌^◌, ◌<◌, ◌≡◌, ◌↔◌, arith, List, [], ◌∷◌, none, some, ℤ, pos, einval,
}
use linux_assignment.DeviceTree.{NodeCalls, as_int}

pub data Message : Type 0 where
  failed_to_read : Message
  threshold_is : ℤ → Message

module _ (c : NodeCalls) where
  open c use {DeviceNode, of_property_read_u32}

  pub my_sensor_probe : DeviceNode → ℤ × List Message
  my_sensor_probe np = elim (of_property_read_u32 np "threshold") [
    | none ↦ (einval, failed_to_read ∷ [])
    | some threshold ↦ (pos 0, threshold_is (as_int threshold) ∷ [])
  ]

  -- The probe succeeds and prints the threshold itself exactly when there is one below 2 ^ 31.
  pub my_sensor_probe-prints :
      (np : DeviceNode) (t : ℕ)
      → (my_sensor_probe np ≡ (pos 0, threshold_is (pos t) ∷ []))
        ↔ ((of_property_read_u32 np "threshold" ≡ some t) × (t < 2 ^ 31))
  unfolding my_sensor_probe
  my_sensor_probe-prints np t = ground arith
