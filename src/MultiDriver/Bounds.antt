-- ===== src/MultiDriver/Bounds.antt =====
-- Calls of `dev_read` and `dev_write` of asm_11/ex_2_multi2/ex_2_multi2.c with an offset that lies
-- in the buffer.
use linux_assignment.Prelude.{
  is_neg, if◌then◌else◌, ℕ, ◌≤◌, ◌≡◌, refl, arith, length-splice, done, dec_lt, ℕ_discrete,
}
use linux_assignment.Kernel.UserMemory.{UserCopy}
use linux_assignment.MultiDriver.{
  MyDevice, buffer_size, may_read, may_write, ReadReply, WriteReply, dev_read, dev_write,
}
use linux_assignment.MultiDriver.Access.{
  IsValid, room, chunk, dev_write-forbidden, dev_write-stored, dev_write-refused,
  dev_read-forbidden, dev_read-end, dev_read-delivered, dev_read-refused,
}

module _ (u : UserCopy) where
  open u use {Memory, copy_from_user, copy_to_user, length-copy_from_user}

  module _ {dev : MyDevice} (m : Memory) (buf len off : ℕ) (v : IsValid dev)
      (le : off ≤ buffer_size) where
    -- One call with an offset in the buffer returns, and leaves the device and the offset in order.
    pub dev_write-keeps :
        (w : WriteReply) × (dev_write u dev m buf len off ≡ done w)
        × IsValid w.dev
        × (w.off ≤ buffer_size)
        × (w.dev.perm_flag ≡ dev.perm_flag)
        × ((may_write dev ≡ 0) → w.dev ≡ dev)
        × (dev.size ≤ off → w.dev.size ≤ (if is_neg w.ret then off else w.off))
    dev_write-keeps = elim (ℕ_discrete (may_write dev) 0) [
      | yes no_bit ↦
          (_, dev_write-forbidden u m buf len off v no_bit, v, le, refl, λ _. refl, λ h. h)
      | no bit ↦ elim (ℕ_discrete (copy_from_user m buf (room u len off)).0 0) [
        | yes e ↦ (
          _,
          dev_write-stored u m buf len off v bit le e,
          ground (arith, length-splice dev.buffer off (copy_from_user m buf (room u len off)).1),
          omega arith,
          refl,
          λ h. absurd (bit h),
          λ h. omega arith,
        )
        | no ne ↦ (
          _,
          dev_write-refused u m buf len off v bit le ne,
          ground (arith, length-splice dev.buffer off (copy_from_user m buf (room u len off)).1),
          le,
          refl,
          λ h. absurd (bit h),
          λ h. h,
        )
      ]
    ]

    pub dev_read-keeps :
        (r : ReadReply u) × (dev_read u dev m buf len off ≡ done r) × (r.off ≤ buffer_size)
    dev_read-keeps = elim (ℕ_discrete (may_read dev) 0) [
      | yes no_bit ↦ (_, dev_read-forbidden u m buf len off v no_bit, le)
      | no bit ↦ elim (dec_lt off dev.size) [
        | no end ↦ (_, dev_read-end u m buf len off v bit (omega arith), le)
        | yes lt ↦ elim (ℕ_discrete (copy_to_user m buf (chunk u dev len off)).0 0) [
          | yes e ↦ (_, dev_read-delivered u m buf len off v bit lt e, omega arith)
          | no ne ↦ (_, dev_read-refused u m buf len off v bit lt ne, le)
        ]
      ]
    ]
