-- ===== src/CharDriver/Access.antt =====
-- Which memory `dev_read` and `dev_write` of asm_11/ex_2/ex_2.c touch.
use linux_assignment.Prelude.{
  dec_lt, ℕ_discrete, ℕ, List, ◌+◌, ◌-◌, ◌≤◌, ◌<◌, ◌≡◌, ◌≢◌, ◌↔◌, arith, length, length-set,
  length-splice, length-replicate, min, ℤ, pos, efault, done, fault, overwrite-done, store-done,
  store-fault, slice-done, splice, set, take, drop,
}
use linux_assignment.Kernel.UserMemory.{UserCopy}
use linux_assignment.CharDriver.{Driver, buffer_size, loaded, ReadReply, dev_read, dev_write}

-- The buffer has its declared size, and the data end inside it.
pub record IsValid (d : Driver) : Type 0 where
  pub sized : length d.kernel_buffer ≡ buffer_size
  pub fits : d.buffer_len ≤ buffer_size

pub loaded-IsValid : IsValid loaded
loaded-IsValid = record { sized = length-replicate {A = ℕ} buffer_size 0; fits = omega arith }

module _ (u : UserCopy) where
  open u use {Memory, copy_from_user, copy_to_user, length-copy_from_user}

  -- what `copy_from_user` leaves in the buffer
  abbrev pub copied : Driver → Memory → (buf n : ℕ) → Driver
  copied d m buf n = record d {
    kernel_buffer = splice d.kernel_buffer 0 (copy_from_user m buf n).1;
  }

  -- the driver after a write of `n` bytes, fewer than 1024
  abbrev pub stored : Driver → Memory → (buf n : ℕ) → Driver
  stored d m buf n = record {
    kernel_buffer = set (copied d m buf n).kernel_buffer n 0;
    buffer_len = n;
  }

  module _ {d : Driver} (m : Memory) (buf len : ℕ) (v : IsValid d) where
    -- An unsuccessful copy is reported, and the length stays.
    pub dev_write-refused :
        (copy_from_user m buf (min len buffer_size)).0 ≢ 0
        → dev_write u d m buf len ≡ done (efault, copied d m buf (min len buffer_size))
    unfolding dev_write
    dev_write-refused h = ground (
      arith,
      length-copy_from_user m buf len,
      length-copy_from_user m buf buffer_size,
      overwrite-done d.kernel_buffer 0 (copy_from_user m buf len).1,
      overwrite-done d.kernel_buffer 0 (copy_from_user m buf buffer_size).1,
    )

    -- Up to 1023 bytes are stored, and a zero byte behind them.
    pub dev_write-stored :
        len < buffer_size
        → (copy_from_user m buf len).0 ≡ 0
        → dev_write u d m buf len ≡ done (pos len, stored d m buf len)
    unfolding dev_write
    dev_write-stored lt h = ground (
      arith,
      length-copy_from_user m buf len,
      overwrite-done d.kernel_buffer 0 (copy_from_user m buf len).1,
      length-splice d.kernel_buffer 0 (copy_from_user m buf len).1,
      store-done (copied d m buf len).kernel_buffer len 0,
    )

    -- From 1024 bytes on the zero byte goes behind the buffer.
    pub dev_write-overruns :
        buffer_size ≤ len
        → (copy_from_user m buf buffer_size).0 ≡ 0
        → dev_write u d m buf len ≡ fault
    unfolding dev_write
    dev_write-overruns le h = ground (
      arith,
      length-copy_from_user m buf buffer_size,
      overwrite-done d.kernel_buffer 0 (copy_from_user m buf buffer_size).1,
      length-splice d.kernel_buffer 0 (copy_from_user m buf buffer_size).1,
      store-fault (copied d m buf buffer_size).kernel_buffer buffer_size 0,
    )

  -- On a valid driver, `dev_write` has undefined behaviour exactly when user space offers 1024
  -- bytes or more and the first 1024 of them can be copied.
  pub dev_write-fault_iff :
      {d : Driver} (m : Memory) (buf len : ℕ)
      → IsValid d
      → (dev_write u d m buf len ≡ fault)
        ↔ ((buffer_size ≤ len) × ((copy_from_user m buf buffer_size).0 ≡ 0))
  dev_write-fault_iff {d} m buf len v = (forward, λ h. dev_write-overruns m buf len v h.0 h.1)
    where
      forward :
          dev_write u d m buf len ≡ fault
          → (buffer_size ≤ len) × ((copy_from_user m buf buffer_size).0 ≡ 0)
      forward e = ground (arith, dev_write-stored m buf len v, dev_write-refused m buf len v)

  -- Every write to a valid driver that has defined behaviour leaves it valid, also where the copy
  -- fails.
  pub dev_write-IsValid :
      {d d' : Driver} {ret : ℤ} (m : Memory) (buf len : ℕ)
      → IsValid d
      → dev_write u d m buf len ≡ done (ret, d')
      → IsValid d'
  dev_write-IsValid {d} m buf len v h = ground (
    arith,
    dev_write-stored m buf len v,
    dev_write-refused m buf len v,
    dev_write-overruns m buf len v,
    length-set (copied d m buf len).kernel_buffer len 0,
    length-splice d.kernel_buffer 0 (copy_from_user m buf len).1,
    length-splice d.kernel_buffer 0 (copy_from_user m buf buffer_size).1,
  )

  -- the bytes that a read of `len` bytes at `off` is to deliver
  abbrev pub chunk : Driver → (len off : ℕ) → List ℕ
  chunk d len off = take (min len (d.buffer_len - off)) (drop off d.kernel_buffer)

  module _ {d : Driver} (m : Memory) (buf len off : ℕ) (v : IsValid d) where
    pub dev_read-end :
        d.buffer_len ≤ off
        → dev_read u d m buf len off ≡ done (record { ret = pos 0; off = off; mem = m })
    unfolding dev_read
    dev_read-end h = ground arith

    pub dev_read-delivered :
        off < d.buffer_len
        → (copy_to_user m buf (chunk d len off)).0 ≡ 0
        → dev_read u d m buf len off
          ≡ done (record {
            ret = pos (min len (d.buffer_len - off));
            off = off + min len (d.buffer_len - off);
            mem = (copy_to_user m buf (chunk d len off)).1;
          })
    unfolding dev_read
    dev_read-delivered lt h = ground (
      arith,
      slice-done d.kernel_buffer off len,
      slice-done d.kernel_buffer off (d.buffer_len - off),
    )

    pub dev_read-refused :
        off < d.buffer_len
        → (copy_to_user m buf (chunk d len off)).0 ≢ 0
        → dev_read u d m buf len off
          ≡ done
              (record { ret = efault; off = off; mem = (copy_to_user m buf (chunk d len off)).1 })
    unfolding dev_read
    dev_read-refused lt h = ground (
      arith,
      slice-done d.kernel_buffer off len,
      slice-done d.kernel_buffer off (d.buffer_len - off),
    )

    -- A read of a valid driver stays inside the buffer: it returns, and never moves the offset back.
    pub dev_read-defined : (r : ReadReply u) × (dev_read u d m buf len off ≡ done r) × (off ≤ r.off)
    dev_read-defined = elim (dec_lt off d.buffer_len) [
      | no end ↦ (_, dev_read-end (omega arith), omega arith)
      | yes lt ↦ elim (ℕ_discrete (copy_to_user m buf (chunk d len off)).0 0) [
        | yes e ↦ (_, dev_read-delivered lt e, omega arith)
        | no ne ↦ (_, dev_read-refused lt ne, omega arith)
      ]
    ]
