-- ===== src/MultiDriver/Access.antt =====
-- What one call of `dev_read` or `dev_write` of asm_11/ex_2_multi2/ex_2_multi2.c does.
use linux_assignment.Prelude.{
  ℕ, ◌+◌, ◌-◌, ◌≤◌, ◌<◌, ◌≡◌, ◌≢◌, ◌↔◌, ◌^◌, List, arith, length, min, pos, eperm, efault, done,
  fault, overwrite-done, overwrite-empty, overwrite-fault, slice-done, splice, take, drop,
}
use linux_assignment.Kernel.UserMemory.{UserCopy}
use linux_assignment.MultiDriver.{
  MyDevice, buffer_size, may_read, may_write, dev_open, dev_read, dev_write,
}

pub record IsValid (dev : MyDevice) : Type 0 where
  pub sized : length dev.buffer ≡ buffer_size
  pub fits : dev.size ≤ buffer_size

pub dev_open_lem :
    (ds : List MyDevice) (minor : ℕ) → minor < length ds → dev_open ds minor ≡ done minor
unfolding dev_open
dev_open_lem ds minor h = ground arith

module _ (u : UserCopy) where
  open u use {Memory, copy_from_user, copy_to_user, length-copy_from_user}

  -- the number of bytes that a write moves, and what the buffer holds then
  abbrev pub room : (len off : ℕ) → ℕ
  room len off = min len (buffer_size - off)

  abbrev pub copied : MyDevice → Memory → (buf len off : ℕ) → List ℕ
  copied dev m buf len off = splice dev.buffer off (copy_from_user m buf (room len off)).1

  module _ {dev : MyDevice} (m : Memory) (buf len off : ℕ) (v : IsValid dev) where
    pub dev_write-forbidden :
        may_write dev ≡ 0
        → dev_write u dev m buf len off ≡ done (record { ret = eperm; off = off; dev = dev })
    unfolding dev_write
    dev_write-forbidden h = ground arith

    pub dev_write-stored :
        may_write dev ≢ 0
        → off ≤ buffer_size
        → (copy_from_user m buf (room len off)).0 ≡ 0
        → dev_write u dev m buf len off
          ≡ done (record {
            ret = pos (room len off);
            off = off + room len off;
            dev = record dev { buffer = copied dev m buf len off; size = off + room len off };
          })
    unfolding dev_write
    dev_write-stored w le h = ground (
      arith,
      length-copy_from_user m buf (room len off),
      overwrite-done dev.buffer off (copy_from_user m buf (room len off)).1,
    )

    pub dev_write-refused :
        may_write dev ≢ 0
        → off ≤ buffer_size
        → (copy_from_user m buf (room len off)).0 ≢ 0
        → dev_write u dev m buf len off
          ≡ done (record {
            ret = efault;
            off = off;
            dev = record dev { buffer = copied dev m buf len off };
          })
    unfolding dev_write
    dev_write-refused w le h = ground (
      arith,
      length-copy_from_user m buf (room len off),
      overwrite-done dev.buffer off (copy_from_user m buf (room len off)).1,
    )

    pub dev_write-empty : buffer_size < off → len ≡ 0 → dev_write u dev m buf len off ≢ fault
    unfolding dev_write
    dev_write-empty lt e h = ground (
      arith,
      length-copy_from_user m buf 0,
      overwrite-empty dev.buffer off (copy_from_user m buf 0).1,
    )

    -- Behind the buffer the difference wraps, so the whole request is copied past its end.
    pub dev_write-overruns :
        may_write dev ≢ 0
        → buffer_size < off
        → off < 2 ^ 63
        → 0 < len
        → dev_write u dev m buf len off ≡ fault
    unfolding dev_write
    dev_write-overruns w lt small some_bytes = ground (
      arith,
      length-copy_from_user m buf (min len (buffer_size + 2 ^ 64 - off)),
      overwrite-fault dev.buffer off
          (copy_from_user m buf (min len (buffer_size + 2 ^ 64 - off))).1,
    )

  -- On a valid device and at an offset below 2 ^ 63, `dev_write` has undefined behaviour exactly
  -- when the device may be written, the offset lies behind the buffer and there is something to
  -- write.
  pub dev_write-overruns_iff :
      {dev : MyDevice} (m : Memory) (buf len off : ℕ)
      → IsValid dev
      → off < 2 ^ 63
      → (dev_write u dev m buf len off ≡ fault)
        ↔ ((may_write dev ≢ 0) × (buffer_size < off) × (0 < len))
  dev_write-overruns_iff {dev} m buf len off v small =
      (forward, λ h. dev_write-overruns m buf len off v h.0 h.1 small h.2)
    where
      forward :
          dev_write u dev m buf len off ≡ fault
          → (may_write dev ≢ 0) × (buffer_size < off) × (0 < len)
      forward e = ground (
        arith,
        dev_write-forbidden m buf len off v,
        dev_write-stored m buf len off v,
        dev_write-refused m buf len off v,
        dev_write-empty m buf len off v,
      )

  -- the number of bytes that a read delivers, and the bytes
  abbrev pub left_of : MyDevice → (len off : ℕ) → ℕ
  left_of dev len off = min len (dev.size - off)

  abbrev pub chunk : MyDevice → (len off : ℕ) → List ℕ
  chunk dev len off = take (left_of dev len off) (drop off dev.buffer)

  module _ {dev : MyDevice} (m : Memory) (buf len off : ℕ) (v : IsValid dev) where
    pub dev_read-forbidden :
        may_read dev ≡ 0
        → dev_read u dev m buf len off ≡ done (record { ret = eperm; off = off; mem = m })
    unfolding dev_read
    dev_read-forbidden h = ground arith

    pub dev_read-end :
        may_read dev ≢ 0
        → dev.size ≤ off
        → dev_read u dev m buf len off ≡ done (record { ret = pos 0; off = off; mem = m })
    unfolding dev_read
    dev_read-end w h = ground arith

    pub dev_read-delivered :
        may_read dev ≢ 0
        → off < dev.size
        → (copy_to_user m buf (chunk dev len off)).0 ≡ 0
        → dev_read u dev m buf len off
          ≡ done (record {
            ret = pos (left_of dev len off);
            off = off + left_of dev len off;
            mem = (copy_to_user m buf (chunk dev len off)).1;
          })
    unfolding dev_read
    dev_read-delivered w lt h = ground (arith, slice-done dev.buffer off (left_of dev len off))

    pub dev_read-refused :
        may_read dev ≢ 0
        → off < dev.size
        → (copy_to_user m buf (chunk dev len off)).0 ≢ 0
        → dev_read u dev m buf len off
          ≡ done
              (record { ret = efault; off = off; mem = (copy_to_user m buf (chunk dev len off)).1 })
    unfolding dev_read
    dev_read-refused w lt h = ground (arith, slice-done dev.buffer off (left_of dev len off))
