-- ===== src/MultiDriver/Transfer/Anywhere.antt =====
-- Writes at any offset of a device of asm_11/ex_2_multi2/ex_2_multi2.c, and reads behind them.
use linux_assignment.Prelude.{
  ℕ, ◌+◌, ◌-◌, ◌≤◌, ◌<◌, ◌≡◌, ◌≢◌, ◌∙◌, refl, ap, subst, List, ◌++◌, arith, length, min, pos, done,
  length-take, length-append, length-drop, length-splice, splice, take, drop, take-drop-take,
  take-splice_at,
}
use linux_assignment.Kernel.UserMemory.{UserCopy}
use linux_assignment.MultiDriver.{
  MyDevice, buffer_size, may_read, may_write, ReadReply, WriteReply, dev_read, dev_write,
}
use linux_assignment.MultiDriver.Access.{
  IsValid, chunk, dev_read-delivered, dev_write-stored, left_of,
}

module _ (u : UserCopy) where
  open u use {
    Memory, bytes, length-bytes, copy_from_user, copy_to_user, length-copy_from_user,
    copy_from_user-copied, copy_to_user-copied,
  }

  -- what the device holds up to the end of a write of `n` bytes at `off`
  abbrev pub held : MyDevice → Memory → (src n off : ℕ) → List ℕ
  held dev m src n off = take off dev.buffer ++ bytes m src n

  -- the part of it that a read of `len` bytes at `at` is to return
  abbrev pub part_at : MyDevice → Memory → (src n off len at : ℕ) → List ℕ
  part_at dev m src n off len at = take (min len (off + n - at)) (drop at (held dev m src n off))

  -- the device after the write
  abbrev written : MyDevice → Memory → (src n off : ℕ) → MyDevice
  written dev m src n off = record dev {
    buffer = splice dev.buffer off (copy_from_user m src n).1;
    size = off + n;
  }

  module _ {dev : MyDevice} (m : Memory) (src n off : ℕ) (v : IsValid dev)
      (fits : off + n ≤ buffer_size) (ok : (copy_from_user m src n).0 ≡ 0) where
    dev_write-written :
        may_write dev ≢ 0
        → dev_write u dev m src n off
          ≡ done (record { ret = pos n; off = off + n; dev = written dev m src n off })
    dev_write-written can_write =
        subst
          (λ k.
            (copy_from_user m src k).0 ≡ 0
            → dev_write u dev m src n off
              ≡ done (record {
                ret = pos k;
                off = off + k;
                dev = record dev {
                  buffer = splice dev.buffer off (copy_from_user m src k).1;
                  size = off + k;
                };
              }))
          (omega arith) (dev_write-stored u m src n off v can_write (omega arith)) ok

    written-IsValid : IsValid (written dev m src n off)
    written-IsValid = ground (arith, length-splice dev.buffer off (copy_from_user m src n).1)

    chunk-written :
        (len at : ℕ) → chunk u (written dev m src n off) len at ≡ part_at dev m src n off len at
    chunk-written len at =
        take-drop-take (left_of u (written dev m src n off) len at) (min len (off + n - at))
          (off + n) at (splice dev.buffer off (copy_from_user m src n).1) (omega arith)
        ∙ ap (λ xs. take (min len (off + n - at)) (drop at xs))
            (take-splice_at (off + n) off dev.buffer (copy_from_user m src n).1
                (omega (arith, length-copy_from_user m src n)) (omega (arith, v.sized))
              ∙ ap (λ xs. take off dev.buffer ++ xs) (copy_from_user-copied m src n ok))

  part_at-length :
      (dev : MyDevice) (m : Memory) (src n off len at : ℕ)
      → IsValid dev
      → off + n ≤ buffer_size
      → at < off + n
      → length (part_at dev m src n off len at) ≡ min len (off + n - at)
  part_at-length dev m src n off len at v fits lt = omega (
    arith,
    v.sized,
    length-take (min len (off + n - at)) (drop at (held dev m src n off)),
    length-drop at (held dev m src n off),
    length-append (take off dev.buffer) (bytes m src n),
    length-take off dev.buffer,
    length-bytes m src n,
  )

  -- After a write of `n` bytes at any offset `off` from which they fit into the buffer of a device
  -- whose two flags are set, a read at any offset `at` below the end of the write returns the number
  -- of bytes asked for or left, whichever is less, and delivers, if both copies succeed, from `at` on
  -- what the buffer held before up to `off` and then the bytes that were written: those in front of
  -- `off` come back even if they lie behind the old size.
  pub read_back_at :
      {dev : MyDevice} (m m' : Memory) (src n off dst len at : ℕ)
      → IsValid dev
      → may_read dev ≢ 0
      → may_write dev ≢ 0
      → off + n ≤ buffer_size
      → at < off + n
      → (copy_from_user m src n).0 ≡ 0
      → (copy_to_user m' dst (part_at dev m src n off len at)).0 ≡ 0
      → (w : WriteReply) × (r : ReadReply u) × (dev_write u dev m src n off ≡ done w)
        × (dev_read u w.dev m' dst len at ≡ done r)
        × (w.ret ≡ pos n)
        × (r.ret ≡ pos (min len (off + n - at)))
        × (bytes r.mem dst (min len (off + n - at)) ≡ part_at dev m src n off len at)
  read_back_at {dev} m m' src n off dst len at v can_read can_write fits lt ok sent = (
    _,
    _,
    dev_write-written m src n off v fits ok can_write,
    dev_read-delivered u m' dst len at (written-IsValid m src n off v fits ok) can_read lt
        (rw same sent),
    refl,
    refl,
    received,
  )
    where
      same : chunk u (written dev m src n off) len at ≡ part_at dev m src n off len at
      same = chunk-written m src n off v fits ok len at

      received :
          bytes
            (copy_to_user m' dst (chunk u (written dev m src n off) len at)).1
            dst
            (min len (off + n - at))
          ≡ part_at dev m src n off len at
      received = rw same (
          subst
            (λ k.
              bytes (copy_to_user m' dst (part_at dev m src n off len at)).1 dst k
              ≡ part_at dev m src n off len at)
            (part_at-length dev m src n off len at v fits lt)
            (copy_to_user-copied m' dst (part_at dev m src n off len at) sent))
