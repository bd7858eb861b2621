-- ===== src/MultiDriver/Transfer.antt =====
-- What user space writes to a device of asm_11/ex_2_multi2/ex_2_multi2.c is what it reads back.
pub mod Anywhere
use linux_assignment.Prelude.{
  ℕ, ◌-◌, ◌≤◌, ◌<◌, ◌≡◌, ◌≢◌, ◌∙◌, refl, ap, subst, List, arith, length, min, pos, done,
  take-drop-splice, length-take, length-drop, length-splice, splice, overwrite-done, take, drop,
}
use linux_assignment.Kernel.UserMemory.{UserCopy}
use linux_assignment.MultiDriver.{
  MyDevice, buffer_size, may_read, may_write, ReadReply, WriteReply, dev_read, dev_write,
}
use linux_assignment.MultiDriver.Access.{IsValid, chunk, dev_read-delivered}

module _ (u : UserCopy) where
  open u use {
    Memory, bytes, copy_from_user, copy_to_user, length-copy_from_user, copy_from_user-copied,
    copy_to_user-copied,
  }

  -- The part of the user's bytes that a read is to return.
  abbrev pub part : Memory → (src n len off : ℕ) → List ℕ
  part m src n len off = take (min len (n - off)) (drop off (bytes m src n))

  -- the device after a write of `n` bytes at its start
  abbrev rewritten : MyDevice → Memory → (src n : ℕ) → MyDevice
  rewritten dev m src n = record dev {
    buffer = splice dev.buffer 0 (copy_from_user m src n).1;
    size = n;
  }

  dev_write-rewritten :
      {dev : MyDevice} (m : Memory) (src n : ℕ)
      → IsValid dev
      → may_write dev ≢ 0
      → n ≤ buffer_size
      → (copy_from_user m src n).0 ≡ 0
      → dev_write u dev m src n 0
        ≡ done (record { ret = pos n; off = n; dev = rewritten dev m src n })
  unfolding dev_write
  dev_write-rewritten {dev} m src n v can_write small ok =
      ground (
        arith,
        length-copy_from_user m src n,
        overwrite-done dev.buffer 0 (copy_from_user m src n).1,
      )

  rewritten-IsValid :
      {dev : MyDevice} (m : Memory) (src n : ℕ)
      → IsValid dev
      → n ≤ buffer_size
      → IsValid (rewritten dev m src n)
  rewritten-IsValid {dev} m src n v small =
      ground (
        arith,
        length-copy_from_user m src n,
        length-splice dev.buffer 0 (copy_from_user m src n).1,
      )

  length-part :
      (m : Memory) (src n len off : ℕ)
      → (copy_from_user m src n).0 ≡ 0
      → length (part m src n len off) ≡ min len (n - off)
  length-part m src n len off ok = omega (
    arith,
    length-take (min len (n - off)) (drop off (bytes m src n)),
    length-drop off (bytes m src n),
    length-copy_from_user m src n,
    ap length (copy_from_user-copied m src n ok),
  )

  chunk-rewritten :
      {dev : MyDevice} (m : Memory) (src n len off : ℕ)
      → IsValid dev
      → n ≤ buffer_size
      → off < n
      → (copy_from_user m src n).0 ≡ 0
      → chunk u (rewritten dev m src n) len off ≡ part m src n len off
  chunk-rewritten {dev} m src n len off v small lt ok =
      take-drop-splice (min len (n - off)) off dev.buffer (copy_from_user m src n).1
        (omega (arith, v.sized, length-copy_from_user m src n))
        (omega (arith, length-copy_from_user m src n))
      ∙ ap (λ xs. take (min len (n - off)) (drop off xs)) (copy_from_user-copied m src n ok)

  -- After a write of at most 1024 bytes at the start of a device whose two flags are set, a read at
  -- any offset inside them returns the number of bytes asked for or left, whichever is less, and
  -- delivers the bytes that were written from that offset on, if both copies succeed.
  pub read_back :
      {dev : MyDevice} (m m' : Memory) (src n dst len off : ℕ)
      → IsValid dev
      → may_read dev ≢ 0
      → may_write dev ≢ 0
      → n ≤ buffer_size
      → off < n
      → (copy_from_user m src n).0 ≡ 0
      → (copy_to_user m' dst (part m src n len off)).0 ≡ 0
      → (w : WriteReply) × (r : ReadReply u) × (dev_write u dev m src n 0 ≡ done w)
        × (dev_read u w.dev m' dst len off ≡ done r)
        × (w.ret ≡ pos n)
        × (r.ret ≡ pos (min len (n - off)))
        × (bytes r.mem dst (min len (n - off)) ≡ part m src n len off)
  read_back {dev} m m' src n dst len off v can_read can_write small lt ok fits = (
    _,
    _,
    dev_write-rewritten m src n v can_write small ok,
    dev_read-delivered u m' dst len off (rewritten-IsValid m src n v small) can_read lt
        (rw same fits),
    refl,
    refl,
    received,
  )
    where
      same : chunk u (rewritten dev m src n) len off ≡ part m src n len off
      same = chunk-rewritten m src n len off v small lt ok

      received :
          bytes
            (copy_to_user m' dst (chunk u (rewritten dev m src n) len off)).1
            dst
            (min len (n - off))
          ≡ part m src n len off
      received = rw same (
          subst
            (λ k. bytes (copy_to_user m' dst (part m src n len off)).1 dst k ≡ part m src n len off)
            (length-part m src n len off ok)
            (copy_to_user-copied m' dst (part m src n len off) fits))
