-- ===== src/CharDriver/Transfer.antt =====
-- What user space writes through asm_11/ex_2/ex_2.c is what it reads back.
use linux_assignment.Prelude.{
  ℕ, ◌+◌, ◌-◌, ◌<◌, ◌≡◌, ◌∙◌, refl, ap, subst, List, arith, length, min, pos, done, take-drop-set,
  take-drop-splice, length-take, length-drop, take, drop,
}
use linux_assignment.Kernel.UserMemory.{UserCopy}
use linux_assignment.CharDriver.{Driver, buffer_size, ReadReply, dev_read, dev_write}
use linux_assignment.CharDriver.Access.{
  IsValid, copied, stored, chunk, dev_write-stored, dev_write-IsValid, dev_read-delivered,
}

module _ (u : UserCopy) where
  open u use {
    Memory, bytes, copy_from_user, copy_to_user, length-copy_from_user, copy_from_user-copied,
    copy_to_user-copied,
  }

  -- The part of the user's bytes that a read is to return.
  abbrev pub part : Memory → (src n len off : ℕ) → List ℕ
  part m src n len off = take (min len (n - off)) (drop off (bytes m src n))

  chunk-stored :
      (d : Driver) (m : Memory) (src n len off : ℕ)
      → IsValid d
      → n < buffer_size
      → off < n
      → (copy_from_user m src n).0 ≡ 0
      → chunk u (stored u d m src n) len off ≡ part m src n len off
  chunk-stored d m src n len off v small lt ok =
      take-drop-set (min len (n - off)) off n 0 (copied u d m src n).kernel_buffer (omega arith)
      ∙ take-drop-splice (min len (n - off)) off d.kernel_buffer (copy_from_user m src n).1
          (omega (arith, length-copy_from_user m src n))
          (omega (arith, length-copy_from_user m src n))
      ∙ ap (λ xs. take (min len (n - off)) (drop off xs)) (copy_from_user-copied m src n ok)

  length-part :
      (m : Memory) (src n len off : ℕ)
      → (copy_from_user m src n).0 ≡ 0
      → length (part m src n len off) ≡ min len (n - off)
  length-part m src n len off ok = omega (
    arith,
    length-take (min len (n - off)) (drop off (bytes m src n)),
    length-drop off (bytes m src n),
    length-copy_from_user m src n,
    ap length (copy_from_user-copied m src n ok),
  )

  -- After a write of fewer than 1024 bytes to a valid driver, a read at any offset inside them
  -- returns the number of bytes asked for or left, whichever is less, delivers the bytes that were
  -- written from that offset on, and moves the offset by their number, if both copies succeed.
  pub read_after_write :
      {d : Driver} (m m' : Memory) (src n dst len off : ℕ)
      → IsValid d
      → n < buffer_size
      → off < n
      → (copy_from_user m src n).0 ≡ 0
      → (copy_to_user m' dst (part m src n len off)).0 ≡ 0
      → (d' : Driver) × (r : ReadReply u) × (dev_write u d m src n ≡ done (pos n, d'))
        × (dev_read u d' m' dst len off ≡ done r)
        × (r.ret ≡ pos (min len (n - off)))
        × (r.off ≡ off + min len (n - off))
        × (bytes r.mem dst (min len (n - off)) ≡ part m src n len off)
  read_after_write {d} m m' src n dst len off v small lt ok fits = (
    stored u d m src n,
    _,
    dev_write-stored u m src n v small ok,
    dev_read-delivered u m' dst len off
        (dev_write-IsValid u m src n v (dev_write-stored u m src n v small ok)) lt (rw same fits),
    refl,
    refl,
    received,
  )
    where
      same : chunk u (stored u d m src n) len off ≡ part m src n len off
      same = chunk-stored d m src n len off v small lt ok

      received :
          bytes
            (copy_to_user m' dst (chunk u (stored u d m src n) len off)).1
            dst
            (min len (n - off))
          ≡ part m src n len off
      received = rw same (
          subst
            (λ k. bytes (copy_to_user m' dst (part m src n len off)).1 dst k ≡ part m src n len off)
            (length-part m src n len off ok)
            (copy_to_user-copied m' dst (part m src n len off) fits))
