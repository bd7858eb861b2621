-- ===== src/CharDriver/Spec.antt =====
-- The abstract view of the device of asm_11/ex_2/ex_2.c: a text of at most 1023 bytes. What a client
-- can observe of calls in any order, on the driver and on the text.
use linux_assignment.Prelude.{
  ℕ, ◌+◌, List, [], ◌∷◌, ◌++◌, ◌==◌, leb, ltb, if◌then◌else◌, min, length, take, drop, ℤ, pos,
  efault, Outcome, done, fault, ◌>>=◌,
}
use linux_assignment.Kernel.UserMemory.{UserCopy}
use linux_assignment.CharDriver.{Driver, buffer_size, ReadReply, dev_read, dev_write}

module _ (u : UserCopy) where
  open u use {Memory, copy_from_user, copy_to_user}

  -- A read gives the part of the text from the offset on, no longer than asked for.
  unfoldable pub read_text : List ℕ → Memory → (buf len off : ℕ) → ReadReply u
  read_text text m buf len off =
      let xs = take len (drop off text) in
      if leb (length text) off
      then record { ret = pos 0; off = off; mem = m }
      else if (copy_to_user m buf xs).0 == 0
      then record { ret = pos (length xs); off = off + length xs; mem = (copy_to_user m buf xs).1 }
      else record { ret = efault; off = off; mem = (copy_to_user m buf xs).1 }

  -- A write makes the bytes the text. If they cannot be copied, what arrived overlays the old text,
  -- whose length stays. A text of 1024 bytes has no place for the byte that ends it.
  unfoldable pub write_text : List ℕ → Memory → (buf len : ℕ) → Outcome (ℤ × List ℕ)
  write_text text m buf len =
      let (left, xs) = copy_from_user m buf (min len buffer_size) in
      if left == 0
      then (if ltb len buffer_size then done (pos len, xs) else fault)
      else done (efault, take (length text) (xs ++ drop (length xs) text))

  pub data Op : Type 0 where
    read : Memory → (buf len off : ℕ) → Op
    write : Memory → (buf len : ℕ) → Op

  pub data Reply : Type 0 where
    read_reply : ReadReply u → Reply
    write_reply : ℤ → Reply

  unfoldable pub run : Driver → List Op → Outcome (List Reply × Driver)
  run d [] = done ([], d)
  run d (read m buf len off ∷ ops) = do
    r ← dev_read u d m buf len off
    rest ← run d ops
    done (read_reply r ∷ rest.0, rest.1)
  run d (write m buf len ∷ ops) = do
    w ← dev_write u d m buf len
    rest ← run w.1 ops
    done (write_reply w.0 ∷ rest.0, rest.1)

  -- the same calls on the text
  unfoldable pub replay : List ℕ → List Op → Outcome (List Reply × List ℕ)
  replay text [] = done ([], text)
  replay text (read m buf len off ∷ ops) = do
    rest ← replay text ops
    done (read_reply (read_text text m buf len off) ∷ rest.0, rest.1)
  replay text (write m buf len ∷ ops) = do
    w ← write_text text m buf len
    rest ← replay w.1 ops
    done (write_reply w.0 ∷ rest.0, rest.1)
