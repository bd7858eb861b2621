-- ===== src/CharDriver/Refine.antt =====
-- The driver of asm_11/ex_2/ex_2.c implements its abstract view.
mod Tests
use linux_assignment.Prelude.{
  ℕ, zero, suc, ◌+◌, ◌-◌, ◌≤◌, ◌<◌, ◌≡◌, ◌≢◌, ◌∙◌, refl, ap, sym, subst, List, [], ◌∷◌, ◌++◌, arith,
  length, min, take, drop, set, splice, take-set, take-drop-splice, take-drop-take,
  take-splice_overlay, take-splice, length-take, length-drop, dec_lt, ℕ_discrete, ℤ, pos, efault,
  inl, inr, Outcome, Outcome-cases, done, fault, ◌>>=◌, ltb, leb, ◌==◌, if◌then◌else◌,
}
use linux_assignment.Kernel.UserMemory.{UserCopy}
use linux_assignment.CharDriver.{Driver, buffer_size, ReadReply, dev_read, dev_write}
use linux_assignment.CharDriver.Access.{
  IsValid, copied, stored, chunk, dev_write-stored, dev_write-refused, dev_write-overruns,
  dev_write-IsValid, dev_read-end, dev_read-delivered, dev_read-refused,
}
use linux_assignment.CharDriver.Spec.{
  read_text, write_text, Op, read, write, Reply, read_reply, write_reply, run, replay,
}

-- What the driver keeps, less the bytes behind `buffer_len`.
abbrev pub text_of : Driver → List ℕ
text_of d = take d.buffer_len d.kernel_buffer

module _ (u : UserCopy) where
  open u use {Memory, copy_from_user, copy_to_user, length-copy_from_user}

  length-text_of : {d : Driver} → IsValid d → length (text_of d) ≡ d.buffer_len
  length-text_of {d} v = omega (arith, v.sized, v.fits, length-take d.buffer_len d.kernel_buffer)

  chunk-text_of : (d : Driver) (len off : ℕ) → chunk u d len off ≡ take len (drop off (text_of d))
  chunk-text_of d len off =
      take-drop-take (min len (d.buffer_len - off)) len d.buffer_len off d.kernel_buffer refl

  length-chunk :
      {d : Driver} (len off : ℕ)
      → IsValid d
      → length (take len (drop off (text_of d))) ≡ min len (d.buffer_len - off)
  length-chunk {d} len off v =
      omega (
        arith,
        length-take len (drop off (text_of d)),
        length-drop off (text_of d),
        length-text_of v,
      )

  dev_read-read_text :
      {d : Driver} (m : Memory) (buf len off : ℕ)
      → IsValid d
      → dev_read u d m buf len off ≡ done (read_text u (text_of d) m buf len off)
  unfolding read_text
  dev_read-read_text {d} m buf len off v = ground (
    arith,
    dev_read-end u m buf len off v,
    dev_read-delivered u m buf len off v,
    dev_read-refused u m buf len off v,
    chunk-text_of d len off,
    length-chunk len off v,
    length-text_of v,
  )

  -- the text after a write
  abbrev written : Outcome (ℤ × Driver) → Outcome (ℤ × List ℕ)
  written w = w >>= λ r. done (r.0, text_of r.1)

  text_of-stored :
      {d : Driver} (m : Memory) (buf n : ℕ)
      → IsValid d
      → n < buffer_size
      → text_of (stored u d m buf n) ≡ (copy_from_user m buf n).1
  text_of-stored {d} m buf n v small =
      let xs = (copy_from_user m buf n).1 in
      take-set n n 0 (splice d.kernel_buffer 0 xs) (omega arith)
      ∙ subst (λ k. take k (splice d.kernel_buffer 0 xs) ≡ xs) (length-copy_from_user m buf n)
          (take-splice d.kernel_buffer 0 xs (omega (arith, v.sized, length-copy_from_user m buf n)))

  text_of-copied :
      {d : Driver} (m : Memory) (buf len : ℕ)
      → IsValid d
      → let xs = (copy_from_user m buf (min len buffer_size)).1 in
        text_of (copied u d m buf (min len buffer_size))
        ≡ take (length (text_of d)) (xs ++ drop (length xs) (text_of d))
  text_of-copied {d} m buf len v =
      let xs = (copy_from_user m buf (min len buffer_size)).1 in
      subst
        (λ k.
          take d.buffer_len (splice d.kernel_buffer 0 xs)
          ≡ take k (xs ++ drop (length xs) (text_of d)))
        (sym (length-text_of v))
        (take-splice_overlay d.buffer_len d.kernel_buffer xs
          (omega (arith, v.sized, length-copy_from_user m buf (min len buffer_size))))

  dev_write-write_text :
      {d : Driver} (m : Memory) (buf len : ℕ)
      → IsValid d
      → written (dev_write u d m buf len) ≡ write_text u (text_of d) m buf len
  unfolding write_text
  dev_write-write_text {d} m buf len v =
      elim (ℕ_discrete (copy_from_user m buf (min len buffer_size)).0 0) [
        | no bad ↦
            rw (dev_write-refused u m buf len v bad)
              (ground (arith, text_of-copied {d = d} m buf len v))
        | yes ok ↦ elim (dec_lt len buffer_size) [
          | yes small ↦
              let e : min len buffer_size ≡ len = omega arith in
              rw (e, dev_write-stored u m buf len v small (rw e at ok))
                (ground (arith, text_of-stored m buf len v small, (rw e at ok)))
          | no big ↦
              let e : min len buffer_size ≡ buffer_size = omega arith in
              rw (e, dev_write-overruns u m buf len v (omega arith) (rw e at ok))
                (ground (arith, (rw e at ok)))
        ]
      ]

  -- The replies, and the text that is left.
  abbrev pub seen : Outcome (List (Reply u) × Driver) → Outcome (List (Reply u) × List ℕ)
  seen out = out >>= λ r. done (r.0, text_of r.1)

  -- Calls in any order, on a driver that is valid and on the text that it holds: the same replies come
  -- back and the same text is left, or both have undefined behaviour.
  pub run_refines :
      (ops : List (Op u)) {d : Driver} → IsValid d → seen (run u d ops) ≡ replay u (text_of d) ops
  unfolding run replay
  run_refines [] v = refl
  run_refines (read m buf len off ∷ ops) {d} v =
      ground (arith, dev_read-read_text m buf len off v, run_refines ops v)
  run_refines (write m buf len ∷ ops) {d} v = elim (Outcome-cases (dev_write u d m buf len)) [
    | inl ((ret, d'), returned) ↦
        let v' = dev_write-IsValid u m buf len v returned in
        ground (arith, dev_write-write_text m buf len v, returned, run_refines ops v')
    | inr failed ↦ ground (arith, dev_write-write_text m buf len v, failed)
  ]
