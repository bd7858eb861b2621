-- ===== src/IoctlDriver/RoundTrip.antt =====
-- What a client of asm_11/ex_3/ex_3.c reads back.
use linux_assignment.Prelude.{
  ℕ, ◌≡◌, ◌≢◌, subst, refl, List, [], ◌∷◌, All, arith, length, ℤ, pos, is_neg, some, false,
}
use linux_assignment.Kernel.UserMemory.{UserCopy}
use linux_assignment.IoctlDriver.{size_of_value, etx_ioctl, main}

module _ (u : UserCopy) (wr_value rd_value : ℕ) where
  open u use {
    Memory, bytes, copy_from_user, copy_to_user, length-copy_from_user, copy_from_user-copied,
    copy_to_user-copied,
  }

  -- What was copied in and is copied out arrives.
  received :
      (m m' : Memory) (src dst : ℕ)
      → (copy_from_user m src size_of_value).0 ≡ 0
      → (copy_to_user m' dst (bytes m src size_of_value)).0 ≡ 0
      → bytes (copy_to_user m' dst (bytes m src size_of_value)).1 dst size_of_value
        ≡ bytes m src size_of_value
  received m m' src dst sent fits =
      subst
        (λ k.
          bytes (copy_to_user m' dst (bytes m src size_of_value)).1 dst k
          ≡ bytes m src size_of_value)
        (subst (λ xs. length xs ≡ size_of_value) (copy_from_user-copied m src size_of_value sent)
          (length-copy_from_user m src size_of_value))
        (copy_to_user-copied m' dst (bytes m src size_of_value) fits)

  -- If the command numbers differ, the ioctl returns 0 in every branch, also where a copy fails: a
  -- write command takes over whatever arrives, a read command gives the value away and keeps it,
  -- and any other changes nothing.
  pub etx_ioctl_lem :
      (value : List ℕ) (m : Memory) (other arg : ℕ)
      → wr_value ≢ rd_value
      → other ≢ wr_value
      → other ≢ rd_value
      → (etx_ioctl u wr_value rd_value value m wr_value arg
          ≡ record { ret = pos 0; value = (copy_from_user m arg size_of_value).1; mem = m })
        × (etx_ioctl u wr_value rd_value value m rd_value arg
            ≡ record { ret = pos 0; value = value; mem = (copy_to_user m arg value).1 })
        × (etx_ioctl u wr_value rd_value value m other arg
            ≡ record { ret = pos 0; value = value; mem = m })
  unfolding etx_ioctl
  etx_ioctl_lem value m other arg ne a b = (ground arith, ground arith, ground arith)

  -- The driver's value after calls, each with user memory as it is then, a command and an argument.
  pub value_after : List ℕ → List (Memory × ℕ × ℕ) → List ℕ
  value_after value [] = value
  value_after value ((m, cmd, arg) ∷ calls) =
      value_after (etx_ioctl u wr_value rd_value value m cmd arg).value calls

  abbrev pub IsNoWrite : Memory × ℕ × ℕ → Type 0
  IsNoWrite call = call.1 ≢ wr_value

  value_kept :
      (value : List ℕ) (calls : List (Memory × ℕ × ℕ))
      → All IsNoWrite calls
      → value_after value calls ≡ value
  unfolding value_after etx_ioctl
  value_kept value [] h = refl
  value_kept value ((m, cmd, arg) ∷ calls) h = ground (arith, h.0, value_kept value calls h.1)

  -- If the command numbers differ: after a write command whose copy succeeds, and any calls that
  -- are no write command, a read command whose copy succeeds delivers the bytes that were written.
  pub read_after_others :
      (value : List ℕ) (m m' : Memory) (src dst : ℕ) (calls : List (Memory × ℕ × ℕ))
      → wr_value ≢ rd_value
      → All IsNoWrite calls
      → (copy_from_user m src size_of_value).0 ≡ 0
      → (copy_to_user m' dst (bytes m src size_of_value)).0 ≡ 0
      → let written = (etx_ioctl u wr_value rd_value value m wr_value src).value in
        let r = etx_ioctl u wr_value rd_value (value_after written calls) m' rd_value dst in
        bytes r.mem dst size_of_value ≡ bytes m src size_of_value
  unfolding etx_ioctl
  read_after_others value m m' src dst calls ne quiet sent fits = ground (
    arith,
    copy_from_user-copied m src size_of_value sent,
    value_kept (bytes m src size_of_value) calls quiet,
    received m m' src dst sent fits,
  )

  -- If the command numbers differ, the file opens and both copies succeed, the client prints the
  -- number that it sent, and the driver keeps it.
  pub main-prints :
      (fd : ℤ) (value : List ℕ) (m : Memory) (number_at value_at : ℕ)
      → wr_value ≢ rd_value
      → is_neg fd ≡ false
      → (copy_from_user m number_at size_of_value).0 ≡ 0
      → (copy_to_user m value_at (bytes m number_at size_of_value)).0 ≡ 0
      → main u wr_value rd_value fd value m number_at value_at
        ≡ (some (bytes m number_at size_of_value), bytes m number_at size_of_value)
  unfolding main etx_ioctl
  main-prints fd value m number_at value_at ne opened sent fits = ground (
    arith,
    copy_from_user-copied m number_at size_of_value sent,
    received m m number_at value_at sent fits,
  )
