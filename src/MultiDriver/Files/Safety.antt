-- ===== src/MultiDriver/Files/Safety.antt =====
-- Whatever user space does through files that it opens, the driver of
-- asm_11/ex_2_multi2/ex_2_multi2.c stays inside its buffers and keeps to its permission flags.
use linux_assignment.Prelude.{
  ℕ, if◌then◌else◌, dec_le, ℕ_discrete, ◌≤◌, ◌<◌, ◌≡◌, inl, inr, refl, List, [], ◌∷◌, some,
  Option-cases, All, arith, get_elem?, set, get_elem?-of_lt, is_neg, done,
}
use linux_assignment.Kernel.UserMemory.{UserCopy}
use linux_assignment.MultiDriver.{
  MyDevice, buffer_size, may_read, num_devices, ReadReply, WriteReply, dev_read, dev_write,
}
use linux_assignment.MultiDriver.Access.{IsValid, dev_open_lem, dev_read-forbidden, dev_read-end}
use linux_assignment.MultiDriver.Files.{
  OpenFile, System, Op, open_minor, read, write, pread, pwrite, seek, read_file, write_file,
  read_at, write_at, perform, run,
}
use linux_assignment.MultiDriver.Bounds.{dev_write-keeps, dev_read-keeps}
use linux_assignment.MultiDriver.Files.Invariant.{
  IsSafe, Protects, set-Protects, moved, replaced, opened,
}

-- The kernel opens the driver only for the minors that it registered; behind the buffer `pwrite` would
-- overrun it.
abbrev pub IsAllowed : {u : UserCopy} → Op u → Type 0
IsAllowed (open_minor minor) = minor < num_devices
IsAllowed (read fd m buf len) = Unit {0}
IsAllowed (write fd m buf len) = Unit {0}
IsAllowed (pread fd m buf len off) = Unit {0}
IsAllowed (pwrite fd m buf len off) = off ≤ buffer_size

module _ (u : UserCopy) where
  open u use {Memory, copy_from_user, copy_to_user, length-copy_from_user}

  -- the calls, once the device is found and its handler has returned
  pub read_file_lem :
      (s : System) (fd : ℕ) (f : OpenFile) (m : Memory) (buf len : ℕ) (dev : MyDevice)
      (r : ReadReply u)
      → get_elem? s.devices f.device ≡ some dev
      → dev_read u dev m buf len f.f_pos ≡ done r
      → read_file u s fd f m buf len
        ≡ done
            (record s { files = if is_neg r.ret then s.files else set s.files fd (seek f r.off) })
  unfolding read_file
  read_file_lem s fd f m buf len dev r found returned = ground arith

  pub write_file_lem :
      (s : System) (fd : ℕ) (f : OpenFile) (m : Memory) (buf len : ℕ) (dev : MyDevice)
      (w : WriteReply)
      → get_elem? s.devices f.device ≡ some dev
      → dev_write u dev m buf len f.f_pos ≡ done w
      → write_file u s fd f m buf len
        ≡ done (record {
          devices = set s.devices f.device w.dev;
          files = if is_neg w.ret then s.files else set s.files fd (seek f w.off);
        })
  unfolding write_file
  write_file_lem s fd f m buf len dev w found returned = ground arith

  read_at_lem :
      (s : System) (f : OpenFile) (m : Memory) (buf len off : ℕ) (dev : MyDevice) (r : ReadReply u)
      → get_elem? s.devices f.device ≡ some dev
      → dev_read u dev m buf len off ≡ done r
      → read_at u s f m buf len off ≡ done s
  unfolding read_at
  read_at_lem s f m buf len off dev r found returned = ground arith

  write_at_lem :
      (s : System) (f : OpenFile) (m : Memory) (buf len off : ℕ) (dev : MyDevice) (w : WriteReply)
      → get_elem? s.devices f.device ≡ some dev
      → dev_write u dev m buf len off ≡ done w
      → write_at u s f m buf len off ≡ done (record s { devices = set s.devices f.device w.dev })
  unfolding write_at
  write_at_lem s f m buf len off dev w found returned = ground arith

  -- The device of an open file.
  device_found :
      {s : System} (fd : ℕ) {f : OpenFile}
      → IsSafe s
      → get_elem? s.files fd ≡ some f
      → (dev : MyDevice) × (get_elem? s.devices f.device ≡ some dev)
  device_found {s} fd {f} safe here =
      get_elem?-of_lt s.devices f.device (omega (arith, safe.count, safe.open_in fd f here))

  read_file-IsSafe :
      {s : System} (fd : ℕ) {f : OpenFile} (m : Memory) (buf len : ℕ)
      → IsSafe s
      → get_elem? s.files fd ≡ some f
      → (s' : System) × (read_file u s fd f m buf len ≡ done s')
        × IsSafe s'
        × Protects s.devices s'.devices
  read_file-IsSafe {s} fd {f} m buf len safe here =
      let (dev, found) = device_found fd safe here in
      let (r, returned, le) =
        dev_read-keeps u m buf len f.f_pos (safe.valid f.device dev found)
          (safe.inside fd f here) in
      (
        _,
        read_file_lem s fd f m buf len dev r found returned,
        moved fd r.off (is_neg r.ret) safe here le,
        λ i d e _. e,
      )

  write_file-IsSafe :
      {s : System} (fd : ℕ) {f : OpenFile} (m : Memory) (buf len : ℕ)
      → IsSafe s
      → get_elem? s.files fd ≡ some f
      → (s' : System) × (write_file u s fd f m buf len ≡ done s')
        × IsSafe s'
        × Protects s.devices s'.devices
  write_file-IsSafe {s} fd {f} m buf len safe here =
      let (dev, found) = device_found fd safe here in
      let (w, returned, v, le, flag, same, size) =
        dev_write-keeps u m buf len f.f_pos (safe.valid f.device dev found)
          (safe.inside fd f here) in
      (
        _,
        write_file_lem s fd f m buf len dev w found returned,
        moved {s = record s { devices = set s.devices f.device w.dev }} fd w.off (is_neg w.ret)
            (replaced f.device w.dev safe v) here le,
        set-Protects s.devices f.device dev w.dev found same,
      )

  -- A read at any offset returns.
  dev_read-returns :
      {dev : MyDevice} (m : Memory) (buf len off : ℕ)
      → IsValid dev
      → (r : ReadReply u) × (dev_read u dev m buf len off ≡ done r)
  dev_read-returns {dev} m buf len off v = elim (dec_le off buffer_size) [
    | yes le ↦ let (r, returned, _) = dev_read-keeps u m buf len off v le in (r, returned)
    | no gt ↦ elim (ℕ_discrete (may_read dev) 0) [
      | yes no_bit ↦ (_, dev_read-forbidden u m buf len off v no_bit)
      | no bit ↦ (_, dev_read-end u m buf len off v bit (omega (arith, v.fits)))
    ]
  ]

  read_at-IsSafe :
      {s : System} (fd : ℕ) {f : OpenFile} (m : Memory) (buf len off : ℕ)
      → IsSafe s
      → get_elem? s.files fd ≡ some f
      → read_at u s f m buf len off ≡ done s
  read_at-IsSafe {s} fd {f} m buf len off safe here =
      let (dev, found) = device_found fd safe here in
      let (r, returned) = dev_read-returns m buf len off (safe.valid f.device dev found) in
      read_at_lem s f m buf len off dev r found returned

  write_at-IsSafe :
      {s : System} (fd : ℕ) {f : OpenFile} (m : Memory) (buf len off : ℕ)
      → IsSafe s
      → get_elem? s.files fd ≡ some f
      → off ≤ buffer_size
      → (s' : System) × (write_at u s f m buf len off ≡ done s')
        × IsSafe s'
        × Protects s.devices s'.devices
  write_at-IsSafe {s} fd {f} m buf len off safe here inside =
      let (dev, found) = device_found fd safe here in
      let (w, returned, v, le, flag, same, size) =
        dev_write-keeps u m buf len off (safe.valid f.device dev found) inside in
      (
        _,
        write_at_lem s f m buf len off dev w found returned,
        replaced f.device w.dev safe v,
        set-Protects s.devices f.device dev w.dev found same,
      )

  -- One allowed call returns, and the system stays safe.
  perform-IsSafe :
      {s : System} (op : Op u)
      → IsSafe s
      → IsAllowed op
      → (s' : System) × (perform u s op ≡ done s') × IsSafe s' × Protects s.devices s'.devices
  unfolding perform
  perform-IsSafe {s} (open_minor minor) safe lt = (
    _,
    rw (dev_open_lem s.devices minor (omega (arith, safe.count))) refl,
    opened minor safe lt,
    λ i d e _. e,
  )
  perform-IsSafe {s} (read fd m buf len) safe _ = elim (Option-cases (get_elem? s.files fd)) [
    | inl closed ↦ (s, rw (closed, perform) refl, safe, λ i d e _. e)
    | inr found ↦
        let (s', returned, safe', same) = read_file-IsSafe fd m buf len safe found.1 in
        (s', rw (found.1, perform) returned, safe', same)
  ]
  perform-IsSafe {s} (write fd m buf len) safe _ = elim (Option-cases (get_elem? s.files fd)) [
    | inl closed ↦ (s, rw (closed, perform) refl, safe, λ i d e _. e)
    | inr found ↦
        let (s', returned, safe', same) = write_file-IsSafe fd m buf len safe found.1 in
        (s', rw (found.1, perform) returned, safe', same)
  ]
  perform-IsSafe {s} (pread fd m buf len off) safe _ = elim (Option-cases (get_elem? s.files fd)) [
    | inl closed ↦ (s, rw (closed, perform) refl, safe, λ i d e _. e)
    | inr found ↦ (
      s,
      rw (found.1, perform) (read_at-IsSafe fd m buf len off safe found.1),
      safe,
      λ i d e _. e,
    )
  ]
  perform-IsSafe {s} (pwrite fd m buf len off) safe inside =
      elim (Option-cases (get_elem? s.files fd)) [
        | inl closed ↦ (s, rw (closed, perform) refl, safe, λ i d e _. e)
        | inr found ↦
            let (s', returned, safe', same) =
              write_at-IsSafe fd m buf len off safe found.1 inside in
            (s', rw (found.1, perform) returned, safe', same)
      ]

  -- From a safe system, no sequence of open, read, write, pread and pwrite calls in which only the
  -- five minors are opened and no pwrite has an offset above 1024 makes the driver access memory
  -- outside its buffers: the run returns, the system is safe at its end, and no device without the
  -- write flag is changed.
  pub run-IsSafe :
      (ops : List (Op u)) {s : System}
      → IsSafe s
      → All IsAllowed ops
      → (s' : System) × (run u s ops ≡ done s') × IsSafe s' × Protects s.devices s'.devices
  unfolding run
  run-IsSafe [] {s} safe _ = (s, refl, safe, λ i d e _. e)
  run-IsSafe (op ∷ ops) safe allowed =
      let (s', performed, safe', same) = perform-IsSafe op safe allowed.0 in
      let (s'', rest, safe'', same') = run-IsSafe ops safe' allowed.1 in
      (s'', rw performed rest, safe'', λ i d e no_bit. same' i d (same i d e no_bit) no_bit)
