-- ===== src/MultiDriver/Client/Again.antt =====
-- Two sessions of asm_11/ex_2_multi2/ex_2_user.c one after the other.
use linux_assignment.Prelude.{
  ℕ, ◌++◌, ◌∙◌, ap, true, ◌+◌, ◌-◌, ◌<◌, ◌≡◌, ◌≢◌, List, [], ◌∷◌, some, arith, length, length-set,
  length-append, get_elem?, set, All, min, get_elem?-set_self, lt_of_get_elem?,
  get_elem?-append_new, pos, done, until_zero-append, has_zero-append, take-all,
}
use linux_assignment.Kernel.UserMemory.{UserCopy}
use linux_assignment.MultiDriver.{
  MyDevice, ReadReply, WriteReply, buffer_size, num_devices, may_read, may_write, dev_read,
  dev_write,
}
use linux_assignment.MultiDriver.Transfer.{part, read_back}
use linux_assignment.MultiDriver.Files.{OpenFile, System, perform}
use linux_assignment.MultiDriver.Files.Invariant.{IsSafe}
use linux_assignment.MultiDriver.Files.Safety.{read_file_lem, write_file_lem}
use linux_assignment.MultiDriver.Client.{
  write_text, read_text, leave, write_successful, data_read, exiting, print_text, menu, main,
}
use linux_assignment.MultiDriver.Client.Session.{open_lem, write_ret_lem, read_ret_lem}

-- the system with a new open file
abbrev with_file : System → ℕ → System
with_file s n = record s { files = s.files ++ (record { device = n; f_pos = 0 } ∷ []) }

-- the system after the write of a first session
abbrev after_write : System → ℕ → WriteReply → System
after_write s n w = record {
  devices = set s.devices n w.dev;
  files = set (with_file s n).files (length s.files) (record { device = n; f_pos = w.off });
}

module _ (u : UserCopy) (write_buf read_buf : ℕ) where
  open u use {Memory, bytes, copy_from_user, copy_to_user}

  write_session :
      (s : System) (n len : ℕ) (m : Memory) (text : List ℕ) (dev : MyDevice) (w : WriteReply)
      → length s.devices ≡ num_devices
      → n < num_devices
      → get_elem? s.devices n ≡ some dev
      → dev_write u dev m write_buf (length text + 1) 0 ≡ done w
      → w.ret ≡ pos len
      → main u write_buf read_buf s (some (pos n)) true (write_text m text ∷ leave ∷ [])
        ≡ done (write_successful ∷ exiting ∷ [], after_write s n w)
  unfolding main menu perform
  write_session s n len m text dev w count lt found written ret =
      let f : OpenFile = record { device = n; f_pos = 0 } in
      let here = get_elem?-append_new s.files f in
      ground (
        arith,
        open_lem u s n count lt,
        here,
        write_ret_lem u (with_file s n) (length s.files) m write_buf (length text + 1) f dev w here
            found written,
        write_file_lem u (with_file s n) (length s.files) f m write_buf (length text + 1) dev w
            found written,
      )

  read_session :
      (s : System) (n : ℕ) (len : ℕ) (m : Memory) (text : List ℕ) (dev : MyDevice) (r : ReadReply u)
      → length s.devices ≡ num_devices
      → n < num_devices
      → get_elem? s.devices n ≡ some dev
      → dev_read u dev m read_buf buffer_size 0 ≡ done r
      → r.ret ≡ pos len
      → print_text u (bytes r.mem read_buf len) ≡ done text
      → (s' : System) × (main u write_buf read_buf s (some (pos n)) true (read_text m ∷ leave ∷ [])
          ≡ done (data_read text ∷ exiting ∷ [], s'))
  unfolding main menu perform
  read_session s n len m text dev r count lt found delivered ret printed =
      let f : OpenFile = record { device = n; f_pos = 0 } in
      let here = get_elem?-append_new s.files f in
      (
        record s {
          files = set (with_file s n).files (length s.files) (record { device = n; f_pos = r.off });
        },
        ground (
          arith,
          open_lem u s n count lt,
          here,
          read_ret_lem u (with_file s n) (length s.files) m read_buf buffer_size f dev r here found
              delivered,
          read_file_lem u (with_file s n) (length s.files) f m read_buf buffer_size dev r found
              delivered,
        ),
      )

  print_text_lem :
      (text : List ℕ) → All (λ c. c ≢ 0) text → print_text u (text ++ (0 ∷ [])) ≡ done text
  unfolding print_text
  print_text_lem text no_zero = ground (arith, has_zero-append text, until_zero-append text no_zero)

  part-whole :
      (m : Memory) (text : List ℕ)
      → length text < buffer_size
      → bytes m write_buf (length text + 1) ≡ text ++ (0 ∷ [])
      → part u m write_buf (length text + 1) buffer_size 0 ≡ text ++ (0 ∷ [])
  part-whole m text short typed =
      rw typed (take-all _ (text ++ (0 ∷ [])) (omega (arith, length-append text (0 ∷ []))))

  -- What a first session writes to a device with both permission bits on a safe driver, a later
  -- session prints: a text of at most 1023 bytes, none of them zero, that stands in the buffer with
  -- its zero byte, comes back whole, if both copies succeed.
  pub comes_back :
      {s : System} (n : ℕ) (m m' : Memory) (text : List ℕ) {dev : MyDevice}
      → IsSafe s
      → get_elem? s.devices n ≡ some dev
      → may_read dev ≢ 0
      → may_write dev ≢ 0
      → length text < buffer_size
      → All (λ c. c ≢ 0) text
      → bytes m write_buf (length text + 1) ≡ text ++ (0 ∷ [])
      → (copy_from_user m write_buf (length text + 1)).0 ≡ 0
      → (copy_to_user m' read_buf (text ++ (0 ∷ []))).0 ≡ 0
      → (s1 : System) × (s2 : System) × (main u write_buf read_buf s
            (some (pos n))
            true
            (write_text m text ∷ leave ∷ [])
          ≡ done (write_successful ∷ exiting ∷ [], s1))
        × (main u write_buf read_buf s1 (some (pos n)) true (read_text m' ∷ leave ∷ [])
            ≡ done (data_read text ∷ exiting ∷ [], s2))
  comes_back {s} n m m' text {dev} safe found can_read can_write short no_zero typed sent fits =
      let len = length text + 1 in
      let whole = part-whole m text short typed in
      let (w, r, written, delivered, w_ret, r_ret, same) =
        read_back u m m' write_buf len read_buf buffer_size 0 (safe.valid n dev found) can_read
          can_write (omega arith) (omega arith) sent (rw whole fits) in
      let lt : n < num_devices = omega (arith, safe.count, lt_of_get_elem? s.devices n dev found) in
      let (s2, second) =
        read_session (after_write s n w) n (min buffer_size (len - 0)) m' text w.dev r
          (length-set s.devices n w.dev ∙ safe.count) lt
          (get_elem?-set_self s.devices n w.dev (lt_of_get_elem? s.devices n dev found)) delivered
          r_ret (ap (print_text u) (same ∙ whole) ∙ print_text_lem text no_zero) in
      (
        after_write s n w,
        s2,
        write_session s n len m text dev w safe.count lt found written w_ret,
        second,
      )
