-- ===== src/MultiDriver/Files/Invariant.antt =====
-- What holds of the devices and open files of asm_11/ex_2_multi2/ex_2_multi2.c between calls.
use Prim.Native.String.{String}
use mathlib.Core.Option.{some-injective}
use linux_assignment.Prelude.{
  ℕ, zero, suc, subst, ◌++◌, ◌∙◌, Bool, true, false, if◌then◌else◌, ◌≤◌, ◌<◌, ◌≡◌, inl, inr, refl,
  List, [], ◌∷◌, some, arith, length, length-set, length-replicate, get_elem?, set,
  get_elem?-set_cases, get_elem?-append_cases, lt_of_get_elem?, get_elem?-set_self,
  get_elem?-set_ne, ℕ_discrete,
}
use linux_assignment.MultiDriver.{MyDevice, buffer_size, num_devices, initial, may_write}
use linux_assignment.MultiDriver.Access.{IsValid}
use linux_assignment.MultiDriver.Files.{OpenFile, System, loaded, seek}

pub record IsSafe (s : System) : Type 0 where
  pub count : length s.devices ≡ num_devices
  pub valid : (i : ℕ) (dev : MyDevice) → get_elem? s.devices i ≡ some dev → IsValid dev
  pub open_in : (fd : ℕ) (f : OpenFile) → get_elem? s.files fd ≡ some f → f.device < num_devices
  pub inside : (fd : ℕ) (f : OpenFile) → get_elem? s.files fd ≡ some f → f.f_pos ≤ buffer_size

initial-IsValid : (name : String) (flag : ℕ) → IsValid (initial name flag)
initial-IsValid name flag = record {
  sized = length-replicate {A = ℕ} buffer_size 0;
  fits = omega arith;
}

table-IsValid : (i : ℕ) (dev : MyDevice) → get_elem? loaded.devices i ≡ some dev → IsValid dev
table-IsValid zero dev e = subst IsValid (some-injective _ _ e) (initial-IsValid "sensor0" 0x1)
table-IsValid (suc zero) dev e =
    subst IsValid (some-injective _ _ e) (initial-IsValid "sensor1" 0x0)
table-IsValid (suc (suc zero)) dev e =
    subst IsValid (some-injective _ _ e) (initial-IsValid "hello0" 0x2)
table-IsValid (suc (suc (suc zero))) dev e =
    subst IsValid (some-injective _ _ e) (initial-IsValid "hello1" 0x3)
table-IsValid (suc (suc (suc (suc zero)))) dev e =
    subst IsValid (some-injective _ _ e) (initial-IsValid "goodbye" 0x1)
table-IsValid (suc (suc (suc (suc (suc i))))) dev e = cc

pub loaded-IsSafe : IsSafe loaded
loaded-IsSafe = record {
  count = refl;
  valid = table-IsValid;
  open_in = λ fd f e. cc;
  inside = λ fd f e. cc;
}

-- A device without the write flag is the same in both.
abbrev pub Protects : List MyDevice → List MyDevice → Type 0
Protects ds ds' =
    (i : ℕ) (dev : MyDevice)
    → get_elem? ds i ≡ some dev
    → may_write dev ≡ 0
    → get_elem? ds' i ≡ some dev

pub set-Protects :
    (ds : List MyDevice) (j : ℕ) (dev new : MyDevice)
    → get_elem? ds j ≡ some dev
    → (may_write dev ≡ 0 → new ≡ dev)
    → Protects ds (set ds j new)
set-Protects ds j dev new found same i d e no_bit = elim (ℕ_discrete j i) [
  | no ne ↦ get_elem?-set_ne ds new ne ∙ e
  | yes p ↦ ground (arith, get_elem?-set_self ds j new, lt_of_get_elem? ds j dev)
]

-- Replacing the position of a file by one inside the buffer keeps a system safe.
pub moved :
    {s : System} (fd off : ℕ) {f : OpenFile} (b : Bool)
    → IsSafe s
    → get_elem? s.files fd ≡ some f
    → off ≤ buffer_size
    → IsSafe (record s { files = if b then s.files else set s.files fd (seek f off) })
moved fd off true safe here le = safe
moved {s} fd off {f} false safe here le = record {
  count = safe.count;
  valid = safe.valid;
  open_in = λ j g e. elim (get_elem?-set_cases s.files fd j (seek f off) g e) [
    | inl new ↦ rw new (safe.open_in fd f here)
    | inr old ↦ safe.open_in j g old
  ];
  inside = λ j g e. elim (get_elem?-set_cases s.files fd j (seek f off) g e) [
    | inl new ↦ rw new le
    | inr old ↦ safe.inside j g old
  ];
}

-- So does replacing a device by a valid one, and opening one of the five.
pub replaced :
    {s : System} (i : ℕ) (dev : MyDevice)
    → IsSafe s
    → IsValid dev
    → IsSafe (record s { devices = set s.devices i dev })
replaced {s} i dev safe v = record {
  count = length-set s.devices i dev ∙ safe.count;
  valid = λ j d e. elim (get_elem?-set_cases s.devices i j dev d e) [
    | inl new ↦ rw new v
    | inr old ↦ safe.valid j d old
  ];
  open_in = safe.open_in;
  inside = safe.inside;
}

pub opened :
    {s : System} (minor : ℕ)
    → IsSafe s
    → minor < num_devices
    → IsSafe (record s { files = s.files ++ (record { device = minor; f_pos = 0 } ∷ []) })
opened {s} minor safe lt = record {
  count = safe.count;
  valid = safe.valid;
  open_in = λ j g e.
      elim (get_elem?-append_cases s.files j (record { device = minor; f_pos = 0 }) g e) [
        | inl new ↦ rw new lt
        | inr old ↦ safe.open_in j g old
      ];
  inside = λ j g e.
      elim (get_elem?-append_cases s.files j (record { device = minor; f_pos = 0 }) g e) [
        | inl new ↦ rw new (omega arith)
        | inr old ↦ safe.inside j g old
      ];
}
