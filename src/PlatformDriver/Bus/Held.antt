-- ===== src/PlatformDriver/Bus/Held.antt =====
-- What the modules of asm_11/ex_2_platform hold.
use linux_assignment.Prelude.{
  ◌≡◌, ◌⊎◌, inl, inr, refl, ◌∙◌, Bool-cases, arith, List, [], ◌∷◌, ◌++◌, Bool, true, false,
  if◌then◌else◌, is_neg,
}
use linux_assignment.Kernel.Calls.{
  Answers, Call, Resource, numbers, class, cdev, device, acquires, releases, holds,
}
use linux_assignment.PlatformDriver.Probe.{platform_driver_probe, platform_driver_remove}
use linux_assignment.PlatformDriver.Bus.{
  System, start, probed, removed, Step, device_refused, device_alone, device_other, device_probed,
  device_exit, driver_refused, driver_alone, driver_other, driver_probed, driver_exit, Steps, here,
  next,
}

pub holds-append :
    (r : Resource) (held : Bool) (xs ys : List Call)
    → holds r held (xs ++ ys) ≡ holds r (holds r held xs) ys
holds-append r held [] ys = refl
holds-append r held (x ∷ xs) ys =
    holds-append r (if acquires x r then true else if releases x r then false else held) xs ys

probe-failed :
    (a : Answers) (r : Resource)
    → is_neg (platform_driver_probe a).0 ≡ true
    → holds r false (platform_driver_probe a).1 ≡ false
unfolding platform_driver_probe
probe-failed a numbers h = ground arith
probe-failed a class h = ground arith
probe-failed a (cdev i) h = ground arith
probe-failed a (device i) h = ground arith

-- Bound, it holds the device numbers and the class.
probe-succeeded :
    (a : Answers)
    → is_neg (platform_driver_probe a).0 ≡ false
    → (holds numbers false (platform_driver_probe a).1 ≡ true)
      × (holds class false (platform_driver_probe a).1 ≡ true)
unfolding platform_driver_probe
probe-succeeded a h = ground arith

probe-remove :
    (a : Answers) (r : Resource)
    → is_neg (platform_driver_probe a).0 ≡ false
    → holds r (holds r false (platform_driver_probe a).1) platform_driver_remove.1 ≡ false
unfolding platform_driver_probe platform_driver_remove
probe-remove a numbers h = ground arith
probe-remove a class h = ground arith
probe-remove a (cdev i) h = ground arith
probe-remove a (device i) h = ground arith

record IsTidy (s : System) : Type 0 where
  unbound : s.bound ≡ false → (r : Resource) → holds r false s.calls ≡ false
  owns : s.bound ≡ true → (holds numbers false s.calls ≡ true) × (holds class false s.calls ≡ true)
  frees :
      s.bound ≡ true
      → (r : Resource) → holds r (holds r false s.calls) platform_driver_remove.1 ≡ false
  both : s.bound ≡ true → (s.device ≡ true) × (s.driver ≡ true)

probed-IsTidy : {s : System} (a : Answers) → s.bound ≡ false → IsTidy s → IsTidy (probed s a)
probed-IsTidy {s} a off t =
    let after : (r : Resource)
        → holds r false (probed s a).calls ≡ holds r false (platform_driver_probe a).1 =
      λ r. rw (holds-append r false s.calls (platform_driver_probe a).1, t.unbound off r) refl in
    record {
      unbound = λ e r. after r ∙ probe-failed a r (ground (arith, e));
      owns = λ e.
          let ok = probe-succeeded a (ground (arith, e)) in
          (after numbers ∙ ok.0, after class ∙ ok.1);
      frees = λ e r. rw (after r) (probe-remove a r (ground (arith, e)));
      both = λ e. (refl, refl);
    }

removed-frees : {s : System} → IsTidy s → (r : Resource) → holds r false (removed s).calls ≡ false
removed-frees {s} t r = elim (Bool-cases s.bound) [
  | inl on ↦ rw (on, holds-append r false s.calls platform_driver_remove.1) (t.frees on r)
  | inr off ↦ rw (off, holds-append r false s.calls []) (t.unbound off r)
]

Step-IsTidy : {s t : System} → Step s t → IsTidy s → IsTidy t
Step-IsTidy (device_refused n off e) t = t
Step-IsTidy (device_alone off alone e) t = record {
  unbound = t.unbound;
  owns = t.owns;
  frees = t.frees;
  both = λ on. (refl, (t.both on).1);
}
Step-IsTidy (device_other off there ne e) t = record {
  unbound = t.unbound;
  owns = t.owns;
  frees = t.frees;
  both = λ on. (refl, (t.both on).1);
}
Step-IsTidy (device_probed a off there same e) t = probed-IsTidy a (ground (arith, t.both)) t
Step-IsTidy (device_exit there) t = record {
  unbound = λ e r. removed-frees t r;
  owns = λ e. cc;
  frees = λ e r. cc;
  both = λ e. cc;
}
Step-IsTidy (driver_refused off) t = t
Step-IsTidy (driver_alone off alone) t = record {
  unbound = t.unbound;
  owns = t.owns;
  frees = t.frees;
  both = λ on. ((t.both on).0, refl);
}
Step-IsTidy (driver_other off there ne) t = record {
  unbound = t.unbound;
  owns = t.owns;
  frees = t.frees;
  both = λ on. ((t.both on).0, refl);
}
Step-IsTidy (driver_probed a off there same) t = probed-IsTidy a (ground (arith, t.both)) t
Step-IsTidy (driver_exit there) t = record {
  unbound = λ e r. removed-frees t r;
  owns = λ e. cc;
  frees = λ e r. cc;
  both = λ e. cc;
}

Steps-IsTidy : {s : System} → Steps start s → IsTidy s
Steps-IsTidy here = record {
  unbound = λ e r. refl;
  owns = λ e. cc;
  frees = λ e r. cc;
  both = λ e. cc;
}
Steps-IsTidy (next r st) = Step-IsTidy st (Steps-IsTidy r)

-- In whatever order the two modules are loaded and unloaded, and whatever the kernel answers: either
-- the device and the driver are not bound, and nothing of any kind is held; or they are bound, both are
-- there, and the device numbers and the class are held.
pub held_while_bound :
    {s : System}
    → Steps start s
    → ((s.bound ≡ false) × ((r : Resource) → holds r false s.calls ≡ false))
      ⊎ ((s.bound ≡ true)
          × (s.device ≡ true)
          × (s.driver ≡ true)
          × (holds numbers false s.calls ≡ true)
          × (holds class false s.calls ≡ true))
held_while_bound {s} r =
    let t = Steps-IsTidy r in
    elim (Bool-cases s.bound) [
      | inl on ↦ inr (on, (t.both on).0, (t.both on).1, (t.owns on).0, (t.owns on).1)
      | inr off ↦ inl (off, t.unbound off)
    ]
