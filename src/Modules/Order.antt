-- ===== src/Modules/Order.antt =====
-- The call of module_b to module_a in asm_2/asm_2.
use linux_assignment.Prelude.{
  ◌≡◌, ◌⊎◌, refl, arith, List, [], ◌∷◌, ◌++◌, Bool, true, false, ◌&&◌, not,
}
use linux_assignment.Modules.{
  Message, a_loaded, a_unloaded, exported, b_loaded, b_unloaded, System, start, Step, load_a,
  load_b, load_b_refused, unload_a, unload_a_refused, unload_b, Steps, here, next,
}

-- Read from the log alone, which modules are loaded behind it, and whether each message came when it
-- could: those of module_a while it is loaded, also where module_b calls it.
pub record Reading : Type 0 where
  pub a : Bool
  pub b : Bool
  pub fine : Bool

abbrev pub read_message : Message → Reading → Reading
read_message a_loaded r = record { a = true; b = r.b; fine = r.fine && not r.a }
read_message a_unloaded r = record { a = false; b = r.b; fine = r.fine && (r.a && not r.b) }
read_message exported r = record r { fine = r.fine && r.a }
read_message b_loaded r = record { a = r.a; b = true; fine = r.fine && (r.a && not r.b) }
read_message b_unloaded r = record { a = r.a; b = false; fine = r.fine && (r.a && r.b) }

abbrev pub read_log : Reading → List Message → Reading
read_log r [] = r
read_log r (m ∷ ms) = read_log (read_message m r) ms

abbrev pub nothing : Reading
nothing = record { a = false; b = false; fine = true }

read_log-append :
    (r : Reading) (xs ys : List Message) → read_log r (xs ++ ys) ≡ read_log (read_log r xs) ys
read_log-append r [] ys = refl
read_log-append r (x ∷ xs) ys = read_log-append (read_message x r) xs ys

record IsFine (s : System) : Type 0 where
  needs : (s.b ≡ false) ⊎ (s.a ≡ true)
  told : read_log nothing s.log ≡ record { a = s.a; b = s.b; fine = true }

Step-IsFine : {s t : System} → Step s t → IsFine s → IsFine t
Step-IsFine {s = s} (load_a off) f = ground (arith, read_log-append nothing s.log (a_loaded ∷ []))
Step-IsFine {s = s} (load_b off on) f =
    ground (arith, read_log-append nothing s.log (b_loaded ∷ exported ∷ []))
Step-IsFine (load_b_refused off off') f = f
Step-IsFine {s = s} (unload_a on off) f =
    ground (arith, read_log-append nothing s.log (a_unloaded ∷ []))
Step-IsFine (unload_a_refused on on') f = f
Step-IsFine {s = s} (unload_b on) f =
    ground (arith, read_log-append nothing s.log (b_unloaded ∷ []))

Steps-IsFine : {s : System} → Steps start s → IsFine s
Steps-IsFine here = ground arith
Steps-IsFine (next r st) = Step-IsFine st (Steps-IsFine r)

-- In every reachable state module_b is loaded only if module_a is, and the log tells which modules are
-- loaded and has every message when it could come: the exported function was called only while module_a
-- was loaded.
pub exported_in_time :
    {s : System}
    → Steps start s
    → ((s.b ≡ false) ⊎ (s.a ≡ true))
      × (read_log nothing s.log ≡ record { a = s.a; b = s.b; fine = true })
exported_in_time r = let f = Steps-IsFine r in (f.needs, f.told)
