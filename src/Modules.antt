-- ===== src/Modules.antt =====
-- asm_2/asm_2/module_a.c and module_b.c: module_b calls a function that module_a exports. As documented,
-- the kernel loads a module only if what it names is exported by a module that is loaded, and unloads
-- none that another one uses. A step is one attempt to load or unload, with the messages it logs.
pub mod Order
use linux_assignment.Prelude.{◌≡◌, List, [], ◌∷◌, ◌++◌, Bool, true, false}

pub data Message : Type 0 where
  a_loaded : Message
  a_unloaded : Message
  exported : Message  -- of `function_from_module_a`
  b_loaded : Message
  b_unloaded : Message

abbrev pub module_a_init : List Message
module_a_init = a_loaded ∷ []

abbrev pub module_a_exit : List Message
module_a_exit = a_unloaded ∷ []

abbrev pub function_from_module_a : List Message
function_from_module_a = exported ∷ []

abbrev pub module_b_init : List Message
module_b_init = b_loaded ∷ function_from_module_a

abbrev pub module_b_exit : List Message
module_b_exit = b_unloaded ∷ []

pub record System : Type 0 where
  pub a : Bool  -- whether module_a is loaded
  pub b : Bool
  pub log : List Message

abbrev pub start : System
start = record { a = false; b = false; log = [] }

pub data Step (s : System) : System → Type 0 where
  load_a : s.a ≡ false → Step s (record s { a = true; log = s.log ++ module_a_init })
  load_b : s.b ≡ false → s.a ≡ true → Step s (record s { b = true; log = s.log ++ module_b_init })
  load_b_refused : s.b ≡ false → s.a ≡ false → Step s s
  unload_a :
      s.a ≡ true → s.b ≡ false → Step s (record s { a = false; log = s.log ++ module_a_exit })
  unload_a_refused : s.a ≡ true → s.b ≡ true → Step s s
  unload_b : s.b ≡ true → Step s (record s { b = false; log = s.log ++ module_b_exit })

pub data Steps (s : System) : System → Type 0 where
  here : Steps s s
  next : {t v : System} → Steps s t → Step t v → Steps s v
