-- ===== src/Threads/Race.antt =====
-- asm_7/ex_1/ex_1.c: two threads that add to `tmp` with no lock. The read and the write of `tmp` are
-- separate steps, as is the read that is printed.
pub mod Values
use linux_assignment.Prelude.{ℕ, ◌+◌, ◌≡◌, Option, none, some}

pub data Pc : Type 0 where
  fresh : Pc
  loaded : (v : ℕ) → Pc
  stored : Pc
  printed : Pc
  returned : Pc

pub record System : Type 0 where
  pub tmp : ℕ
  pub value_1 : ℕ
  pub value_2 : ℕ
  pub shown_1 : Option ℕ  -- what thread 1 has printed
  pub shown_2 : Option ℕ
  pub pc_1 : Pc
  pub pc_2 : Pc

abbrev pub start : System
start = record {
  tmp = 5;
  value_1 = 0;
  value_2 = 0;
  shown_1 = none;
  shown_2 = none;
  pc_1 = fresh;
  pc_2 = fresh;
}

pub data Step (s : System) : System → Type 0 where
  load_1 : s.pc_1 ≡ fresh → Step s (record s { pc_1 = loaded s.tmp })
  store_1 : (v : ℕ) → s.pc_1 ≡ loaded v → Step s (record s { pc_1 = stored; tmp = v + 1 })
  print_1 : s.pc_1 ≡ stored → Step s (record s { pc_1 = printed; shown_1 = some s.tmp })
  return_1 : s.pc_1 ≡ printed → Step s (record s { pc_1 = returned; value_1 = 100 })
  load_2 : s.pc_2 ≡ fresh → Step s (record s { pc_2 = loaded s.tmp })
  store_2 : (v : ℕ) → s.pc_2 ≡ loaded v → Step s (record s { pc_2 = stored; tmp = v + 2 })
  print_2 : s.pc_2 ≡ stored → Step s (record s { pc_2 = printed; shown_2 = some s.tmp })
  return_2 : s.pc_2 ≡ printed → Step s (record s { pc_2 = returned; value_2 = 200 })

pub data Steps (s : System) : System → Type 0 where
  here : Steps s s
  next : {t v : System} → Steps s t → Step t v → Steps s v
