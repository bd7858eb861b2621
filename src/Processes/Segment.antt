-- ===== src/Processes/Segment.antt =====
-- asm_8/ex_3/ex_3_writer.c and asm_8/ex_3/ex_3_reader.c: a message in a shared memory segment, and a
-- semaphore that tells of it. A step is one call on the segment or the semaphore, or one access to the
-- segment. A segment or a semaphore that is not there, or was removed, is `none`.
pub mod Delivery
pub mod Finish
pub mod Kept
mod Tests
use linux_assignment.Prelude.{
  ℕ, suc, ◌+◌, ◌≡◌, List, [], ◌∷◌, ◌==◌, if◌then◌else◌, Option, none, some, Bool, true, false,
}

-- `str[strcspn(str, "\n")] = 0`: the text ends before its first newline.
abbrev pub cut_newline : List ℕ → List ℕ
cut_newline [] = []
cut_newline (c ∷ cs) = let rest = cut_newline cs in if c == 10 then [] else c ∷ rest

-- What a segment holds after `fgets`: the line, or the old text where there is no input left.
abbrev pub fgets : Option (List ℕ) → List ℕ → List ℕ
fgets none old = old
fgets (some line) old = line

pub data Writer : Type 0 where
  begin : Writer
  with_segment : Writer  -- after `shmget`
  with_semaphore : Writer  -- after `semget`
  reset : Writer  -- after `semctl`
  attached : Writer  -- after `shmat`
  stored : Writer  -- after `fgets`
  written : Writer  -- the newline is cut off
  posted : Writer  -- after `semop`
  failed : Writer  -- `exit(1)`

pub data Reader : Type 0 where
  begin : Reader
  with_segment : Reader
  with_semaphore : Reader
  passed : Reader  -- after `semop`
  printed : List ℕ → Reader
  removed : List ℕ → Reader  -- the segment is removed
  finished : List ℕ → Reader  -- the semaphore too
  failed : Reader

-- A call that may be refused makes the program exit.
abbrev pub writer_may_fail : Writer → Bool
writer_may_fail attached = false
writer_may_fail stored = false
writer_may_fail posted = false
writer_may_fail failed = false
writer_may_fail _ = true

abbrev pub reader_may_fail : Reader → Bool
reader_may_fail begin = true
reader_may_fail with_segment = true
reader_may_fail with_semaphore = true
reader_may_fail passed = true
reader_may_fail _ = false

pub record System : Type 0 where
  pub segment : Option (List ℕ)
  pub semaphore : Option ℕ
  pub writer : Writer
  pub reader : Reader

-- What earlier runs have left, and both programs at their start.
abbrev pub start : Option (List ℕ) → Option ℕ → System
start segment semaphore = record {
  segment = segment;
  semaphore = semaphore;
  writer = begin;
  reader = begin;
}

-- A new segment is empty, a new semaphore 0.
abbrev pub text_of : Option (List ℕ) → List ℕ
text_of none = []
text_of (some text) = text

abbrev pub value_of : Option ℕ → ℕ
value_of none = 0
value_of (some n) = n

-- A write into a segment that was removed is seen by nobody.
abbrev pub rewrite : (List ℕ → List ℕ) → Option (List ℕ) → Option (List ℕ)
rewrite f none = none
rewrite f (some text) = some (f text)

pub data Step (input : Option (List ℕ)) (s : System) : System → Type 0 where
  w_shmget :
      s.writer ≡ begin
      → Step input s (record s { segment = some (text_of s.segment); writer = with_segment })
  w_semget :
      s.writer ≡ with_segment
      → Step input s (record s { semaphore = some (value_of s.semaphore); writer = with_semaphore })
  w_setval :
      (v : ℕ)
      → s.writer ≡ with_semaphore
      → s.semaphore ≡ some v
      → Step input s (record s { semaphore = some 0; writer = reset })
  w_shmat :
      (text : List ℕ)
      → s.writer ≡ reset
      → s.segment ≡ some text
      → Step input s (record s { writer = attached })
  w_fgets :
      s.writer ≡ attached
      → Step input s (record s { segment = rewrite (fgets input) s.segment; writer = stored })
  w_cut :
      s.writer ≡ stored
      → Step input s (record s { segment = rewrite cut_newline s.segment; writer = written })
  w_semop :
      (v : ℕ)
      → s.writer ≡ written
      → s.semaphore ≡ some v
      → Step input s (record s { semaphore = some (v + 1); writer = posted })
  w_fail : writer_may_fail s.writer ≡ true → Step input s (record s { writer = failed })
  r_shmget :
      (text : List ℕ)
      → s.reader ≡ begin
      → s.segment ≡ some text
      → Step input s (record s { reader = with_segment })
  r_semget :
      (v : ℕ)
      → s.reader ≡ with_segment
      → s.semaphore ≡ some v
      → Step input s (record s { reader = with_semaphore })
  r_semop :
      (v : ℕ)
      → s.reader ≡ with_semaphore
      → s.semaphore ≡ some (suc v)
      → Step input s (record s { semaphore = some v; reader = passed })
  r_print :
      (text : List ℕ)
      → s.reader ≡ passed
      → s.segment ≡ some text
      → Step input s (record s { reader = printed text })
  r_remove_segment :
      (text : List ℕ)
      → s.reader ≡ printed text
      → Step input s (record s { segment = none; reader = removed text })
  r_remove_semaphore :
      (text : List ℕ)
      → s.reader ≡ removed text
      → Step input s (record s { semaphore = none; reader = finished text })
  r_fail : reader_may_fail s.reader ≡ true → Step input s (record s { reader = failed })

pub data Steps (input : Option (List ℕ)) (s : System) : System → Type 0 where
  here : Steps input s s
  next : {t v : System} → Steps input s t → Step input t v → Steps input s v
