-- ===== src/Processes/Segment/Delivery.antt =====
-- What the reader of asm_8/ex_3 prints.
use linux_assignment.Prelude.{
  ℕ, suc, ◌+◌, ◌≤◌, ◌≡◌, ◌≢◌, ◌⊎◌, ◌++◌, All, sym, ap, subst, ℕ_discrete, inl, inr, refl, List, [],
  ◌∷◌, arith, Option, none, some, Bool, true, false,
}
use linux_assignment.Processes.Segment.{
  cut_newline, fgets, Writer, begin, with_segment, with_semaphore, reset, attached, stored, written,
  posted, Reader, passed, printed, removed, finished, System, start, text_of, value_of, Step,
  w_shmget, w_semget, w_setval, w_shmat, w_fgets, w_cut, w_semop, w_fail, r_shmget, r_semget,
  r_semop, r_print, r_remove_segment, r_remove_semaphore, r_fail, Steps, here, next,
}

-- the text that the writer leaves over an old one
abbrev pub message : Option (List ℕ) → List ℕ → List ℕ
message input old = cut_newline (fgets input old)

abbrev pub has_posted : Writer → ℕ
has_posted posted = 1
has_posted _ = 0

abbrev pub has_passed : Reader → ℕ
has_passed passed = 1
has_passed (printed text) = 1
has_passed (removed text) = 1
has_passed (finished text) = 1
has_passed _ = 0

-- what the reader has printed
abbrev pub output : Reader → Option (List ℕ)
output (printed text) = some text
output (removed text) = some text
output (finished text) = some text
output _ = none

-- whether the writer has not touched the text yet, and whether it is done with it
abbrev is_early : Writer → Bool
is_early begin = true
is_early with_segment = true
is_early with_semaphore = true
is_early reset = true
is_early attached = true
is_early _ = false

abbrev is_late : Writer → Bool
is_late written = true
is_late posted = true
is_late _ = false

record IsConsistent (input : Option (List ℕ)) (old : List ℕ) (s : System) : Type 0 where
  tokens : value_of s.semaphore + has_passed s.reader ≤ has_posted s.writer
  absent : s.segment ≡ none → s.writer ≡ begin → old ≡ []
  early : (text : List ℕ) → s.segment ≡ some text → is_early s.writer ≡ true → text ≡ old
  between :
      (text : List ℕ)
      → s.segment ≡ some text
      → s.writer ≡ stored
      → cut_newline text ≡ message input old
  late :
      (text : List ℕ) → s.segment ≡ some text → is_late s.writer ≡ true → text ≡ message input old
  shown : (text : List ℕ) → output s.reader ≡ some text → text ≡ message input old

segment_cases : (x : Option (List ℕ)) → (x ≡ none) ⊎ ((text : List ℕ) × (x ≡ some text))
segment_cases none = inl refl
segment_cases (some text) = inr (text, refl)

Step-IsConsistent :
    {input : Option (List ℕ)} {old : List ℕ} {s t : System}
    → Step input s t
    → IsConsistent input old s
    → IsConsistent input old t
Step-IsConsistent {s = s} (w_shmget at) c = ground (arith, segment_cases s.segment)
Step-IsConsistent {s = s} (w_semget at) c = ground arith
Step-IsConsistent {s = s} (w_setval v at e) c = ground arith
Step-IsConsistent {s = s} (w_shmat x at e) c = ground arith
Step-IsConsistent {s = s} (w_fgets at) c = ground (arith, segment_cases s.segment)
Step-IsConsistent {s = s} (w_cut at) c =
    ground (arith, segment_cases s.segment, c.between (text_of s.segment))
Step-IsConsistent {s = s} (w_semop v at e) c = ground arith
Step-IsConsistent {s = s} (w_fail may) c = ground arith
Step-IsConsistent {s = s} (r_shmget x at e) c = ground arith
Step-IsConsistent {s = s} (r_semget v at e) c = ground arith
Step-IsConsistent {s = s} (r_semop v at e) c = ground arith
Step-IsConsistent {s = s} (r_print x at e) c = ground arith
Step-IsConsistent {s = s} (r_remove_segment x at) c = ground arith
Step-IsConsistent {s = s} (r_remove_semaphore x at) c = ground arith
Step-IsConsistent {s = s} (r_fail may) c = ground arith

Steps-IsConsistent :
    {input : Option (List ℕ)} {old : List ℕ} {s t : System}
    → Steps input s t
    → IsConsistent input old s
    → IsConsistent input old t
Steps-IsConsistent here c = c
Steps-IsConsistent (next r st) c = Step-IsConsistent st (Steps-IsConsistent r c)

start-IsConsistent :
    {input segment : Option (List ℕ)} {semaphore : Option ℕ}
    → value_of semaphore ≡ 0
    → IsConsistent input (text_of segment) (start segment semaphore)
start-IsConsistent clean = ground arith

posted_first :
    {text : List ℕ} (n : ℕ) (w : Writer) (r : Reader)
    → n + has_passed r ≤ has_posted w
    → output r ≡ some text
    → w ≡ posted
posted_first n w r e seen = ground arith

-- A text is another up to its first newline, or all of it.
pub record IsFirstLine (text whole : List ℕ) : Type 0 where
  pub rest : List ℕ
  pub splits : text ++ rest ≡ whole
  pub no_newline : All (λ c. c ≢ 10) text
  pub ends : (rest ≡ []) ⊎ ((ys : List ℕ) × (rest ≡ 10 ∷ ys))

cut_newline-IsFirstLine : (whole : List ℕ) → IsFirstLine (cut_newline whole) whole
cut_newline-IsFirstLine [] = record { rest = []; splits = refl; no_newline = tt; ends = inl refl }
cut_newline-IsFirstLine (c ∷ cs) = elim (ℕ_discrete c 10) [
  | yes e ↦ record {
    rest = c ∷ cs;
    splits = ground arith;
    no_newline = ground arith;
    ends = inr (cs, ap (λ d. d ∷ cs) e);
  }
  | no ne ↦
      let ih = cut_newline-IsFirstLine cs in
      record {
        rest = ih.rest;
        splits = ground (arith, ih.splits);
        no_newline = ground (arith, ih.no_newline);
        ends = ih.ends;
      }
]

-- If no semaphore was left over, or one with the value 0, then whatever the reader prints is what
-- the writer left in the segment: the line that it got, or the text left over where it got none, up
-- to the first newline; and by then the writer has posted.
pub prints_message :
    {input segment : Option (List ℕ)} {semaphore : Option ℕ} {s : System} (text : List ℕ)
    → value_of semaphore ≡ 0
    → Steps input (start segment semaphore) s
    → output s.reader ≡ some text
    → IsFirstLine text (fgets input (text_of segment)) × (s.writer ≡ posted)
prints_message {input} {segment} {semaphore} {s} text clean r seen =
    let c = Steps-IsConsistent r (start-IsConsistent clean) in
    (
      subst (λ x. IsFirstLine x (fgets input (text_of segment))) (sym (c.shown text seen))
          (cut_newline-IsFirstLine (fgets input (text_of segment))),
      posted_first (value_of s.semaphore) s.writer s.reader c.tokens seen,
    )

-- If a semaphore was left over with a positive value, the reader may print the text that was left
-- over, before the writer has made its first call.
pub prints_old_text :
    (input : Option (List ℕ)) (old : List ℕ) (n : ℕ)
    → (s : System) × Steps input (start (some old) (some (suc n))) s
      × (s.writer ≡ begin)
      × (s.reader ≡ finished old)
prints_old_text input old n = (
  _,
  next
      (next
        (next
          (next (next (next here (r_shmget old refl refl)) (r_semget (suc n) refl refl))
            (r_semop n refl refl))
          (r_print old refl refl))
        (r_remove_segment old refl))
      (r_remove_semaphore old refl),
  refl,
  refl,
)
