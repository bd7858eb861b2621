-- ===== src/Processes/Segment/Finish.antt =====
-- How the programs of asm_8/ex_3 come to their end.
use linux_assignment.Prelude.{ℕ, ◌≡◌, ◌≢◌, refl, ap, ◌∙◌, arith, List, Option, none, some, true}
use linux_assignment.Processes.Segment.{
  fgets, Writer, begin, with_segment, with_semaphore, reset, attached, stored, written, posted,
  Reader, passed, printed, removed, finished, failed, System, start, text_of, value_of, Step,
  w_shmget, w_semget, w_setval, w_shmat, w_fgets, w_cut, w_semop, r_shmget, r_semget, r_semop,
  r_print, r_remove_segment, r_remove_semaphore, Steps, here, next,
}
use linux_assignment.Processes.Segment.Delivery.{has_posted, output, IsFirstLine, prints_message}
use linux_assignment.Processes.Segment.Kept.{
  has_segment, has_semaphore, no_segment, no_semaphore, IsThere, Step-IsThere, start-IsThere,
  Steps-IsThere,
}

there : {A : Type 0} (x : Option A) → x ≢ none → (a : A) × (x ≡ some a)
there none h = absurd (h refl)
there (some a) h = (a, refl)

then_steps :
    {input : Option (List ℕ)} {s t v : System} → Steps input s t → Steps input t v → Steps input s v
then_steps r here = r
then_steps r (next r' st) = next (then_steps r r') st

module _ (input : Option (List ℕ)) where
  -- the writer can post, while the reader makes no step
  CanPost : System → Type 0
  CanPost s =
      (t : System) × Steps input s t × (t.writer ≡ posted) × (t.reader ≡ s.reader) × IsThere t

  post_later : {s t : System} → Step input s t → t.reader ≡ s.reader → CanPost t → CanPost s
  unfolding CanPost
  post_later st same (v, r, at, same', o) = (v, then_steps (next here st) r, at, same' ∙ same, o)

  module _ {s : System} (o : IsThere s) where
    segment_there :
        has_segment s.writer ≡ true
        → has_posted s.writer ≡ 0
        → (text : List ℕ) × (s.segment ≡ some text)
    segment_there h p = there s.segment (o.segment h (ground (arith, o.tokens)))

    semaphore_there :
        has_semaphore s.writer ≡ true → has_posted s.writer ≡ 0 → (v : ℕ) × (s.semaphore ≡ some v)
    semaphore_there h p = there s.semaphore (o.semaphore h (ground (arith, o.tokens)))

  posted-CanPost : {s : System} → IsThere s → s.writer ≡ posted → CanPost s
  unfolding CanPost
  posted-CanPost {s} o at = (s, here, at, refl, o)

  written-CanPost : {s : System} → IsThere s → s.writer ≡ written → CanPost s
  written-CanPost {s} o at =
      let (v, e) = semaphore_there o (ap has_semaphore at) (ap has_posted at) in
      let st = w_semop v at e in post_later st refl (posted-CanPost (Step-IsThere st o) refl)

  stored-CanPost : {s : System} → IsThere s → s.writer ≡ stored → CanPost s
  stored-CanPost o at =
      let st = w_cut at in post_later st refl (written-CanPost (Step-IsThere st o) refl)

  attached-CanPost : {s : System} → IsThere s → s.writer ≡ attached → CanPost s
  attached-CanPost o at =
      let st = w_fgets at in post_later st refl (stored-CanPost (Step-IsThere st o) refl)

  reset-CanPost : {s : System} → IsThere s → s.writer ≡ reset → CanPost s
  reset-CanPost o at =
      let (text, e) = segment_there o (ap has_segment at) (ap has_posted at) in
      let st = w_shmat text at e in post_later st refl (attached-CanPost (Step-IsThere st o) refl)

  with_semaphore-CanPost : {s : System} → IsThere s → s.writer ≡ with_semaphore → CanPost s
  with_semaphore-CanPost o at =
      let (v, e) = semaphore_there o (ap has_semaphore at) (ap has_posted at) in
      let st = w_setval v at e in post_later st refl (reset-CanPost (Step-IsThere st o) refl)

  with_segment-CanPost : {s : System} → IsThere s → s.writer ≡ with_segment → CanPost s
  with_segment-CanPost o at =
      let st = w_semget at in post_later st refl (with_semaphore-CanPost (Step-IsThere st o) refl)

  begin-CanPost : {s : System} → IsThere s → s.writer ≡ begin → CanPost s
  begin-CanPost o at =
      let st = w_shmget at in post_later st refl (with_segment-CanPost (Step-IsThere st o) refl)

  all-CanPost : {s : System} (w : Writer) → IsThere s → s.writer ≡ w → w ≢ failed → CanPost s
  all-CanPost begin o at ok = begin-CanPost o at
  all-CanPost with_segment o at ok = with_segment-CanPost o at
  all-CanPost with_semaphore o at ok = with_semaphore-CanPost o at
  all-CanPost reset o at ok = reset-CanPost o at
  all-CanPost attached o at ok = attached-CanPost o at
  all-CanPost stored o at ok = stored-CanPost o at
  all-CanPost written o at ok = written-CanPost o at
  all-CanPost posted o at ok = posted-CanPost o at
  all-CanPost failed o at ok = absurd (ok refl)

  -- the reader can come to its end once the writer has posted
  CanFinish : System → Type 0
  CanFinish s = (t : System) × (text : List ℕ) × Steps input s t × (t.reader ≡ finished text)

  finish_later : {s t : System} → Step input s t → CanFinish t → CanFinish s
  unfolding CanFinish
  finish_later st (v, text, r, at) = (v, text, then_steps (next here st) r, at)

  finished-CanFinish : (s : System) (text : List ℕ) → s.reader ≡ finished text → CanFinish s
  unfolding CanFinish
  finished-CanFinish s text at = (s, text, here, at)

  removed-CanFinish : (s : System) (text : List ℕ) → s.reader ≡ removed text → CanFinish s
  removed-CanFinish s text at =
      finish_later (r_remove_semaphore text at) (finished-CanFinish _ text refl)

  printed-CanFinish : (s : System) (text : List ℕ) → s.reader ≡ printed text → CanFinish s
  printed-CanFinish s text at =
      finish_later (r_remove_segment text at) (removed-CanFinish _ text refl)

  passed-CanFinish : {s : System} → IsThere s → s.writer ≡ posted → s.reader ≡ passed → CanFinish s
  passed-CanFinish {s} o done at =
      let (text, e) = there s.segment (o.segment (ap has_segment done) (ap no_segment at)) in
      finish_later (r_print text at e) (printed-CanFinish _ text refl)

  with_semaphore-CanFinish :
      {s : System} → IsThere s → s.writer ≡ posted → s.reader ≡ Reader.with_semaphore → CanFinish s
  with_semaphore-CanFinish {s} o done at =
      let (v, e) = there s.semaphore (o.semaphore (ap has_semaphore done) (ap no_semaphore at)) in
      let one : s.semaphore ≡ some 1 = ground (arith, o.token done) in
      let st = r_semop 0 at one in finish_later st (passed-CanFinish (Step-IsThere st o) done refl)

  with_segment-CanFinish :
      {s : System} → IsThere s → s.writer ≡ posted → s.reader ≡ Reader.with_segment → CanFinish s
  with_segment-CanFinish {s} o done at =
      let (v, e) = there s.semaphore (o.semaphore (ap has_semaphore done) (ap no_semaphore at)) in
      let st = r_semget v at e in
      finish_later st (with_semaphore-CanFinish (Step-IsThere st o) done refl)

  begin-CanFinish :
      {s : System} → IsThere s → s.writer ≡ posted → s.reader ≡ Reader.begin → CanFinish s
  begin-CanFinish {s} o done at =
      let (text, e) = there s.segment (o.segment (ap has_segment done) (ap no_segment at)) in
      let st = r_shmget text at e in
      finish_later st (with_segment-CanFinish (Step-IsThere st o) done refl)

  all-CanFinish :
      {s : System} (r : Reader)
      → IsThere s
      → s.writer ≡ posted
      → s.reader ≡ r
      → r ≢ failed
      → CanFinish s
  all-CanFinish begin o done at ok = begin-CanFinish o done at
  all-CanFinish with_segment o done at ok = with_segment-CanFinish o done at
  all-CanFinish with_semaphore o done at ok = with_semaphore-CanFinish o done at
  all-CanFinish passed o done at ok = passed-CanFinish o done at
  all-CanFinish (printed text) o done at ok = printed-CanFinish _ text at
  all-CanFinish (removed text) o done at ok = removed-CanFinish _ text at
  all-CanFinish (finished text) o done at ok = finished-CanFinish _ text at
  all-CanFinish failed o done at ok = absurd (ok refl)

-- If no semaphore was left over, or one with the value 0: from every state that is reached and in
-- which no call of either program has failed, both can go on to their end, and then the reader has
-- printed what the writer left in the segment, up to the first newline.
pub can_finish :
    {input segment : Option (List ℕ)} {semaphore : Option ℕ} {s : System}
    → value_of semaphore ≡ 0
    → Steps input (start segment semaphore) s
    → s.writer ≢ failed
    → s.reader ≢ failed
    → (t : System) × (text : List ℕ) × Steps input s t
      × (t.reader ≡ finished text)
      × (t.writer ≡ posted)
      × IsFirstLine text (fgets input (text_of segment))
unfolding CanPost CanFinish
can_finish {input} {segment} {semaphore} {s} clean r w_ok r_ok =
    let o = Steps-IsThere r (start-IsThere clean) in
    let (t, r1, done, same, o1) = all-CanPost input s.writer o refl w_ok in
    let (v, text, r2, at) = all-CanFinish input s.reader o1 done same r_ok in
    let whole = then_steps r (then_steps r1 r2) in
    let (line, done') = prints_message text clean whole (ap output at) in
    (v, text, then_steps r1 r2, at, done', line)
