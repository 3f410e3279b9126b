-- ===== src/Analytics/Record/Stopping.antt =====
-- The end of a run of crates/tpt-t-analytics/src/record.rs: what is recorded between the storage
-- thread's last drain and its load of the stop flag.
use native.Mathlib.Nat.{one-le-pow}
use tpt_teleop.Prelude.{
  ℕ, suc, max, ◌^◌, ◌≤◌, ◌≡◌, refl, sym, ◌∙◌, ap, subst, arith, true, false, List, [], ◌∷◌, ◌++◌,
  append-nil, length, All, ltb,
}
use tpt_teleop.Prelude.PowTwo.{log2_ceil}
use tpt_teleop.Ring.Spsc.{Spsc, len}
use tpt_teleop.Ring.Refine.{Holds, len_lem, push-accepted}
use tpt_teleop.Ring.Runs.{drain_lem}
use tpt_teleop.Analytics.DirectIo.{given, IsStaged}
use tpt_teleop.Analytics.Record.{
  RecordKind, FdrEntry, FdrWriter, stored, recorded, record_entry, try_record, new, max_payload,
  drain_once, write_entries, finish, parse_entries,
}
use tpt_teleop.Analytics.Record.Parse.{parse_entries-bytes_all}
use tpt_teleop.Analytics.Record.Recorder.{
  draining, checking, finished, Recorder, open_recorder, Step, records, stops, drains, checks,
  drain_step, check_step, step, run,
}
use tpt_teleop.Analytics.Record.Lossless.{
  IsCall, FileHolds, stored_in, run_recorded, finish_lem, on_disk, FileHolds-Stops,
}

empty_lem : {A : Type 0} (xs : List A) → length xs ≡ 0 → xs ≡ []
empty_lem [] e = refl
empty_lem (x ∷ xs) e = absurd (omega arith)

step_finished :
    (s : Step) (r : Recorder)
    → r.phase ≡ finished
    → ((step s r).phase ≡ finished) × ((step s r).writer.file ≡ r.writer.file)
unfolding step drain_step check_step
step_finished (records kind bytes ts) r e = (e, refl)
step_finished stops r e = (e, refl)
step_finished drains r e =
    subst
      (λ p. ((drain_step p r).phase ≡ finished) × ((drain_step p r).writer.file ≡ r.writer.file))
      (sym e) (e, refl)
step_finished checks r e =
    subst
      (λ p. ((check_step p r).phase ≡ finished) × ((check_step p r).writer.file ≡ r.writer.file))
      (sym e) (e, refl)

run_finished :
    (ss : List Step) (r : Recorder) → r.phase ≡ finished → (run ss r).writer.file ≡ r.writer.file
unfolding run
run_finished [] r e = refl
run_finished (s ∷ ss) r e =
    let (phase, file) = step_finished s r e in run_finished ss (step s r) phase ∙ file

check_step_last :
    (r : Recorder)
    → r.stop ≡ true
    → check_step (checking 0) r ≡ record r { writer = finish r.writer; phase = finished }
unfolding check_step
check_step_last r e = rw e refl

-- A drain that finds nothing.
quiet_drain :
    (k : ℕ) (w : FdrWriter)
    → Holds k w.ring []
    → ((drain_once w).0 ≡ 0) × ((drain_once w).1.file ≡ w.file) × Holds k (drain_once w).1.ring []
unfolding drain_once write_entries
quiet_drain k w h =
    let (popped, _, rest) = drain_lem (suc (len w.ring)) [] (omega arith) h in
    (ap length popped, ap (λ es. write_entries es w.file) popped, rest)

-- A ring that holds nothing takes a record that fits.
try_record-stored :
    (k : ℕ) (kind : RecordKind) (bytes : List ℕ) (ts : ℕ) (ring : Spsc FdrEntry)
    → length bytes ≤ max_payload
    → Holds k ring []
    → (try_record kind bytes ts ring).0 ≡ stored
unfolding try_record record_entry new
try_record-stored k kind bytes ts ring small h =
    let short : ltb max_payload (length bytes) ≡ false = ground (arith, small) in
    rw (try_record, new, short)
      (ap (λ r. recorded r.0) (push-accepted {k = k} _ h (one-le-pow k 2 (omega arith))))

-- A record is lost when it comes after the storage thread found the ring empty and before the order to
-- stop that the thread then sees, in any run: the call is told that the record is stored, and whatever
-- happens afterwards, the reader gets from the disk just what was stored before it. The record fits
-- an entry; the recorder was opened with a capacity of at most 2 ^ 63 and called with records, with
-- 64-bit times.
pub stored_before_check_is_lost :
    (n : ℕ) (before : List Step) (kind : RecordKind) (bytes : List ℕ) (ts : ℕ) (ss : List Step)
    → n ≤ 2 ^ 63
    → All IsCall before
    → (run before (open_recorder n)).phase ≡ draining
    → len (run before (open_recorder n)).writer.ring ≡ 0
    → length bytes ≤ max_payload
    → let r = run before (open_recorder n) in
      ((try_record kind bytes ts (step drains r).writer.ring).0 ≡ stored)
      × (parse_entries
            (run (drains ∷ records kind bytes ts ∷ stops ∷ checks ∷ ss) r).writer.file.disk
          ≡ stored_in before (open_recorder n))
unfolding run step drain_step
stored_before_check_is_lost n before kind bytes ts ss fits calls at none_waits small =
    let k = log2_ceil (max n 1) in
    let r = run before (open_recorder n) in
    let (es, q, split, h) = run_recorded n before fits calls in
    let nothing : q ≡ [] = empty_lem q (sym (len_lem h.queue) ∙ none_waits) in
    let (zero_found, same, left) =
      quiet_drain k r.writer (subst (Holds k r.writer.ring) nothing h.queue) in
    let r1 : Recorder = record r { writer = (drain_once r.writer).1; phase = checking 0 } in
    let drained : step drains r ≡ r1 =
      ap (λ p. drain_step p r) at
      ∙ ap (λ m. record r { writer = (drain_once r.writer).1; phase = checking m }) zero_found in
    let r3 : Recorder = step stops (step (records kind bytes ts) r1) in
    let (_, _, ended) =
      finish_lem r3.writer es (subst IsStaged (sym same) h.staged)
        (ap given same ∙ subst (λ p. FileHolds p es r.writer.file) at h.bytes) in
    let last = check_step_last r3 refl in
    let done : (run ss (step checks r3)).writer.file ≡ (finish r3.writer).file =
      run_finished ss (step checks r3) (ap (λ v. v.phase) last) ∙ ap (λ v. v.writer.file) last in
    let (tail, whole, ends) = FileHolds-Stops finished es (finish r3.writer).file ended in
    (
      ap (λ v. (try_record kind bytes ts v.writer.ring).0) drained
          ∙ try_record-stored k kind bytes ts r1.writer.ring small left,
      ap
            (λ v.
              parse_entries
                (run ss
                  (step checks (step stops (step (records kind bytes ts) v)))).writer.file.disk)
            drained
          ∙ ap (λ f. parse_entries f.disk) done
          ∙ ap parse_entries (sym (on_disk finished es (finish r3.writer).file refl ended))
          ∙ ap parse_entries whole
          ∙ parse_entries-bytes_all es tail h.entries ends
          ∙ sym (append-nil es)
          ∙ ap (λ l. es ++ l) (sym nothing)
          ∙ split,
    )
