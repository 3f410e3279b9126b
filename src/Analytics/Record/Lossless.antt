-- ===== src/Analytics/Record/Lossless.antt =====
-- Every record that a run of crates/tpt-t-analytics/src/record.rs took is in its file or waits in
-- its ring.
use tpt_teleop.Prelude.{
  ℕ, suc, ◌<◌, ◌≤◌, ◌^◌, ◌≡◌, ◌≢◌, refl, sym, ◌∙◌, ap, subst, arith, inl, inr, false, Bool-cases,
  ltb→lt, ◌-◌, Option, none, some, List, [], ◌∷◌, ◌++◌, append_assoc, append-nil, All, All-append,
  length, length-append, length-replicate, replicate, max, ltb, ◌==◌, ◌&&◌,
}
use tpt_teleop.Ring.Spsc.{Spsc, Pushed, accepted, refused, push, len}
use tpt_teleop.Ring.Spsc as Spsc
use tpt_teleop.Ring.Refine.{Holds, push_refused, push-accepted, extended-Holds, len_lem}
use tpt_teleop.Ring.Runs.{drain_lem, with_capacity_lem}
use tpt_teleop.Prelude.PowTwo.{log2_ceil}
use tpt_teleop.Analytics.DirectIo.{DirectFile, write, flush, given, IsStaged, write_lem, flush_lem}
use tpt_teleop.Analytics.Record.{
  RecordKind, end, control, imu, gps, telemetry, as_u8, from_u8, Recorded, stored, full, too_large,
  FdrEntry, FdrWriter, new, kind_of, is_end, entry_bytes, parse_entries, try_record, record_entry,
  drain_once, write_entries, finish, max_payload,
}
use tpt_teleop.Analytics.Record.Recorder.{
  Phase, draining, checking, finished, Recorder, open_recorder, Step, records, stops, drains,
  checks, drain_step, check_step, step, run,
}
use tpt_teleop.Analytics.Record.Parse.{
  IsEntry, bytes_all, end_entry, new-end, Stops, parse_entries-bytes_all,
}

-- The entry of a call, where the ring took it.
abbrev pub logged : Option FdrEntry → Recorded → List FdrEntry
logged none r = []
logged (some e) stored = e ∷ []
logged (some e) full = []
logged (some e) too_large = []

-- The entries that the calls of a run were told are stored, in order.
unfoldable pub stored_by : Step → Recorder → List FdrEntry
stored_by (records kind bytes ts) r =
    logged (new kind bytes ts) (try_record kind bytes ts r.writer.ring).0
stored_by stops r = []
stored_by drains r = []
stored_by checks r = []

unfoldable pub stored_in : List Step → Recorder → List FdrEntry
unfolding stored_by
stored_in [] r = []
stored_in (s ∷ ss) r = stored_by s r ++ stored_in ss (step s r)

-- The calls are of records, not of end markers, with 64-bit times.
abbrev pub IsCall : Step → Type 0
IsCall (records kind bytes ts) = (kind ≢ end) × (ts < 256 ^ 8)
IsCall stops = Unit
IsCall drains = Unit
IsCall checks = Unit

-- What the file holds at each point of `run`.
abbrev pub FileHolds : Phase → List FdrEntry → DirectFile → Type 0
FileHolds draining es f = given f ≡ bytes_all es
FileHolds (checking n) es f = given f ≡ bytes_all es
FileHolds finished es f =
    (pad : ℕ) × (given f ≡ bytes_all es ++ (entry_bytes end_entry ++ replicate pad 0))
    × (f.staging ≡ [])

-- `es` is in the file and `q` waits in the ring.
pub record IsRecording (k : ℕ) (es q : List FdrEntry) (r : Recorder) : Type 0 where
  pub queue : Holds k r.writer.ring q
  pub entries : All IsEntry es
  pub waiting : All IsEntry q
  pub staged : IsStaged r.writer.file
  pub bytes : FileHolds r.phase es r.writer.file

abbrev OptionalEntry : Option FdrEntry → Type 0
OptionalEntry none = Unit
OptionalEntry (some e) = IsEntry e

going : (kind : RecordKind) → kind ≢ end → is_end (from_u8 (as_u8 kind)) ≡ false
unfolding from_u8 as_u8
going control h = refl
going imu h = refl
going gps h = refl
going telemetry h = refl
going end h = absurd (h refl)

kind_bound : (kind : RecordKind) → as_u8 kind < 256
unfolding as_u8
kind_bound control = omega arith
kind_bound imu = omega arith
kind_bound gps = omega arith
kind_bound telemetry = omega arith
kind_bound end = omega arith

new-OptionalEntry :
    (kind : RecordKind) (bytes : List ℕ) (ts : ℕ)
    → kind ≢ end
    → ts < 256 ^ 8
    → OptionalEntry (new kind bytes ts)
unfolding new kind_of
new-OptionalEntry kind bytes ts h small = elim (Bool-cases (ltb max_payload (length bytes))) [
  | inl long ↦ rw long tt
  | inr short ↦ rw short (record {
    timestamp_ns = small;
    payload_len = ground (arith, short);
    kind = kind_bound kind;
    pad = omega arith;
    reserved = omega arith;
    payload_array = ground (
      arith,
      short,
      length-append bytes (replicate (max_payload - length bytes) 0),
      length-replicate {A = ℕ} (max_payload - length bytes) 0,
    );
    going = going kind h;
  })
]

record_entry_lem :
    (k : ℕ) (o : Option FdrEntry) (ring : Spsc FdrEntry) (q : List FdrEntry)
    → Holds k ring q
    → OptionalEntry o
    → All IsEntry q
    → Holds k (record_entry o ring).1 (q ++ logged o (record_entry o ring).0)
      × All IsEntry (q ++ logged o (record_entry o ring).0)
unfolding record_entry
record_entry_lem k none ring q h oe hs =
    (subst (Holds k ring) (sym (append-nil q)) h, subst (All IsEntry) (sym (append-nil q)) hs)
record_entry_lem k (some e) ring q h oe hs = elim (Bool-cases (ltb (length q) (2 ^ k))) [
  | inl room ↦
      rw (push-accepted e h (ltb→lt _ _ room))
        (extended-Holds e h (ltb→lt _ _ room), All-append IsEntry q (e ∷ []) hs (oe, tt))
  | inr over ↦
      rw (push_refused e h (ground (arith, over, h.fits)))
        (subst (Holds k ring) (sym (append-nil q)) h, subst (All IsEntry) (sym (append-nil q)) hs)
]

write_entries_lem :
    (es : List FdrEntry) (f : DirectFile)
    → IsStaged f
    → (given (write_entries es f) ≡ given f ++ bytes_all es) × IsStaged (write_entries es f)
unfolding write_entries bytes_all
write_entries_lem [] f s = (sym (append-nil (given f)), s)
write_entries_lem (e ∷ es) f s =
    let (one, s') = write_lem (entry_bytes e) f s in
    let (all, s'') = write_entries_lem es (write (entry_bytes e) f) s' in
    (
      all ∙ ap (λ l. l ++ bytes_all es) one ∙ append_assoc (given f) (entry_bytes e) (bytes_all es),
      s'',
    )

bytes_all-append : (es fs : List FdrEntry) → bytes_all (es ++ fs) ≡ bytes_all es ++ bytes_all fs
unfolding bytes_all
bytes_all-append [] fs = refl
bytes_all-append (e ∷ es) fs =
    ap (λ l. entry_bytes e ++ l) (bytes_all-append es fs)
    ∙ sym (append_assoc (entry_bytes e) (bytes_all es) (bytes_all fs))

finish-end_entry :
    (w : FdrWriter) → finish w ≡ record w { file = flush (write (entry_bytes end_entry) w.file) }
unfolding finish
finish-end_entry w =
    ap
      (λ o. elim o as (λ x. FdrWriter) [
        | none ↦ w
        | some e ↦ record w { file = flush (write (entry_bytes e) w.file) }
      ])
      new-end

pub finish_lem :
    (w : FdrWriter) (es : List FdrEntry)
    → IsStaged w.file
    → given w.file ≡ bytes_all es
    → ((finish w).ring ≡ w.ring) × IsStaged (finish w).file × FileHolds finished es (finish w).file
finish_lem w es s e =
    let (marked, s') = write_lem (entry_bytes end_entry) w.file s in
    let (pad, _, disk, clean, s'') = flush_lem (write (entry_bytes end_entry) w.file) s' in
    let all : given (flush (write (entry_bytes end_entry) w.file))
        ≡ bytes_all es ++ (entry_bytes end_entry ++ replicate pad 0) =
      ap (λ l. (flush (write (entry_bytes end_entry) w.file)).disk ++ l) clean
      ∙ append-nil (flush (write (entry_bytes end_entry) w.file)).disk
      ∙ disk
      ∙ ap (λ l. l ++ replicate pad 0) (marked ∙ ap (λ l. l ++ entry_bytes end_entry) e)
      ∙ append_assoc (bytes_all es) (entry_bytes end_entry) (replicate pad 0) in
    subst (λ v. (v.ring ≡ w.ring) × IsStaged v.file × FileHolds finished es v.file)
      (sym (finish-end_entry w)) (refl, s'', (pad, all, clean))

module _ (k : ℕ) where
  drain_step-IsRecording :
      (p : Phase) (es q : List FdrEntry) (r : Recorder)
      → r.phase ≡ p
      → IsRecording k es q r
      → (es' q' : List FdrEntry) × (es' ++ q' ≡ es ++ q) × IsRecording k es' q' (drain_step p r)
  unfolding drain_step drain_once
  drain_step-IsRecording draining es q r at h =
      let (popped, _, rest) =
        drain_lem (suc (len r.writer.ring)) q (omega (arith, len_lem h.queue)) h.queue in
      let got = (Spsc.drain (suc (len r.writer.ring)) r.writer.ring).0 in
      let (bytes, staged) = write_entries_lem got r.writer.file h.staged in
      (
        es ++ q,
        [],
        append-nil (es ++ q),
        record {
          queue = rest;
          entries = All-append IsEntry es q h.entries h.waiting;
          waiting = tt;
          staged = staged;
          bytes =
              bytes
              ∙ ap (λ l. l ++ bytes_all got) (subst (λ p. FileHolds p es r.writer.file) at h.bytes)
              ∙ ap (λ l. bytes_all es ++ bytes_all l) popped
              ∙ sym (bytes_all-append es q);
        },
      )
  drain_step-IsRecording (checking n) es q r at h = (es, q, refl, h)
  drain_step-IsRecording finished es q r at h = (es, q, refl, h)

  check_step-IsRecording :
      (p : Phase) (es q : List FdrEntry) (r : Recorder)
      → r.phase ≡ p
      → IsRecording k es q r
      → IsRecording k es q (check_step p r)
  unfolding check_step
  check_step-IsRecording draining es q r at h = h
  check_step-IsRecording (checking n) es q r at h =
      let bytes : given r.writer.file ≡ bytes_all es =
        subst (λ p. FileHolds p es r.writer.file) at h.bytes in
      let (ring, staged, ended) = finish_lem r.writer es h.staged bytes in
      elim (Bool-cases (n == 0 && r.stop)) [
        | inl last ↦ rw last (record {
          queue = subst (λ o. Holds k o q) (sym ring) h.queue;
          entries = h.entries;
          waiting = h.waiting;
          staged = staged;
          bytes = ended;
        })
        | inr more ↦ rw more (record {
          queue = h.queue;
          entries = h.entries;
          waiting = h.waiting;
          staged = h.staged;
          bytes = bytes;
        })
      ]
  check_step-IsRecording finished es q r at h = h

  step-IsRecording :
      (s : Step) (es q : List FdrEntry) (r : Recorder)
      → IsCall s
      → IsRecording k es q r
      → (es' q' : List FdrEntry) × (es' ++ q' ≡ (es ++ q) ++ stored_by s r)
        × IsRecording k es' q' (step s r)
  unfolding step stored_by try_record
  step-IsRecording (records kind bytes ts) es q r (genuine, small) h =
      let o = new kind bytes ts in
      let (held, entries) =
        record_entry_lem k o r.writer.ring q h.queue (new-OptionalEntry kind bytes ts genuine small)
          h.waiting in
      (
        es,
        q ++ logged o (record_entry o r.writer.ring).0,
        sym (append_assoc es q (logged o (record_entry o r.writer.ring).0)),
        record {
          queue = held;
          entries = h.entries;
          waiting = entries;
          staged = h.staged;
          bytes = h.bytes;
        },
      )
  step-IsRecording stops es q r c h = (
    es,
    q,
    sym (append-nil (es ++ q)),
    record {
      queue = h.queue;
      entries = h.entries;
      waiting = h.waiting;
      staged = h.staged;
      bytes = h.bytes;
    },
  )
  step-IsRecording drains es q r c h =
      let (es', q', same, h') = drain_step-IsRecording r.phase es q r refl h in
      (es', q', same ∙ sym (append-nil (es ++ q)), h')
  step-IsRecording checks es q r c h =
      (es, q, sym (append-nil (es ++ q)), check_step-IsRecording r.phase es q r refl h)

  run-IsRecording :
      (ss : List Step) (es q : List FdrEntry) (r : Recorder)
      → All IsCall ss
      → IsRecording k es q r
      → (es' q' : List FdrEntry) × (es' ++ q' ≡ (es ++ q) ++ stored_in ss r)
        × IsRecording k es' q' (run ss r)
  unfolding run stored_in
  run-IsRecording [] es q r cs h = (es, q, sym (append-nil (es ++ q)), h)
  run-IsRecording (s ∷ ss) es q r (c, cs) h =
      let (es', q', one, h') = step-IsRecording s es q r c h in
      let (es'', q'', rest, h'') = run-IsRecording ss es' q' (step s r) cs h' in
      (
        es'',
        q'',
        rest
            ∙ ap (λ l. l ++ stored_in ss (step s r)) one
            ∙ append_assoc (es ++ q) (stored_by s r) (stored_in ss (step s r)),
        h'',
      )

pub FileHolds-Stops :
    (p : Phase) (es : List FdrEntry) (f : DirectFile)
    → FileHolds p es f
    → (tail : List ℕ) × (given f ≡ bytes_all es ++ tail) × Stops tail
FileHolds-Stops draining es f h = ([], h ∙ sym (append-nil (bytes_all es)), inl (omega arith))
FileHolds-Stops (checking n) es f h = ([], h ∙ sym (append-nil (bytes_all es)), inl (omega arith))
FileHolds-Stops finished es f (pad, h, _) =
    (entry_bytes end_entry ++ replicate pad 0, h, inr (replicate pad 0, refl))

pub run_recorded :
    (n : ℕ) (ss : List Step)
    → n ≤ 2 ^ 63
    → All IsCall ss
    → (es q : List FdrEntry) × (es ++ q ≡ stored_in ss (open_recorder n))
      × IsRecording (log2_ceil (max n 1)) es q (run ss (open_recorder n))
unfolding open_recorder bytes_all
run_recorded n ss fits cs =
    let (queue, _, _) = with_capacity_lem {A = FdrEntry} n fits in
    run-IsRecording (log2_ceil (max n 1)) ss [] [] (open_recorder n) cs (record {
      queue = queue;
      entries = tt;
      waiting = tt;
      staged = record { sectors = refl; short = omega arith; count = refl };
      bytes = refl;
    })

-- At the end nothing is staged: all that the file was given is on the disk.
pub on_disk :
    (p : Phase) (es : List FdrEntry) (f : DirectFile)
    → p ≡ finished
    → FileHolds p es f
    → given f ≡ f.disk
on_disk draining es f e h = absurd (cc e)
on_disk (checking n) es f e h = absurd (cc e)
on_disk finished es f e (_, _, clean) = ap (λ l. f.disk ++ l) clean ∙ append-nil f.disk

-- However the control loop's calls fall between the steps of the storage thread, the entries on the
-- disk, behind them those in the file's staging buffer, and then those that wait in the ring, are the
-- records that the calls were told are stored: each once, unchanged and in order. Once the thread has
-- ended, the reader gets from the disk alone all but those that still wait in the ring. The recorder
-- is one that was opened with a capacity of at most 2 ^ 63; the calls are of records, with 64-bit
-- times.
pub run_lossless :
    (n : ℕ) (ss : List Step)
    → n ≤ 2 ^ 63
    → All IsCall ss
    → let r = run ss (open_recorder n) in
      (q : List FdrEntry) × Holds (log2_ceil (max n 1)) r.writer.ring q
      × (parse_entries (r.writer.file.disk ++ r.writer.file.staging) ++ q
          ≡ stored_in ss (open_recorder n))
      × (r.phase ≡ finished
          → parse_entries r.writer.file.disk ++ q ≡ stored_in ss (open_recorder n))
unfolding open_recorder bytes_all
run_lossless n ss fits cs =
    let k = log2_ceil (max n 1) in
    let r = run ss (open_recorder n) in
    let (es, q, split, h) = run_recorded n ss fits cs in
    let (tail, whole, ends) = FileHolds-Stops r.phase es _ h.bytes in
    let all =
      ap (λ l. parse_entries l ++ q) whole
      ∙ ap (λ l. l ++ q) (parse_entries-bytes_all es tail h.entries ends)
      ∙ split in
    (
      q,
      h.queue,
      all,
      λ e. ap (λ l. parse_entries l ++ q) (sym (on_disk r.phase es r.writer.file e h.bytes)) ∙ all,
    )
