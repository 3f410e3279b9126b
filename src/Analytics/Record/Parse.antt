-- ===== src/Analytics/Record/Parse.antt =====
-- The reader of crates/tpt-t-analytics/src/record.rs against what the writer wrote.
use tpt_teleop.Prelude.{
  ℕ, zero, suc, ◌<◌, ◌^◌, ◌≡◌, ◌⊎◌, inl, inr, refl, ◌∙◌, ap, arith, true, false, some, List, [],
  ◌∷◌, ◌++◌, append_assoc, All, length, length-append, length-replicate, take_all, replicate, ltb,
  if◌then◌else◌,
}
use tpt_teleop.Prelude.Bytes.{
  to_le_bytes, field, from_le_bytes-to_le_bytes, take-append, drop-append,
}
use tpt_teleop.Analytics.Record.{
  end, FdrEntry, new, kind_of, entry_size, entry_bytes, from_bytes, is_end, parse_rounds,
  parse_entries, max_payload,
}

-- An entry whose fields are words of their widths, and that is no end marker.
pub record IsEntry (e : FdrEntry) : Type 0 where
  pub timestamp_ns : e.timestamp_ns < 256 ^ 8
  pub payload_len : e.payload_len < 256 ^ 2
  pub kind : e.kind < 256
  pub pad : e.pad < 256
  pub reserved : e.reserved < 256 ^ 4
  pub payload_array : length e.payload_array ≡ max_payload
  pub going : is_end (kind_of e) ≡ false

-- `from_bytes` of the right number of bytes, word for word.
record HasWidths (e : FdrEntry) : Type 0 where
  pub timestamp_ns : e.timestamp_ns < 256 ^ 8
  pub payload_len : e.payload_len < 256 ^ 2
  pub kind : e.kind < 256 ^ 1
  pub pad : e.pad < 256 ^ 1
  pub reserved : e.reserved < 256 ^ 4
  pub payload_array : length e.payload_array ≡ max_payload

length-entry_bytes :
    (e : FdrEntry) → length e.payload_array ≡ max_payload → length (entry_bytes e) ≡ entry_size
unfolding entry_bytes to_le_bytes
length-entry_bytes e h = omega (arith, h)

from_bytes-entry_bytes : (e : FdrEntry) → HasWidths e → from_bytes (entry_bytes e) ≡ e
unfolding from_bytes entry_bytes field to_le_bytes
from_bytes-entry_bytes e w = λ i. record {
  timestamp_ns = from_le_bytes-to_le_bytes 8 e.timestamp_ns w.timestamp_ns i;
  payload_len = from_le_bytes-to_le_bytes 2 e.payload_len w.payload_len i;
  kind = from_le_bytes-to_le_bytes 1 e.kind w.kind i;
  pad = from_le_bytes-to_le_bytes 1 e.pad w.pad i;
  reserved = from_le_bytes-to_le_bytes 4 e.reserved w.reserved i;
  payload_array = take_all max_payload e.payload_array (omega (arith, w.payload_array)) i;
}

widths : (e : FdrEntry) → IsEntry e → HasWidths e
widths e h = record {
  timestamp_ns = h.timestamp_ns;
  payload_len = h.payload_len;
  kind = omega (arith, h.kind);
  pad = omega (arith, h.pad);
  reserved = h.reserved;
  payload_array = h.payload_array;
}

-- The marker that `run` ends the file with.
abbrev pub end_entry : FdrEntry
end_entry = record {
  timestamp_ns = 0;
  payload_len = 0;
  kind = 255;
  pad = 0;
  reserved = 0;
  payload_array = replicate max_payload 0;
}

pub new-end : new end [] 0 ≡ some end_entry
unfolding new
new-end = refl

end_kind : is_end (kind_of end_entry) ≡ true
unfolding kind_of
end_kind = refl

end_widths : HasWidths end_entry
end_widths = record {
  timestamp_ns = omega arith;
  payload_len = omega arith;
  kind = omega arith;
  pad = omega arith;
  reserved = omega arith;
  payload_array = length-replicate {A = ℕ} max_payload 0;
}

-- The bytes of entries one after another.
unfoldable pub bytes_all : List FdrEntry → List ℕ
bytes_all [] = []
bytes_all (e ∷ es) = entry_bytes e ++ bytes_all es

-- The reader ends at this: it is shorter than an entry, or starts with the end marker.
abbrev pub Stops : List ℕ → Type 0
Stops tail = (length tail < entry_size) ⊎ ((rest : List ℕ) × (tail ≡ entry_bytes end_entry ++ rest))

-- One round at the bytes of an entry.
parse_round :
    (n : ℕ) (e : FdrEntry) (rest : List ℕ)
    → HasWidths e
    → parse_rounds (suc n) (entry_bytes e ++ rest)
      ≡ (if is_end (kind_of e) then [] else e ∷ parse_rounds n rest)
unfolding parse_rounds
parse_round n e rest w =
    let size = length-entry_bytes e w.payload_array in
    let long : ltb (length (entry_bytes e ++ rest)) entry_size ≡ false =
      ground (arith, size, length-append (entry_bytes e) rest) in
    rw
      (
        long,
        take-append entry_size (entry_bytes e) rest size,
        drop-append entry_size 0 (entry_bytes e) rest size,
        from_bytes-entry_bytes e w,
      )
      refl

parse-Stops : (n : ℕ) (tail : List ℕ) → Stops tail → parse_rounds (suc n) tail ≡ []
unfolding parse_rounds
parse-Stops n tail (inl short) =
    let t : ltb (length tail) entry_size ≡ true = ground (arith, short) in rw t refl
parse-Stops n tail (inr (rest, e)) =
    ap (parse_rounds (suc n)) e ∙ parse_round n end_entry rest end_widths ∙ rw end_kind refl

parse_rounds_lem :
    (n : ℕ) (es : List FdrEntry) (tail : List ℕ)
    → All IsEntry es
    → Stops tail
    → length (bytes_all es ++ tail) < n
    → parse_rounds n (bytes_all es ++ tail) ≡ es
unfolding bytes_all
parse_rounds_lem zero es tail hs stops h = absurd (omega (arith, h))
parse_rounds_lem (suc n) [] tail hs stops h = parse-Stops n tail stops
parse_rounds_lem (suc n) (e ∷ es) tail (w, hs) stops h =
    let split = append_assoc (entry_bytes e) (bytes_all es) tail in
    let size = length-entry_bytes e w.payload_array in
    let shorter : length (bytes_all es ++ tail) < n =
      omega
        (arith, h, size, ap length split, length-append (entry_bytes e) (bytes_all es ++ tail)) in
    ap (parse_rounds (suc n)) split
    ∙ parse_round n e (bytes_all es ++ tail) (widths e w)
    ∙ rw w.going (ap (λ l. e ∷ l) (parse_rounds_lem n es tail hs stops shorter))

-- The reader gets back the entries that were written, in order, from a file that goes on with the
-- end marker or breaks off in the middle of an entry.
pub parse_entries-bytes_all :
    (es : List FdrEntry) (tail : List ℕ)
    → All IsEntry es
    → Stops tail
    → parse_entries (bytes_all es ++ tail) ≡ es
unfolding parse_entries
parse_entries-bytes_all es tail hs stops =
    parse_rounds_lem (suc (length (bytes_all es ++ tail))) es tail hs stops (omega arith)
