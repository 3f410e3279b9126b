-- ===== src/Cloud/Json/Strings.antt =====
-- Strings of crates/tpt-t-cloud/src/json.rs, written and parsed.
use tpt_teleop.Prelude.{
  ℕ, zero, suc, ◌+◌, ◌*◌, ◌/◌, ◌%◌, ◌<◌, ◌≡◌, refl, ap, ◌∙◌, subst, arith, inl, inr, Bool, true,
  false, Bool-cases, some, List, [], ◌∷◌, ◌++◌, append_assoc, All, length, ltb, ltb→lt, ◌==◌,
  if◌then◌else◌,
}
use tpt_teleop.Cloud.Json.{utf8, hex_digit, u_escape, write_char, write_chars}
use tpt_teleop.Cloud.Json.Parse.{
  ok, ended, pushed, hex_value, hex_digits, from_hex, u_step, escape_step, string_step, string_loop,
  parse_string,
}

-- The UTF-8 bytes of a text.
unfoldable pub bytes_of : List ℕ → List ℕ
bytes_of [] = []
bytes_of (c ∷ s) = utf8 c ++ bytes_of s

-- The rounds of the loop over `b` push `s`, end the string and leave `rest`.
pub data ReadsString : List ℕ → List ℕ → List ℕ → Type 0 where
  stops : {b rest : List ℕ} → string_step b ≡ ended rest → ReadsString b [] rest
  takes :
      (c : ℕ) {b b1 s rest : List ℕ}
      → string_step b ≡ pushed c b1
      → length b1 < length b
      → ReadsString b1 s rest
      → ReadsString b (c ∷ s) rest

string_loop_lem :
    (fuel : ℕ) {b s rest : List ℕ}
    → ReadsString b s rest
    → length b < fuel
    → string_loop fuel b ≡ ok (s, rest)
unfolding string_loop
string_loop_lem zero r h = absurd (omega arith)
string_loop_lem (suc fuel) (stops e) h = rw (string_loop, e) refl
string_loop_lem (suc fuel) (takes c e shorter r) h =
    rw (string_loop, e, string_loop_lem fuel r (omega arith)) refl

-- A byte that is neither a quotation mark nor a backslash.
abbrev pub is_plain : ℕ → Bool
is_plain c = if c == b'"' then false else if c == b'\\' then false else true

abbrev pub Plain : List ℕ → Type 0
Plain bytes = All (λ c. is_plain c ≡ true) bytes

plain_step : (c : ℕ) (b : List ℕ) → is_plain c ≡ true → string_step (c ∷ b) ≡ pushed c b
unfolding string_step
plain_step c b h = ground (arith, h)

reads-Plain :
    (bytes : List ℕ) {b s rest : List ℕ}
    → Plain bytes
    → ReadsString b s rest
    → ReadsString (bytes ++ b) (bytes ++ s) rest
reads-Plain [] h r = r
reads-Plain (c ∷ bytes) {b} (here, h) r =
    takes c (plain_step c (bytes ++ b) here) (omega arith) (reads-Plain bytes h r)

utf8-Plain : (c : ℕ) → is_plain c ≡ true → Plain (utf8 c)
unfolding utf8
utf8-Plain c h = ground (arith, h)

hex_value-hex_digit : (d : ℕ) → d < 16 → hex_value (hex_digit d) ≡ some d
hex_value-hex_digit d h = ground arith

longer : (c : ℕ) (b : List ℕ) → length b < length (u_escape c ++ b)
unfolding u_escape
longer c b = omega arith

u_step_low :
    (x y p q : ℕ) (b : List ℕ)
    → hex_value x ≡ some p
    → hex_value y ≡ some q
    → p < 16
    → q < 16
    → u_step (b'0' ∷ b'0' ∷ x ∷ y ∷ b) ≡ pushed (p * 16 + q) b
unfolding u_step from_hex hex_digits
u_step_low x y p q b hx hy hp hq = ground (arith, hx, hy)

-- The escape of a control character is read as that character.
u_escape_step : (c : ℕ) (b : List ℕ) → c < 32 → string_step (u_escape c ++ b) ≡ pushed c b
unfolding string_step escape_step u_escape
u_escape_step c b h =
    let d1 : c / 4096 % 16 ≡ 0 = omega arith in
    let d2 : c / 256 % 16 ≡ 0 = omega arith in
    let p : ℕ = c / 16 % 16 in
    let q : ℕ = c % 16 in
    let code : p * 16 + q ≡ c = omega arith in
    let low =
      u_step_low (hex_digit p) (hex_digit q) p q b (hex_value-hex_digit p (omega arith))
        (hex_value-hex_digit q (omega arith)) (omega arith) (omega arith) in
    rw (d1, d2) (low ∙ ap (λ n. pushed n b) code)

reads_control :
    (c : ℕ) {b s rest : List ℕ}
    → c < 32
    → write_char c ≡ u_escape c
    → utf8 c ≡ c ∷ []
    → ReadsString b s rest
    → ReadsString (write_char c ++ b) (utf8 c ++ s) rest
reads_control c {b} h w e r = rw (w, e) (takes c (u_escape_step c b h) (longer c b) r)

reads_utf8 :
    (c : ℕ) {b s rest : List ℕ}
    → is_plain c ≡ true
    → write_char c ≡ utf8 c
    → ReadsString b s rest
    → ReadsString (write_char c ++ b) (utf8 c ++ s) rest
reads_utf8 c h w r = rw w (reads-Plain (utf8 c) (utf8-Plain c h) r)

-- To prove `P c`, treat `k` apart.
apart {ℓ} : (P : ℕ → Type ℓ) (k c : ℕ) → P k → (((c == k) ≡ false) → P c) → P c
apart P k c at other = elim (Bool-cases (c == k)) [
  | inl same ↦ subst P (ground (arith, same)) at
  | inr differs ↦ other differs
]

reads_char :
    (c : ℕ) {b s rest : List ℕ}
    → ReadsString b s rest
    → ReadsString (write_char c ++ b) (utf8 c ++ s) rest
unfolding write_char utf8 string_step escape_step
reads_char c {b} {s} {rest} r =
    let P : ℕ → Type 0 = λ c. ReadsString (write_char c ++ b) (utf8 c ++ s) rest in
    apart P b'"' c (takes b'"' refl (omega arith) r) λ n1.
      apart P b'\\' c (takes b'\\' refl (omega arith) r) λ n2.
        apart P 10 c (takes 10 refl (omega arith) r) λ n3.
          apart P 13 c (takes 13 refl (omega arith) r) λ n4.
            apart P 9 c (takes 9 refl (omega arith) r) λ n5.
              apart P 8 c (takes 8 refl (omega arith) r) λ n6.
                apart P 12 c (takes 12 refl (omega arith) r) λ n7. elim (Bool-cases (ltb c 32)) [
                  | inl low ↦
                      reads_control c (ltb→lt c 32 low)
                        (ground (arith, n1, n2, n3, n4, n5, n6, n7, low)) (ground (arith, low)) r
                  | inr high ↦
                      reads_utf8 c (ground (arith, n1, n2))
                        (ground (arith, n1, n2, n3, n4, n5, n6, n7, high)) r
                ]

reads_chars :
    (s : List ℕ) (rest : List ℕ) → ReadsString (write_chars s ++ b'"' ∷ rest) (bytes_of s) rest
unfolding write_chars string_step bytes_of
reads_chars [] rest = stops refl
reads_chars (c ∷ s) rest = rw append_assoc (reads_char c (reads_chars s rest))

-- A string that was written is read back, whatever follows it, as the bytes of its characters.
pub parse_string-write_chars :
    (s rest : List ℕ) → parse_string (write_chars s ++ b'"' ∷ rest) ≡ ok (bytes_of s, rest)
unfolding parse_string
parse_string-write_chars s rest =
    string_loop_lem (suc (length (write_chars s ++ b'"' ∷ rest))) (reads_chars s rest) (omega arith)

pub bytes_of_ascii : (s : List ℕ) → All (λ c. c < 0x80) s → bytes_of s ≡ s
unfolding bytes_of utf8
bytes_of_ascii [] h = refl
bytes_of_ascii (c ∷ s) (here, h) = ground (arith, bytes_of_ascii s h)
