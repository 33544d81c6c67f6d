-- ===== src/Telemetry/RoundTrip.antt =====
-- A reader of JSON strings and decimal numbers gets back what lib/energy_core/src/telemetry_json.cpp
-- was given to write.
use mathlib.Core.Option.{Option, none, some}
use mathlib.Core.List.{append_assoc, append-nil}
use mathlib.Core.Bool.{true≢false}
use native.Mathlib.Nat.{pow-suc}
use esp32_real_time_energy_c.Base.{
  length, Bool, ℕ, zero, suc, ◌+◌, ◌-◌, ◌*◌, ◌/◌, ◌%◌, ◌^◌, ◌<◌, ◌≡◌, refl, ap, ◌∙◌, sym, true,
  ◌&&◌, ◌||◌, List, [], ◌∷◌, ◌++◌, ltb, leb, ◌==◌, if◌then◌else◌, arith, Bool-cases, inl, inr,
}
use esp32_real_time_energy_c.Telemetry.{Writer, str, u32_text, decimal}
use esp32_real_time_energy_c.Telemetry.Text.{escaped_byte, escaped, quoted, str-Emits}

-- Where a reader of a string is: between two characters, after a backslash, or in a hexadecimal
-- number with some digits to come and a value so far.
pub data Mode : Type 0 where
  plain slash : Mode
  hex : ℕ → ℕ → Mode

abbrev digit_value : ℕ → ℕ
digit_value c = if leb b'a' c then c - 87 else c - b'0'

abbrev is_digit : ℕ → Bool
is_digit c = (leb b'0' c && leb c b'9') || (leb b'a' c && leb c b'f')

-- Reads up to the closing quote, which is dropped; `none` if the text is no JSON string.
unfoldable pub read_string : List ℕ → Mode → List ℕ → Option (List ℕ × List ℕ)
read_string [] mode out = none
read_string (c ∷ s) plain out =
    let wait = read_string s slash out in
    let copy = read_string s plain (out ++ (c ∷ [])) in
    if c == b'"'
    then some (out, s)
    else if c == b'\\'
    then wait
    else if ltb c 32
    then none
    else copy
read_string (c ∷ s) slash out =
    let copy = read_string s plain (out ++ (c ∷ [])) in
    let number = read_string s (hex 4 0) out in
    if c == b'"' || c == b'\\' then copy else if c == b'u' then number else none
read_string (c ∷ s) (hex zero value) out = none
read_string (c ∷ s) (hex (suc left) value) out =
    let next = value * 16 + digit_value c in
    let done = read_string s plain (out ++ (next ∷ [])) in
    let more = read_string s (hex left next) out in
    if is_digit c then if left == 0 then done else more else none

read_string-byte :
    (c : ℕ) (rest out : List ℕ)
    → read_string (escaped_byte c ++ rest) plain out ≡ read_string rest plain (out ++ (c ∷ []))
unfolding read_string
read_string-byte c rest out = ground arith

read_string-escaped :
    (s rest out : List ℕ)
    → read_string (escaped s ++ (b'"' ∷ rest)) plain out ≡ some (out ++ s, rest)
unfolding read_string
read_string-escaped [] rest out = rw append-nil
read_string-escaped (c ∷ s) rest out =
    ap (λ t. read_string t plain out) (append_assoc (escaped_byte c) (escaped s) (b'"' ∷ rest))
    ∙ read_string-byte c (escaped s ++ (b'"' ∷ rest)) out
    ∙ read_string-escaped s rest (out ++ (c ∷ []))
    ∙ ap (λ t. some (t, rest)) (append_assoc out (c ∷ []) s)

-- The number that decimal digits stand for.
abbrev pub number_value : ℕ → List ℕ → ℕ
number_value value [] = value
number_value value (c ∷ s) = number_value (value * 10 + (c - b'0')) s

number_value-append :
    (value : ℕ) (s t : List ℕ) → number_value value (s ++ t) ≡ number_value (number_value value s) t
number_value-append value [] t = refl
number_value-append value (c ∷ s) t = number_value-append (value * 10 + (c - b'0')) s t

number_value-decimal : (fuel n : ℕ) → n < 10 ^ fuel → number_value 0 (decimal fuel n) ≡ n
unfolding decimal
number_value-decimal zero n h = omega arith
number_value-decimal (suc fuel) n h = elim (Bool-cases (ltb n 10)) [
  | inl small ↦ rw small (ground arith)
  | inr large ↦
      let smaller : n / 10 < 10 ^ fuel = omega (arith, pow-suc 10 fuel) in
      let rest = number_value-decimal fuel (n / 10) smaller in
      rw (large, number_value-append 0 (decimal fuel (n / 10)) ((n % 10 + b'0') ∷ []), rest)
        (omega arith)
]

pub read_string-quoted :
    (s rest : List ℕ) → read_string ((escaped s ++ (b'"' ∷ [])) ++ rest) plain [] ≡ some (s, rest)
read_string-quoted s rest =
    ap (λ t. read_string t plain []) (append_assoc (escaped s) (b'"' ∷ []) rest)
    ∙ read_string-escaped s rest []

-- Whatever bytes a string has, if the writer has room for it, what `Writer::str` adds to the buffer is
-- a quote and a text that, whatever is written behind it, reads as a JSON string of just these bytes,
-- and the reader stops right behind it.
pub str-reads :
    (s rest : List ℕ) (w : Writer)
    → w.ok ≡ true
    → w.len + length (quoted s) < w.size
    → (body : List ℕ) × ((str s w).ok ≡ true)
      × ((str s w).buf ≡ w.buf ++ (b'"' ∷ body))
      × (read_string (body ++ rest) plain [] ≡ some (s, rest))
str-reads s rest w fine room = elim (str-Emits s w (λ _. omega (arith, room))) [
  | inl (_, _, e) ↦ (
    escaped s ++ (b'"' ∷ []),
    ap (λ v. v.ok) e ∙ fine,
    ap (λ v. v.buf) e,
    read_string-quoted s rest,
  )
  | inr (inl shut, _) ↦ absurd (true≢false (sym fine ∙ shut))
  | inr (inr full, _) ↦ absurd (omega (arith, room, full))
]

-- The digits of a `uint32_t` stand for it.
number_value-u32_text : (n : ℕ) → n < 2 ^ 32 → number_value 0 (u32_text n) ≡ n
number_value-u32_text n h = number_value-decimal 10 n (omega arith)
