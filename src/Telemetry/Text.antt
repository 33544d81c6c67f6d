-- ===== src/Telemetry/Text.antt =====
-- What the bounded writer of lib/energy_core/src/telemetry_json.cpp leaves in the buffer.
use mathlib.Core.Bool.{true≢false}
use mathlib.Core.List.{append_assoc, append-nil}
use esp32_real_time_energy_c.Base.{
  ℕ, ◌+◌, ◌≤◌, ◌<◌, ◌≡◌, ◌⊎◌, inl, inr, sym, ap, ◌∙◌, true, false, ◌||◌, List, [], ◌∷◌, ◌++◌, ltb,
  ◌==◌, if◌then◌else◌, length, length-append, arith, Bool-cases,
}
use esp32_real_time_energy_c.Telemetry.{Writer, raw, ch, control_escape, str_byte, str_bytes, str}

-- There is room for the final NUL.
abbrev pub IsOpen : Writer → Type 0
IsOpen w = w.ok ≡ true → w.len < w.size

abbrev pub appended : List ℕ → Writer → Writer
appended s w = record w { buf = w.buf ++ s; len = w.len + length s }

-- The writer appends `s` while everything fits, and fails otherwise.
abbrev pub Appends : List ℕ → Writer → Writer → Type 0
Appends s w v =
    ((w.ok ≡ true) × (w.len + length s < w.size) × (v ≡ appended s w))
    ⊎ (((w.ok ≡ false) ⊎ (w.size ≤ w.len + length s)) × (v.ok ≡ false))

-- `f` writes `s` to any writer.
abbrev pub Emits : (Writer → Writer) → List ℕ → Type 0
Emits f s = (w : Writer) → IsOpen w → Appends s w (f w)

pub raw-Emits : (s : List ℕ) → Emits (raw s) s
unfolding raw
raw-Emits s w o = ground arith

pub nothing-Emits : Emits (λ w. w) []
nothing-Emits w o = elim (Bool-cases w.ok) [
  | inl e ↦
      inl (e, ground arith, let sum : w.len + 0 ≡ w.len = omega arith in rw (sum, append-nil w.buf))
  | inr e ↦ inr (inl e, e)
]

appended_twice : (s t : List ℕ) (w : Writer) → appended t (appended s w) ≡ appended (s ++ t) w
appended_twice s t w =
    let sum : w.len + length s + length t ≡ w.len + length (s ++ t) =
      omega (arith, length-append s t) in
    rw (sum, append_assoc w.buf s t)

-- One text after another.
pub then-Emits :
    (f g : Writer → Writer) (s t : List ℕ) → Emits f s → Emits g t → Emits (λ w. g (f w)) (s ++ t)
then-Emits f g s t hf hg w o = elim (hf w o) [
  | inl (ok, room, e) ↦
      let len : (f w).len ≡ w.len + length s = ap (λ v. v.len) e in
      let size : (f w).size ≡ w.size = ap (λ v. v.size) e in
      let sum = length-append s t in
      elim (hg (f w) (λ _. omega (arith, len, size))) [
        | inl (_, room', e') ↦
            inl (ok, omega (arith, len, size, sum), e' ∙ ap (appended t) e ∙ appended_twice s t w)
        | inr (inl shut, bad) ↦ absurd (true≢false (sym ok ∙ sym (ap (λ v. v.ok) e) ∙ shut))
        | inr (inr full, bad) ↦ inr (inr (omega (arith, len, size, sum)), bad)
      ]
  | inr (why, bad) ↦ elim (hg (f w) (λ ok. absurd (true≢false (sym ok ∙ bad)))) [
    | inl (ok, _, _) ↦ absurd (true≢false (sym ok ∙ bad))
    | inr (_, bad') ↦ inr (longer why, bad')
  ]
]
  where
    longer :
        (w.ok ≡ false) ⊎ (w.size ≤ w.len + length s)
        → (w.ok ≡ false) ⊎ (w.size ≤ w.len + length (s ++ t))
    longer (inl shut) = inl shut
    longer (inr full) = inr (omega (arith, length-append s t))

pub ch-Emits : (c : ℕ) → Emits (ch c) (c ∷ [])
unfolding ch
ch-Emits c = raw-Emits (c ∷ [])

-- The JSON text, without a buffer.
abbrev pub escaped_byte : ℕ → List ℕ
escaped_byte c =
    if c == b'"' || c == b'\\'
    then b'\\' ∷ c ∷ []
    else if ltb c 32
    then control_escape c
    else c ∷ []

abbrev pub escaped : List ℕ → List ℕ
escaped [] = []
escaped (c ∷ s) = escaped_byte c ++ escaped s

abbrev pub quoted : List ℕ → List ℕ
quoted s = (b'"' ∷ []) ++ (escaped s ++ (b'"' ∷ []))

str_byte-Emits : (c : ℕ) → Emits (str_byte c) (escaped_byte c)
unfolding str_byte
str_byte-Emits c = elim (Bool-cases (c == b'"' || c == b'\\')) [
  | inl e ↦ rw e (then-Emits (ch b'\\') (ch c) _ _ (ch-Emits b'\\') (ch-Emits c))
  | inr e ↦ elim (Bool-cases (ltb c 32)) [
    | inl l ↦ rw (e, l) (raw-Emits (control_escape c))
    | inr l ↦ rw (e, l) (ch-Emits c)
  ]
]

str_bytes-Emits : (s : List ℕ) → Emits (str_bytes s) (escaped s)
unfolding str_bytes
str_bytes-Emits [] = nothing-Emits
str_bytes-Emits (c ∷ s) =
    then-Emits (str_byte c) (str_bytes s) _ _ (str_byte-Emits c) (str_bytes-Emits s)

pub str-Emits : (s : List ℕ) → Emits (str s) (quoted s)
unfolding str
str-Emits s =
    then-Emits (ch b'"') (λ w. ch b'"' (str_bytes s w)) _ _ (ch-Emits b'"')
      (then-Emits (str_bytes s) (ch b'"') _ _ (str_bytes-Emits s) (ch-Emits b'"'))
