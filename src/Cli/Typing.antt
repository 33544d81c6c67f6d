-- ===== src/Cli/Typing.antt =====
-- What an operator gets for a typed line, in `cliTask` of src/main.cpp.
use mathlib.Core.Option.{none, some}
use mathlib.Core.List.{append-nil, append_assoc}
use esp32_real_time_energy_c.Base.{
  ℕ, ◌+◌, ◌≤◌, ◌<◌, ◌≡◌, ◌≢◌, ◌⊎◌, inl, inr, refl, sym, ap, ◌∙◌, true, List, [], ◌∷◌, ◌++◌, arith,
  length, length-append, All, ltb, leb, if◌then◌else◌, Bool-cases,
}
use esp32_real_time_energy_c.Base.Text.{codes}
use esp32_real_time_energy_c.Controller.{Setup, App, request_command}
use esp32_real_time_energy_c.Controller.Commands.{
  CommandType, diagnostics_parse_command, diagnostics_parse_command_iff,
}
use esp32_real_time_energy_c.Cli.{
  too_long, parsed, parsed_line, initial_cli, read_bytes, carry_out_line,
}
use esp32_real_time_energy_c.Cli.Buffer.{drop_last}
use esp32_real_time_energy_c.Cli.Line.{Line, empty_line, edit, edit_all, end_line, read_bytes-edits}

-- A byte that shows on the line.
abbrev pub IsPrintable : ℕ → Type 0
IsPrintable c = (32 ≤ c) × (c ≤ 126)

abbrev extended : Line → List ℕ → Line
extended l s = record l { text = l.text ++ s }

edit_printable :
    (l : Line) (c : ℕ)
    → IsPrintable c
    → edit l c
      ≡ (if ltb (length l.text) 39 then extended l (c ∷ []) else record l { spoiled = true }, none)
unfolding edit
edit_printable l c h = ground arith

type_fits :
    (l : Line) (s rest : List ℕ)
    → All IsPrintable s
    → length l.text + length s ≤ 39
    → edit_all l (s ++ rest) ≡ edit_all (extended l s) rest
unfolding edit_all
type_fits l [] rest h r = rw append-nil
type_fits l (c ∷ s) rest (p, h) r =
    let one = length-append l.text (c ∷ []) in
    let room : ltb (length l.text) 39 ≡ true = ground arith in
    let tail = type_fits (extended l (c ∷ [])) s rest h (omega (arith, one)) in
    rw (edit_printable l c p, room, tail, append_assoc l.text (c ∷ []) s)

end_spoiled : (l : Line) → l.spoiled ≡ true → end_line l ≡ (empty_line, some too_long)
unfolding end_line
end_spoiled l h = ground arith

type_spoiled :
    (l : Line) (s rest : List ℕ)
    → All IsPrintable s
    → l.spoiled ≡ true
    → edit_all l (s ++ (13 ∷ rest)) ≡ too_long ∷ edit_all empty_line rest
unfolding edit_all edit
type_spoiled l [] rest h p = rw (end_spoiled l p)
type_spoiled l (c ∷ s) rest (q, h) p = elim (Bool-cases (ltb (length l.text) 39)) [
  | inl room ↦ rw (edit_printable l c q, room) (type_spoiled (extended l (c ∷ [])) s rest h p)
  | inr full ↦
      rw (edit_printable l c q, full) (type_spoiled (record l { spoiled = true }) s rest h refl)
]

type_over :
    (l : Line) (s rest : List ℕ)
    → All IsPrintable s
    → length l.text ≤ 39
    → 39 < length l.text + length s
    → edit_all l (s ++ (13 ∷ rest)) ≡ too_long ∷ edit_all empty_line rest
unfolding edit_all
type_over l [] rest h r o = absurd (omega arith)
type_over l (c ∷ s) rest (p, h) r o = elim (Bool-cases (ltb (length l.text) 39)) [
  | inl room ↦
      let one = length-append l.text (c ∷ []) in
      rw (edit_printable l c p, room)
        (type_over (extended l (c ∷ [])) s rest h (ground (arith, one)) (omega (arith, one)))
  | inr full ↦
      rw (edit_printable l c p, full) (type_spoiled (record l { spoiled = true }) s rest h refl)
]

type_line :
    (c : ℕ) (s rest : List ℕ)
    → All IsPrintable (c ∷ s)
    → edit_all empty_line ((c ∷ s) ++ (13 ∷ rest))
      ≡ (if leb (length (c ∷ s)) 39 then parsed_line (c ∷ s) else too_long)
        ∷ edit_all empty_line rest
unfolding edit edit_all end_line
type_line c s rest h = elim (Bool-cases (leb (length (c ∷ s)) 39)) [
  | inl short ↦ rw short (type_fits empty_line (c ∷ s) (13 ∷ rest) h (ground arith))
  | inr long ↦ rw long (type_over empty_line (c ∷ s) rest h (omega arith) (ground arith))
]

-- On an empty line, typing printable bytes, at least one, and Enter runs the command of exactly these
-- bytes if they are at most 39, and else gives the error alone; what comes after is read on an empty
-- line.
pub read_bytes-typed :
    (c : ℕ) (s rest : List ℕ)
    → All IsPrintable (c ∷ s)
    → read_bytes initial_cli ((c ∷ s) ++ (13 ∷ rest))
      ≡ (if leb (length (c ∷ s)) 39 then parsed_line (c ∷ s) else too_long)
        ∷ read_bytes initial_cli rest
read_bytes-typed c s rest h =
    read_bytes-edits ((c ∷ s) ++ (13 ∷ rest))
    ∙ type_line c s rest h
    ∙ ap (λ os. (if leb (length (c ∷ s)) 39 then parsed_line (c ∷ s) else too_long) ∷ os)
        (sym (read_bytes-edits rest))

drop_last-append : (s : List ℕ) (c : ℕ) → drop_last (s ++ (c ∷ [])) ≡ s
drop_last-append [] c = refl
drop_last-append (a ∷ []) c = refl
drop_last-append (a ∷ b ∷ s) c = ap (λ t. a ∷ t) (drop_last-append (b ∷ s) c)

edit_backspace :
    (l : Line) (rest : List ℕ)
    → edit_all l (8 ∷ rest) ≡ edit_all (record l { text = drop_last l.text }) rest
unfolding edit edit_all
edit_backspace l rest = refl

edit_undo :
    (l : Line) (rest : List ℕ) (c : ℕ)
    → IsPrintable c
    → length l.text < 39
    → edit_all l (c ∷ 8 ∷ rest) ≡ edit_all l rest
unfolding edit_all
edit_undo l rest c p r =
    let room : ltb (length l.text) 39 ≡ true = ground arith in
    rw (edit_printable l c p, room)
      (edit_backspace (extended l (c ∷ [])) rest
        ∙ ap (λ t. edit_all (record l { text = t }) rest) (drop_last-append l.text c))

-- While the line has room, a printable byte and a backspace after it are as if neither was typed.
pub read_bytes-backspace :
    (s rest : List ℕ) (c : ℕ)
    → All IsPrintable s
    → IsPrintable c
    → length s < 39
    → read_bytes initial_cli (s ++ (c ∷ 8 ∷ rest)) ≡ read_bytes initial_cli (s ++ rest)
read_bytes-backspace s rest c h p r =
    read_bytes-edits (s ++ (c ∷ 8 ∷ rest))
    ∙ type_fits empty_line s (c ∷ 8 ∷ rest) h (omega arith)
    ∙ edit_undo (extended empty_line s) rest c p r
    ∙ sym (type_fits empty_line s rest h (omega arith))
    ∙ sym (read_bytes-edits (s ++ rest))

reads_request :
    (s : List ℕ)
    → let type = diagnostics_parse_command s in
      ((s ≡ codes "reset") × (type ≡ CommandType.reset))
      ⊎ ((s ≡ codes "ack") × (type ≡ CommandType.ack))
      ⊎ ((s ≢ codes "reset")
          × (s ≢ codes "ack")
          × (type ≢ CommandType.reset)
          × (type ≢ CommandType.ack))
reads_request s = ground (
  arith,
  diagnostics_parse_command_iff s CommandType.reset (λ e. cc),
  diagnostics_parse_command_iff s CommandType.ack (λ e. cc),
)

carry_out_line-other {ℓ} :
    {F : Type ℓ}
    → (setup : Setup) (app : App F) (type : CommandType) (s : List ℕ) → type ≢ CommandType.reset
    → type ≢ CommandType.ack
    → carry_out_line setup app (parsed type s) ≡ app
unfolding carry_out_line
carry_out_line-other setup app type s p q = ground arith

-- A line asks ControlTask for a reset exactly if it is `reset`, byte for byte, for an acknowledgement
-- exactly if it is `ack`, and for nothing otherwise; it changes nothing but the command queue.
pub carry_out_line-posts {ℓ} :
    {F : Type ℓ}
    → (setup : Setup) (app : App F) (s : List ℕ)
    → let b = carry_out_line setup app (parsed_line s) in
      ((s ≡ codes "reset") × (b ≡ request_command setup app CommandType.reset))
      ⊎ ((s ≡ codes "ack") × (b ≡ request_command setup app CommandType.ack))
      ⊎ ((s ≢ codes "reset") × (s ≢ codes "ack") × (b ≡ app))
unfolding carry_out_line
carry_out_line-posts setup app s = elim (reads_request s) [
  | inl (e, p) ↦ inl (e, rw p)
  | inr (inl (e, p)) ↦ inr (inl (e, rw p))
  | inr (inr (no_reset, no_ack, p, q)) ↦
      inr (inr (no_reset, no_ack, carry_out_line-other setup app _ s p q))
]
