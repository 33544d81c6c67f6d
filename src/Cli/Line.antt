-- ===== src/Cli/Line.antt =====
-- The line editor of `cliTask` in src/main.cpp as a text that is edited at its end.
use mathlib.Core.Option.{Option, none, some}
use esp32_real_time_energy_c.Base.{
  ℕ, suc, ◌+◌, ◌-◌, ◌<◌, ◌≡◌, refl, sym, ap, ◌∙◌, subst, Bool, true, false, not, ◌&&◌, List, [],
  ◌∷◌, ◌++◌, arith, length, length-set, take, set, All-append, ltb, ◌==◌, if◌then◌else◌, Bool-cases,
  inl, inr,
}
use esp32_real_time_energy_c.Cli.{
  CliState, Outcome, too_long, cli_buffer_size, initial_cli, is_newline, is_backspace,
  is_unprintable, parsed_line, finish_line, press, with_outcome, read_bytes,
}
use esp32_real_time_energy_c.Cli.Buffer.{
  drop_last, IsText, take-set, take-drop_last, c_string-set, length-take, drop_last-IsText,
}

-- The text so far, and whether a byte was refused for want of room.
pub record Line : Type 0 where
  pub text : List ℕ
  pub spoiled : Bool

abbrev pub empty_line : Line
empty_line = record { text = []; spoiled = false }

abbrev pub is_empty : List ℕ → Bool
is_empty [] = true
is_empty (c ∷ s) = false

unfoldable pub end_line : Line → Line × Option Outcome
end_line l =
    if is_empty l.text && not l.spoiled
    then (l, none)
    else (empty_line, some (if l.spoiled then too_long else parsed_line l.text))

-- The longest line has one byte less than the buffer.
unfoldable pub edit : Line → ℕ → Line × Option Outcome
unfolding end_line
edit l c =
    if is_newline c
    then end_line l
    else if is_backspace c
    then (record l { text = drop_last l.text }, none)
    else if is_unprintable c
    then (l, none)
    else if ltb (length l.text) 39
    then (record l { text = l.text ++ (c ∷ []) }, none)
    else (record l { spoiled = true }, none)

unfoldable pub edit_all : Line → List ℕ → List Outcome
unfolding edit
edit_all l [] = []
edit_all l (c ∷ cs) = with_outcome (edit l c).1 (edit_all (edit l c).0 cs)

-- The state stands for its line: the index is inside the buffer, and no byte before it is a NUL.
pub record IsLine (s : CliState) (l : Line) : Type 0 where
  pub size : length s.buffer ≡ cli_buffer_size
  pub room : s.index < cli_buffer_size
  pub line : take s.index s.buffer ≡ l.text
  pub printable : IsText l.text
  pub overflow : s.overflow ≡ l.spoiled

initial-IsLine : IsLine initial_cli empty_line
initial-IsLine = record {
  size = refl;
  room = omega arith;
  line = refl;
  printable = tt;
  overflow = refl;
}

-- A byte does the same to a state and to its line.
Agrees : CliState × Option Outcome → Line × Option Outcome → Type 0
Agrees (s, o) (l, p) = IsLine s l × (o ≡ p)

length-line : (s : CliState) (l : Line) → IsLine s l → length l.text ≡ s.index
length-line s l h =
    ap length (sym h.line) ∙ length-take s.buffer s.index (omega (arith, h.size, h.room))

is_empty-length : (s : List ℕ) → is_empty s ≡ (length s == 0)
is_empty-length [] = refl
is_empty-length (c ∷ s) = ground arith

finish-Agrees : (s : CliState) (l : Line) → IsLine s l → Agrees (finish_line s) (end_line l)
unfolding finish_line end_line Agrees
finish-Agrees s l h =
    let inside : s.index < length s.buffer = omega (arith, h.size, h.room) in
    let text =
      c_string-set s.buffer s.index inside (subst IsText (sym h.line) h.printable) ∙ h.line in
    let same = is_empty-length l.text ∙ ap (λ k. k == 0) (length-line s l h) in
    let sized = length-set s.buffer s.index 0 ∙ h.size in ground (arith, h, text, same, sized)

append-Agrees :
    (s : CliState) (l : Line) (c : ℕ)
    → s.index < 39
    → 0 < c
    → IsLine s l
    → IsLine
        (record s { buffer = set s.buffer s.index c; index = s.index + 1 })
        (record l { text = l.text ++ (c ∷ []) })
append-Agrees s l c r p h = record {
  size = length-set s.buffer s.index c ∙ h.size;
  room = omega arith;
  line =
      ap (λ k. take k (set s.buffer s.index c)) {y = suc s.index} (omega arith)
      ∙ take-set s.buffer s.index c (omega (arith, h.size))
      ∙ ap (λ xs. xs ++ (c ∷ [])) h.line;
  printable = All-append _ l.text (c ∷ []) h.printable (p, tt);
  overflow = h.overflow;
}

back-Agrees :
    (s : CliState) (l : Line)
    → IsLine s l
    → IsLine
        (if ltb 0 s.index then record s { index = s.index - 1 } else s)
        (record l { text = drop_last l.text })
back-Agrees s l h = elim (Bool-cases (ltb 0 s.index)) [
  | inl b ↦
      let e : suc (s.index - 1) ≡ s.index = ground arith in
      let shorter = take-drop_last s.buffer (s.index - 1) (omega (arith, h.size, h.room, e)) in
      rw b (record {
        size = h.size;
        room = omega (arith, h.room);
        line = sym shorter ∙ ap drop_last (ap (λ k. take k s.buffer) e ∙ h.line);
        printable = drop_last-IsText l.text h.printable;
        overflow = h.overflow;
      })
  | inr b ↦
      let e : s.index ≡ 0 = ground arith in
      let nil : [] ≡ l.text = sym (ap (λ k. take k s.buffer) e) ∙ h.line in
      rw b (record {
        size = h.size;
        room = h.room;
        line = h.line ∙ subst (λ t. t ≡ drop_last t) nil refl;
        printable = drop_last-IsText l.text h.printable;
        overflow = h.overflow;
      })
]

press-Agrees : (s : CliState) (l : Line) (c : ℕ) → IsLine s l → Agrees (press s c) (edit l c)
unfolding press edit Agrees
press-Agrees s l c h = elim (Bool-cases (is_newline c)) [
  | inl n ↦ rw n (finish-Agrees s l h)
  | inr n ↦ elim (Bool-cases (is_backspace c)) [
    | inl b ↦ rw (n, b) (back-Agrees s l h, refl)
    | inr b ↦ elim (Bool-cases (is_unprintable c)) [
      | inl u ↦ rw (n, b, u) (h, refl)
      | inr u ↦ elim (Bool-cases (ltb s.index 39)) [
        | inl r ↦
            let sized = length-line s l h in
            rw (n, b, u, sized, r) (append-Agrees s l c (ground arith) (ground arith) h, refl)
        | inr r ↦
            let sized = length-line s l h in
            rw (n, b, u, sized, r)
              (
                record {
                  size = h.size;
                  room = h.room;
                  line = h.line;
                  printable = h.printable;
                  overflow = refl;
                },
                refl,
              )
      ]
    ]
  ]
]

read_bytes-line :
    (s : CliState) (l : Line) (cs : List ℕ) → IsLine s l → read_bytes s cs ≡ edit_all l cs
unfolding read_bytes edit_all Agrees
read_bytes-line s l [] h = refl
read_bytes-line s l (c ∷ cs) h =
    let (next, same) = press-Agrees s l c h in
    let rest = read_bytes-line (press s c).0 (edit l c).0 cs next in rw (same, rest)

-- Whatever bytes come in, the array, the index and the flag of the code give the same commands and
-- messages, in the same order, as a text of at most 39 bytes that is edited at its end.
pub read_bytes-edits : (cs : List ℕ) → read_bytes initial_cli cs ≡ edit_all empty_line cs
read_bytes-edits cs = read_bytes-line initial_cli empty_line cs initial-IsLine
