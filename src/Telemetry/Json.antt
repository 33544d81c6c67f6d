-- ===== src/Telemetry/Json.antt =====
-- A reader of flat JSON objects, such as lib/energy_core/src/telemetry_json.cpp writes.
use mathlib.Core.Option.{Option, none, some}
use esp32_real_time_energy_c.Base.{
  ℕ, zero, suc, Bool, ◌||◌, List, [], ◌∷◌, ◌==◌, if◌then◌else◌, length,
}
use esp32_real_time_energy_c.Telemetry.RoundTrip.{plain, read_string}

-- A value as the reader finds it: a string, or anything else as it is written.
pub data Json : Type 0 where
  json_string json_bare : List ℕ → Json

-- A key and its value.
abbrev pub Member : Type 0
Member = List ℕ × Json

abbrev pub is_stop : ℕ → Bool
is_stop c = c == b',' || c == b'}'

-- Reads up to a comma or a brace, which stays.
unfoldable pub read_bare : List ℕ → List ℕ × List ℕ
read_bare [] = ([], [])
read_bare (c ∷ s) = let (t, rest) = read_bare s in if is_stop c then ([], c ∷ s) else (c ∷ t, rest)

abbrev pub string_value : Option (List ℕ × List ℕ) → Option (Json × List ℕ)
string_value none = none
string_value (some (t, rest)) = some (json_string t, rest)

unfoldable pub read_value : List ℕ → Option (Json × List ℕ)
unfolding read_string read_bare
read_value [] = none
read_value (c ∷ s) =
    let (t, rest) = read_bare (c ∷ s) in
    if c == b'"' then string_value (read_string s plain []) else some (json_bare t, rest)

abbrev pub with_key : List ℕ → Option (Json × List ℕ) → Option (Member × List ℕ)
with_key k none = none
with_key k (some (v, rest)) = some ((k, v), rest)

abbrev pub after_key : Option (List ℕ × List ℕ) → Option (Member × List ℕ)
after_key none = none
after_key (some (k, [])) = none
after_key (some (k, c ∷ s)) = if c == b':' then with_key k (read_value s) else none

unfoldable pub read_member : List ℕ → Option (Member × List ℕ)
unfolding read_string read_value
read_member [] = none
read_member (c ∷ s) = if c == b'"' then after_key (read_string s plain []) else none

abbrev pub one_more : Member → Option (List Member) → Option (List Member)
one_more m none = none
one_more m (some ms) = some (m ∷ ms)

-- Nothing comes behind the closing brace.
abbrev pub the_last : Member → List ℕ → Option (List Member)
the_last m [] = some (m ∷ [])
the_last m (c ∷ s) = none

abbrev pub after_member :
    (List ℕ → Option (List Member)) → Option (Member × List ℕ) → Option (List Member)
after_member more none = none
after_member more (some (m, [])) = none
after_member more (some (m, c ∷ s)) =
    if c == b',' then one_more m (more s) else if c == b'}' then the_last m s else none

-- At most as many members as the fuel.
unfoldable pub read_members : ℕ → List ℕ → Option (List Member)
unfolding read_member
read_members zero s = none
read_members (suc fuel) s = after_member (read_members fuel) (read_member s)

-- A JSON object of strings and bare values; its length is enough fuel.
unfoldable pub read_object : List ℕ → Option (List Member)
unfolding read_members
read_object [] = none
read_object (c ∷ s) = if c == b'{' then read_members (length s) s else none
