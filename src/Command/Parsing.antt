-- ===== src/Command/Parsing.antt =====
-- Exactly which messages are commands, for lib/energy_core/src/remote_command.cpp.
use mathlib.Core.Bool.{false≢true}
use mathlib.Core.Option.{some}
use esp32_real_time_energy_c.Base.{
  subst, ℕ, ◌≤◌, ◌<◌, ◌≡◌, ◌≢◌, ◌⊎◌, ◌↔◌, inl, inr, refl, sym, ◌∙◌, true, List, arith, length, take,
  take-all, Bool-cases,
}
use esp32_real_time_energy_c.Base.Words.{add32, sub32-add32, word}
use esp32_real_time_energy_c.Base.Text.{codes, same_bytes, same_bytes_refl, same_bytes→eq}
use esp32_real_time_energy_c.Command.Types.{RemoteCommandType, reset, ack, accepted}
use esp32_real_time_energy_c.Command.{
  verdict, payload_equals, parse_remote_command, check_payload, command_in_holdoff,
}

payload_equals→eq :
    (payload expected : List ℕ)
    → payload_equals (some payload) (length payload) expected ≡ true
    → payload ≡ expected
unfolding payload_equals
payload_equals→eq payload expected h =
    let sizes : length payload ≡ length expected = ground arith in
    let same : same_bytes (take (length expected) payload) expected ≡ true = ground arith in
    sym (take-all (length expected) payload sizes) ∙ same_bytes→eq _ _ same

payload_equals_refl :
    (expected : List ℕ) → payload_equals (some expected) (length expected) expected ≡ true
unfolding payload_equals
payload_equals_refl expected =
    ground (arith, take-all (length expected) expected refl, same_bytes_refl expected)

payload_equals_iff :
    (payload expected : List ℕ)
    → (payload_equals (some payload) (length payload) expected ≡ true) ↔ (payload ≡ expected)
payload_equals_iff payload expected =
    (payload_equals→eq payload expected, λ e. rw e (payload_equals_refl expected))

same_bytes_iff : (a b : List ℕ) → (same_bytes a b ≡ true) ↔ (a ≡ b)
same_bytes_iff a b = (same_bytes→eq a b, λ e. rw e (same_bytes_refl b))

-- A payload is accepted exactly if it is the expected word, and only an accepted one has a command.
check_payload_lem :
    (type : RemoteCommandType) (expected payload : List ℕ)
    → length expected ≤ 16
    → let r = check_payload type expected (some payload) (length payload) in
      ((payload ≡ expected) × (r ≡ verdict accepted type))
      ⊎ ((payload ≢ expected) × (r.verdict ≢ accepted) × (r.type ≡ RemoteCommandType.none))
unfolding check_payload
check_payload_lem type expected payload short =
    elim (Bool-cases (payload_equals (some payload) (length payload) expected)) [
      | inl same ↦
          let e = payload_equals→eq payload expected same in
          let size : length payload ≤ 16 = subst (λ xs. length xs ≤ 16) (sym e) short in
          inl (e, ground arith)
      | inr other ↦ inr (
        λ e. false≢true (sym other ∙ (payload_equals_iff payload expected).1 e),
        ground arith,
        ground arith,
      )
    ]

-- What a message asks for, by the protocol.
abbrev pub Asks : RemoteCommandType → List ℕ → List ℕ → List ℕ → List ℕ → Type 0
Asks RemoteCommandType.none topic payload reset_topic ack_topic = ⊥
Asks reset topic payload reset_topic ack_topic = (topic ≡ reset_topic) × (payload ≡ codes "reset")
Asks ack topic payload reset_topic ack_topic = (topic ≡ ack_topic) × (payload ≡ codes "ack")

-- On different command topics, a message is accepted exactly if it is byte for byte `reset` on the
-- reset topic or `ack` on the acknowledge topic, and then as just that command; every other message,
-- of any length, is rejected with no command.
pub parse_remote_command-accepts :
    (topic payload reset_topic ack_topic : List ℕ) (type : RemoteCommandType)
    → reset_topic ≢ ack_topic
    → let result =
        parse_remote_command (some topic) (some payload) (length payload) reset_topic ack_topic in
      ((result.verdict ≡ accepted) × (result.type ≡ type)
        ↔ Asks type topic payload reset_topic ack_topic)
      × (result.verdict ≢ accepted → result.type ≡ RemoteCommandType.none)
unfolding parse_remote_command
parse_remote_command-accepts topic payload reset_topic ack_topic type d = ground (
  arith,
  same_bytes_iff topic reset_topic,
  same_bytes_iff topic ack_topic,
  check_payload_lem reset (codes "reset") payload (omega arith),
  check_payload_lem ack (codes "ack") payload (omega arith),
)

-- A command is dropped exactly during the hold-off after the subscription: `d` milliseconds after it,
-- if and only if `d` is below the hold-off, also where the clock wraps in between.
pub command_in_holdoff_iff :
    (subscribed_at_ms d holdoff_ms : ℕ)
    → subscribed_at_ms < word
    → d < word
    → (command_in_holdoff (add32 subscribed_at_ms d) subscribed_at_ms holdoff_ms ≡ true)
      ↔ (d < holdoff_ms)
unfolding command_in_holdoff
command_in_holdoff_iff s d holdoff_ms hs hd = ground (arith, sub32-add32 s d hs hd)
