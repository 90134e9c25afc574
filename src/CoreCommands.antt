-- ===== src/CoreCommands.antt =====
-- packages/core/src/state/core-commands.ts: the commands that the engine registers itself. What zod
-- says of a payload that a schema refuses is the parameter `flatten`.
pub mod Apply
pub mod Revision
mod Tests
use rpenginext.Common.{
  ℕ, ◌+◌, ◌≡◌, refl, Bool, true, false, not, ◌&&◌, ◌||◌, Option, none, some, List, [], ◌∷◌, String,
  ◌==◌, all, contains, if◌then◌else◌,
}
use rpenginext.Contracts.{
  JsonValue, null, bool, num, str, JsonObject, get_field, put_field, remove_field, object_keys,
  js_string, Result, ok, WorldState, CoreStateSlice, StateCommand, CommandDefinition, Parsed,
  success, issues,
}

-- `z.string().min(1)`
abbrev pub is_text : Option JsonValue → Bool
is_text (some (str s)) = not (s == "")
is_text _ = false

-- `z.union([z.boolean(), z.string(), z.number().finite()])`
abbrev pub is_scalar : Option JsonValue → Bool
is_scalar (some (bool b)) = true
is_scalar (some (str s)) = true
is_scalar (some (num n)) = true
is_scalar _ = false

abbrev is_text_or_null : Option JsonValue → Bool
is_text_or_null (some null) = true
is_text_or_null v = is_text v

abbrev is_text_or_missing : Option JsonValue → Bool
is_text_or_missing none = true
is_text_or_missing v = is_text v

-- `.strict()`: no other key.
abbrev is_strict : List String → JsonObject → Bool
is_strict allowed p = all (λ k. contains k allowed) (object_keys p)

unfoldable pub is_set_flag_payload : JsonObject → Bool
is_set_flag_payload p =
    is_strict ("key" ∷ "value" ∷ []) p
    && (is_text (get_field "key" p) && is_scalar (get_field "value" p))

unfoldable pub is_clear_flag_payload : JsonObject → Bool
is_clear_flag_payload p = is_strict ("key" ∷ []) p && is_text (get_field "key" p)

unfoldable pub is_set_clock_payload : JsonObject → Bool
is_set_clock_payload p = is_strict ("clock" ∷ []) p && is_text (get_field "clock" p)

unfoldable pub is_set_passage_cursor_payload : JsonObject → Bool
is_set_passage_cursor_payload p =
    is_strict ("cursor" ∷ []) p && is_text_or_null (get_field "cursor" p)

unfoldable pub is_bump_turn_payload : JsonObject → Bool
is_bump_turn_payload p = is_text_or_missing (get_field "turnId" p)

-- `String(payload[k])`
abbrev pub text_of : Option JsonValue → String
text_of none = "undefined"
text_of (some v) = js_string v

-- A flag's value is a cast in the source; a payload that has none is refused before.
abbrev pub value_of : Option JsonValue → JsonValue
value_of none = null
value_of (some v) = v

-- `withCore` with no patch of the meta data.
abbrev pub with_core : WorldState → CoreStateSlice → WorldState
with_core s core = record s { meta = record (s.meta) { revision = core.revision }; core = core }

abbrev turn_of : Option JsonValue → Option String → Option String
turn_of (some (str t)) old = some t
turn_of _ old = old

unfoldable pub apply_bump_turn : WorldState → StateCommand → Result WorldState
apply_bump_turn s c =
    let next = s.core.revision + 1 in
    ok (record s {
      meta = record (s.meta) {
        revision = next;
        updated_at_turn_id = turn_of (get_field "turnId" c.payload) s.meta.updated_at_turn_id;
      };
      core = record (s.core) { turn_index = s.core.turn_index + 1; revision = next };
    })

unfoldable pub apply_set_flag : WorldState → StateCommand → Result WorldState
apply_set_flag s c =
    let key = text_of (get_field "key" c.payload) in
    let value = value_of (get_field "value" c.payload) in
    ok (with_core s (record (s.core) { flags = put_field key value s.core.flags }))

unfoldable pub apply_clear_flag : WorldState → StateCommand → Result WorldState
apply_clear_flag s c =
    let key = text_of (get_field "key" c.payload) in
    ok (with_core s (record (s.core) { flags = remove_field key s.core.flags }))

unfoldable pub apply_set_clock : WorldState → StateCommand → Result WorldState
apply_set_clock s c =
    ok (with_core s (record (s.core) { clock = text_of (get_field "clock" c.payload) }))

abbrev cursor_of : Option JsonValue → Option String
cursor_of none = none
cursor_of (some null) = none
cursor_of (some v) = some (js_string v)

unfoldable pub apply_set_passage_cursor : WorldState → StateCommand → Result WorldState
apply_set_passage_cursor s c =
    ok (with_core s (record (s.core) { passage_cursor = cursor_of (get_field "cursor" c.payload) }))

-- `safeParse` of a schema whose output is its input.
abbrev pub parse_by :
    (JsonObject → JsonValue) → (JsonObject → Bool) → JsonObject → Parsed JsonObject
parse_by flatten accepts p = if accepts p then success p else issues (flatten p)

module _ (flatten : JsonObject → JsonValue) where
  abbrev core_definition :
      String
      → (JsonObject → Bool)
      → (WorldState → StateCommand → Result WorldState)
      → CommandDefinition
  core_definition type accepts apply = record {
    type = type;
    slice = "core";
    safe_parse = parse_by flatten accepts;
    apply = apply;
    validate = none;
  }

  unfoldable pub create_core_command_definitions : List CommandDefinition
  create_core_command_definitions =
      core_definition "core.bumpTurn" is_bump_turn_payload apply_bump_turn
      ∷ core_definition "core.setFlag" is_set_flag_payload apply_set_flag
      ∷ core_definition "core.clearFlag" is_clear_flag_payload apply_clear_flag
      ∷ core_definition "core.setClock" is_set_clock_payload apply_set_clock
      ∷ core_definition "core.setPassageCursor" is_set_passage_cursor_payload
          apply_set_passage_cursor
      ∷ []
