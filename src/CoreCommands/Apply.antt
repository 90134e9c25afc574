-- ===== src/CoreCommands/Apply.antt =====
-- What each of the engine's commands changes (packages/core/src/state/core-commands.ts), for the
-- payloads that its schema accepts.
use rpenginext.Common.{◌≡◌, refl, ap, true, Option, none, some, String, ◌==◌, arith, if◌then◌else◌}
use rpenginext.Contracts.{
  JsonValue, null, bool, num, str, arr, obj, get_field, put_field, remove_field,
  get_field-put_field, get_field-remove_field, js_string, ok, WorldState, StateCommand,
}
use rpenginext.CoreCommands.{
  with_core, text_of, value_of, is_text, is_scalar, is_set_flag_payload, is_clear_flag_payload,
  apply_set_flag, apply_clear_flag,
}

-- A flag write: `core.setFlag` when `v` is a value, `core.clearFlag` when it is `none`.
pub record WritesFlag (k : String) (x : Option JsonValue) (w w' : WorldState) : Type 0 where
  pub read :
      (j : String) → get_field j w'.core.flags ≡ (if k == j then x else get_field j w.core.flags)
  pub turn_index : w'.core.turn_index ≡ w.core.turn_index
  pub revision : w'.core.revision ≡ w.core.revision
  pub clock : w'.core.clock ≡ w.core.clock
  pub cursor : w'.core.passage_cursor ≡ w.core.passage_cursor
  pub slices : w'.slices ≡ w.slices

key_of :
    (o : Option JsonValue) → is_text o ≡ true → (k : String) × (o ≡ some (str k)) × (text_of o ≡ k)
unfolding js_string
key_of none h = absurd (ground arith)
key_of (some null) h = absurd (ground arith)
key_of (some (bool b)) h = absurd (ground arith)
key_of (some (num n)) h = absurd (ground arith)
key_of (some (str s)) h = (s, refl, refl)
key_of (some (arr vs)) h = absurd (ground arith)
key_of (some (obj o)) h = absurd (ground arith)

value_found : (o : Option JsonValue) → is_scalar o ≡ true → (x : JsonValue) × (o ≡ some x)
value_found none h = absurd (ground arith)
value_found (some x) h = (x, refl)

-- `core.setFlag`, with a payload that its schema accepts: the key reads the value that was given,
-- every other flag and the rest of the state are as before.
pub apply_set_flag-WritesFlag :
    (w : WorldState) (c : StateCommand)
    → is_set_flag_payload c.payload ≡ true
    → (k : String) × (x : JsonValue) × (w' : WorldState) × (get_field "key" c.payload
        ≡ some (str k))
      × (get_field "value" c.payload ≡ some x)
      × (apply_set_flag w c ≡ ok w')
      × WritesFlag k (some x) w w'
unfolding is_set_flag_payload apply_set_flag
apply_set_flag-WritesFlag w c h =
    let (k, found, text) = key_of (get_field "key" c.payload) (ground arith) in
    let (x, given) = value_found (get_field "value" c.payload) (ground arith) in
    (
      k,
      x,
      with_core w (record (w.core) { flags = put_field k x w.core.flags }),
      found,
      given,
      λ i. ok (
          with_core w
            (record (w.core) { flags = put_field (text i) (ap value_of given i) w.core.flags })),
      record {
        read = λ j. get_field-put_field k j x w.core.flags;
        turn_index = refl;
        revision = refl;
        clock = refl;
        cursor = refl;
        slices = refl;
      },
    )

-- `core.clearFlag`, with a payload that its schema accepts: the key reads nothing, every other flag
-- and the rest of the state are as before.
pub apply_clear_flag-WritesFlag :
    (w : WorldState) (c : StateCommand)
    → is_clear_flag_payload c.payload ≡ true
    → (k : String) × (w' : WorldState) × (get_field "key" c.payload ≡ some (str k))
      × (apply_clear_flag w c ≡ ok w')
      × WritesFlag k none w w'
unfolding is_clear_flag_payload apply_clear_flag
apply_clear_flag-WritesFlag w c h =
    let (k, found, text) = key_of (get_field "key" c.payload) (ground arith) in
    (
      k,
      with_core w (record (w.core) { flags = remove_field k w.core.flags }),
      found,
      λ i. ok (with_core w (record (w.core) { flags = remove_field (text i) w.core.flags })),
      record {
        read = λ j. get_field-remove_field k j w.core.flags;
        turn_index = refl;
        revision = refl;
        clock = refl;
        cursor = refl;
        slices = refl;
      },
    )
