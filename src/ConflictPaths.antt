-- ===== src/ConflictPaths.antt =====
-- packages/core/src/pipeline/conflict-paths.ts: which commands a declared conflict key concerns. The
-- indices `pi` and `ti` are the rests of the two lists of segments.
pub mod Globs
mod Tests
use Prim.Native.Char.{Char, code}
use Prim.Native.String.{◌++◌}
use mathlib.Core.List
use rpenginext.Common.{
  ℕ, Bool, true, false, ◌&&◌, ◌||◌, Option, none, some, List, [], ◌∷◌, String, ◌==◌, any, contains,
  eqb, leb, not, if◌then◌else◌,
}
use rpenginext.Contracts.{JsonValue, str, JsonObject, get_field, object_keys, StateCommand}

pub record ConflictKeyDefinition : Type 0 where
  pub id : String
  pub path : String
  pub slice : String

-- The white space of `trim`.
abbrev is_space : Char → Bool
is_space c =
    let n = code c in
    leb 9 n && leb n 13
    || eqb n 32
    || eqb n 160
    || eqb n 5760
    || leb 8192 n && leb n 8202
    || eqb n 8232
    || eqb n 8233
    || eqb n 8239
    || eqb n 8287
    || eqb n 12288
    || eqb n 65279

unfoldable pub trim_start : String → String
trim_start String.[] = ""
trim_start (String.◌∷◌ c s) = let rest = trim_start s in if is_space c then rest else String.◌∷◌ c s

unfoldable pub trim_end : String → String
trim_end String.[] = ""
trim_end (String.◌∷◌ c s) =
    let rest = trim_end s in if is_space c && (rest == "") then "" else String.◌∷◌ c rest

unfoldable pub trim : String → String
unfolding trim_start trim_end
trim s = trim_end (trim_start s)

abbrev prepend : Char → List String → List String
prepend c [] = String.◌∷◌ c "" ∷ []
prepend c (p ∷ ps) = String.◌∷◌ c p ∷ ps

-- `split(".")`
unfoldable pub split_dots : String → List String
split_dots String.[] = "" ∷ []
split_dots (String.◌∷◌ c s) =
    let rest = split_dots s in if eqb (code c) 46 then "" ∷ rest else prepend c rest

abbrev pub segment_match : String → String → Bool
segment_match value pattern = (pattern == "*") || (pattern == value)

-- The inner loop: up to a segment that the pattern after `**` takes.
unfoldable pub skip_to : String → List String → List String
skip_to next [] = []
skip_to next (t ∷ ts) =
    let rest = skip_to next ts in
    if segment_match t next || (next == "*") || (next == "**") then t ∷ ts else rest

abbrev pub all_rests : List String → Bool
all_rests [] = true
all_rests (p ∷ ps) = (p == "**") && all_rests ps

abbrev pub is_empty : List String → Bool
is_empty [] = true
is_empty (x ∷ xs) = false

-- What stands after a `**` decides how far the path is skipped.
abbrev pub after_rest : List String → List String → List String
after_rest [] ts = ts
after_rest (next ∷ ps) ts = skip_to next ts

unfoldable pub match_parts : List String → List String → Bool
match_parts [] ts = is_empty ts
match_parts (p ∷ ps) [] = all_rests (p ∷ ps)
match_parts (p ∷ ps) (t ∷ ts) =
    let skipped = match_parts ps (after_rest ps (t ∷ ts)) in
    let next = match_parts ps ts in
    if p == "**" then is_empty ps || skipped else segment_match t p && next

unfoldable pub glob_path_match : String → String → Bool
unfolding split_dots match_parts
glob_path_match path pattern =
    if (pattern == "*") || (pattern == "**")
    then true
    else if path == pattern
    then true
    else match_parts (split_dots pattern) (split_dots path)

-- `Set.add` on an array that has each text once.
abbrev pub add_path : String → List String → List String
add_path p out = if contains p out then out else List.◌++◌ out (p ∷ [])

-- What a text at one of the known keys adds.
abbrev pub add_known : String → Option JsonValue → List String → List String
add_known prefix (some (str s)) out =
    if s == ""
    then out
    else if prefix == ""
    then add_path s out
    else add_path (prefix ++ s) (add_path s out)
add_known prefix v out = out

abbrev pub add_keys : List String → List String → List String
add_keys [] out = out
add_keys (k ∷ ks) out = add_keys ks (add_path k out)

-- `flags.<key>` is added behind the bare key; so are the other two.
unfoldable pub collect_command_write_paths : StateCommand → List String
collect_command_write_paths command =
    let p = command.payload in
    let keyed = add_known "flags." (get_field "key" p) [] in
    let at = add_known "" (get_field "path" p) keyed in
    let named = add_known "id." (get_field "id" p) at in
    let entity = add_known "entities." (get_field "entityId" p) named in
    add_path "*" (add_keys (object_keys p) entity)

unfoldable pub command_touches_conflict_key : StateCommand → ConflictKeyDefinition → Bool
unfolding trim collect_command_write_paths glob_path_match
command_touches_conflict_key command key =
    let pattern = trim key.path in
    if not (command.slice == key.slice)
    then false
    else if (pattern == "") || (pattern == "*") || (pattern == "**")
    then true
    else any (λ path. glob_path_match path pattern) (collect_command_write_paths command)
