-- ===== src/Contracts/Json.antt =====
-- packages/contracts/src/json.ts. A JSON number is an integer here; the engine computes with no
-- fraction in the parts that are modelled. An object is its fields in insertion order.
use rpenginext.Common.{
  ℕ, zero, suc, ◌/◌, ◌%◌, ◌≡◌, refl, Bool, true, false, Option, none, some, List, [], ◌∷◌, String,
  ◌==◌, ltb, eqb, if◌then◌else◌, eq_iff, arith,
}
use Prim.Native.String.{◌++◌}

-- `negsuc n` is -(n + 1).
pub data ℤ : Type 0 where
  pos : ℕ → ℤ
  negsuc : ℕ → ℤ

mutual
  pub data JsonValue : Type 0 where
    null : JsonValue
    bool : Bool → JsonValue
    num : ℤ → JsonValue
    str : String → JsonValue
    arr : JsonItems → JsonValue
    obj : JsonObject → JsonValue

  pub data JsonItems : Type 0 where
    nil : JsonItems
    cons : JsonValue → JsonItems → JsonItems

  pub data JsonObject : Type 0 where
    end : JsonObject
    field : String → JsonValue → JsonObject → JsonObject

-- `o[k]`; `none` is `undefined`.
abbrev pub get_field : String → JsonObject → Option JsonValue
get_field k end = none
get_field k (field j v o) = if j == k then some v else get_field k o

-- `{ ...o, [k]: v }`
abbrev pub put_field : String → JsonValue → JsonObject → JsonObject
put_field k v end = field k v end
put_field k v (field j w o) = if j == k then field k v o else field j w (put_field k v o)

-- `const { [k]: _removed, ...rest } = o`
abbrev pub remove_field : String → JsonObject → JsonObject
remove_field k end = end
remove_field k (field j v o) =
    let rest = remove_field k o in if j == k then rest else field j v rest

-- `{ ...o, ...p }`
abbrev pub spread : JsonObject → JsonObject → JsonObject
spread o end = o
spread o (field k v p) = spread (put_field k v o) p

-- `Object.keys(o)`
abbrev pub object_keys : JsonObject → List String
object_keys end = []
object_keys (field k v o) = k ∷ object_keys o

abbrev pub item : List JsonValue → JsonItems
item [] = nil
item (v ∷ vs) = cons v (item vs)

pub get_field-put_field :
    (k j : String) (v : JsonValue) (o : JsonObject)
    → get_field j (put_field k v o) ≡ (if k == j then some v else get_field j o)
get_field-put_field k j v end = refl
get_field-put_field k j v (field i w o) =
    ground (arith, eq_iff k j, eq_iff i k, eq_iff i j, get_field-put_field k j v o)

pub get_field-remove_field :
    (k j : String) (o : JsonObject)
    → get_field j (remove_field k o) ≡ (if k == j then none else get_field j o)
get_field-remove_field k j end = ground arith
get_field-remove_field k j (field i w o) =
    ground (arith, eq_iff k j, eq_iff i k, eq_iff i j, get_field-remove_field k j o)

digit : ℕ → String
digit d =
    if eqb d 0
    then "0"
    else if eqb d 1
    then "1"
    else if eqb d 2
    then "2"
    else if eqb d 3
    then "3"
    else if eqb d 4
    then "4"
    else if eqb d 5
    then "5"
    else if eqb d 6
    then "6"
    else if eqb d 7
    then "7"
    else if eqb d 8
    then "8"
    else "9"

show_from : ℕ → ℕ → String → String
show_from zero n acc = acc
show_from (suc f) n acc =
    let rest = show_from f (n / 10) (digit (n % 10) ++ acc) in
    if ltb n 10 then digit n ++ acc else rest

-- A number in a template literal. A number has no more digits than its value and one.
unfoldable pub show : ℕ → String
unfolding digit show_from
show n = show_from (suc n) n ""

unfoldable pub show_ℤ : ℤ → String
unfolding show
show_ℤ (pos n) = show n
show_ℤ (negsuc n) = "-" ++ show (suc n)

-- `String(v)`; inside an array `null` is the empty text.
unfoldable mutual
  pub js_string : JsonValue → String
  js_string null = "null"
  js_string (bool true) = "true"
  js_string (bool false) = "false"
  js_string (num n) = show_ℤ n
  js_string (str s) = s
  js_string (arr vs) = js_join vs
  js_string (obj o) = "[object Object]"

  pub js_item : JsonValue → String
  js_item null = ""
  js_item (bool true) = "true"
  js_item (bool false) = "false"
  js_item (num n) = show_ℤ n
  js_item (str s) = s
  js_item (arr vs) = js_join vs
  js_item (obj o) = "[object Object]"

  pub js_join : JsonItems → String
  js_join nil = ""
  js_join (cons v nil) = js_item v
  js_join (cons v (cons w vs)) = js_item v ++ ("," ++ js_join (cons w vs))
