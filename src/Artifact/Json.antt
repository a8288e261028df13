-- ===== src/Artifact/Json.antt =====
-- crates/artifact/src/schema.rs: JSON values, the reader that refuses duplicate keys, and the depth of
-- a value. serde_json's reader of bytes is a parameter.
pub mod Depth
use Prim.Native.Nat.{max}
use soverign_founder_os.Base.{
  ℕ, zero, suc, ◌+◌, String, Bool, true, false, ◌||◌, Option, some, none, List, [], ◌∷◌, Result, ok,
  err, reject, ◌>>=◌, ◌>>◌, ◌==◌, string_eq, if◌then◌else◌,
}
use soverign_founder_os.Base.Int.{ℤ, in_i64}
use soverign_founder_os.Base.Sorted.{string_lt}
use soverign_founder_os.Base.Text.{Bytes}
use soverign_founder_os.Artifact.Errors.{StrictJsonError, duplicate_key, invalid}

-- A number of serde_json: an `i64` or `u64`, or a finite float, which is kept as its text.
pub data Number : Type 0 where
  whole : ℤ → Number
  float : String → Number

-- `serde_json::Value`; the members of an object are a map in key order.
mutual
  pub data Value : Type 0 where
    null : Value
    bool : Bool → Value
    number : Number → Value
    string : String → Value
    array : Values → Value
    object : Members → Value

  pub data Values : Type 0 where
    nil : Values
    cons : Value → Values → Values

  pub data Members : Type 0 where
    end : Members
    member : String → Value → Members → Members

unfoldable pub find_member : String → Members → Option Value
find_member key end = none
find_member key (member k v members) = if k == key then some v else find_member key members

unfoldable pub insert_member : String → Value → Members → Members
insert_member key value end = member key value end
insert_member key value (member k v members) =
    if string_lt key k
    then member key value (member k v members)
    else member k v (insert_member key value members)

unfoldable pub count_members : Members → ℕ
count_members end = 0
count_members (member k v members) = suc (count_members members)

unfoldable pub count_values : Values → ℕ
count_values nil = 0
count_values (cons v values) = suc (count_values values)

-- `Value::as_i64` and `Value::as_str`
abbrev pub as_i64 : Value → Option ℤ
as_i64 (number (whole z)) = if in_i64 z then some z else none
as_i64 _ = none

abbrev pub as_str : Value → Option String
as_str (string s) = some s
as_str _ = none

abbrev is_some : {A : Type 0} → Option A → Bool
is_some none = false
is_some (some a) = true

-- `StrictJsonVisitor`, on the events of the deserializer: a value whose members stand as in the
-- text, repeated keys among them. `seen` is the map of `visit_map` so far.
unfoldable mutual
  pub visit : Value → Result StrictJsonError Value
  visit null = ok null
  visit (bool b) = ok (bool b)
  visit (number n) = ok (number n)
  visit (string s) = ok (string s)
  visit (array values) = do visited ← visit_seq values; ok (array visited)
  visit (object members) = do visited ← visit_map members end; ok (object visited)

  pub visit_seq : Values → Result StrictJsonError Values
  visit_seq nil = ok nil
  visit_seq (cons value values) = do
    visited ← visit value
    rest ← visit_seq values
    ok (cons visited rest)

  pub visit_map : Members → Members → Result StrictJsonError Members
  visit_map end seen = ok seen
  visit_map (member key value members) seen = do
    reject (is_some (find_member key seen)) (duplicate_key key)
    visited ← visit value
    visit_map members (insert_member key visited seen)

-- serde_json's deserializer: the events of a text, or its message
pub record Reader : Type 0 where
  pub events : Bytes → Result String Value

-- `parse_strict_json`; the duplicate key travels in the text of an error there, and as itself here
unfoldable pub parse_strict_json : Reader → Bytes → Result StrictJsonError Value
parse_strict_json reader raw_json = from_events (reader.events raw_json)
  where
    from_events : Result String Value → Result StrictJsonError Value
    from_events (err message) = err (invalid message)
    from_events (ok events) = visit events

-- The stack of `json_depth`. The last child that is pushed is the first to be popped.
abbrev pub Stack : Type 0
Stack = List (Value × ℕ)

unfoldable pub push_values : Values → ℕ → Stack → Stack
push_values nil depth stack = stack
push_values (cons value values) depth stack = push_values values depth ((value, depth) ∷ stack)

unfoldable pub push_members : Members → ℕ → Stack → Stack
push_members end depth stack = stack
push_members (member key value members) depth stack =
    push_members members depth ((value, depth) ∷ stack)

unfoldable pub push_children : Value → ℕ → Stack → Stack
push_children (array values) depth stack = push_values values (suc depth) stack
push_children (object members) depth stack = push_members members (suc depth) stack
push_children _ depth stack = stack

-- the loop of `json_depth`; `none` is the end of the fuel
unfoldable pub depth_loop : ℕ → Stack → ℕ → Option ℕ
depth_loop fuel [] maximum = some maximum
depth_loop zero (entry ∷ stack) maximum = none
depth_loop (suc fuel) ((value, depth) ∷ stack) maximum =
    depth_loop fuel (push_children value depth stack) (max maximum depth)

-- how many values there are in a value, itself among them
unfoldable mutual
  pub size : Value → ℕ
  size (array values) = suc (size_values values)
  size (object members) = suc (size_members members)
  size null = 1
  size (bool b) = 1
  size (number n) = 1
  size (string s) = 1

  pub size_values : Values → ℕ
  size_values nil = 0
  size_values (cons value values) = size value + size_values values

  pub size_members : Members → ℕ
  size_members end = 0
  size_members (member key value members) = size value + size_members members

unfoldable pub json_depth : Value → Option ℕ
json_depth root = depth_loop (size root) ((root, 1) ∷ []) 1
