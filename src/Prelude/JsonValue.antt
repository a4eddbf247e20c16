-- ===== src/Prelude/JsonValue.antt =====
-- `serde_json::Value`, as far as the service reads and writes it: numbers are integers, and
-- the members of an object are in the order in which they are written.
use Prim.Native.Nat.{ℕ}
use mathlib.Core.Bool.{Bool}
use mathlib.Core.Option.{Option, none, some}
use mathlib.Core.List.{List, [], ◌∷◌}
use network_client.Prelude.Tests.{if◌then◌else◌}
use network_client.Prelude.Texts.{Text, text_eq}

mutual
  pub data Json : Type 0 where
    null : Json
    boolean : Bool → Json
    number : ℕ → Json
    negative : ℕ → Json  -- the negative of the next number
    string : Text → Json
    array : Elements → Json
    object : Members → Json

  pub data Elements : Type 0 where
    nil : Elements
    cons : Json → Elements → Elements

  pub data Members : Type 0 where
    end : Members
    member : Text → Json → Members → Members

find_member : Text → Members → Option Json
unfolding text_eq
find_member k end = none
find_member k (member j v ms) = if text_eq j k then some v else find_member k ms

-- `v.get(k)`
unfoldable pub get_member : Text → Json → Option Json
unfolding find_member
get_member k (object ms) = find_member k ms
get_member k _ = none

-- `v.as_str()`
abbrev pub as_text : Json → Option Text
as_text (string s) = some s
as_text _ = none

-- `v[k]`
unfoldable pub json_index : Text → Json → Json
unfolding get_member
json_index k v = elim (get_member k v) [ none ↦ null | some w ↦ w ]

-- `json!({ .. })` and `json!([ .. ])` of the given parts
abbrev pub members : List (Text × Json) → Members
members [] = end
members ((k, v) ∷ ms) = member k v (members ms)

abbrev pub json_object : List (Text × Json) → Json
json_object ms = object (members ms)

abbrev pub elements : List Json → Elements
elements [] = nil
elements (v ∷ vs) = cons v (elements vs)

abbrev pub json_array : List Json → Json
json_array vs = array (elements vs)
