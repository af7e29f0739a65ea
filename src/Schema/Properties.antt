-- ===== src/Schema/Properties.antt =====
-- internal/schema/interface.go, helper.go, signal.go and payload.go: named values with properties. The
-- entries only grow, and the last of a key counts. A text is the list of its runes. The JSON package is a
-- parameter: what it makes of any other value, which is a number here.
use voce.Prelude.{
  ℕ, String, Bool, true, false, if◌then◌else◌, str_eq, Option, none, some, is_some, or_else, List,
  [], ◌∷◌, ◌++◌,
}
use voce.Prelude.Int.{ℤ}
use voce.Prelude.Maps.{lookup, insert}
use voce.Prelude.Results.{Result, ok, err, ◌>>=◌}

pub data Value : Type 0 where
  number : ℤ → Value
  boolean : Bool → Value
  text : List ℕ → Value
  time : ℕ → Value
  byte_slice : List ℕ → Value
  buffer : List ℕ → Value  -- bytes.Buffer and a pointer to one
  builder : List ℕ → Value  -- strings.Builder and a pointer to one
  other : ℕ → Value

pub data SchemaError : Type 0 where
  key_not_found not_serialized_bytes object_read_only marshal_failed : SchemaError

pub record Properties : Type 0 where
  pub entries : List (String × Value)
  pub readonly : Bool

abbrev pub new_properties : Properties
new_properties = record { entries = []; readonly = false }

-- Clone, and copyTo where the other's entries are replaced
unfoldable pub clone : Properties → Properties
clone b = record { entries = b.entries; readonly = false }

-- The last value of the key.
unfoldable pub last_of : String → List (String × Value) → Option Value
last_of key [] = none
last_of key ((k, v) ∷ es) = or_else (last_of key es) (if str_eq k key then some v else none)

unfoldable pub get : Properties → String → Option Value
get b key = last_of key b.entries

module _ (marshal : ℕ → Result SchemaError (List ℕ)) where
  abbrev marshalled : Result SchemaError (List ℕ) → Result SchemaError Value
  marshalled (ok bs) = ok (Value.byte_slice bs)
  marshalled (err e) = err e

  unfoldable pub snapshot : Value → Result SchemaError Value
  snapshot (Value.buffer bs) = ok (Value.byte_slice bs)
  snapshot (Value.builder t) = ok (Value.text t)
  snapshot (Value.other n) = marshalled (marshal n)
  snapshot v = ok v

  unfoldable pub set : Properties → String → Value → Result SchemaError Properties
  set b key value =
      if b.readonly
      then err SchemaError.object_read_only
      else snapshot value >>= λ dst. ok (record b { entries = b.entries ++ ((key, dst) ∷ []) })

  -- The loop of UnmarshalJSON over the map that the JSON package gives.
  unfoldable pub set_all : Properties → List (String × Value) → Result SchemaError Properties
  set_all b [] = ok b
  set_all b ((k, v) ∷ m) = set b k v >>= λ b'. set_all b' m

-- What Bind gives to the JSON package.
unfoldable pub bind : Properties → String → Result SchemaError (List ℕ)
bind b key = elim (get b key) [
  | none ↦ err SchemaError.key_not_found
  | some v ↦ elim v [ Value.byte_slice bs ↦ ok bs | _ ↦ err SchemaError.not_serialized_bytes ]
]

-- The loop of MarshalJSON, which meets the last entry first: the keys that it saw, with their values.
unfoldable pub collect : List (String × Value) → List (String × Value)
collect [] = []
collect ((k, v) ∷ es) = let m = collect es in if is_some (lookup k m) then m else insert k v m

unfoldable pub fields : Properties → List (String × Value)
fields b = collect b.entries

-- GetAs for texts and for Booleans, with a default.
abbrev text_of : Option Value → List ℕ → List ℕ
text_of (some (Value.text t)) d = t
text_of _ d = d

abbrev boolean_of : Option Value → Bool → Bool
boolean_of (some (Value.boolean b)) d = b
boolean_of _ d = d

unfoldable pub get_text : Properties → String → List ℕ → List ℕ
get_text b key d = text_of (get b key) d

unfoldable pub get_boolean : Properties → String → Bool → Bool
get_boolean b key d = boolean_of (get b key) d

-- A signal or a payload.
pub record Named : Type 0 where
  pub name : String
  pub properties : Properties

unfoldable pub new_named : String → Named
new_named name = record { name = name; properties = new_properties }

unfoldable pub read_only : Named → Named
read_only n = record n { properties = record n.properties { readonly = true } }

-- Mutable: itself, or a copy of a value that is read-only.
unfoldable pub mutable : Named → Named
unfolding clone
mutable n = if n.properties.readonly then record n { properties = clone n.properties } else n
