-- ===== src/Engine/Property.antt =====
-- internal/engine/property.go: the contracts that plugins declare, and their validation.

pub mod Fields
pub mod Match
use voce.Prelude.{
  String, Bool, true, false, not, ◌&&◌, if◌then◌else◌, str_eq, Option, none, some, List, [], ◌∷◌,
  ◌++◌, keep, is_some,
}
use voce.Prelude.Maps.{lookup, insert}
use voce.Prelude.Results.{Result, ok, err, ◌>>=◌, ◌>>◌, fail_if, or_fail}

abbrev pub prefix_signal : String
prefix_signal = "signal"

abbrev pub prefix_payload : String
prefix_payload = "data"

abbrev pub prefix_audio : String
prefix_audio = "audio"

-- A PropertyType is a text; TypeAny is the empty one.
abbrev pub type_any : String
type_any = ""

pub record Field : Type 0 where
  pub key : String
  pub type : String
  pub required : Bool

pub record Property : Type 0 where
  pub prefix : String
  pub name : String
  pub fields : List Field

pub data ContractError : Type 0 where
  prefix_mismatch name_mismatch field_missing type_mismatch field_optional : ContractError
  not_produced not_recognized : ContractError

-- The upstream fields by key: of two with one key the later stays.
unfoldable pub index_fields : List (String × Field) → List Field → List (String × Field)
index_fields m [] = m
index_fields m (f ∷ fs) = index_fields (insert f.key f m) fs

-- One round of the loop over the downstream fields.
unfoldable pub check_field : List (String × Field) → Field → Result ContractError (Unit {0})
check_field up df = if not df.required then ok tt else elim (lookup df.key up) [
  | none ↦ err ContractError.field_missing
  | some uf ↦
      if not (str_eq df.type type_any) && not (str_eq uf.type df.type)
      then err ContractError.type_mismatch
      else if not uf.required
      then err ContractError.field_optional
      else ok tt
]

unfoldable pub check_fields : List (String × Field) → List Field → Result ContractError (Unit {0})
check_fields up [] = ok tt
check_fields up (df ∷ rest) = check_field up df >> check_fields up rest

abbrev is_nil {ℓ} : {A : Type ℓ} → List A → Bool
is_nil [] = true
is_nil (x ∷ xs) = false

unfoldable pub validate_property : Property → Property → Result ContractError (Unit {0})
validate_property upstream downstream =
    if not (str_eq upstream.prefix downstream.prefix)
    then err ContractError.prefix_mismatch
    else if not (str_eq downstream.name "") && not (str_eq upstream.name downstream.name)
    then err ContractError.name_mismatch
    else if is_nil downstream.fields
    then ok tt
    else check_fields (index_fields [] upstream.fields) downstream.fields

-- The named ones by name, and the wildcards in order. All have one prefix, so the key
-- `prefix:name` of the map is read as the name.
pub record Downs : Type 0 where
  pub named : List (String × Property)
  pub wildcards : List Property

unfoldable pub index_downs : List Property → Downs → Downs
index_downs [] t = t
index_downs (d ∷ ds) t = index_downs ds (
    if not (str_eq d.name "")
    then record t { named = insert d.name d t.named }
    else record t { wildcards = t.wildcards ++ (d ∷ []) })

abbrev first_of_list {ℓ} : {A : Type ℓ} → List A → Option A
first_of_list [] = none
first_of_list (x ∷ xs) = some x

-- The downstream property that an upstream one is held against: by name, or the first wildcard.
unfoldable pub matched_down : Downs → Property → Option Property
matched_down t up = elim (lookup up.name t.named) [
  | some d ↦ some d
  | none ↦ first_of_list t.wildcards
]

-- The loop over the upstream properties; `hit` is hasAnyHit.
unfoldable pub check_ups : Downs → List Property → Bool → Result ContractError Bool
check_ups t [] hit = ok hit
check_ups t (up ∷ rest) hit = elim (matched_down t up) [
  | none ↦ check_ups t rest hit
  | some d ↦ validate_property up d >> check_ups t rest true
]

abbrev pub with_prefix : String → List Property → List Property
with_prefix prefix = keep (λ p. str_eq p.prefix prefix)

unfoldable pub validate_properties :
    List Property → List Property → String → Result ContractError (Unit {0})
validate_properties upstreams downstreams prefix =
    let ups = with_prefix prefix upstreams in
    let downs = with_prefix prefix downstreams in
    if is_nil downs then ok tt else if is_nil ups then err ContractError.not_produced else do
      hit ← check_ups (index_downs downs (record { named = []; wildcards = [] })) ups false
      fail_if (not hit) ContractError.not_recognized
