-- ===== src/Engine/Property/Match.antt =====
-- internal/engine/property.go, ValidateProperties: which pairs of properties are compared on an edge.
use voce.Prelude.{
  String, Bool, true, false, not, ◌&&◌, ◌||◌, if◌then◌else◌, str_eq, Option, none, some, List, [],
  ◌∷◌, ◌++◌, ◌≡◌, refl, ◌∙◌, ◌⊎◌, inl, inr, ◌↔◌, arith, All, any, is_some, Bool-cases, Option-cases,
  or_else,
}
use voce.Prelude.Maps.{lookup, insert, lookup-insert}
use voce.Prelude.Results.{Result, ok, err, >>=-eq-ok, fail_if, fail_if-eq-ok, ◌>>◌, ◌>>=◌}
use voce.Engine.Property.{
  Property, ContractError, Downs, is_nil, index_downs, first_of_list, matched_down, check_ups,
  with_prefix, validate_property, validate_properties,
}
use voce.Engine.Property.Fields.{Satisfies, validate_property_iff}

-- The last of the named downstream properties with this name.
abbrev pub last_named : String → List Property → Option Property
last_named k [] = none
last_named k (d ∷ ds) = elim (last_named k ds) [
  | some g ↦ some g
  | none ↦ if not (str_eq d.name "") && str_eq d.name k then some d else none
]

-- The first wildcard.
abbrev pub first_wild : List Property → Option Property
first_wild [] = none
first_wild (d ∷ ds) = let rest = first_wild ds in if str_eq d.name "" then some d else rest

-- What an upstream property is held against: the downstream property of its name, or a wildcard.
pub counterpart : List Property → Property → Option Property
counterpart downs up = or_else (last_named up.name downs) (first_wild downs)

lookup-index_downs :
    (k : String) (ds : List Property) (t : Downs)
    → lookup k (index_downs ds t).named ≡ or_else (last_named k ds) (lookup k t.named)
unfolding index_downs
lookup-index_downs k [] t = refl
lookup-index_downs k (d ∷ ds) t = elim (Bool-cases (str_eq d.name "")) [
  | inl wild ↦
      ground
        (arith, wild, lookup-index_downs k ds (record t { wildcards = t.wildcards ++ (d ∷ []) }))
  | inr named ↦ ground (
    arith,
    named,
    lookup-index_downs k ds (record t { named = insert d.name d t.named }),
    lookup-insert d.name k d t.named,
  )
]

first_of_list-append :
    (xs ys : List Property)
    → first_of_list (xs ++ ys) ≡ or_else (first_of_list xs) (first_of_list ys)
first_of_list-append [] ys = refl
first_of_list-append (x ∷ xs) ys = refl

wildcards-index_downs :
    (ds : List Property) (t : Downs)
    → first_of_list (index_downs ds t).wildcards
      ≡ or_else (first_of_list t.wildcards) (first_wild ds)
unfolding index_downs
wildcards-index_downs [] t = ground arith
wildcards-index_downs (d ∷ ds) t = elim (Bool-cases (str_eq d.name "")) [
  | inl wild ↦ ground (
    arith,
    wild,
    wildcards-index_downs ds (record t { wildcards = t.wildcards ++ (d ∷ []) }),
    first_of_list-append t.wildcards (d ∷ []),
  )
  | inr named ↦
      ground (arith, named, wildcards-index_downs ds (record t { named = insert d.name d t.named }))
]

abbrev pub index_of : List Property → Downs
index_of downs = index_downs downs (record { named = []; wildcards = [] })

matched_down-index_downs :
    (downs : List Property) (up : Property)
    → matched_down (index_of downs) up ≡ counterpart downs up
unfolding matched_down lookup counterpart
matched_down-index_downs downs up =
    let empty : Downs = record { named = []; wildcards = [] } in
    ground (arith, lookup-index_downs up.name downs empty, wildcards-index_downs downs empty)

-- An upstream property that has a counterpart satisfies it.
abbrev pub Agrees : List Property → Property → Type 0
Agrees downs up = elim (counterpart downs up) [ none ↦ Unit {0} | some d ↦ Satisfies up d ]

abbrev pub recognized : List Property → List Property → Bool
recognized downs = any (λ up. is_some (counterpart downs up))

module _ (downs : List Property) where
  check_ups-eq_ok :
      (ups : List Property) (hit : Bool)
      → All (Agrees downs) ups
      → check_ups (index_of downs) ups hit ≡ ok (hit || recognized downs ups)
  unfolding check_ups
  check_ups-eq_ok [] hit all = ground arith
  check_ups-eq_ok (up ∷ rest) hit all = elim (Option-cases (counterpart downs up)) [
    | inl e ↦ rw (matched_down-index_downs downs up, e, check_ups) (check_ups-eq_ok rest hit all.1)
    | inr (d, e) ↦
        let agrees : Satisfies up d = rw (e, Agrees) at all.0 in
        rw (matched_down-index_downs downs up, e, check_ups, (validate_property_iff up d).1 agrees)
          (check_ups-eq_ok rest true all.1 ∙ ground arith)
  ]

  check_ups_inv :
      (ups : List Property) (hit b : Bool)
      → check_ups (index_of downs) ups hit ≡ ok b
      → All (Agrees downs) ups × (b ≡ (hit || recognized downs ups))
  unfolding check_ups
  check_ups_inv [] hit b h = (tt, ground arith)
  check_ups_inv (up ∷ rest) hit b h = elim (Option-cases (counterpart downs up)) [
    | inl e ↦
        let (others, seen) =
          check_ups_inv rest hit b (rw (matched_down-index_downs downs up, e, check_ups) at h) in
        ((rw (e, Agrees) tt, others), rw e seen)
    | inr (d, e) ↦
        let h' : (validate_property up d >> check_ups (index_of downs) rest true) ≡ ok b =
          rw (matched_down-index_downs downs up, e, check_ups) at h in
        let (_, passed, more) = >>=-eq-ok (validate_property up d) _ h' in
        let (others, seen) = check_ups_inv rest true b more in
        let agrees : Satisfies up d = (validate_property_iff up d).0 passed in
        ((rw (e, Agrees) agrees, others), rw (e) (ground (arith, seen)))
  ]

-- What `validate_properties` promises on an edge, for one prefix: the target asks for nothing, or
-- every property of the source that has a counterpart satisfies it and at least one has.
abbrev pub Contract : List Property → List Property → Type 0
Contract ups downs = (downs ≡ []) ⊎ (All (Agrees downs) ups × (recognized downs ups ≡ true))

-- What `validate_properties` does with the two lists once they are filtered.
abbrev validate_filtered : List Property → List Property → Result ContractError (Unit {0})
validate_filtered ups downs =
    if is_nil downs
    then ok tt
    else if is_nil ups
    then err ContractError.not_produced
    else check_ups (index_of downs) ups false >>= λ hit.
        fail_if (not hit) ContractError.not_recognized

validate_filtered_iff :
    (ups downs : List Property) → (validate_filtered ups downs ≡ ok tt) ↔ Contract ups downs
validate_filtered_iff ups [] = ((λ _. inl refl), λ _. refl)
validate_filtered_iff [] (d ∷ ds) = ((λ h. absurd (cc h)), λ c. absurd (ground (arith, c)))
validate_filtered_iff (u ∷ us) (d ∷ ds) =
    let downs = d ∷ ds in
    let ups = u ∷ us in
    (
      λ h.
          let (hit, checked, seen) = >>=-eq-ok (check_ups (index_of downs) ups false) _ h in
          let (all, recognizes) = check_ups_inv downs ups false hit checked in
          inr (
            all,
            ground (arith, fail_if-eq-ok (not hit) ContractError.not_recognized seen, recognizes),
          ),
      λ c. elim c [
        | inl e ↦ absurd (cc e)
        | inr (all, recognizes) ↦ rw (check_ups-eq_ok downs ups false all, recognizes)
      ],
    )

-- `validate_properties` accepts exactly the pairs of declarations that fulfil the contract of this
-- prefix, where the source's named properties are held against the last downstream one of the
-- name and otherwise against the first wildcard.
pub validate_properties_iff :
    (ups downs : List Property) (prefix : String)
    → (validate_properties ups downs prefix ≡ ok tt)
      ↔ Contract (with_prefix prefix ups) (with_prefix prefix downs)
unfolding validate_properties
validate_properties_iff ups downs prefix =
    validate_filtered_iff (with_prefix prefix ups) (with_prefix prefix downs)
