-- ===== src/Query.antt =====
-- The queries of entities: fillQueryEntity, addFilterScope and entitiesQuery of
-- src/lib/mongoBackend/MongoGlobal.cpp. The database and its areas are parameters.
pub mod Attribute
pub mod Result
pub mod Laws
pub mod Responses
pub mod Context
pub mod Replies
pub mod Samples
use fiware_orion.Base.{
  ℕ, Str, ◌++◌, ◌==◌, str_eq, ◌&&◌, ◌||◌, not, Bool, true, false, Option, none, some, List, [], ◌∷◌,
  codes, if◌then◌else◌,
}
use fiware_orion.Strings.Bytes.{after_prefix}
use fiware_orion.Update.{EntityId}
use fiware_orion.Rest.Service.{Scope, filter_existence, value_entity_type, operator_not}

-- One alternative of the query: a regular expression or a text for the identifier, and a type unless
-- it is empty.
pub record EntityToken : Type 0 where
  pub is_regex : Bool
  pub id : Str
  pub type : Option Str

unfoldable pub fill_query_entity : EntityId → EntityToken
fill_query_entity en = record {
  is_regex = en.is_pattern == codes "true";
  id = en.id;
  type = if en.type == [] then none else some en.type;
}

unfoldable pub fill_query_entities : List EntityId → List EntityToken
unfolding fill_query_entity
fill_query_entities [] = []
fill_query_entities (en ∷ ens) = fill_query_entity en ∷ fill_query_entities ens

-- addFilterScope: the filter that is added, whether the type of an entity must be there.
unfoldable pub add_filter_scope : Scope → Option Bool
add_filter_scope sco =
    if sco.type == filter_existence && sco.value == value_entity_type
    then some (not (sco.oper == operator_not))
    else none

-- Whether the type of a scope starts with SCOPE_FILTER.
unfoldable pub is_filter : Scope → Bool
unfolding after_prefix
is_filter sco = elim (after_prefix (codes "FIWARE::Filter") sco.type) [
  | none ↦ false
  | some r ↦ true
]

abbrev pub fiware_location : Str
fiware_location = codes "FIWARE::Location"

abbrev pub fiware_location_deprecated : Str
fiware_location_deprecated = codes "FIWARE_Location"

-- What the scopes add to the query. `Area` is what processAreaScope makes of a scope, if it does.
pub record ScopeQuery (Area : Type 0) : Type 0 where
  pub area : Option Area
  pub filters : List Bool

module _ {Area : Type 0} (process_area_scope : Scope → Option Area) where
  -- The loop over the scopes, after `geo` scopes of an area: only the first of them counts.
  unfoldable pub scope_query : Bool → List Scope → ScopeQuery Area
  unfolding add_filter_scope is_filter
  scope_query geo [] = record { area = none; filters = [] }
  scope_query geo (sco ∷ scos) =
      let is_area = sco.type == fiware_location || sco.type == fiware_location_deprecated in
      let rest = scope_query (geo || not (is_filter sco) && is_area) scos in
      if is_filter sco
      then elim (add_filter_scope sco) [
        | none ↦ rest
        | some f ↦ record rest { filters = f ∷ rest.filters }
      ]
      else if is_area && not geo
      then record rest { area = process_area_scope sco }
      else rest
