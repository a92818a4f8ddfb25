-- ===== src/Compound/Samples.antt =====
-- The check of a compound value at a concrete object.
use fiware_orion.Base.{◌≡◌, ◌↔◌, [], codes}
use fiware_orion.Compound.{Node, node, Nodes, vector, none_left, child, string, objekt}
use fiware_orion.Compound.ToBson.{array_bson, object_bson}
use fiware_orion.Compound.FromBson.{compound_object, compound_vector, compound_round_trip}
use fiware_orion.Compound.Check.{finish, IsWellFormed, finish_iff}

-- { a: "1", b: "2" }
abbrev two_fields : Node
two_fields = node objekt (codes "toplevel") [] (codes "/") 0 0 (
    child (node string (codes "a") (codes "1") (codes "/a") 1 0 none_left)
      (child (node string (codes "b") (codes "2") (codes "/b") 1 1 none_left) none_left))

finish_iff_example : (finish two_fields ≡ codes "OK") ↔ IsWellFormed two_fields
finish_iff_example = finish_iff two_fields

-- { a: [ "1" ] }
abbrev one_field : Nodes
one_field =
    child
      (node vector (codes "a") [] (codes "/a") 1 0
        (child (node string (codes "item") (codes "1") (codes "/a/item") 2 0 none_left) none_left))
      none_left

compound_round_trip_example :
    (object_bson (compound_object (λ n. []) 0 (object_bson one_field)) ≡ object_bson one_field)
    × (array_bson (compound_vector (λ n. []) 0 0 (array_bson one_field)) ≡ array_bson one_field)
compound_round_trip_example = compound_round_trip (λ n. []) one_field
