-- ===== src/Compound/ToBson.antt =====
-- compoundValueBson of src/lib/mongoBackend/MongoCommonUpdate.cpp: the BSON of a compound value.
-- The two C++ overloads fill an array builder and an object builder. A child of unknown type is
-- skipped.
use fiware_orion.Bson.{text, object, array, Fields, no_field, field, Items, no_item, item}
use fiware_orion.Compound.{Node, node, Nodes, none_left, child, string, objekt, vector, unknown}

unfoldable mutual
  -- compoundValueBson(childV, BSONArrayBuilder&)
  pub array_bson : Nodes → Items
  array_bson none_left = no_item
  array_bson (child n ns) = array_child n (array_bson ns)

  array_child : Node → Items → Items
  array_child (node string name value path level sibling ns) rest = item (text value) rest
  array_child (node vector name value path level sibling ns) rest =
      item (array (array_bson ns)) rest
  array_child (node objekt name value path level sibling ns) rest =
      item (object (object_bson ns)) rest
  array_child (node unknown name value path level sibling ns) rest = rest

  -- compoundValueBson(childV, BSONObjBuilder&)
  pub object_bson : Nodes → Fields
  object_bson none_left = no_field
  object_bson (child n ns) = object_child n (object_bson ns)

  object_child : Node → Fields → Fields
  object_child (node string name value path level sibling ns) rest = field name (text value) rest
  object_child (node vector name value path level sibling ns) rest =
      field name (array (array_bson ns)) rest
  object_child (node objekt name value path level sibling ns) rest =
      field name (object (object_bson ns)) rest
  object_child (node unknown name value path level sibling ns) rest = rest
