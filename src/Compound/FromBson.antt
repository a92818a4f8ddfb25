-- ===== src/Compound/FromBson.antt =====
-- addCompoundNode, compoundObjectResponse and compoundVectorResponse of
-- src/lib/mongoBackend/MongoGlobal.cpp: the compound value of a BSON object or array. A node is filled
-- in before CompoundValueNode::add takes it: its level is 1 and its path "/", at any depth. The names
-- that the driver gives the items of an array are the parameter `decimal`.
use fiware_orion.Base.{ℕ, ◌+◌, Str, ◌≡◌, refl, ap, ap₂, codes, []}
use fiware_orion.Bson.{
  Bson, text, object, array, other, Fields, no_field, field, Items, no_item, item,
}
use fiware_orion.Compound.{node, Nodes, none_left, child, string, objekt, vector, unknown}
use fiware_orion.Compound.ToBson.{array_bson, object_bson}

abbrev leaf_path : Str
leaf_path = codes "/"

unfoldable mutual
  -- `sibling` is the number of the children that are there.
  pub add_compound_node : (ℕ → Str) → Str → ℕ → Bson → (ℕ → Nodes) → Nodes
  add_compound_node decimal name sibling (text s) rest =
      child (node string name s leaf_path 1 sibling none_left) (rest (sibling + 1))
  add_compound_node decimal name sibling (object fs) rest =
      child (node objekt name [] leaf_path 1 sibling (compound_object decimal 0 fs))
        (rest (sibling + 1))
  add_compound_node decimal name sibling (array is) rest =
      child (node vector name [] leaf_path 1 sibling (compound_vector decimal 0 0 is))
        (rest (sibling + 1))
  add_compound_node decimal name sibling other rest = rest sibling

  pub compound_object : (ℕ → Str) → ℕ → Fields → Nodes
  compound_object decimal sibling no_field = none_left
  compound_object decimal sibling (field name value fs) =
      add_compound_node decimal name sibling value (λ n. compound_object decimal n fs)

  pub compound_vector : (ℕ → Str) → ℕ → ℕ → Items → Nodes
  compound_vector decimal index sibling no_item = none_left
  compound_vector decimal index sibling (item value is) =
      add_compound_node decimal (decimal index) sibling value
        (λ n. compound_vector decimal (index + 1) n is)

-- All values are texts, objects or arrays, at any depth.
abbrev mutual
  pub IsKnown : Bson → Type 0
  IsKnown (text s) = Unit
  IsKnown (object fs) = AreKnown fs
  IsKnown (array is) = AllKnown is
  IsKnown other = ⊥

  pub AreKnown : Fields → Type 0
  AreKnown no_field = Unit
  AreKnown (field name value fs) = IsKnown value × AreKnown fs

  pub AllKnown : Items → Type 0
  AllKnown no_item = Unit
  AllKnown (item value is) = IsKnown value × AllKnown is

module _ (decimal : ℕ → Str) where
  mutual
    unfolding array_bson object_bson compound_object compound_vector

    object_lossless :
        (fs : Fields) (n : ℕ) → AreKnown fs → object_bson (compound_object decimal n fs) ≡ fs
    object_lossless no_field n h = refl
    object_lossless (field name (text s) fs) n h =
        ap (field name (text s)) (object_lossless fs (n + 1) h.1)
    object_lossless (field name (object gs) fs) n h =
        ap₂ (λ a b. field name (object a) b) (object_lossless gs 0 h.0)
          (object_lossless fs (n + 1) h.1)
    object_lossless (field name (array is) fs) n h =
        ap₂ (λ a b. field name (array a) b) (array_lossless is 0 0 h.0)
          (object_lossless fs (n + 1) h.1)
    object_lossless (field name other fs) n h = absurd h.0

    array_lossless :
        (is : Items) (i n : ℕ) → AllKnown is → array_bson (compound_vector decimal i n is) ≡ is
    array_lossless no_item i n h = refl
    array_lossless (item (text s) is) i n h =
        ap (item (text s)) (array_lossless is (i + 1) (n + 1) h.1)
    array_lossless (item (object fs) is) i n h =
        ap₂ (λ a b. item (object a) b) (object_lossless fs 0 h.0)
          (array_lossless is (i + 1) (n + 1) h.1)
    array_lossless (item (array js) is) i n h =
        ap₂ (λ a b. item (array a) b) (array_lossless js 0 0 h.0)
          (array_lossless is (i + 1) (n + 1) h.1)
    array_lossless (item other is) i n h = absurd h.0

mutual
  unfolding array_bson object_bson

  object_known : (ns : Nodes) → AreKnown (object_bson ns)
  object_known none_left = tt
  object_known (child (node string name value path level sibling ns) rest) = (tt, object_known rest)
  object_known (child (node vector name value path level sibling ns) rest) =
      (array_known ns, object_known rest)
  object_known (child (node objekt name value path level sibling ns) rest) =
      (object_known ns, object_known rest)
  object_known (child (node unknown name value path level sibling ns) rest) = object_known rest

  array_known : (ns : Nodes) → AllKnown (array_bson ns)
  array_known none_left = tt
  array_known (child (node string name value path level sibling ns) rest) = (tt, array_known rest)
  array_known (child (node vector name value path level sibling ns) rest) =
      (array_known ns, array_known rest)
  array_known (child (node objekt name value path level sibling ns) rest) =
      (object_known ns, array_known rest)
  array_known (child (node unknown name value path level sibling ns) rest) = array_known rest

-- Reading a stored compound value for a query loses nothing of it: what updateContext stores for a
-- compound value, object or vector, is what it would store for the value that a query reads from it,
-- at any depth.
pub compound_round_trip :
    (decimal : ℕ → Str) (ns : Nodes)
    → (object_bson (compound_object decimal 0 (object_bson ns)) ≡ object_bson ns)
      × (array_bson (compound_vector decimal 0 0 (array_bson ns)) ≡ array_bson ns)
compound_round_trip decimal ns = (
  object_lossless decimal (object_bson ns) 0 (object_known ns),
  array_lossless decimal (array_bson ns) 0 0 (array_known ns),
)
