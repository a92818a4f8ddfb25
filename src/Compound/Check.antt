-- ===== src/Compound/Check.antt =====
-- check and finish of src/lib/parse/CompoundValueNode.cpp: the names of the children of vectors and
-- objects.
use fiware_orion.Base.{
  Str, ◌≡◌, ◌≢◌, ◌↔◌, ◌==◌, str_eq, false, Option, none, some, List, [], ◌∷◌, ◌++◌, codes, any, All,
  if◌then◌else◌, arith, str_beq_iff,
}
use fiware_orion.Compound.{Node, node, Nodes, none_left, child, string, objekt, vector, unknown}

-- The two errors, and their texts.
pub data NodeError : Type 0 where
  bad_item : (found expected : Str) → NodeError
  duplicated : (name path : Str) → NodeError

unfoldable pub message : NodeError → Str
message (bad_item found expected) =
    codes "bad tag-name of vector item: /"
    ++ (found ++ (codes "/, should be /" ++ (expected ++ codes "/")))
message (duplicated name path) =
    codes "duplicated tag-name: /" ++ (name ++ (codes "/ in path: " ++ path))

unfoldable pub node_name : Node → Str
node_name (node type name value path level sibling ns) = name

unfoldable pub names : Nodes → List Str
names none_left = []
names (child n ns) = node_name n ∷ names ns

-- The loop over a vector: the first child with another name than the first one.
unfoldable pub first_other : Str → List Str → Option NodeError
first_other n [] = none
first_other n (m ∷ ms) = if m == n then first_other n ms else some (bad_item m n)

unfoldable pub vector_error : List Str → Option NodeError
vector_error [] = none
vector_error (n ∷ ns) = first_other n ns

-- The two loops over an object: the first child with a later one of its name.
unfoldable pub object_error : Str → List Str → Option NodeError
object_error path [] = none
object_error path (n ∷ ns) =
    if any (λ m. n == m) ns then some (duplicated n path) else object_error path ns

-- Where a node has an error of its own, its children are not checked.
unfoldable pub own_or_below : Option NodeError → Option NodeError → Option NodeError
own_or_below none below = below
own_or_below (some e) below = some e

-- `rootP->error`, before and after: a later error overwrites an earlier one.
unfoldable mutual
  pub check_node : Node → Option NodeError → Option NodeError
  check_node (node vector name value path level sibling ns) err =
      own_or_below (vector_error (names ns)) (check_nodes ns err)
  check_node (node objekt name value path level sibling ns) err =
      own_or_below (object_error path (names ns)) (check_nodes ns err)
  check_node (node string name value path level sibling ns) err = err
  check_node (node unknown name value path level sibling ns) err = err

  pub check_nodes : Nodes → Option NodeError → Option NodeError
  check_nodes none_left err = err
  check_nodes (child n ns) err = check_nodes ns (check_node n err)

-- `error` of the root: "OK" where nothing was stored.
unfoldable pub report : Option NodeError → Str
report none = codes "OK"
report (some e) = message e

unfoldable pub finish : Node → Str
finish n = report (check_node n none)

-- All names are that of the first child.
abbrev pub HasOneName : List Str → Type 0
HasOneName [] = Unit
HasOneName (n ∷ ns) = All (λ m. m ≡ n) ns

-- No name stands twice.
abbrev pub IsDistinct : List Str → Type 0
IsDistinct [] = Unit
IsDistinct (n ∷ ns) = All (λ m. n ≢ m) ns × IsDistinct ns

-- A vector has one name for its children and an object distinct ones, and so on below.
unfoldable mutual
  pub IsWellFormed : Node → Type 0
  IsWellFormed (node vector name value path level sibling ns) =
      HasOneName (names ns) × AreWellFormed ns
  IsWellFormed (node objekt name value path level sibling ns) =
      IsDistinct (names ns) × AreWellFormed ns
  IsWellFormed (node string name value path level sibling ns) = Unit
  IsWellFormed (node unknown name value path level sibling ns) = Unit

  pub AreWellFormed : Nodes → Type 0
  AreWellFormed none_left = Unit
  AreWellFormed (child n ns) = IsWellFormed n × AreWellFormed ns

first_other_iff : (n : Str) (ns : List Str) → (first_other n ns ≡ none) ↔ All (λ m. m ≡ n) ns
unfolding first_other
first_other_iff n [] = ground arith
first_other_iff n (m ∷ ms) = ground (arith, str_beq_iff m n, first_other_iff n ms)

vector_error_iff : (ns : List Str) → (vector_error ns ≡ none) ↔ HasOneName ns
unfolding vector_error
vector_error_iff [] = ground arith
vector_error_iff (n ∷ ns) = first_other_iff n ns

none_same_iff : (n : Str) (ns : List Str) → (any (λ m. n == m) ns ≡ false) ↔ All (λ m. n ≢ m) ns
unfolding any
none_same_iff n [] = ground arith
none_same_iff n (m ∷ ms) = ground (arith, str_beq_iff n m, none_same_iff n ms)

object_error_iff : (path : Str) (ns : List Str) → (object_error path ns ≡ none) ↔ IsDistinct ns
unfolding object_error
object_error_iff path [] = ground arith
object_error_iff path (n ∷ ns) = ground (arith, none_same_iff n ns, object_error_iff path ns)

own_or_below_iff :
    (own below : Option NodeError)
    → (own_or_below own below ≡ none) ↔ ((own ≡ none) × (below ≡ none))
unfolding own_or_below
own_or_below_iff none below = ground arith
own_or_below_iff (some e) below = ground arith

mutual
  unfolding check_node IsWellFormed

  check_node_iff :
      (n : Node) (err : Option NodeError)
      → (check_node n err ≡ none) ↔ ((err ≡ none) × IsWellFormed n)
  check_node_iff (node vector name value path level sibling ns) err = ground (
    arith,
    own_or_below_iff (vector_error (names ns)) (check_nodes ns err),
    vector_error_iff (names ns),
    check_nodes_iff ns err,
  )
  check_node_iff (node objekt name value path level sibling ns) err = ground (
    arith,
    own_or_below_iff (object_error path (names ns)) (check_nodes ns err),
    object_error_iff path (names ns),
    check_nodes_iff ns err,
  )
  check_node_iff (node string name value path level sibling ns) err = ground arith
  check_node_iff (node unknown name value path level sibling ns) err = ground arith

  check_nodes_iff :
      (ns : Nodes) (err : Option NodeError)
      → (check_nodes ns err ≡ none) ↔ ((err ≡ none) × AreWellFormed ns)
  check_nodes_iff none_left err = ground arith
  check_nodes_iff (child n ns) err =
      ground (arith, check_nodes_iff ns (check_node n err), check_node_iff n err)

message-not_ok : (e : NodeError) → message e ≢ codes "OK"
unfolding message
message-not_ok (bad_item found expected) = ground arith
message-not_ok (duplicated name path) = ground arith

report_iff : (err : Option NodeError) → (report err ≡ codes "OK") ↔ (err ≡ none)
unfolding report
report_iff none = ground arith
report_iff (some e) = ground (arith, message-not_ok e)

-- A compound value passes the check exactly if, at every level, the children of a vector have one
-- name and those of an object have distinct names.
pub finish_iff : (n : Node) → (finish n ≡ codes "OK") ↔ IsWellFormed n
unfolding finish
finish_iff n = ground (arith, check_node_iff n none, report_iff (check_node n none))
