-- ===== src/Compound.antt =====
-- src/lib/parse/CompoundValueNode.cpp: the tree of a compound value. A node's `container` and
-- `rootP` pointers are its place in the tree.
pub mod ToBson
pub mod FromBson
pub mod Check
mod Samples
use fiware_orion.Base.{
  ℕ, Str, ◌+◌, ◌&&◌, Bool, true, false, codes, ◌==◌, str_eq, ◌++◌, if◌then◌else◌,
}

pub data NodeType : Type 0 where
  string : NodeType
  objekt : NodeType
  vector : NodeType
  unknown : NodeType

mutual
  pub data Node : Type 0 where
    node : (type : NodeType) (name value path : Str) (level sibling : ℕ) → Nodes → Node

  pub data Nodes : Type 0 where
    none_left : Nodes
    child : Node → Nodes → Nodes
