-- ===== src/Models/Node.antt =====
-- vsm/kernel/models.py: the DataSpace and the recursive UVSMNode with its validator.
use nanihold_os.Prelude.{
  ℕ, nat_eq, String, Bool, true, false, Option, List, ◌&&◌, not, is_none, any, String-discrete,
}

pub data DataSpaceKind : Type 0 where
  personal company sandbox : DataSpaceKind

pub record DataSpace : Type 0 where
  pub data_space_id : String
  pub owner_id : String
  pub kind : DataSpaceKind
  pub lethe_location : String

pub data VsmFunction : Type 0 where
  s1 s2 s3 s3_star s4 s5 : VsmFunction

pub data NodeKind : Type 0 where
  organization unit interface experiment : NodeKind

pub data NodeStatus : Type 0 where
  active paused retired : NodeStatus

pub record UvsmNode : Type 0 where
  pub node_id : String
  pub data_space_id : String
  pub owner_id : String
  pub name : String
  pub kind : NodeKind
  pub parent_node_id : Option String
  pub resident_functions : List VsmFunction
  pub resident_s3_parent_function : VsmFunction
  pub status : NodeStatus
  pub memory_stream_id : String

pub UvsmNode-discrete : Discrete UvsmNode
UvsmNode-discrete = hlevel String-discrete

abbrev rank : VsmFunction → ℕ
rank VsmFunction.s1 = 1
rank VsmFunction.s2 = 2
rank VsmFunction.s3 = 3
rank VsmFunction.s3_star = 4
rank VsmFunction.s4 = 5
rank VsmFunction.s5 = 6

abbrev has_function : VsmFunction → List VsmFunction → Bool
has_function f fs = any (λ g. nat_eq (rank f) (rank g)) fs

abbrev is_interface : NodeKind → Bool
is_interface NodeKind.interface = true
is_interface _ = false

-- `UVSMNode.viable_and_interface_owned`: a frozenset that holds all six functions equals the
-- required one.
unfoldable pub viable_and_interface_owned : UvsmNode → Bool
viable_and_interface_owned n =
    let fs = n.resident_functions in
    (has_function VsmFunction.s1 fs
      && has_function VsmFunction.s2 fs
      && has_function VsmFunction.s3 fs
      && has_function VsmFunction.s3_star fs
      && has_function VsmFunction.s4 fs
      && has_function VsmFunction.s5 fs)
    && not (is_interface n.kind && not (is_none n.parent_node_id))
