-- ===== src/ConfigurationCenter.antt =====
-- configuration_center/zookeeper_configuration_center.py: settings read from ZooKeeper. What ZooKeeper
-- holds while a watcher runs is a tree, which answers the calls that the watcher makes.
pub mod Fetching
pub mod Keys
use summerrpc.Prelude.{ℕ, Bool, true, false, Option, none, some, List, [], ◌∷◌, ◌++◌, ◌≡◌, refl}
use summerrpc.Exceptions.{Class, attribute_error, runtime_error}
use summerrpc.Text.{Bytes}
use summerrpc.Tables.{Table, set_item, get_item}
use summerrpc.Messages.{Outcome, ok, raised, and_then}

-- `zookeeper.get`, the value and the version of a node, and `zookeeper.get_children`.
pub record Tree : Type 0 where
  pub get : Bytes → Outcome (Bytes × ℕ)
  pub get_children : Bytes → Outcome (List Bytes)

pub record Center : Type 0 where
  pub base_znode : Bytes
  pub handler : Option ℕ
  pub local_cache : Option (Table Bytes)
  pub main_version : Option ℕ

-- `__init__`
unfoldable pub init : Bytes → Center
init base_znode = record {
  base_znode = base_znode;
  handler = none;
  local_cache = none;
  main_version = none;
}

-- A state, and the exception that left the call, if any.
abbrev pub Call : Type 0
Call = Center × Option Class

abbrev pub started : Center → Outcome ℕ → Call
started self (raised c) = (self, some c)
started self (ok h) = (record self { handler = some h }, none)

-- `start`, with what `zookeeper.init` gives.
unfoldable pub start : Outcome ℕ → Center → Call
start made self = elim self.handler [ none ↦ started self made | some h ↦ (self, none) ]

-- path + "/" + child
abbrev pub child_path : Bytes → Bytes → Bytes
child_path path child = path ++ 47 ∷ child

-- The `for` loop over the children.
unfoldable pub fetch : Tree → Bytes → List Bytes → Table Bytes → Outcome (Table Bytes)
fetch tree path [] tmp_cache = ok tmp_cache
fetch tree path (child ∷ children) tmp_cache =
    and_then (tree.get (child_path path child))
      λ znode. fetch tree path children (set_item child znode.0 tmp_cache)

-- What `_real_start` reads: the version and the settings.
unfoldable pub fetch_all : Tree → Bytes → Outcome (ℕ × Table Bytes)
unfolding fetch
fetch_all tree path = and_then (tree.get path) λ znode.
    and_then (tree.get_children path)
      λ children. and_then (fetch tree path children []) λ tmp_cache. ok (znode.1, tmp_cache)

abbrev pub replaced : Center → Outcome (ℕ × Table Bytes) → Call
replaced self (raised c) = (self, some c)
replaced self (ok (version, cache)) =
    (record self { local_cache = some cache; main_version = some version }, none)

-- `_real_start`
unfoldable pub real_start : Tree → Bytes → Center → Call
real_start tree path self = replaced self (fetch_all tree path)

-- `_connection_state_watcher`; the flag says whether the state is that of a connection.
unfoldable pub connection_state_watcher : Bool → Tree → Center → Call
connection_state_watcher false tree self = (self, none)
connection_state_watcher true tree self = real_start tree self.base_znode self

-- `close`: the handler is forgotten even if `zookeeper.close` raises.
unfoldable pub close : Option Class → Center → Call
close closing self = elim self.handler [
  | none ↦ (self, none)
  | some h ↦ (record self { handler = none }, closing)
]

-- `get_key`; before the first fetch the cache is None, which has no `get`.
unfoldable pub get_key : Bytes → Center → Outcome (Option Bytes)
get_key key self = elim self.local_cache [
  | none ↦ raised attribute_error
  | some cache ↦ ok (get_item key cache)
]

-- `success` and `iteritems`
unfoldable pub success : Center → Bool
success self = elim self.local_cache [ none ↦ false | some cache ↦ true ]

unfoldable pub iteritems : Center → Outcome (Table Bytes)
iteritems self = elim self.local_cache [ none ↦ raised runtime_error | some cache ↦ ok cache ]

-- What happens to a center: calls of its methods, and of its two watchers.
pub data Event : Type 0 where
  starts : Outcome ℕ → Event
  state_changes : Bool → Tree → Event
  node_changes : Bytes → Tree → Event
  closes : Option Class → Event

unfoldable pub step : Center → Event → Center
unfolding connection_state_watcher
step self (starts made) = (start made self).0
step self (state_changes connected tree) = (connection_state_watcher connected tree self).0
step self (node_changes path tree) = (real_start tree path self).0
step self (closes closing) = (close closing self).0

unfoldable pub run : Center → List Event → Center
run self [] = self
run self (e ∷ es) = run (step self e) es
