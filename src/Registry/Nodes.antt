-- ===== src/Registry/Nodes.antt =====
-- registry.py: `_real_register`, which creates a node for each entry. ZooKeeper is a store with two
-- operations that are parameters.
use summerrpc.Prelude.{
  ℕ, zero, suc, ◌≡◌, Bool, Option, none, some, List, [], ◌∷◌, ◌++◌, if◌then◌else◌,
}
use summerrpc.Text.{Bytes, codes, same}
use summerrpc.Text.Laws.{Lacks}

-- How ZooKeeper answers: it is done, or raises NodeExistsException, NoNodeException or another.
pub data Answer (S : Type 0) : Type 0 where
  done : S → Answer S
  node_exists : S → Answer S
  no_node : S → Answer S
  failed : S → Answer S

pub record Zookeeper (S : Type 0) : Type 0 where
  pub create : Bytes → Bytes → S → Answer S
  pub delete : Bytes → S → Answer S

pub data Ended (S : Type 0) : Type 0 where
  registered : S → Ended S
  raised : S → Ended S
  out_of_fuel : S → Ended S

-- The path of an entry below the base node.
abbrev pub znode_of : Bytes → Bytes → Bytes
znode_of base child =
    if same base (codes "/") then codes "/" ++ child else base ++ (codes "/" ++ child)

-- What follows `delete`, which may find that the node is gone.
abbrev after_delete : {S : Type 0} → (S → Ended S) → Answer S → Ended S
after_delete again (done s) = again s
after_delete again (no_node s) = again s
after_delete again (node_exists s) = raised s
after_delete again (failed s) = raised s

abbrev after_create : {S : Type 0} → Bool → (S → Answer S) → (S → Ended S) → Answer S → Ended S
after_create delete_if_exists remove again (done s) = registered s
after_create delete_if_exists remove again (node_exists s) =
    if delete_if_exists then after_delete again (remove s) else raised s
after_create delete_if_exists remove again (no_node s) = raised s
after_create delete_if_exists remove again (failed s) = raised s

-- The `while True` loop for one entry.
unfoldable pub register_node : {S : Type 0} → Zookeeper S → Bool → ℕ → Bytes → Bytes → S → Ended S
register_node zk delete_if_exists zero znode value s = out_of_fuel s
register_node zk delete_if_exists (suc fuel) znode value s =
    after_create delete_if_exists (zk.delete znode)
      (register_node zk delete_if_exists fuel znode value) (zk.create znode value s)

abbrev and_next : {S : Type 0} → (S → Ended S) → Ended S → Ended S
and_next k (registered s) = k s
and_next k (raised s) = raised s
and_next k (out_of_fuel s) = out_of_fuel s

-- `_real_register`
unfoldable pub real_register :
    {S : Type 0} → Zookeeper S → Bool → ℕ → Bytes → List (Bytes × Bytes) → S → Ended S
unfolding register_node
real_register zk delete_if_exists fuel base [] s = registered s
real_register zk delete_if_exists fuel base ((child, value) ∷ entries) s =
    and_next (real_register zk delete_if_exists fuel base entries)
      (register_node zk delete_if_exists fuel (znode_of base child) value s)

-- The name of a node right below another: it is not empty and has no slash.
abbrev pub IsChild : Bytes → Type 0
IsChild [] = ⊥
IsChild (c ∷ s) = Lacks 47 (c ∷ s)

-- What ZooKeeper does with the nodes right below `base`, in a state in which `base` is there and none
-- of these has children, while no one else writes to it: a node is created unless it exists, and an
-- existing one is deleted.
pub record IsStore (S : Type 0) (zk : Zookeeper S) (base : Bytes) : Type 1 where
  pub get : Bytes → S → Option Bytes
  pub ready : S → Type 0
  pub create_new :
      (child v : Bytes) (s : S)
      → IsChild child
      → ready s
      → get (znode_of base child) s ≡ none
      → (t : S) × (zk.create (znode_of base child) v s ≡ done t)
        × ready t
        × ((q : Bytes) → get q t ≡ (if same (znode_of base child) q then some v else get q s))
  pub create_old :
      (child v w : Bytes) (s : S)
      → IsChild child
      → ready s
      → get (znode_of base child) s ≡ some w
      → zk.create (znode_of base child) v s ≡ node_exists s
  pub delete_old :
      (child w : Bytes) (s : S)
      → IsChild child
      → ready s
      → get (znode_of base child) s ≡ some w
      → (t : S) × (zk.delete (znode_of base child) s ≡ done t)
        × ready t
        × ((q : Bytes) → get q t ≡ (if same (znode_of base child) q then none else get q s))

-- What a path holds once the entries are written over what it held.
abbrev pub placed : Bytes → List (Bytes × Bytes) → Bytes → Option Bytes → Option Bytes
placed base [] q held = held
placed base ((child, value) ∷ entries) q held =
    placed base entries q (if same (znode_of base child) q then some value else held)

module _ {S : Type 0} (zk : Zookeeper S) (base : Bytes) (store : IsStore S zk base) where
  abbrev Registers : Bytes → Bytes → S → Ended S → Type 0
  Registers p v s r =
      (t : S) × (r ≡ registered t)
      × store.ready t
      × ((q : Bytes) → store.get q t ≡ (if same p q then some v else store.get q s))
