-- ===== src/Registry.antt =====
-- registry.py and cluster.py: where a client finds the servers of a method. `unquote` and
-- `urlparse` are the standard library's, and ZooKeeper is a service.
pub mod Remotes
pub mod Entries
pub mod Nodes
use summerrpc.Prelude.{
  ℕ, zero, suc, Bool, true, false, Option, none, some, List, [], ◌∷◌, ◌++◌, if◌then◌else◌, not,
  ◌==◌, ◌&&◌, ◌||◌, length, ltb,
}
use summerrpc.Prelude.Int.{ℤ}
use summerrpc.Exceptions.{Class, runtime_error, type_error, value_error, index_error}
use summerrpc.Text.{Bytes, codes, same, strip, signed, split_once}
use summerrpc.Tables.{get_item}
use summerrpc.Messages.{Outcome, ok, raised}
use summerrpc.Url.{parse_query}

-- What `urlparse` gives, as far as it is used.
pub record Parsed : Type 0 where
  pub scheme : Bytes
  pub netloc : Bytes
  pub path : Bytes
  pub query : Bytes

pub record Urllib : Type 0 where
  pub unquote : Bytes → Bytes
  pub urlparse : Bytes → Parsed

-- An address, and a key of the cache: the transport, the path and the serializer.
pub record Remote : Type 0 where
  pub host : Bytes
  pub port : ℤ

pub record Key : Type 0 where
  pub scheme : Bytes
  pub path : Bytes
  pub serializer : Bytes

abbrev pub same_key : Key → Key → Bool
same_key a b = same a.scheme b.scheme && (same a.path b.path && same a.serializer b.serializer)

abbrev pub Cache : Type 0
Cache = List (Key × List Remote)

-- `temp_cache.setdefault(k, []).append(v)`
abbrev pub add_remote : Key → Remote → Cache → Cache
add_remote k v [] = (k, v ∷ []) ∷ []
add_remote k v ((j, vs) ∷ c) =
    let rest = add_remote k v c in if same_key j k then (j, vs ++ v ∷ []) ∷ c else (j, vs) ∷ rest

-- `cache.get(k, [])`
abbrev pub find_remotes : Key → Cache → List Remote
find_remotes k [] = []
find_remotes k ((j, vs) ∷ c) = let rest = find_remotes k c in if same_key j k then vs else rest

-- What one child of the base node is: passed over, a remote, or an error.
pub data Child : Type 0 where
  skipped : Child
  remote : Key → Remote → Child
  refused : Class → Child

-- `host, port = ...; int(port)`
abbrev pub netloc_of : Parsed → Bytes → Option (Bytes × Bytes) → Child
netloc_of url serializer none = skipped
netloc_of url serializer (some (host, port)) = elim (signed (strip port)) [
  | none ↦ refused value_error
  | some n ↦
      remote (record { scheme = url.scheme; path = url.path; serializer = serializer })
        (record { host = host; port = n })
]

abbrev pub serializer_of : Parsed → Option (List Bytes) → Child
serializer_of url none = skipped
serializer_of url (some []) = refused index_error
serializer_of url (some (serializer ∷ more)) = netloc_of url serializer (split_once 58 url.netloc)

unfoldable pub child_of : Urllib → Bytes → Child
unfolding parse_query split_once signed
child_of lib child =
    let url = lib.urlparse (lib.unquote child) in
    serializer_of url (get_item (codes "serializer") (parse_query (λ s. s) url.query))

abbrev pub add_child : Child → Cache → Outcome Cache
add_child skipped cache = ok cache
add_child (remote k v) cache = ok (add_remote k v cache)
add_child (refused c) cache = raised c

-- The `for` loop of `_real_discovery`, with the new cache.
unfoldable pub discover_from : Urllib → List Bytes → Cache → Outcome Cache
unfolding child_of
discover_from lib [] cache = ok cache
discover_from lib (child ∷ children) cache = elim (add_child (child_of lib child) cache) [
  | ok more ↦ discover_from lib children more
  | raised c ↦ raised c
]

-- `ZookeeperRegistry`; the handlers are numbers.
pub record Registry : Type 0 where
  pub base_znode : Bytes
  pub register_handler : Option ℕ
  pub register_entry_set : List (Bytes × Bytes)
  pub delete_if_exists : Bool
  pub discovery_handler : Option ℕ
  pub local_cache : Cache

abbrev pub ends_with_slash : Bytes → Bool
ends_with_slash [] = false
ends_with_slash (c ∷ []) = c == 47
ends_with_slash (c ∷ d ∷ s) = ends_with_slash (d ∷ s)

abbrev pub starts_with_slash : Bytes → Bool
starts_with_slash [] = false
starts_with_slash (c ∷ s) = c == 47

-- `__init__`; `none` is a base node that is no text.
unfoldable pub init : Option Bytes → Outcome Registry
init none = raised runtime_error
init (some base) =
    if not (starts_with_slash base) || (not (same base (codes "/")) && ends_with_slash base)
    then raised runtime_error
    else ok (record {
      base_znode = base;
      register_handler = none;
      register_entry_set = [];
      delete_if_exists = true;
      discovery_handler = none;
      local_cache = [];
    })

-- `register`; `handler` is what `zookeeper.init` gives, `none` entries are of another type.
unfoldable pub register : ℕ → Option (List (Bytes × Bytes)) → Bool → Registry → Outcome Registry
register handler none delete_ self = raised type_error
register handler (some entries) delete_ self = elim self.register_handler [
  | some h ↦ raised runtime_error
  | none ↦ ok (record self {
    register_entry_set = entries;
    delete_if_exists = delete_;
    register_handler = some handler;
  })
]

-- `discovery`
unfoldable pub discovery : ℕ → Registry → Outcome Registry
discovery handler self = elim self.discovery_handler [
  | some h ↦ raised runtime_error
  | none ↦ ok (record self { discovery_handler = some handler })
]

-- `_real_discovery`: an error leaves the cache as it was.
unfoldable pub real_discovery : Urllib → List Bytes → Registry → Outcome Registry
unfolding discover_from
real_discovery lib children self = elim (discover_from lib children []) [
  | raised c ↦ raised c
  | ok cache ↦ ok (record self { local_cache = cache })
]

-- "/%s/%s" % (class_name, method_name)
abbrev pub method_path : Bytes → Bytes → Bytes
method_path class_name method_name = 47 ∷ class_name ++ 47 ∷ method_name

-- `get_remotes`
unfoldable pub get_remotes : Bytes → Bytes → Bytes → Bytes → Registry → List Remote
get_remotes class_name method_name transport serializer self =
    find_remotes
      (record {
        scheme = transport;
        path = method_path class_name method_name;
        serializer = serializer;
      })
      self.local_cache

-- `close`: errors of ZooKeeper are printed only.
unfoldable pub close : Registry → Registry
close self = record self { register_handler = none; discovery_handler = none; local_cache = [] }

-- `discovery_successfully`
unfoldable pub discovery_successfully : Registry → Bool
discovery_successfully self = ltb 0 (length self.local_cache)

-- `AbstractCluster.get_remote`; `choice` is `random.choice` in `RandomCluster`.
unfoldable pub get_remote :
    (Remote → List Remote → Remote) → Bytes → Bytes → Bytes → Bytes → Registry → Option Remote
unfolding get_remotes
get_remote choice class_name method_name transport serializer self =
    elim (get_remotes class_name method_name transport serializer self) [
      | [] ↦ none
      | r ∷ rs ↦ some (choice r rs)
    ]
