-- ===== src/Tests/Registries.antt =====
-- The exporter, URLs and the registry: the theorems at concrete inputs.
use summerrpc.Prelude.{
  Bool, drop, ◌≡◌, refl, sym, ap, ◌∙◌, true, false, Option, none, some, List, [], ◌∷◌,
  if◌then◌else◌, arith, ◌&&◌, All, Bool-cases, inl, inr,
}
use summerrpc.Prelude.Int.{pos}
use summerrpc.Text.{Bytes, codes, same, split_once}
use summerrpc.Text.Laws.{same-eq}
use summerrpc.Tables.{get_item, set_item, get_item-set_item}
use summerrpc.Exporter
use summerrpc.Exporter.Names
use summerrpc.Url
use summerrpc.Url.Queries
use summerrpc.Registry
use summerrpc.Registry.Entries
use summerrpc.Registry.Nodes

abbrev service_class : Exporter.Cls
service_class = record {
  name = codes "Service";
  exported_as = some (codes "service");
  attributes =
      record { attr_name = codes "add"; is_method = true; provided = none; in_subprocess = none }
      ∷ record {
        attr_name = codes "sum";
        is_method = true;
        provided = some (record { name = codes "add"; filtered = false });
        in_subprocess = none;
      }
      ∷ record {
        attr_name = codes "_help";
        is_method = true;
        provided = none;
        in_subprocess = none;
      }
      ∷ [];
}

get_method-export_example :
    Exporter.get_method
      (codes "service")
      (codes "add")
      (Exporter.export (some service_class) false Exporter.empty)
    ≡ (if Names.is_taken service_class false Exporter.empty
          && same (Exporter.class_name_of service_class) (codes "service")
        then Names.last_named (codes "add") 0 service_class.attributes none
        else Exporter.get_method (codes "service") (codes "add") Exporter.empty)
get_method-export_example =
    Names.get_method-export service_class false Exporter.empty (codes "service") (codes "add")

as_added : Url.Arguments → Url.Arguments
as_added t = t

as_added-Reorders : Queries.Reorders as_added
unfolding as_added
as_added-Reorders = record { keeps = λ P t h. h; distinct = λ t d. d; finds = λ t k d. refl }

abbrev colours : List (Bytes × Bytes)
colours = (codes "c", codes "red") ∷ (codes "n", codes "1") ∷ (codes "c", codes "blue=") ∷ []

colours-IsPlain : All Queries.IsPlain colours
colours-IsPlain = (
  record { key_equals = omega arith; key_and = omega arith; value_and = omega arith },
  (
    record { key_equals = omega arith; key_and = omega arith; value_and = omega arith },
    (record { key_equals = omega arith; key_and = omega arith; value_and = omega arith }, tt),
  ),
)

parse_query-query_text_example :
    get_item
      (codes "c")
      (Url.parse_query (λ s. s) (Url.query_text (as_added (Queries.add_arguments colours []))))
    ≡ Queries.grouped (codes "c") colours none
parse_query-query_text_example =
    Queries.parse_query-query_text as_added colours (codes "c") as_added-Reorders colours-IsPlain

abbrev adder : Entries.Service
adder = record {
  transport = codes "record";
  host = codes "10.0.0.1";
  port = 80;
  class_name = codes "service";
  method_name = codes "add";
  serializer = codes "json";
  max_buffer_size = 100;
}

abbrev adder_builder : Url.Builder
adder_builder = record {
  scheme = some (codes "record");
  host = some (codes "10.0.0.1");
  port = some 80;
  path = codes "/service/add";
  query_arguments =
      (codes "serializer", codes "json" ∷ []) ∷ (codes "max_buffer_size", codes "100" ∷ []) ∷ [];
  fragment = none;
}

abbrev no_parts : Registry.Parsed
no_parts = record { scheme = []; netloc = []; path = []; query = [] }

-- A `urlparse` for URLs with a scheme, a path and a query.
abbrev parse_path : Bytes → Bytes → Option (Bytes × Bytes) → Registry.Parsed
parse_path scheme netloc none = no_parts
parse_path scheme netloc (some (path, query)) = record {
  scheme = scheme;
  netloc = netloc;
  path = 47 ∷ path;
  query = query;
}

abbrev parse_netloc : Bytes → Option (Bytes × Bytes) → Registry.Parsed
parse_netloc scheme none = no_parts
parse_netloc scheme (some (netloc, rest)) = parse_path scheme netloc (split_once 63 rest)

abbrev parse_scheme : Option (Bytes × Bytes) → Registry.Parsed
parse_scheme none = no_parts
parse_scheme (some (scheme, rest)) = parse_netloc scheme (split_once 47 (drop 2 rest))

abbrev one_url : Registry.Urllib
one_url = record { unquote = λ s. s; urlparse = λ s. parse_scheme (split_once 58 s) }

abbrev adder_url : Bytes
adder_url = Url.build as_added adder_builder

abbrev empty_registry : Registry.Registry
empty_registry = record {
  base_znode = codes "/rpc";
  register_handler = none;
  register_entry_set = [];
  delete_if_exists = true;
  discovery_handler = some 1;
  local_cache = [];
}

abbrev adder_address : Registry.Remote
adder_address = record { host = codes "10.0.0.1"; port = pos 80 }

abbrev filled_registry : Registry.Registry
filled_registry = record empty_registry {
  local_cache =
      (
        record { scheme = codes "record"; path = codes "/service/add"; serializer = codes "json" },
        adder_address ∷ [],
      )
      ∷ [];
}

abbrev remove_item : Bytes → List (Bytes × Bytes) → List (Bytes × Bytes)
remove_item p [] = []
remove_item p ((k, v) ∷ ps) =
    let rest = remove_item p ps in if same k p then rest else (k, v) ∷ rest

get_item-remove_item :
    (p : Bytes) (ps : List (Bytes × Bytes)) (q : Bytes)
    → get_item q (remove_item p ps) ≡ (if same p q then none else get_item q ps)
get_item-remove_item p [] q = ground arith
get_item-remove_item p ((k, v) ∷ ps) q =
    let ih = get_item-remove_item p ps q in
    elim (Bool-cases (same k p)) [
      | inl e ↦
          let z : same k q ≡ same p q = ap (λ x. same x q) (same-eq k p e) in
          ground (arith, e, z, ih)
      | inr e ↦ elim (Bool-cases (same p q)) [
        | inl f ↦
            let z : same k q ≡ false = ap (same k) (sym (same-eq p q f)) ∙ e in
            ground (arith, e, f, z, ih)
        | inr f ↦ ground (arith, e, f, ih)
      ]
    ]

abbrev create_in :
    Bytes → Bytes → List (Bytes × Bytes) → Option Bytes → Nodes.Answer (List (Bytes × Bytes))
create_in p v s none = Nodes.done (set_item p v s)
create_in p v s (some w) = Nodes.node_exists s

abbrev delete_in : Bytes → List (Bytes × Bytes) → Option Bytes → Nodes.Answer (List (Bytes × Bytes))
delete_in p s none = Nodes.no_node s
delete_in p s (some w) = Nodes.done (remove_item p s)

-- A store of nodes below one directory, which has to be there.
abbrev below :
    List (Bytes × Bytes)
    → Option Bytes
    → Nodes.Answer (List (Bytes × Bytes))
    → Nodes.Answer (List (Bytes × Bytes))
below s none answer = Nodes.no_node s
below s (some w) answer = answer

abbrev table_keeper : Nodes.Zookeeper (List (Bytes × Bytes))
table_keeper = record {
  create = λ p v s. below s (get_item (codes "/rpc") s) (create_in p v s (get_item p s));
  delete = λ p s. delete_in p s (get_item p s);
}

abbrev HasBase : List (Bytes × Bytes) → Type 0
HasBase s = (w : Bytes) × (get_item (codes "/rpc") s ≡ some w)

-- A node below the directory is another one.
child_other : (child : Bytes) → same (Nodes.znode_of (codes "/rpc") child) (codes "/rpc") ≡ false
child_other child = refl

table_keeper-IsStore : Nodes.IsStore (List (Bytes × Bytes)) table_keeper (codes "/rpc")
table_keeper-IsStore = record {
  get = get_item;
  ready = HasBase;
  create_new = λ child v s fit (w, r) e.
      let p = Nodes.znode_of (codes "/rpc") child in
      (
        set_item p v s,
        ap (λ o. below s o (create_in p v s (get_item p s))) r ∙ ap (create_in p v s) e,
        (
          w,
          get_item-set_item p v s (codes "/rpc")
              ∙ ap (λ (b : Bool). if b then some v else get_item (codes "/rpc") s)
                  (child_other child)
              ∙ r,
        ),
        λ q. get_item-set_item p v s q,
      );
  create_old = λ child v w s fit (w', r) e.
      let p = Nodes.znode_of (codes "/rpc") child in
      ap (λ o. below s o (create_in p v s (get_item p s))) r ∙ ap (create_in p v s) e;
  delete_old = λ child w s fit (w', r) e.
      let p = Nodes.znode_of (codes "/rpc") child in
      (
        remove_item p s,
        ap (delete_in p s) e,
        (
          w',
          get_item-remove_item p s (codes "/rpc")
              ∙ ap (λ (b : Bool). if b then none else get_item (codes "/rpc") s) (child_other child)
              ∙ r,
        ),
        λ q. get_item-remove_item p s q,
      );
}

abbrev old_nodes : List (Bytes × Bytes)
old_nodes = (codes "/rpc", []) ∷ (codes "/rpc/a", codes "1") ∷ (codes "/rpc/c", codes "3") ∷ []

abbrev entries : List (Bytes × Bytes)
entries = (codes "a", codes "10") ∷ (codes "b", codes "20") ∷ []
