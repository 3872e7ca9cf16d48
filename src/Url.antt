-- ===== src/Url.antt =====
-- helper/url.py: building a URL and parsing a query. `quote` and `unquote` are urllib's, and the
-- order in which a dict is iterated is the interpreter's.
pub mod Queries
use summerrpc.Prelude.{
  ℕ, Bool, true, false, Option, none, some, List, [], ◌∷◌, ◌++◌, if◌then◌else◌, not, ◌==◌, map,
}
use summerrpc.Prelude.Int.{ℤ, pos, negsuc}
use summerrpc.Exceptions.{Class, type_error, value_error}
use summerrpc.Text.{Bytes, codes, is_nil, decimal, split_once, split_all, join_with}
use summerrpc.Tables.{Table, append_item}
use summerrpc.Messages.{Outcome, ok, raised}

abbrev pub Arguments : Type 0
Arguments = Table (List Bytes)

-- The `for` loop of `parse_query`; an item without "=" is passed over. `unquote` is the identity
-- unless the caller asks for it.
unfoldable pub parse_items : (Bytes → Bytes) → List Bytes → Arguments → Arguments
unfolding split_once
parse_items unquote [] query = query
parse_items unquote (item ∷ items) query = elim (split_once 61 item) [
  | none ↦ parse_items unquote items query
  | some (k, v) ↦ parse_items unquote items (append_item (unquote k) (unquote v) query)
]

unfoldable pub parse_query : (Bytes → Bytes) → Bytes → Arguments
unfolding parse_items split_all
parse_query unquote qr = parse_items unquote (split_all 38 qr) []

pub record Builder : Type 0 where
  pub scheme : Option Bytes
  pub host : Option Bytes
  pub port : Option ℕ
  pub path : Bytes
  pub query_arguments : Arguments
  pub fragment : Option Bytes

-- `URLBuilder.__init__`
unfoldable pub init : Builder
init = record {
  scheme = none;
  host = none;
  port = none;
  path = [];
  query_arguments = [];
  fragment = none;
}

unfoldable pub with_scheme : Bytes → Builder → Builder
with_scheme scheme self = record self { scheme = some scheme }

unfoldable pub with_host : Bytes → Builder → Builder
with_host host self = record self { host = some host }

-- `none` is a value of another type, here and below.
unfoldable pub with_port : Option ℤ → Builder → Outcome Builder
with_port none self = raised type_error
with_port (some (negsuc n)) self = raised value_error
with_port (some (pos n)) self = ok (record self { port = some n })

-- `path.startswith("/")`, unless it is empty
abbrev pub is_path : Bytes → Bool
is_path [] = true
is_path (c ∷ s) = c == 47

unfoldable pub with_path : Option Bytes → Builder → Outcome Builder
with_path none self = raised type_error
with_path (some path) self =
    if not (is_path path) then raised value_error else ok (record self { path = path })

unfoldable pub with_argument : Option Bytes → Option Bytes → Builder → Outcome Builder
with_argument none v self = raised type_error
with_argument (some k) none self = raised type_error
with_argument (some k) (some v) self =
    ok (record self { query_arguments = append_item k v self.query_arguments })

unfoldable pub with_fragment : Option Bytes → Builder → Outcome Builder
with_fragment none self = raised type_error
with_fragment (some fragment) self = ok (record self { fragment = some fragment })

-- `"%s=%s" % (k, v)`
abbrev pub argument : Bytes × Bytes → Bytes
argument (k, v) = k ++ 61 ∷ v

-- The two nested loops over the arguments.
abbrev pub of_key : Bytes → List Bytes → List (Bytes × Bytes)
of_key k [] = []
of_key k (v ∷ vs) = (k, v) ∷ of_key k vs

abbrev pub flatten : Arguments → List (Bytes × Bytes)
flatten [] = []
flatten ((k, vs) ∷ t) = of_key k vs ++ flatten t

unfoldable pub query_text : Arguments → Bytes
unfolding join_with
query_text t = join_with 38 (map argument (flatten t))

abbrev scheme_text : Option Bytes → Bytes
scheme_text none = codes "//"
scheme_text (some scheme) = scheme ++ codes "://"

abbrev pub netloc_text : Option Bytes → Option ℕ → Bytes
netloc_text none port = []
netloc_text (some host) none = host
netloc_text (some host) (some port) = host ++ 58 ∷ decimal port

abbrev query_part : (Arguments → Arguments) → Arguments → Bytes
query_part in_order [] = []
query_part in_order (p ∷ ps) = 63 ∷ query_text (in_order (p ∷ ps))

abbrev fragment_part : Option Bytes → Bytes
fragment_part none = []
fragment_part (some []) = []
fragment_part (some (c ∷ s)) = 35 ∷ c ∷ s

-- `build()`; with `quote_url`, `quote` is applied to it.
unfoldable pub build : (Arguments → Arguments) → Builder → Bytes
unfolding query_text decimal
build in_order self =
    scheme_text self.scheme
    ++ (netloc_text self.host self.port
        ++ (self.path ++ (query_part in_order self.query_arguments ++ fragment_part self.fragment)))
