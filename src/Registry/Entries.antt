-- ===== src/Registry/Entries.antt =====
-- rpc_server.py (`_register_if_necessary`) with helper/url.py and registry.py: the URL that a
-- server registers for a method, and the client that discovers it.
use summerrpc.Prelude.{ℕ, ◌≡◌, none, some, List, [], ◌∷◌, ◌++◌}
use summerrpc.Prelude.Int.{pos}
use summerrpc.Text.{Bytes, codes, decimal}
use summerrpc.Text.Laws.{Lacks}
use summerrpc.Messages.{Outcome, ok, and_then}
use summerrpc.Url.{
  Arguments, Builder, init, with_scheme, with_host, with_port, with_path, with_argument, build,
  query_text, netloc_text,
}
use summerrpc.Url.Queries.{Reorders, add_arguments}
use summerrpc.Registry.{Parsed, Urllib, Registry, method_path}

-- What a server knows of a method that it exports.
pub record Service : Type 0 where
  pub transport : Bytes
  pub host : Bytes
  pub port : ℕ
  pub class_name : Bytes
  pub method_name : Bytes
  pub serializer : Bytes
  pub max_buffer_size : ℕ

-- The chain of calls of `_register_if_necessary`, up to `build`.
unfoldable pub register_builder : Service → Outcome Builder
unfolding with_scheme with_host with_port with_path with_argument init
register_builder s =
    and_then (with_port (some (pos s.port)) (with_host s.host (with_scheme s.transport init))) λ a.
      and_then (with_path (some (method_path s.class_name s.method_name)) a) λ b.
        and_then (with_argument (some (codes "serializer")) (some s.serializer) b)
          λ c. with_argument (some (codes "max_buffer_size")) (some (decimal s.max_buffer_size)) c

abbrev arguments : Service → List (Bytes × Bytes)
arguments s =
    (codes "serializer", s.serializer) ∷ (codes "max_buffer_size", decimal s.max_buffer_size) ∷ []

-- The parts of the URL.
abbrev pub parts : (Arguments → Arguments) → Service → Parsed
parts in_order s = record {
  scheme = s.transport;
  netloc = netloc_text (some s.host) (some s.port);
  path = method_path s.class_name s.method_name;
  query = query_text (in_order (add_arguments (arguments s) []));
}

-- No part has the character that ends it in a URL: the scheme a ":", what stands before the path any of
-- "/", "?" and "#", the path any of ";", "?" and "#", and the query a "#".
pub record IsClean (p : Parsed) : Type 0 where
  pub scheme_colon : Lacks 58 p.scheme
  pub netloc_slash : Lacks 47 p.netloc
  pub netloc_question : Lacks 63 p.netloc
  pub netloc_hash : Lacks 35 p.netloc
  pub path_semicolon : Lacks 59 p.path
  pub path_question : Lacks 63 p.path
  pub path_hash : Lacks 35 p.path
  pub query_hash : Lacks 35 p.query

-- `urlparse` takes a URL with such parts apart; the path begins with its slash.
abbrev pub IsUrlparse : (Bytes → Parsed) → Type 0
IsUrlparse urlparse =
    (scheme netloc path query : Bytes)
    → let p : Parsed = record {
      scheme = scheme;
      netloc = netloc;
      path = 47 ∷ path;
      query = query;
    } in
      IsClean p → urlparse (scheme ++ (codes "://" ++ (netloc ++ (47 ∷ path ++ 63 ∷ query)))) ≡ p

-- What the registering of a service relies on: the builder's URL survives quoting, its parts are clean
-- and `urlparse` takes such URLs apart; the host has no colon, and the serializer's name no "&".
pub record Registers (lib : Urllib) (quote : Bytes → Bytes) (in_order : Arguments → Arguments)
    (s : Service) (b : Builder) : Type 1 where
  pub built : register_builder s ≡ ok b
  pub unquoted : lib.unquote (quote (build in_order b)) ≡ build in_order b
  pub parses : IsUrlparse lib.urlparse
  pub clean : IsClean (parts in_order s)
  pub reorders : Reorders in_order
  pub host_colon : Lacks 58 s.host
  pub serializer_and : Lacks 38 s.serializer

-- The builder after the chain of calls.
abbrev built_of : Service → Builder
built_of s = record {
  scheme = some s.transport;
  host = some s.host;
  port = some s.port;
  path = method_path s.class_name s.method_name;
  query_arguments = add_arguments (arguments s) [];
  fragment = none;
}
