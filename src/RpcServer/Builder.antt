-- ===== src/RpcServer/Builder.antt =====
-- rpc_server.py: `RpcServerBuilder`, whose setters check a Python value of any type.
pub mod Sizes
use summerrpc.Prelude.{
  ℕ, zero, suc, ◌+◌, ◌*◌, Bool, true, false, Option, none, some, List, [], ◌∷◌, if◌then◌else◌,
}
use summerrpc.Prelude.Int.{ℤ, pos, negsuc}
use summerrpc.Exceptions.{Class, type_error, value_error, runtime_error}

-- A value as the tests with `isinstance` see it; objects are told apart by numbers. A `bool` is an
-- `int`.
pub data Value : Type 0 where
  none_value : Value
  int_value : ℤ → Value
  server_socket_value : (id : ℕ) (is_blocking : Bool) → Value
  exporter_value transport_value serializer_value ioloop_value registry_value other_value :
      ℕ → Value

pub data Outcome (A : Type 0) : Type 0 where
  ok : A → Outcome A
  raise : Class → Outcome A

pub record Builder : Type 0 where
  pub server_socket : Option ℕ
  pub exporter : Option ℕ
  pub transport : ℕ
  pub serializer : ℕ
  pub max_connections : ℕ
  pub concurrent_request_per_connection : ℕ
  pub max_buffer_size : ℕ
  pub ioloop : ℕ
  pub thread_pool_size : Option ℕ
  pub process_pool_size : Option ℕ
  pub max_idle_time : ℕ
  pub registry : Option ℕ

-- `__init__`, given the number of processors and the objects it makes.
unfoldable pub init : (cpu_count transport serializer ioloop : ℕ) → Builder
init cpu_count transport serializer ioloop = record {
  server_socket = none;
  exporter = none;
  transport = transport;
  serializer = serializer;
  max_connections = 15000;
  concurrent_request_per_connection = 10;
  max_buffer_size = 100 * 1024 * 1024;
  ioloop = ioloop;
  thread_pool_size = some (2 * cpu_count + 1);
  process_pool_size = none;
  max_idle_time = 8 * 60 * 60;
  registry = none;
}

-- The two tests that the setters of sizes share: an `int`, and more than 0.
unfoldable pub more_than_0 : Value → Outcome ℕ
more_than_0 (int_value (pos (suc n))) = ok (suc n)
more_than_0 (int_value (pos zero)) = raise value_error
more_than_0 (int_value (negsuc n)) = raise value_error
more_than_0 _ = raise type_error

abbrev pub and_set : Outcome ℕ → (ℕ → Builder) → Outcome Builder
and_set (ok n) f = ok (f n)
and_set (raise e) f = raise e

unfoldable pub with_server_socket : Value → Builder → Outcome Builder
with_server_socket (server_socket_value s blocking) b =
    if blocking then raise runtime_error else ok (record b { server_socket = some s })
with_server_socket _ b = raise type_error

unfoldable pub with_exporter : Value → Builder → Outcome Builder
with_exporter (exporter_value e) b = ok (record b { exporter = some e })
with_exporter _ b = raise type_error

unfoldable pub with_transport : Value → Builder → Outcome Builder
with_transport (transport_value t) b = ok (record b { transport = t })
with_transport _ b = raise type_error

unfoldable pub with_serializer : Value → Builder → Outcome Builder
with_serializer (serializer_value s) b = ok (record b { serializer = s })
with_serializer _ b = raise type_error

unfoldable pub with_max_connections : Value → Builder → Outcome Builder
with_max_connections v b = and_set (more_than_0 v) λ n. record b { max_connections = n }

unfoldable pub with_concurrent_request_per_connection : Value → Builder → Outcome Builder
with_concurrent_request_per_connection v b =
    and_set (more_than_0 v) λ n. record b { concurrent_request_per_connection = n }

unfoldable pub with_max_buffer_size : Value → Builder → Outcome Builder
with_max_buffer_size v b = and_set (more_than_0 v) λ n. record b { max_buffer_size = n }

unfoldable pub with_ioloop : Value → Builder → Outcome Builder
with_ioloop (ioloop_value l) b = ok (record b { ioloop = l })
with_ioloop _ b = raise type_error

-- `None` stands for no thread pool.
unfoldable pub with_thread_pool_size : Value → Builder → Outcome Builder
with_thread_pool_size none_value b = ok (record b { thread_pool_size = none })
with_thread_pool_size v b = and_set (more_than_0 v) λ n. record b { thread_pool_size = some n }

unfoldable pub with_process_pool_size : Value → Builder → Outcome Builder
with_process_pool_size v b = and_set (more_than_0 v) λ n. record b { process_pool_size = some n }

unfoldable pub with_max_idle_time : Value → Builder → Outcome Builder
with_max_idle_time v b = and_set (more_than_0 v) λ n. record b { max_idle_time = n }

unfoldable pub with_registry : Value → Builder → Outcome Builder
with_registry (registry_value r) b = ok (record b { registry = some r })
with_registry _ b = raise type_error

pub data Setter : Type 0 where
  server_socket exporter transport serializer max_connections concurrent_request_per_connection :
      Setter
  max_buffer_size ioloop thread_pool_size process_pool_size max_idle_time registry : Setter

unfoldable pub set : Setter → Value → Builder → Outcome Builder
set server_socket = with_server_socket
set exporter = with_exporter
set transport = with_transport
set serializer = with_serializer
set max_connections = with_max_connections
set concurrent_request_per_connection = with_concurrent_request_per_connection
set max_buffer_size = with_max_buffer_size
set ioloop = with_ioloop
set thread_pool_size = with_thread_pool_size
set process_pool_size = with_process_pool_size
set max_idle_time = with_max_idle_time
set registry = with_registry

-- A chain of setters; the first that raises ends it.
unfoldable pub set_all : List (Setter × Value) → Builder → Outcome Builder
set_all [] b = ok b
set_all ((s, v) ∷ more) b = elim (set s v b) [ ok b' ↦ set_all more b' | raise e ↦ raise e ]

-- What `build` hands to `RpcServer`.
unfoldable pub build : Builder → Outcome Builder
build b = elim b.server_socket [
  | none ↦ raise runtime_error
  | some s ↦ elim b.exporter [ none ↦ raise runtime_error | some e ↦ ok b ]
]
