-- ===== src/ReferArgument.antt =====
-- refer_argument.py: the settings of a reference, and the connection that is made of them.
use summerrpc.Prelude.{ℕ, Option, none, some}
use summerrpc.Text.{Bytes}
use summerrpc.AtomicInteger.{AtomicInteger}
use summerrpc.Connection.{Conn, init}

-- The two kinds of pool and of connection that the program has.
pub data PoolClass : Type 0 where
  shared_lru dedicate_lru : PoolClass

pub data ConnectionClass : Type 0 where
  shared_blocking simple_blocking : ConnectionClass

-- `ReferArgument`
pub record ReferArgument : Type 0 where
  pub connection_pool_class : PoolClass
  pub connection_pool_size : ℕ
  pub connections_per_key : ℕ
  pub connection_class : ConnectionClass
  pub client_socket_timeout : Option ℕ
  pub write_timeout : Option ℕ
  pub read_timeout : Option ℕ
  pub max_pending_writes : Option ℕ
  pub max_pending_reads : Option ℕ
  pub max_pooling_reads : Option ℕ
  pub heartbeat_interval : Option ℕ

-- `ReferArgument.__init__`
abbrev pub defaults : ReferArgument
defaults = record {
  connection_pool_class = shared_lru;
  connection_pool_size = 15;
  connections_per_key = 1;
  connection_class = shared_blocking;
  client_socket_timeout = some 15;
  write_timeout = some 30;
  read_timeout = some 30;
  max_pending_writes = none;
  max_pending_reads = none;
  max_pooling_reads = none;
  heartbeat_interval = none;
}

unfoldable pub set_connection_pool_class : PoolClass → ReferArgument → ReferArgument
set_connection_pool_class x self = record self { connection_pool_class = x }

unfoldable pub set_connection_pool_size : ℕ → ReferArgument → ReferArgument
set_connection_pool_size x self = record self { connection_pool_size = x }

unfoldable pub set_connections_per_key : ℕ → ReferArgument → ReferArgument
set_connections_per_key x self = record self { connections_per_key = x }

unfoldable pub set_connection_class : ConnectionClass → ReferArgument → ReferArgument
set_connection_class x self = record self { connection_class = x }

unfoldable pub set_client_socket_timeout : Option ℕ → ReferArgument → ReferArgument
set_client_socket_timeout x self = record self { client_socket_timeout = x }

unfoldable pub set_write_timeout : Option ℕ → ReferArgument → ReferArgument
set_write_timeout x self = record self { write_timeout = x }

unfoldable pub set_read_timeout : Option ℕ → ReferArgument → ReferArgument
set_read_timeout x self = record self { read_timeout = x }

unfoldable pub set_max_pending_writes : Option ℕ → ReferArgument → ReferArgument
set_max_pending_writes x self = record self { max_pending_writes = x }

unfoldable pub set_max_pending_reads : Option ℕ → ReferArgument → ReferArgument
set_max_pending_reads x self = record self { max_pending_reads = x }

unfoldable pub set_max_pooling_reads : Option ℕ → ReferArgument → ReferArgument
set_max_pooling_reads x self = record self { max_pooling_reads = x }

unfoldable pub set_heartbeat_interval : Option ℕ → ReferArgument → ReferArgument
set_heartbeat_interval x self = record self { heartbeat_interval = x }

-- The connection of `Refer._connection_factory` when its class is `SharedBlockingConnection`; the
-- heartbeat is what `heartbeat_func` gives.
unfoldable pub new_connection : ReferArgument → Option Bytes → AtomicInteger → Conn
new_connection self heartbeat ids =
    init self.max_pending_writes self.max_pending_reads self.max_pooling_reads self.write_timeout
      self.heartbeat_interval heartbeat ids
