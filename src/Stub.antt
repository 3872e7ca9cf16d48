-- ===== src/Stub.antt =====
-- stub.py: `Stub` and `Refer`, the client's side of a class. A class object is its own attributes, as
-- the exporter sees them, and what `getattr` finds on it.
pub mod Naming
pub mod Connecting
use summerrpc.Prelude.{ℕ, Bool, true, false, Option, none, some, List, [], ◌∷◌, if◌then◌else◌, not}
use summerrpc.Exceptions.{Class, type_error, runtime_error, attribute_error, no_remote_server_error}
use summerrpc.Text.{Bytes, codes, same}
use summerrpc.Messages.{
  Value, nothing, text, sequence, dict, no_values, no_pairs, Values, Pairs, Request, new_request,
  Object, request, Outcome, ok, raised, and_then,
}
use summerrpc.Serializer.{Format, dumps}
use summerrpc.Exporter.{Provide, Attribute, Cls, get_provide, class_name_of}
use summerrpc.Protocol.{Filter, Protocol}
use summerrpc.Protocol
use summerrpc.Registry.{Remote}
use summerrpc.ReferArgument.{ReferArgument, defaults}

-- `getattr(cls, name, None)`, `none` standing for None.
pub record ClassObject : Type 0 where
  pub cls : Cls
  pub getattr : Bytes → Option Attribute

-- The cluster's `get_remote` and `close`, for a class, a method, a transport and a serializer. It is
-- closed or not.
pub record Cluster : Type 0 where
  pub get_remote : Bytes → Bytes → Bytes → Bytes → Option Remote
  pub closed : Bool

-- The names of the transport and of the serializer, which `get_remote` is asked with, and the
-- serializer's format.
pub record Serializer : Type 0 where
  pub name : Bytes
  pub format : Format

-- Filters, and an invoker that is given the connection's context: here the remote server.
pub record Chain (A : Type 0) : Type 0 where
  pub filters : List Filter
  pub invoker : Option (Remote → Request → Outcome A)

pub record Stub (A : Type 0) : Type 0 where
  pub transport : Option Bytes
  pub serializer : Option Serializer
  pub cluster : Option Cluster
  pub protocol : Option (Chain A)

-- `Stub.__init__`
abbrev pub init : {A : Type 0} → Stub A
init = record { transport = none; serializer = none; cluster = none; protocol = none }

-- The setters; `none` is an object of another class.
unfoldable pub set_transport : {A : Type 0} → Option Bytes → Stub A → Outcome (Stub A)
set_transport none self = raised type_error
set_transport (some t) self = ok (record self { transport = some t })

unfoldable pub set_serializer : {A : Type 0} → Option Serializer → Stub A → Outcome (Stub A)
set_serializer none self = raised type_error
set_serializer (some s) self = ok (record self { serializer = some s })

unfoldable pub set_cluster : {A : Type 0} → Option Cluster → Stub A → Outcome (Stub A)
set_cluster none self = raised type_error
set_cluster (some c) self = ok (record self { cluster = some c })

unfoldable pub set_protocol : {A : Type 0} → Option (Chain A) → Stub A → Outcome (Stub A)
set_protocol none self = raised type_error
set_protocol (some p) self = ok (record self { protocol = some p })

-- `close`: the cluster that was closed, if any.
unfoldable pub close : {A : Type 0} → Stub A → Stub A × Option Cluster
close self = elim self.cluster [
  | none ↦ (self, none)
  | some c ↦ (record self { cluster = none }, some (record c { closed = true }))
]

-- `Refer`
pub record Refer (A : Type 0) : Type 0 where
  pub class_object : ClassObject
  pub transport : Bytes
  pub serializer : Serializer
  pub cluster : Cluster
  pub protocol : Chain A
  pub refer_argument : ReferArgument
  pub is_pool_closed : Bool
  pub class_name : Bytes

-- What must be given, or the error.
abbrev pub given : {B C : Type 0} → Option B → (B → Outcome C) → Outcome C
given none k = raised runtime_error
given (some b) k = k b

abbrev pub argument_or : Option ReferArgument → ReferArgument
argument_or none = defaults
argument_or (some a) = a

-- `Stub.refer`, with `Refer.__init__`; a class that is `none` is an object that is no class.
unfoldable pub refer :
    {A : Type 0} → Option ClassObject → Option ReferArgument → Stub A → Outcome (Refer A)
refer none argument self = raised type_error
refer (some c) argument self = given self.transport λ t. given self.serializer λ s.
    given self.cluster λ u. given self.protocol λ p. ok (record {
      class_object = c;
      transport = t;
      serializer = s;
      cluster = u;
      protocol = p;
      refer_argument = argument_or argument;
      is_pool_closed = false;
      class_name = class_name_of c.cls;
    })

-- `Stub.heartbeat_func`: the name of the class of heartbeats, and the mark of its `send`.
abbrev pub heartbeat_name : Option Provide → Outcome Bytes
heartbeat_name none = ok (codes "send")
heartbeat_name (some p) = if p.filtered then raised runtime_error else ok p.name

unfoldable pub heartbeat_func : Cls → Option Provide → Serializer → Outcome Bytes
heartbeat_func heartbeat send serializer = and_then (heartbeat_name send) λ method_name.
    dumps serializer.format (
      request (record new_request {
        class_name = text (class_name_of heartbeat);
        method_name = text method_name;
        args = sequence no_values;
        kwargs = dict no_pairs;
        meta = nothing;
      }))

-- What an attribute of a reference is: that of the class, or a proxy that sends a name.
pub data Found : Type 0 where
  attribute : Attribute → Found
  proxy : Bytes → Found

abbrev pub found_of : Bytes → Attribute → Outcome Found
found_of attr_name attr =
    if not attr.is_method then ok (attribute attr) else elim (get_provide attr) [
      | none ↦ ok (proxy attr_name)
      | some p ↦ if p.filtered then raised runtime_error else ok (proxy p.name)
    ]

-- `Refer.__getattr__`
unfoldable pub getattr : {A : Type 0} → Bytes → Refer A → Outcome Found
getattr attr_name self = elim (self.class_object.getattr attr_name) [
  | none ↦ raised attribute_error
  | some attr ↦ found_of attr_name attr
]

-- `_get_connnection_context`: the server that is to be asked.
unfoldable pub get_connnection_context : {A : Type 0} → Bytes → Refer A → Outcome Remote
get_connnection_context method_name self =
    elim (self.cluster.get_remote self.class_name method_name self.transport self.serializer.name) [
      | none ↦ raised no_remote_server_error
      | some remote ↦ ok remote
    ]

-- The request that a proxy makes.
abbrev pub request_of : {A : Type 0} → Bytes → Values → Pairs → Refer A → Request
request_of method_name args kwargs self = record new_request {
  class_name = text self.class_name;
  method_name = text method_name;
  args = sequence args;
  kwargs = dict kwargs;
}

abbrev pub protocol_at : {A : Type 0} → Chain A → Remote → Protocol A
protocol_at p remote = record {
  filters = p.filters;
  invoker = elim p.invoker [ none ↦ none | some i ↦ some (i remote) ];
}

-- `_dynamic_proxy(method_name)(*args, **kwargs)`: the server is found before the filters run.
unfoldable pub dynamic_proxy : {A : Type 0} → Bytes → Values → Pairs → Refer A → Outcome A
unfolding get_connnection_context
dynamic_proxy method_name args kwargs self =
    and_then (get_connnection_context method_name self) λ remote.
      Protocol.invoke (protocol_at self.protocol remote) (request_of method_name args kwargs self)

-- `refer_close`
unfoldable pub refer_close : {A : Type 0} → Refer A → Refer A
refer_close self = record self { is_pool_closed = true }
