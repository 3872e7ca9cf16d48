-- ===== src/Exceptions.antt =====
-- exception.py: the classes of errors, which `except` clause takes which, and how an error travels
-- through pickle. Classes of the standard library that the program catches stand beside them.
use summerrpc.Prelude.{
  ℕ, zero, suc, ◌+◌, ◌≡◌, refl, ap, Bool, true, false, Option, none, some, arith, ◌||◌,
}

pub data Class : Type 0 where
  exception base_error stub_side_error filtered_error : Class
  transport_error blocking_transport_error socket_already_closed_error invalid_packet_error : Class
  serializer_error serialization_error deserialization_error : Class
  remote_error no_remote_server_error concurrency_error lookup_method_error : Class
  submit_task_to_process_pool_error method_execution_error : Class
  request_validate_error invalid_response_error : Class
  connection_error connection_write_timeout connection_abort_error connection_read_timeout : Class
  max_pending_writes_reached_error max_pending_reads_reached_error : Class
  connection_pool_error no_available_connection_error : Class
  connection_pool_already_closed_error create_connection_error : Class
  socket_error socket_timeout runtime_error value_error type_error : Class
  list_full_error list_empty_error key_error index_error attribute_error struct_error : Class

-- The base class that each `class` line names; those of the library as documented.
unfoldable pub parent : Class → Option Class
parent exception = none
parent base_error = some exception
parent stub_side_error = some base_error
parent filtered_error = some stub_side_error
parent transport_error = some base_error
parent blocking_transport_error = some transport_error
parent socket_already_closed_error = some blocking_transport_error
parent invalid_packet_error = some transport_error
parent serializer_error = some base_error
parent serialization_error = some serializer_error
parent deserialization_error = some serializer_error
parent remote_error = some base_error
parent no_remote_server_error = some remote_error
parent concurrency_error = some remote_error
parent lookup_method_error = some remote_error
parent submit_task_to_process_pool_error = some remote_error
parent method_execution_error = some remote_error
parent request_validate_error = some remote_error
parent invalid_response_error = some remote_error
parent connection_error = some base_error
parent connection_write_timeout = some connection_error
parent connection_abort_error = some connection_error
parent connection_read_timeout = some connection_error
parent max_pending_writes_reached_error = some connection_error
parent max_pending_reads_reached_error = some connection_error
parent connection_pool_error = some base_error
parent no_available_connection_error = some connection_pool_error
parent connection_pool_already_closed_error = some connection_pool_error
parent create_connection_error = some connection_pool_error
parent socket_error = some exception
parent socket_timeout = some socket_error
parent runtime_error = some exception
parent value_error = some exception
parent type_error = some exception
parent list_full_error = some exception
parent list_empty_error = some exception
parent key_error = some exception
parent index_error = some exception
parent attribute_error = some exception
parent struct_error = some exception

pub Class-discrete : Discrete Class
Class-discrete = hlevel

abbrev same_class : Class → Class → Bool
same_class c d = elim (Class-discrete c d) [ yes e ↦ true | no n ↦ false ]

climb : ℕ → Class → Class → Bool
climb zero c d = same_class c d
climb (suc n) c d = same_class c d || elim (parent c) [ none ↦ false | some b ↦ climb n b d ]

-- `isinstance` for an instance of the class; no class is more than five levels deep.
unfoldable pub is_subclass : Class → Class → Bool
unfolding climb parent Class-discrete
is_subclass = climb 5

same_class_refl : (c : Class) → same_class c c ≡ true
same_class_refl c =
    elim (Class-discrete c c) as (λ d. elim d [ yes e ↦ true | no n ↦ false ] ≡ true) [
      | yes e ↦ refl
      | no n ↦ absurd (n refl)
    ]

pub is_subclass_refl : (c : Class) → is_subclass c c ≡ true
unfolding is_subclass
is_subclass_refl c =
    ap (λ (b : Bool). b || elim (parent c) [ none ↦ false | some b ↦ climb 4 b c ])
      (same_class_refl c)

-- What `_msg` may hold: a text, or a tuple of one.
pub data Message : Type 0 where
  text : ℕ → Message
  one_tuple : Message → Message

-- `BaseError.__getstate__` and `__setstate__`.
pub get_state : Message → Message
get_state msg = one_tuple msg

pub set_state : Message → Message
set_state state = state

-- What pickling and unpickling an error leaves in `_msg`.
pub over_pickle : Message → Message
unfolding get_state set_state
over_pickle msg = set_state (get_state msg)

-- How many tuples stand around the text.
pub depth : Message → ℕ
depth (text n) = 0
depth (one_tuple m) = suc (depth m)

pub travel : ℕ → Message → Message
travel zero m = m
travel (suc n) m = travel n (over_pickle m)

-- An error that has been pickled and unpickled n times holds its message inside n more tuples.
pub depth-travel : (n : ℕ) (m : Message) → depth (travel n m) ≡ n + depth m
unfolding depth travel over_pickle
depth-travel zero m = omega arith
depth-travel (suc n) m = omega (arith, depth-travel n (one_tuple m))

-- The classes that exception.py declares.
pub own : Class → Bool
own exception = false
own socket_error = false
own socket_timeout = false
own runtime_error = false
own value_error = false
own type_error = false
own list_full_error = false
own list_empty_error = false
own key_error = false
own index_error = false
own attribute_error = false
own struct_error = false
own _ = true

-- `except BaseError` takes exactly the program's own errors.
pub is_subclass-own : (c : Class) → is_subclass c base_error ≡ own c
unfolding is_subclass own Class-discrete
is_subclass-own exception = refl
is_subclass-own _ = refl
