-- ===== src/RpcServer/Builder/Sizes.antt =====
-- rpc_server.py: what `RpcServerBuilder` hands to `RpcServer`, whatever its setters were given.
use summerrpc.Prelude.{
  ℕ, zero, suc, ◌≤◌, ◌≡◌, subst, true, false, Option, none, some, List, [], ◌∷◌, arith,
  option_split,
}
use summerrpc.Prelude.Int.{pos, negsuc}
use summerrpc.RpcServer.Builder.{
  Value, none_value, int_value, server_socket_value, exporter_value, transport_value,
  serializer_value, ioloop_value, registry_value, other_value, Outcome, ok, raise, Builder, init,
  more_than_0, and_set, with_server_socket, with_exporter, with_transport, with_serializer,
  with_max_connections, with_concurrent_request_per_connection, with_max_buffer_size, with_ioloop,
  with_thread_pool_size, with_process_pool_size, with_max_idle_time, with_registry, Setter,
  server_socket, exporter, transport, serializer, max_connections,
  concurrent_request_per_connection, max_buffer_size, ioloop, thread_pool_size, process_pool_size,
  max_idle_time, registry, set, set_all, build,
}

abbrev AtLeast1 : Option ℕ → Type 0
AtLeast1 none = Unit
AtLeast1 (some n) = 1 ≤ n

-- Every size is at least 1.
abbrev pub Sized : Builder → Type 0
Sized b =
    (1 ≤ b.max_connections)
    × (1 ≤ b.concurrent_request_per_connection)
    × (1 ≤ b.max_buffer_size)
    × AtLeast1 b.thread_pool_size
    × AtLeast1 b.process_pool_size
    × (1 ≤ b.max_idle_time)

abbrev IsOk : (Builder → Type 0) → Outcome Builder → Type 0
IsOk P (ok b) = P b
IsOk P (raise e) = Unit

and_set-Sized :
    (v : Value) (f : ℕ → Builder)
    → ((n : ℕ) → 1 ≤ n → Sized (f n))
    → IsOk Sized (and_set (more_than_0 v) f)
unfolding more_than_0
and_set-Sized none_value f h = tt
and_set-Sized (int_value (pos (suc n))) f h = h (suc n) (omega arith)
and_set-Sized (int_value (pos zero)) f h = tt
and_set-Sized (int_value (negsuc n)) f h = tt
and_set-Sized (server_socket_value s b) f h = tt
and_set-Sized (exporter_value s) f h = tt
and_set-Sized (transport_value s) f h = tt
and_set-Sized (serializer_value s) f h = tt
and_set-Sized (ioloop_value s) f h = tt
and_set-Sized (registry_value s) f h = tt
and_set-Sized (other_value s) f h = tt

set-Sized : (s : Setter) (v : Value) (b : Builder) → Sized b → IsOk Sized (set s v b)
unfolding set with_max_connections with_concurrent_request_per_connection with_max_buffer_size
    with_thread_pool_size with_process_pool_size with_max_idle_time with_server_socket with_exporter
    with_transport with_serializer with_ioloop with_registry more_than_0
set-Sized max_connections v b (_, r, f, t, p, i) = and_set-Sized v _ λ n l. (l, r, f, t, p, i)
set-Sized concurrent_request_per_connection v b (c, _, f, t, p, i) =
    and_set-Sized v _ λ n l. (c, l, f, t, p, i)
set-Sized max_buffer_size v b (c, r, _, t, p, i) = and_set-Sized v _ λ n l. (c, r, l, t, p, i)
set-Sized process_pool_size v b (c, r, f, t, _, i) = and_set-Sized v _ λ n l. (c, r, f, t, l, i)
set-Sized max_idle_time v b (c, r, f, t, p, _) = and_set-Sized v _ λ n l. (c, r, f, t, p, l)
set-Sized thread_pool_size none_value b (c, r, f, _, p, i) = (c, r, f, tt, p, i)
set-Sized thread_pool_size (int_value n) b (c, r, f, _, p, i) =
    and_set-Sized (int_value n) _ λ n l. (c, r, f, l, p, i)
set-Sized thread_pool_size _ b h = tt
set-Sized server_socket (server_socket_value s true) b h = tt
set-Sized server_socket (server_socket_value s false) b h = h
set-Sized server_socket _ b h = tt
set-Sized exporter (exporter_value s) b h = h
set-Sized exporter _ b h = tt
set-Sized transport (transport_value s) b h = h
set-Sized transport _ b h = tt
set-Sized serializer (serializer_value s) b h = h
set-Sized serializer _ b h = tt
set-Sized ioloop (ioloop_value s) b h = h
set-Sized ioloop _ b h = tt
set-Sized registry (registry_value s) b h = h
set-Sized registry _ b h = tt

set_all-Sized :
    (steps : List (Setter × Value)) (b : Builder) → Sized b → IsOk Sized (set_all steps b)
unfolding set_all
set_all-Sized [] b h = h
set_all-Sized ((s, v) ∷ more) b h = go (set_all-Sized more) (set s v b) (set-Sized s v b h)
  where
    go :
        ((b' : Builder) → Sized b' → IsOk Sized (set_all more b'))
        → (r : Outcome Builder) → IsOk Sized r
        → IsOk Sized (elim r [ ok b' ↦ set_all more b' | raise e ↦ raise e ])
    go ih (ok b') g = ih b' g
    go ih (raise e) g = tt

-- What `RpcServer` is given: both of the objects that have no default, and sizes of at least 1.
pub record Complete (b : Builder) : Type 0 where
  pub sized : Sized b
  pub socket : ℕ
  pub has_socket : b.server_socket ≡ some socket
  pub export : ℕ
  pub has_exporter : b.exporter ≡ some export

-- Whatever values the setters of a new builder are called with: if all of them and `build` return,
-- the server gets a socket and an exporter, and every bound and every pool size is at least 1.
pub build-Complete :
    (cpus t s l : ℕ) (steps : List (Setter × Value)) (b b' : Builder)
    → set_all steps (init cpus t s l) ≡ ok b
    → build b ≡ ok b'
    → Complete b'
unfolding init build
build-Complete cpus t s l steps b b' e e' =
    let h = subst (IsOk Sized) e (
      set_all-Sized steps (init cpus t s l)
        (omega arith, omega arith, omega arith, omega arith, tt, omega arith)) in
    subst (IsOk Complete) e' (
      option_split (IsOk Complete) b.server_socket (λ p. tt)
        λ y p.
          option_split (IsOk Complete) b.exporter (λ q. tt)
            λ x q. record { sized = h; socket = y; has_socket = p; export = x; has_exporter = q })
