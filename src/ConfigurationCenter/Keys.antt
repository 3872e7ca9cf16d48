-- ===== src/ConfigurationCenter/Keys.antt =====
-- configuration_center/zookeeper_configuration_center.py: what a key finds, whatever happens to the
-- center.
use summerrpc.Prelude.{
  ℕ, ◌≡◌, refl, ap, true, false, Option, none, some, List, [], ◌∷◌, if◌then◌else◌, option_cases,
  subst,
}
use summerrpc.Exceptions.{Class, attribute_error}
use summerrpc.Text.{Bytes}
use summerrpc.Tables.{Table}
use summerrpc.Messages.{Outcome, ok, raised}
use summerrpc.ConfigurationCenter.{
  Tree, Center, fetch_all, replaced, started, real_start, connection_state_watcher, close, start,
  get_key, Event, starts, state_changes, node_changes, closes, step, run, init,
}
use summerrpc.ConfigurationCenter.Fetching.{is_whole, held, Seen, fetch_all-Seen}

-- The last tree that could be read as a whole when a watcher asked for it, with the path it was read
-- under.
abbrev noted : Bytes → Option (Tree × Bytes) → Event → Option (Tree × Bytes)
noted base found (state_changes true tree) = if is_whole tree base then some (tree, base) else found
noted base found (node_changes path tree) = if is_whole tree path then some (tree, path) else found
noted base found _ = found

abbrev last_whole : Bytes → Option (Tree × Bytes) → List Event → Option (Tree × Bytes)
last_whole base found [] = found
last_whole base found (e ∷ es) = last_whole base (noted base found e) es

abbrev answer : Bytes → Option (Tree × Bytes) → Outcome (Option Bytes)
answer key none = raised attribute_error
answer key (some (tree, path)) = ok (held tree path key)

abbrev Shows : Center → Option (Tree × Bytes) → Type 0
Shows c found = (key : Bytes) → get_key key c ≡ answer key found

real_start-Shows :
    (tree : Tree) (path : Bytes) (c : Center) (found : Option (Tree × Bytes))
    → Shows c found
    → Shows (real_start tree path c).0 (if is_whole tree path then some (tree, path) else found)
unfolding real_start get_key
real_start-Shows tree path c found s = go (fetch_all tree path) (fetch_all-Seen tree path)
  where
    go :
        (o : Outcome (ℕ × Table Bytes))
        → Seen tree path (tree.get path) (tree.get_children path) o
        → Shows (replaced c o).0 (if is_whole tree path then some (tree, path) else found)
    go (raised e) r key = rw r (s key)
    go (ok (n, cache)) (w, h) key = rw w (ap ok (h key))

module _ (c : Center) (found : Option (Tree × Bytes)) (s : Shows c found) where
  start-Shows : (made : Outcome ℕ) → Shows (start made c).0 found
  unfolding start get_key
  start-Shows made =
      option_cases (λ (r : Center × Option Class). Shows r.0 found) c.handler (on made) (λ h. s)
    where
      on : (made : Outcome ℕ) → Shows (started c made).0 found
      on (ok h) = s
      on (raised e) = s

  close-Shows : (closing : Option Class) → Shows (close closing c).0 found
  unfolding close get_key
  close-Shows closing =
      option_cases (λ (r : Center × Option Class). Shows r.0 found) c.handler s (λ h. s)

  step-Shows : (e : Event) → Shows (step c e) (noted c.base_znode found e)
  unfolding step connection_state_watcher
  step-Shows (starts made) = start-Shows made
  step-Shows (state_changes true tree) = real_start-Shows tree c.base_znode c found s
  step-Shows (state_changes false tree) = s
  step-Shows (node_changes path tree) = real_start-Shows tree path c found s
  step-Shows (closes closing) = close-Shows closing

real_start-base_znode :
    (tree : Tree) (path : Bytes) (c : Center) → (real_start tree path c).0.base_znode ≡ c.base_znode
unfolding real_start
real_start-base_znode tree path c = go (fetch_all tree path)
  where
    go : (o : Outcome (ℕ × Table Bytes)) → (replaced c o).0.base_znode ≡ c.base_znode
    go (ok (n, cache)) = refl
    go (raised e) = refl

step-base_znode : (c : Center) (e : Event) → (step c e).base_znode ≡ c.base_znode
unfolding step connection_state_watcher start close
step-base_znode c (starts made) =
    option_cases (λ (r : Center × Option Class). r.0.base_znode ≡ c.base_znode) c.handler (on made)
      (λ h. refl)
  where
    on : (made : Outcome ℕ) → (started c made).0.base_znode ≡ c.base_znode
    on (ok h) = refl
    on (raised e) = refl
step-base_znode c (state_changes true tree) = real_start-base_znode tree c.base_znode c
step-base_znode c (state_changes false tree) = refl
step-base_znode c (node_changes path tree) = real_start-base_znode tree path c
step-base_znode c (closes closing) =
    option_cases (λ (r : Center × Option Class). r.0.base_znode ≡ c.base_znode) c.handler refl
      (λ h. refl)

run-Shows :
    (c : Center) (es : List Event) (found : Option (Tree × Bytes))
    → Shows c found
    → Shows (run c es) (last_whole c.base_znode found es)
unfolding run
run-Shows c [] found s = s
run-Shows c (e ∷ es) found s =
    subst (λ b. Shows (run (step c e) es) (last_whole b (noted c.base_znode found e) es))
      (step-base_znode c e)
      (run-Shows (step c e) es (noted c.base_znode found e) (step-Shows c found s e))

-- Whatever starts, watchers and closes follow on the making of a center, a key finds what the last
-- tree holds for it that could be read as a whole when a watcher asked, and raises AttributeError
-- while there was none: a fetch that fails in the middle changes nothing.
pub get_key-run :
    (base : Bytes) (es : List Event) (key : Bytes)
    → get_key key (run (init base) es) ≡ answer key (last_whole base none es)
unfolding init get_key
get_key-run base es key = run-Shows (init base) es none (λ k. refl) key
