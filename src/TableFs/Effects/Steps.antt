-- ===== src/TableFs/Effects/Steps.antt =====
-- The steps of a call of a table, with what each has established.
use sim_platform.Prelude.{
  ℕ, Bool, true, false, Option, none, some, List, ◌++◌, ◌≡◌, ◌≢◌, refl, sym, subst, Result, ok, err,
  map_err, ◌>>=◌, refuse_if,
}
use sim_platform.HostDir.Store.{Segments}
use sim_platform.HostDir.{
  StoragePort, ModelEntry, file, dir, HostEntry, ModelState, MemoryHostDirPort, PortResult,
  HostCompareExchange, validate, full, lookup, describe, metadata,
}
use sim_platform.HostDir.Laws.{Call, spec, view, Follows}
use sim_platform.HostDir.Exchange.{Atomic}
use sim_platform.TableFs.Leaf.{Kernel, FsError, port_error}
use sim_platform.TableFs.Steps.{Action, next}
use sim_platform.TableFs.{is_directory}
use sim_platform.TableFs.Effects.{verdict}

pub refuse_if-eq-ok : {E : Type 0} (b : Bool) (e : E) → refuse_if b e ≡ ok tt → b ≡ false
refuse_if-eq-ok true e h = cc
refuse_if-eq-ok false e h = refl

module _ (port : StoragePort) where
  pub metadata-eq-ok :
      (self : MemoryHostDirPort) (path : Segments) (state : ModelState) {E : Type 0} (f : _ → E)
      (entry : Option HostEntry)
      → map_err f (metadata port self path state) ≡ ok entry
      → entry ≡ describe port (self.prefix ++ path) (view state (self.prefix ++ path))
  unfolding metadata full
  metadata-eq-ok self path state f entry h = after (validate port path) h
    where
      after :
          (v : PortResult port (Unit {0}))
          → map_err f (
              (v >>= λ u. ok (self.prefix ++ path)) >>= λ key.
              ok (describe port key (lookup key state)))
            ≡ ok entry
          → entry ≡ describe port (self.prefix ++ path) (view state (self.prefix ++ path))
      after (ok u) e = cc
      after (err x) e = cc

  pub directory_there :
      (path : Segments) (o : Option ModelEntry)
      → is_directory (describe port path o) ≡ true
      → o ≡ some dir
  directory_there path none h = cc
  directory_there path (some (file bytes)) h = cc
  directory_there path (some dir) h = refl

  pub no_directory :
      (path : Segments) (o : Option ModelEntry)
      → is_directory (describe port path o) ≡ false
      → o ≢ some dir
  no_directory path none h = λ e. cc
  no_directory path (some (file bytes)) h = λ e. cc
  no_directory path (some dir) h = λ e. cc

module _ (port : StoragePort) (kernel : Kernel) (P : Bool × ModelState → Type 0) where
  -- The outcome of a call is as described.
  pub record Holds {A : Type 0} (r : Result (FsError port kernel) A × ModelState) : Type 0 where
    pub holds : P (verdict port kernel r)

  -- A step that leaves the state as it is, where an error there is as described.
  pub step :
      {A B : Type 0} (f : A → Action (FsError port kernel) B) (r : Result (FsError port kernel) A)
      (state : ModelState)
      → P (false, state)
      → ((a : A) → r ≡ ok a → Holds (f a state))
      → Holds (next f (r, state))
  unfolding next
  step f (ok a) state stop k = k a refl
  step f (err e) state stop k = record { holds = stop }

  -- A call of the port, after which the call of the table goes on.
  pub call_step :
      {A B : Type 0} (call : Call) (state : ModelState) (f : A → Action (FsError port kernel) B)
      (r : PortResult port A × ModelState)
      → Follows port state call r
      → P (false, state)
      → ((a : A) (after : ModelState)
          → ((k : Segments) → view after k ≡ spec call (view state) k)
          → Holds (f a after))
      → Holds (next f (map_err port_error r.0, r.1))
  unfolding next
  call_step call state f (ok a, after) follows stop k = k a after follows
  call_step call state f (err e, after) follows stop k = record {
    holds = subst (λ s. P (false, s)) (sym follows) stop;
  }

  pub swap_step :
      {B : Type 0} (self : MemoryHostDirPort) (path : Segments) (wanted contents : Option (List ℕ))
      (state : ModelState) (f : HostCompareExchange port → Action (FsError port kernel) B)
      (r : PortResult port (HostCompareExchange port) × ModelState)
      → Atomic port state self path wanted contents false false r
      → P (false, state)
      → ((o : HostCompareExchange port) (after : ModelState)
          → Atomic port state self path wanted contents false false (ok o, after)
          → Holds (f o after))
      → Holds (next f (map_err port_error r.0, r.1))
  unfolding next
  swap_step self path wanted contents state f (ok o, after) a stop k = k o after a
  swap_step self path wanted contents state f (err e, after) a stop k = record {
    holds = subst (λ s. P (false, s)) (sym a) stop;
  }

  -- A call of the port, with which the call of the table ends.
  pub last_step :
      {A : Type 0} (call : Call) (state : ModelState) (r : PortResult port A × ModelState)
      → Follows port state call r
      → P (false, state)
      → ((after : ModelState)
          → ((k : Segments) → view after k ≡ spec call (view state) k)
          → P (true, after))
      → Holds (map_err port_error r.0, r.1)
  last_step call state (ok a, after) follows stop k = record { holds = k after follows }
  last_step call state (err e, after) follows stop k = record {
    holds = subst (λ s. P (false, s)) (sym follows) stop;
  }

  -- The last steps after a change, whose errors are as described too.
  pub ended :
      {A : Type 0} (r : Result (FsError port kernel) A) (state : ModelState)
      → P (false, state)
      → P (true, state)
      → Holds (r, state)
  ended (ok a) state stop done = record { holds = done }
  ended (err e) state stop done = record { holds = stop }
