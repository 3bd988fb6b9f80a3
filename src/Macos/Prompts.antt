-- ===== src/Macos/Prompts.antt =====
-- Only granted prompts of the macOS capsule reach the native services.
use sim_platform.Prelude.{
  String, Bool, true, false, List, [], ◌∷◌, ◌≡◌, refl, contains, text_key, if◌then◌else◌, Result,
  ok, err,
}
use sim_platform.Macos.{
  Permission, Lifecycle, ready, active, suspended, stopped, CapsuleError, missing_capability,
  NativeServices, required_for, MacosCapsule, Outcome, ensure_running, when_running, with_status,
  permission_status, request_permission, activated, activate, suspend, resumed, resume,
  stopped_from, stop,
}

pub data Call : Type 0 where
  asking prompting : Permission → Call
  activating suspending resuming stopping : Call

module _ (services : NativeServices) where
  -- The capsule after a call.
  unfoldable pub perform : Call → MacosCapsule services → MacosCapsule services
  perform (asking p) self = (permission_status services p self).1
  perform (prompting p) self = (request_permission services p self).1
  perform activating self = (activate services self).1
  perform suspending self = (suspend services self).1
  perform resuming self = (resume services self).1
  perform stopping self = stop services self

  unfoldable pub run : List Call → MacosCapsule services → MacosCapsule services
  run [] self = self
  run (call ∷ calls) self = run calls (perform call self)

  module _ (Q : services.State → Type 0) where
    -- The native services keep `Q`, but for a prompt that no grant allows.
    pub record IsKept (grants : List String) : Type 0 where
      pub asked : (p : Permission) (n : services.State) → Q n → Q (services.permission_status p n).1
      pub prompted :
          (p : Permission) (n : services.State)
          → contains grants (required_for p) ≡ true
          → Q n
          → Q (services.request_permission p n).1
      pub activated : (n : services.State) → Q n → Q (services.activate n).1
      pub cleaned : (n : services.State) → Q n → Q (services.cleanup n)

    -- A capsule with these grants, whose native state has `Q`.
    abbrev pub Has : List String → MacosCapsule services → Type 0
    Has grants self = (self.grants ≡ grants) × Q self.native

    running_rule :
        {A : Type 0} (grants : List String) (r : Result CapsuleError (Unit {0}))
        (self : MacosCapsule services) (next : Outcome services A)
        → Has grants self
        → Has grants next.1
        → Has grants (when_running services r self next).1
    running_rule grants (err e) self next h k = h
    running_rule grants (ok u) self next h k = k

    module _ (grants : List String) (kept : IsKept grants) where
      prompt-Has :
          (p : Permission) (self : MacosCapsule services) (allowed : Bool)
          → contains grants (required_for p) ≡ allowed
          → Has grants self
          → Has grants
              (if allowed
                then with_status services (services.request_permission p self.native) self
                else (err (missing_capability (required_for p)), self)).1
      prompt-Has p self true e (g, q) = (g, kept.prompted p self.native e q)
      prompt-Has p self false e h = h

      activated-Has :
          (self : MacosCapsule services) (r : Result String (Unit {0}) × services.State)
          → self.grants ≡ grants
          → Q r.1
          → Has grants (activated services r self).1
      activated-Has self (ok u, n) g q = (g, q)
      activated-Has self (err e, n) g q = (g, q)

      resumed-Has :
          (state : Lifecycle) (self : MacosCapsule services)
          → Has grants self
          → Has grants (resumed services state self).1
      resumed-Has suspended self h = h
      resumed-Has ready self h = h
      resumed-Has active self h = h
      resumed-Has stopped self h = h

      stopped_from-Has :
          (state : Lifecycle) (self : MacosCapsule services)
          → Has grants self
          → Has grants (stopped_from services state self)
      stopped_from-Has stopped self h = h
      stopped_from-Has ready self (g, q) = (g, kept.cleaned self.native q)
      stopped_from-Has active self (g, q) = (g, kept.cleaned self.native q)
      stopped_from-Has suspended self (g, q) = (g, kept.cleaned self.native q)

      perform-Has :
          (call : Call) (self : MacosCapsule services)
          → Has grants self
          → Has grants (perform call self)
      unfolding perform permission_status request_permission activate suspend resume stop
      perform-Has (asking p) self (g, q) =
          running_rule grants (ensure_running services self) self _ (g, q)
            (g, kept.asked p self.native q)
      perform-Has (prompting p) self (g, q) =
          running_rule grants (ensure_running services self) self _ (g, q)
            (prompt-Has p self (contains self.grants (required_for p)) (rw g refl) (g, q))
      perform-Has activating self (g, q) =
          running_rule grants (ensure_running services self) self _ (g, q)
            (activated-Has self (services.activate self.native) g (kept.activated self.native q))
      perform-Has suspending self h = running_rule grants (ensure_running services self) self _ h h
      perform-Has resuming self h = resumed-Has self.lifecycle self h
      perform-Has stopping self h = stopped_from-Has self.lifecycle self h

      -- Let the native services keep a property of their state in every call, where a prompt has to keep it
      -- only if the grants have its capability. Then any sequence of calls of the capsule keeps it, and
      -- the grants stay as they were.
      pub run-Has :
          (calls : List Call) (self : MacosCapsule services)
          → Has grants self
          → Has grants (run calls self)
      unfolding run
      run-Has [] self h = h
      run-Has (call ∷ calls) self h = run-Has calls (perform call self) (perform-Has call self h)
