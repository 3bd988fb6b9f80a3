-- ===== src/Windows/Life.antt =====
-- The life of the Windows capsule: a stopped one is at rest.
use sim_platform.Prelude.{
  Bool, true, false, if◌then◌else◌, String, List, [], ◌∷◌, ◌≡◌, ◌≢◌, refl, ap, ◌∙◌, ok, err,
}
use sim_platform.Windows.{
  Lifecycle, ready, active, suspended, stopped, NativeRequest, is_stopped, NativeServices,
  WindowsCapsule, Outcome, request, activate, cancel_process_tree, suspend, resume, stopped_from,
  stop,
}

pub data Call : Type 0 where
  requesting : (service : String) → NativeRequest → Call
  activating cancelling suspending resuming stopping : Call

abbrev pub has_stopped : Lifecycle → Bool
has_stopped stopped = true
has_stopped _ = false

module _ (services : NativeServices) where
  -- A call, with what it returns; `stop` returns nothing.
  unfoldable pub perform : Call → WindowsCapsule services → Outcome services
  perform (requesting service r) self = request services service r self
  perform activating self = activate services self
  perform cancelling self = cancel_process_tree services self
  perform suspending self = suspend services self
  perform resuming self = resume services self
  perform stopping self = (ok tt, stop services self)

  unfoldable pub run : List Call → WindowsCapsule services → WindowsCapsule services
  run [] self = self
  run (call ∷ calls) self = run calls (perform call self).1

  stop_lem : (self : WindowsCapsule services) → (stop services self).lifecycle ≡ stopped
  unfolding stop
  stop_lem self = ended self.lifecycle refl
    where
      ended :
          (state : Lifecycle)
          → self.lifecycle ≡ state
          → (stopped_from services state self).lifecycle ≡ stopped
      ended ready h = refl
      ended active h = refl
      ended suspended h = refl
      ended stopped h = h

  -- The native services that `stop` leaves behind: cleaned up, unless they had been.
  stop-cleanup :
      (self : WindowsCapsule services)
      → (stop services self).native
        ≡ (if has_stopped self.lifecycle then self.native else services.cleanup self.native)
  unfolding stop
  stop-cleanup self = ended self.lifecycle refl
    where
      ended :
          (state : Lifecycle)
          → self.lifecycle ≡ state
          → (stopped_from services state self).native
            ≡ (if has_stopped state then self.native else services.cleanup self.native)
      ended ready h = refl
      ended active h = refl
      ended suspended h = refl
      ended stopped h = refl

  -- In a stopped capsule, every call but `stop` is refused, and none has an effect.
  module _ (self : WindowsCapsule services) (e : self.lifecycle ≡ stopped) where
    at_rest : (call : Call) → (perform call self).1 ≡ self
    unfolding perform request activate cancel_process_tree suspend resume stop
    at_rest (requesting service r) = simp e refl
    at_rest activating = simp e refl
    at_rest cancelling = simp e refl
    at_rest suspending = simp e refl
    at_rest resuming = simp e refl
    at_rest stopping = simp e refl

    turned_away : (call : Call) → call ≢ stopping → (perform call self).0 ≡ err is_stopped
    unfolding perform request activate cancel_process_tree suspend resume
    turned_away (requesting service r) other = simp e refl
    turned_away activating other = simp e refl
    turned_away cancelling other = simp e refl
    turned_away suspending other = simp e refl
    turned_away resuming other = simp e refl
    turned_away stopping other = absurd (other refl)

  run_at_rest :
      (calls : List Call) (self : WindowsCapsule services)
      → self.lifecycle ≡ stopped
      → run calls self ≡ self
  unfolding run
  run_at_rest [] self e = refl
  run_at_rest (call ∷ calls) self e =
      ap (run calls) (at_rest self e call) ∙ run_at_rest calls self e

  -- Stopping is final. `stop` cleans the native services up, unless the capsule was stopped before, when
  -- it leaves them as they are. Whatever calls follow, dropping among them, the capsule is stopped and
  -- stays as it was, its native services included, so that they are not cleaned up again and no request
  -- reaches them; and every call but `stop` is refused as stopped.
  pub run-stop :
      (calls : List Call) (self : WindowsCapsule services)
      → ((stop services self).lifecycle ≡ stopped)
        × ((stop services self).native
            ≡ (if has_stopped self.lifecycle then self.native else services.cleanup self.native))
        × (run calls (stop services self) ≡ stop services self)
        × ((call : Call)
            → call ≢ stopping
            → (perform call (run calls (stop services self))).0 ≡ err is_stopped)
  run-stop calls self =
      let rest = run_at_rest calls (stop services self) (stop_lem self) in
      (
        stop_lem self,
        stop-cleanup self,
        rest,
        λ call other.
            ap (λ c. (perform call c).0) rest
            ∙ turned_away (stop services self) (stop_lem self) call other,
      )
