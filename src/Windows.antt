-- ===== src/Windows.antt =====
-- crates/sim-platform-windows/src/windows.rs: the Windows capsule over its native services. A call returns
-- its result and the capsule after it.
pub mod TablePath
mod Life
mod Tests
use Prim.Native.String
use sim_platform.Prelude.{
  ℕ, ◌*◌, String, Bool, true, false, not, ◌||◌, List, [], ◌∷◌, ltb, eqb, if◌then◌else◌, contains,
  any, text_key, ◌==◌, Result, ok, err, map_err, refuse_if, ◌>>=◌, ◌>>◌,
}
use sim_platform.Windows.TablePath.{WindowsPath, from_table_units}

pub record WindowsProfile : Type 0 where
  pub preopened_dirs : List (String × List ℕ)
  pub grants : List String
  pub max_processes : ℕ
  pub max_output_bytes : ℕ

pub data Lifecycle : Type 0 where
  ready active suspended stopped : Lifecycle

pub data NativeRequest : Type 0 where
  launch load connect activation clipboard notify audio midi compute permission_status
        permission_request :
      NativeRequest

pub data CapsuleError : Type 0 where
  missing_capability unknown_preopen : String → CapsuleError
  invalid_budget is_suspended is_stopped : CapsuleError
  native_error : String → CapsuleError

-- The trait `NativeServices`, whose implementations stand outside: each call moves their state.
pub record NativeServices : Type 1 where
  pub State : Type 0
  pub dispatch : NativeRequest → State → Result String (Unit {0}) × State
  pub cancel_process_tree : State → State
  pub cleanup : State → State

module _ (services : NativeServices) where
  pub record WindowsCapsule : Type 0 where
    pub native : services.State
    pub profile : WindowsProfile
    pub lifecycle : Lifecycle

  unfoldable pub new : services.State → WindowsProfile → Result CapsuleError WindowsCapsule
  new native profile =
      if eqb profile.max_processes 0
        || ltb 64 profile.max_processes
        || eqb profile.max_output_bytes 0
        || ltb (16 * 1024 * 1024) profile.max_output_bytes
      then err invalid_budget
      else ok (record { native = native; profile = profile; lifecycle = ready })

  abbrev pub Outcome : Type 0
  Outcome = Result CapsuleError (Unit {0}) × WindowsCapsule

  abbrev pub running : Lifecycle → Result CapsuleError (Unit {0})
  running suspended = err is_suspended
  running stopped = err is_stopped
  running _ = ok tt

  abbrev pub ensure_running : WindowsCapsule → Result CapsuleError (Unit {0})
  ensure_running self = running self.lifecycle

  unfoldable pub resolve_preopen :
      String → List ℕ → WindowsCapsule → Result CapsuleError WindowsPath
  resolve_preopen name relative self = do
    refuse_if (not (any (λ row. row.0 == name) self.profile.preopened_dirs)) (unknown_preopen name)
    map_err (λ e. native_error "invalid table path") (from_table_units relative)

  -- A call that goes on only in a running capsule.
  abbrev pub when_running : Result CapsuleError (Unit {0}) → WindowsCapsule → Outcome → Outcome
  when_running (err e) self next = (err e, self)
  when_running (ok u) self next = next

  abbrev pub with_native : Result String (Unit {0}) × services.State → WindowsCapsule → Outcome
  with_native (result, native) self = (map_err native_error result, record self { native = native })

  unfoldable pub request : String → NativeRequest → WindowsCapsule → Outcome
  request service r self = when_running (ensure_running self) self (
      let required = String.◌++◌ "platform/" service in
      if contains self.profile.grants required
      then with_native (services.dispatch r self.native) self
      else (err (missing_capability required), self))

  abbrev pub becomes : Lifecycle → Outcome → Outcome
  becomes state (ok u, self) = (ok tt, record self { lifecycle = state })
  becomes state (err e, self) = (err e, self)

  unfoldable pub activate : WindowsCapsule → Outcome
  activate self = becomes active (request "activation" activation self)

  unfoldable pub cancel_process_tree : WindowsCapsule → Outcome
  cancel_process_tree self =
      when_running (ensure_running self) self
        (ok tt, record self { native = services.cancel_process_tree self.native })

  unfoldable pub suspend : WindowsCapsule → Outcome
  suspend self =
      when_running (ensure_running self) self (ok tt, record self { lifecycle = suspended })

  abbrev pub resumed : Lifecycle → WindowsCapsule → Outcome
  resumed suspended self = (ok tt, record self { lifecycle = ready })
  resumed _ self = (ensure_running self, self)

  unfoldable pub resume : WindowsCapsule → Outcome
  resume self = resumed self.lifecycle self

  abbrev pub stopped_from : Lifecycle → WindowsCapsule → WindowsCapsule
  stopped_from stopped self = self
  stopped_from _ self = record self { native = services.cleanup self.native; lifecycle = stopped }

  -- `stop`, which is also what dropping the capsule does.
  unfoldable pub stop : WindowsCapsule → WindowsCapsule
  stop self = stopped_from self.lifecycle self
