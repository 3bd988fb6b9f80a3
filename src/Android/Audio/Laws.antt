-- ===== src/Android/Audio/Laws.antt =====
-- The audio session: its invariant, and that a refusal changes nothing.
use sim_platform.Prelude.{
  ℕ, String, Bool, true, false, ◌&&◌, Option, none, some, ◌≡◌, refl, sym, subst, if_rule, Result,
  ok, err, ◌>>=◌,
}
use sim_platform.Android.Audio.{
  RouteObservation, RoutingContract, for_api, AudioSessionSpec, AudioRouteReceipt, AudioInput, arm,
  route_seen, stop, tick, AndroidAudioState, default, release, armed, is_none_of, observed_at,
  route_or_default, receipt_of, receipt_for, receipt_at, receipt, AudioResult, check_session,
  arm_checked, normalized, is_stale, follow_route, take_route, has_expired, dispatch,
}

-- The focus and the communication route are held exactly by an armed session, which passed its test.
pub record IsValid (self : AndroidAudioState) : Type 0 where
  pub focus : self.focus_held ≡ armed self
  pub communication : self.communication_route_held ≡ armed self
  pub checked : (spec : AudioSessionSpec) → self.session ≡ some spec → check_session spec ≡ ok tt

-- An answer leaves a valid state, and a refusal the state as it was.
abbrev pub Keeps : AndroidAudioState → AudioResult → Type 0
Keeps self (ok route, self') = IsValid self'
Keeps self (err e, self') = self' ≡ self

pub default-IsValid : IsValid default
default-IsValid = record { focus = refl; communication = refl; checked = λ spec h. cc }

pub release-IsValid : (self : AndroidAudioState) → IsValid (release self)
release-IsValid self = record { focus = refl; communication = refl; checked = λ spec h. cc }

-- A session that passed its test names a routing contract.
check_session-for_api :
    (spec : AudioSessionSpec)
    → check_session spec ≡ ok tt
    → (c : RoutingContract) × (for_api spec.api_level ≡ ok c)
unfolding check_session
check_session-for_api spec h = found _ (for_api spec.api_level) refl h
  where
    found :
        (k : RoutingContract → Result String (Unit {0})) (r : Result String RoutingContract)
        → for_api spec.api_level ≡ r
        → (r >>= k) ≡ ok tt
        → (c : RoutingContract) × (for_api spec.api_level ≡ ok c)
    found k (ok c) e h = (c, e)
    found k (err m) e h = cc

module _ (self : AndroidAudioState) where
  receipt_at-ok :
      (now_ms : ℕ) → IsValid self → (r : Option AudioRouteReceipt) × (receipt_at self now_ms ≡ ok r)
  unfolding receipt_at
  receipt_at-ok now_ms v = found self.session refl
    where
      found :
          (o : Option AudioSessionSpec)
          → self.session ≡ o
          → (r : Option AudioRouteReceipt) × (receipt_for self o now_ms ≡ ok r)
      found none e = (none, refl)
      found (some spec) e =
          let (c, named) = check_session-for_api spec (v.checked spec e) in
          (some (receipt_of self spec c (route_or_default self.route) now_ms), rw named)

  -- A receipt of a valid state is an answer.
  answered :
      (now_ms : ℕ) (P : Result String (Option AudioRouteReceipt) → Type 0)
      → IsValid self
      → ((r : Option AudioRouteReceipt) → P (ok r))
      → P (receipt_at self now_ms)
  answered now_ms P v h = let (r, e) = receipt_at-ok now_ms v in subst P (sym e) (h r)

module _ (self : AndroidAudioState) where
  arm-Keeps : (spec : AudioSessionSpec) → Keeps self (arm_checked (check_session spec) spec self)
  unfolding receipt
  arm-Keeps spec = checked (check_session spec) refl
    where
      checked :
          (r : Result String (Unit {0}))
          → check_session spec ≡ r
          → Keeps self (arm_checked r spec self)
      checked (err e) h = refl
      checked (ok u) h =
          answered self' (observed_at self'.route) (λ r. Keeps self (r, self')) valid (λ r. valid)
        where
          self' : AndroidAudioState
          self' = record (release self) {
            session = some spec;
            focus_held = true;
            communication_route_held = true;
          }

          valid : IsValid self'
          valid = record {
            focus = refl;
            communication = refl;
            checked =
                λ s e. let same : spec ≡ s = cc in subst (λ t. check_session t ≡ ok tt) same h;
          }

  take_route-Keeps :
      (observation : RouteObservation) → IsValid self → Keeps self (take_route observation self)
  unfolding take_route receipt
  take_route-Keeps observation v =
      if_rule (Keeps self) (is_stale observation self.route) _ _ (λ stale. refl)
        λ fresh.
          answered self' (observed_at self'.route)
            (λ r. Keeps self (
              follow_route (is_none_of observation.capture && is_none_of observation.render) r
                self'))
            valid
            (λ r. followed (is_none_of observation.capture && is_none_of observation.render) r)
    where
      self' : AndroidAudioState
      self' = record self { route = some observation }

      valid : IsValid self'
      valid = record { focus = v.focus; communication = v.communication; checked = v.checked }

      followed :
          (b : Bool) (r : Option AudioRouteReceipt) → Keeps self (follow_route b (ok r) self')
      followed true r = release-IsValid self'
      followed false r = valid

  pub dispatch-Keeps : (input : AudioInput) → IsValid self → Keeps self (dispatch input self)
  unfolding dispatch
  dispatch-Keeps (arm spec) v = arm-Keeps spec
  dispatch-Keeps (route_seen observation) v = take_route-Keeps (normalized observation) v
  dispatch-Keeps (stop reason) v = release-IsValid self
  dispatch-Keeps (tick now_ms) v =
      if_rule (Keeps self) (has_expired now_ms self.session) _ _ (λ over. release-IsValid self)
        (λ going. answered self now_ms (λ r. Keeps self (r, self)) v (λ r. v))
