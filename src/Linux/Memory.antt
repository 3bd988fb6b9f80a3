-- ===== src/Linux/Memory.antt =====
-- The tokens that a Linux activation has cancelled, over one call.
use sim_platform.Prelude.{
  ℕ, ◌+◌, ◌-◌, ◌^◌, min, true, ◌||◌, Option, none, some, ◌≡◌, leb, if_rule, number_key, text_key,
  length, contains,
}
use sim_platform.Linux.{
  Host, Clock, Request, wall_clock, monotonic_clock, timer, entropy_request, locale_request,
  timezone_request, pressure_request, limits_request, mount_request, desktop, lifecycle_request,
  cancel_request, is_suspended, has_mount, Capsule, Outcome, call_portal, give_entropy, execute,
  begin, apply,
}
use sim_platform.Linux.Budgets.{contains-add}

module _ (host : Host) where
  -- Nothing that was cancelled is forgotten.
  abbrev pub Remembers : Capsule host → Capsule host → Type 0
  Remembers self after =
      (t : ℕ) → contains self.cancelled_tokens t ≡ true → contains after.cancelled_tokens t ≡ true

  execute-Remembers :
      (clock : Clock) (request : Request) (self : Capsule host)
      → Remembers self (execute host clock request self).1
  unfolding execute give_entropy
  execute-Remembers clock wall_clock self = λ t seen. seen
  execute-Remembers clock monotonic_clock self = λ t seen. seen
  execute-Remembers clock (timer ns) self =
      if_rule (λ (o : Outcome host). Remembers self o.1) (leb ns self.budget.timer_ns) _ _
        (λ fits t seen. seen) (λ long t seen. seen)
  execute-Remembers clock (entropy_request count) self =
      if_rule (λ (o : Outcome host). Remembers self o.1)
        (leb (min (self.entropy_used + count) (2 ^ 64 - 1)) self.budget.entropy_bytes) _ _
        (λ fits t seen. seen) (λ large t seen. seen)
  execute-Remembers clock locale_request self = λ t seen. seen
  execute-Remembers clock timezone_request self = λ t seen. seen
  execute-Remembers clock pressure_request self = λ t seen. seen
  execute-Remembers clock limits_request self = λ t seen. seen
  execute-Remembers clock (mount_request name) self =
      if_rule (λ (o : Outcome host). Remembers self o.1) (has_mount host self.mounts name) _ _
        (λ there t seen. seen) (λ absent t seen. seen)
  execute-Remembers clock (desktop op) self = called self.portal
    where
      called : (portal : Option host.Portal) → Remembers self (call_portal host op portal self).1
      called none t seen = seen
      called (some portal) t seen = seen
  execute-Remembers clock lifecycle_request self = λ t seen. seen
  execute-Remembers clock (cancel_request token) self =
      λ t seen. contains-add self.cancelled_tokens token t seen

  pub apply-Remembers :
      (clock : Clock) (token : ℕ) (request : Request) (self : Capsule host)
      → Remembers self (apply host clock token request self).1
  unfolding apply
  apply-Remembers clock token request self =
      if_rule (λ (o : Outcome host). Remembers self o.1) (is_suspended self.lifecycle) _ _
        (λ asleep t seen. seen)
        λ awake.
          if_rule (λ (o : Outcome host). Remembers self o.1) (contains self.cancelled_tokens token)
            _ _ (λ gone t seen. seen)
            λ fresh.
              if_rule (λ (o : Outcome host). Remembers self o.1)
                (leb self.budget.requests self.used || leb self.budget.queue (length self.queue)) _
                _ (λ exhausted t seen. seen)
                (λ left. execute-Remembers clock request (begin host token self))
