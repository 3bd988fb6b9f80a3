-- ===== src/Linux/Budgets.antt =====
-- The budgets of a Linux activation over any history of calls.
use sim_platform.Prelude.{
  ℕ, zero, suc, ◌+◌, ◌-◌, ◌%◌, ◌^◌, ◌≤◌, ◌<◌, min, true, ◌||◌, Option, none, some, List, [], ◌∷◌,
  ◌++◌, ◌≡◌, ◌∙◌, refl, ap, arith, leb, if_rule, number_key, text_key, length, drop, contains, add,
  Result, ok, err,
}
use sim_platform.Core.Records.{ResolutionRefusal}
use sim_platform.Linux.{
  DesktopOperation, Host, Clock, Budget, Request, wall_clock, monotonic_clock, timer,
  entropy_request, locale_request, timezone_request, pressure_request, limits_request,
  mount_request, desktop, lifecycle_request, cancel_request, Reply, integer, bytes, text, limits,
  mounted, portal_reply, lifecycle_reply, cancelled_reply, entropy, wall_reply, portal_result,
  PortalError, PortalReply, is_suspended, has_mount, Capsule, Outcome, call_portal, give_entropy,
  execute, begin, finish, apply,
}

-- The bytes of entropy that a result holds, and whether it is a reply.
abbrev pub bytes_in : Result ResolutionRefusal Reply → ℕ
bytes_in (ok (bytes bs)) = length bs
bytes_in (ok (integer n)) = 0
bytes_in (ok (text s)) = 0
bytes_in (ok (limits m s p)) = 0
bytes_in (ok (mounted name)) = 0
bytes_in (ok (portal_reply reply)) = 0
bytes_in (ok (lifecycle_reply state)) = 0
bytes_in (ok cancelled_reply) = 0
bytes_in (err e) = 0

abbrev pub replies_in : Result ResolutionRefusal Reply → ℕ
replies_in (ok reply) = 1
replies_in (err e) = 0

replies_bound : (r : Result ResolutionRefusal Reply) → replies_in r ≤ 1
replies_bound (ok reply) = omega arith
replies_bound (err e) = omega arith

length-entropy : (count seed : ℕ) → length (entropy count seed).0 ≡ count
unfolding entropy
length-entropy zero seed = refl
length-entropy (suc count) seed = omega (arith, length-entropy count _)

pub contains-add : (xs : List ℕ) (a t : ℕ) → contains xs t ≡ true → contains (add a xs) t ≡ true
contains-add xs a t h =
    if_rule (λ ys. contains ys t ≡ true) (contains xs a) xs (a ∷ xs) (λ there. h)
      (λ fresh. ground (arith, h))

module _ (host : Host) where
  -- The budgets are machine words, that of entropy less than the largest, at which the saturating sum of
  -- the source's test no longer bounds the sum that it adds; what was used is within them, and no request is left queued.
  pub record IsValid (self : Capsule host) : Type 0 where
    pub requests_word : self.budget.requests < 2 ^ 32
    pub entropy_word : self.budget.entropy_bytes < 2 ^ 64 - 1
    pub requests_within : self.used ≤ self.budget.requests
    pub entropy_within : self.entropy_used ≤ self.budget.entropy_bytes
    pub idle : self.queue ≡ []

  -- What executing a request may change.
  record Executed (self : Capsule host) (o : Outcome host) : Type 0 where
    same_budget : o.1.budget ≡ self.budget
    same_used : o.1.used ≡ self.used
    same_queue : o.1.queue ≡ self.queue
    entropy_spent : o.1.entropy_used ≡ self.entropy_used + bytes_in o.0
    entropy_within : o.1.entropy_used ≤ self.budget.entropy_bytes
    remembers :
        (t : ℕ) → contains self.cancelled_tokens t ≡ true → contains o.1.cancelled_tokens t ≡ true

  module _ (self : Capsule host) (word : self.budget.entropy_bytes < 2 ^ 64 - 1)
      (within : self.entropy_used ≤ self.budget.entropy_bytes) where
    unchanged : (r : Result ResolutionRefusal Reply) → bytes_in r ≡ 0 → Executed self (r, self)
    unchanged r h = record {
      same_budget = refl;
      same_used = refl;
      same_queue = refl;
      entropy_spent = omega (arith, h);
      entropy_within = within;
      remembers = λ t seen. seen;
    }

    with_portal :
        (r : Result ResolutionRefusal Reply) (p : Option host.Portal)
        → bytes_in r ≡ 0
        → Executed self (r, record self { portal = p })
    with_portal r p h = record {
      same_budget = refl;
      same_used = refl;
      same_queue = refl;
      entropy_spent = omega (arith, h);
      entropy_within = within;
      remembers = λ t seen. seen;
    }

    give_entropy-Executed : (count : ℕ) → Executed self (give_entropy host count self)
    unfolding give_entropy
    give_entropy-Executed count =
        if_rule (Executed self)
          (leb (min (self.entropy_used + count) (2 ^ 64 - 1)) self.budget.entropy_bytes) _ _
          (λ fits.
            let small : self.entropy_used + count ≤ self.budget.entropy_bytes =
              ground (arith, word) in
            let exact : (self.entropy_used + count) % 2 ^ 64 ≡ self.entropy_used + count =
              omega (arith, small, word) in
            record {
              same_budget = refl;
              same_used = refl;
              same_queue = refl;
              entropy_spent = omega (arith, exact, length-entropy count self.seed);
              entropy_within = omega (arith, exact, small);
              remembers = λ t seen. seen;
            })
          (λ large. unchanged _ refl)

    wall-Executed : (wall : Option ℕ) → Executed self (wall_reply host wall, self)
    wall-Executed none = unchanged _ refl
    wall-Executed (some n) = unchanged _ refl

    portal_bytes : (r : Result PortalError PortalReply) → bytes_in (portal_result host r) ≡ 0
    portal_bytes (ok reply) = refl
    portal_bytes (err e) = refl

    call_portal-Executed :
        (op : DesktopOperation) (portal : Option host.Portal)
        → Executed self (call_portal host op portal self)
    call_portal-Executed op none = unchanged _ refl
    call_portal-Executed op (some portal) = with_portal _ _ (portal_bytes (host.call op portal).0)

    execute-Executed :
        (clock : Clock) (request : Request) → Executed self (execute host clock request self)
    unfolding execute
    execute-Executed clock wall_clock = wall-Executed clock.wall
    execute-Executed clock monotonic_clock = unchanged _ refl
    execute-Executed clock (timer ns) =
        if_rule (Executed self) (leb ns self.budget.timer_ns) _ _ (λ fits. unchanged _ refl)
          (λ long. unchanged _ refl)
    execute-Executed clock (entropy_request count) = give_entropy-Executed count
    execute-Executed clock locale_request = unchanged _ refl
    execute-Executed clock timezone_request = unchanged _ refl
    execute-Executed clock pressure_request = unchanged _ refl
    execute-Executed clock limits_request = unchanged _ refl
    execute-Executed clock (mount_request name) =
        if_rule (Executed self) (has_mount host self.mounts name) _ _ (λ there. unchanged _ refl)
          (λ absent. unchanged _ refl)
    execute-Executed clock (desktop op) = call_portal-Executed op self.portal
    execute-Executed clock lifecycle_request = unchanged _ refl
    execute-Executed clock (cancel_request token) = record {
      same_budget = refl;
      same_used = refl;
      same_queue = refl;
      entropy_spent = omega arith;
      entropy_within = within;
      remembers = λ t seen. contains-add self.cancelled_tokens token t seen;
    }

  -- What one call changes: it stays within the budgets, and pays for what it returns.
  pub record Paid (self : Capsule host) (r : Result ResolutionRefusal Reply) (self' : Capsule host)
      : Type 0 where
    pub valid : IsValid self'
    pub same_budget : self'.budget ≡ self.budget
    pub entropy_paid : self'.entropy_used ≡ self.entropy_used + bytes_in r
    pub request_paid : self.used + replies_in r ≤ self'.used
    pub remembers :
        (t : ℕ) → contains self.cancelled_tokens t ≡ true → contains self'.cancelled_tokens t ≡ true

  module _ (self : Capsule host) (v : IsValid self) where
    refused : (e : ResolutionRefusal) → Paid self (err e) self
    refused e = record {
      valid = v;
      same_budget = refl;
      entropy_paid = omega arith;
      request_paid = omega arith;
      remembers = λ t seen. seen;
    }

    abbrev PaidOutcome : Outcome host → Type 0
    PaidOutcome o = Paid self o.0 o.1

    finish-Paid :
        (token : ℕ) (r : Result ResolutionRefusal Reply) (self' : Capsule host)
        → self.used < self.budget.requests
        → Executed (begin host token self) (r, self')
        → Paid self r (finish host (r, self')).1
    finish-Paid token r self' left x =
        let counted : (self.used + 1) % 2 ^ 32 ≡ self.used + 1 =
          omega (arith, left, v.requests_word) in
        let requests = ap (λ (b : Budget). b.requests) x.same_budget in
        let bytes_left = ap (λ (b : Budget). b.entropy_bytes) x.same_budget in
        record {
          valid = record {
            requests_word = omega (arith, v.requests_word, requests);
            entropy_word = omega (arith, v.entropy_word, bytes_left);
            requests_within = omega (arith, x.same_used, counted, left, requests);
            entropy_within = omega (arith, x.entropy_within, bytes_left);
            idle = ap (λ q. drop 1 q) x.same_queue ∙ ap (λ q. drop 1 (q ++ token ∷ [])) v.idle;
          };
          same_budget = x.same_budget;
          entropy_paid = x.entropy_spent;
          request_paid = omega (arith, x.same_used, counted, replies_bound r);
          remembers = x.remembers;
        }

    pub apply-Paid :
        (clock : Clock) (token : ℕ) (request : Request)
        → Paid self (apply host clock token request self).0 (apply host clock token request self).1
    unfolding apply
    apply-Paid clock token request =
        if_rule PaidOutcome (is_suspended self.lifecycle) _ _ (λ asleep. refused _)
          λ awake.
            if_rule PaidOutcome (contains self.cancelled_tokens token) _ _ (λ gone. refused _)
              λ fresh.
                if_rule PaidOutcome
                  (leb self.budget.requests self.used || leb self.budget.queue (length self.queue))
                  _ _ (λ exhausted. refused _)
                  λ left.
                    let o = execute host clock request (begin host token self) in
                    finish-Paid token o.0 o.1 (ground arith) (
                      execute-Executed (begin host token self) v.entropy_word v.entropy_within clock
                        request)
