-- ===== src/Linux/Revocation.antt =====
-- What a history of calls on a Linux activation spends, and what it never forgets.
use sim_platform.Prelude.{
  text_key, ℕ, ◌+◌, ◌-◌, ◌^◌, ◌≤◌, ◌<◌, true, Option, List, [], ◌∷◌, ◌≡◌, ◌∙◌, refl, ap,
  if◌then◌else◌, arith, if_rule, Bool-cases, inl, inr, number_key, contains, add, Result, err,
}
use sim_platform.Core.Records.{ResolutionRefusal, RefusalKind, Lifecycle, cancelled}
use sim_platform.Linux.{
  HostFacts, Host, Clock, Budget, Request, Reply, XdgMounts, Capsule, new, is_suspended, refusal,
  suspend, resume, revoke, apply,
}
use sim_platform.Linux.Memory.{Remembers, apply-Remembers}
use sim_platform.Linux.Budgets.{bytes_in, replies_in, IsValid, apply-Paid, contains-add}

module _ (host : Host) where
  pub data Call : Type 0 where
    applying : Clock → ℕ → Request → Call
    suspending resuming : Call
    revoking : ℕ → Call

  -- The bytes and replies of a history, and the capsule after it.
  pub record Spent : Type 0 where
    pub entropy_bytes : ℕ
    pub replies : ℕ

  abbrev pub pay : Result ResolutionRefusal Reply → Spent → Spent
  pay r s = record {
    entropy_bytes = bytes_in r + s.entropy_bytes;
    replies = replies_in r + s.replies;
  }

  abbrev pub run : List Call → Capsule host → Spent × Capsule host
  run [] self = (record { entropy_bytes = 0; replies = 0 }, self)
  run (applying clock token request ∷ calls) self =
      let o = apply host clock token request self in let p = run calls o.1 in (pay o.0 p.0, p.1)
  run (suspending ∷ calls) self = run calls (suspend host self)
  run (resuming ∷ calls) self = run calls (resume host self)
  run (revoking token ∷ calls) self = run calls (revoke host token self)

  -- The account of a history.
  pub record Account (self : Capsule host) (s : Spent) (self' : Capsule host) : Type 0 where
    pub valid : IsValid host self'
    pub same_budget : self'.budget ≡ self.budget
    pub entropy_paid : self'.entropy_used ≡ self.entropy_used + s.entropy_bytes
    pub requests_paid : self.used + s.replies ≤ self'.used
    pub remembers :
        (t : ℕ) → contains self.cancelled_tokens t ≡ true → contains self'.cancelled_tokens t ≡ true

  -- Suspension, resumption and revocation change the lifecycle and the set of tokens.
  abbrev altered : Capsule host → Lifecycle → List ℕ → Capsule host
  altered self state tokens = record self { lifecycle = state; cancelled_tokens = tokens }

  altered-IsValid :
      (self : Capsule host) (state : Lifecycle) (tokens : List ℕ)
      → IsValid host self
      → IsValid host (altered self state tokens)
  altered-IsValid self state tokens v = record {
    requests_word = v.requests_word;
    entropy_word = v.entropy_word;
    requests_within = v.requests_within;
    entropy_within = v.entropy_within;
    idle = v.idle;
  }

  Account-altered :
      (self : Capsule host) (state : Lifecycle) (tokens : List ℕ) (s : Spent) (end : Capsule host)
      → ((t : ℕ) → contains self.cancelled_tokens t ≡ true → contains tokens t ≡ true)
      → Account (altered self state tokens) s end
      → Account self s end
  Account-altered self state tokens s end keeps rest = record {
    valid = rest.valid;
    same_budget = rest.same_budget;
    entropy_paid = rest.entropy_paid;
    requests_paid = rest.requests_paid;
    remembers = λ t seen. rest.remembers t (keeps t seen);
  }

  run-Account :
      (calls : List Call) (self : Capsule host)
      → IsValid host self
      → Account self (run calls self).0 (run calls self).1
  unfolding suspend resume revoke
  run-Account [] self v = record {
    valid = v;
    same_budget = refl;
    entropy_paid = omega arith;
    requests_paid = omega arith;
    remembers = λ t seen. seen;
  }
  run-Account (applying clock token request ∷ calls) self v =
      let o = apply host clock token request self in
      let paid = apply-Paid host self v clock token request in
      let rest = run-Account calls o.1 paid.valid in
      record {
        valid = rest.valid;
        same_budget = rest.same_budget ∙ paid.same_budget;
        entropy_paid = omega (arith, rest.entropy_paid, paid.entropy_paid);
        requests_paid = omega (arith, rest.requests_paid, paid.request_paid);
        remembers = λ t seen. rest.remembers t (paid.remembers t seen);
      }
  run-Account (suspending ∷ calls) self v =
      Account-altered self Lifecycle.suspended self.cancelled_tokens _ _ (λ t seen. seen)
        (run-Account calls (suspend host self) (altered-IsValid self _ _ v))
  run-Account (resuming ∷ calls) self v =
      Account-altered self Lifecycle.ready self.cancelled_tokens _ _ (λ t seen. seen)
        (run-Account calls (resume host self) (altered-IsValid self _ _ v))
  run-Account (revoking token ∷ calls) self v =
      Account-altered self self.lifecycle (add token self.cancelled_tokens) _ _
        (contains-add self.cancelled_tokens token)
        (run-Account calls (revoke host token self) (altered-IsValid self _ _ v))

  module _ (facts : HostFacts) (mounts : XdgMounts host) (portal : Option host.Portal)
      (budget : Budget) (seed : ℕ) where
    abbrev pub activation : Capsule host
    activation = new host facts mounts portal budget seed

    -- In any history of calls on a new activation, whose request budget is a 32-bit word and whose entropy
    -- budget is below the largest 64-bit word: all replies together hold at most the budgeted bytes of
    -- entropy, at most the budgeted number of requests is answered, the counters of the capsule account
    -- for them, the budgets stay as they were, and no request is left in the queue.
    pub run-new :
        (calls : List Call)
        → budget.requests < 2 ^ 32
        → budget.entropy_bytes < 2 ^ 64 - 1
        → ((run calls activation).0.entropy_bytes ≤ budget.entropy_bytes)
          × ((run calls activation).0.replies ≤ budget.requests)
          × Account activation (run calls activation).0 (run calls activation).1
    run-new calls requests_word entropy_word =
        let account = run-Account calls activation (record {
          requests_word = requests_word;
          entropy_word = entropy_word;
          requests_within = omega arith;
          entropy_within = omega arith;
          idle = refl;
        }) in
        let requests = ap (λ (b : Budget). b.requests) account.same_budget in
        let bytes_left = ap (λ (b : Budget). b.entropy_bytes) account.same_budget in
        (
          omega (arith, account.entropy_paid, account.valid.entropy_within, bytes_left),
          omega (arith, account.requests_paid, account.valid.requests_within, requests),
          account,
        )

  revoked_lem :
      (token : ℕ) (self : Capsule host)
      → contains (revoke host token self).cancelled_tokens token ≡ true
  unfolding revoke
  revoked_lem token self =
      if_rule (λ ys. contains ys token ≡ true) (contains self.cancelled_tokens token) _ _
        (λ there. there) (λ fresh. ground arith)

  run-Remembers : (calls : List Call) (self : Capsule host) → Remembers host self (run calls self).1
  unfolding suspend resume revoke
  run-Remembers [] self = λ t seen. seen
  run-Remembers (applying clock token request ∷ calls) self = λ t seen.
      run-Remembers calls (apply host clock token request self).1 t
        (apply-Remembers host clock token request self t seen)
  run-Remembers (suspending ∷ calls) self = run-Remembers calls (suspend host self)
  run-Remembers (resuming ∷ calls) self = run-Remembers calls (resume host self)
  run-Remembers (revoking token ∷ calls) self = λ t seen.
      run-Remembers calls (revoke host token self) t
        (contains-add self.cancelled_tokens token t seen)

  -- After a token was revoked on an activation in any state, and any history of calls since, a request under it is refused as cancelled,
  -- or as suspended while the activation is suspended, and changes nothing.
  pub apply-revoke :
      (self : Capsule host) (token : ℕ) (calls : List Call) (clock : Clock) (request : Request)
      → let later = (run calls (revoke host token self)).1 in
        apply host clock token request later ≡ (
          err (
              if is_suspended later.lifecycle
              then refusal RefusalKind.suspended "activation is suspended"
              else refusal cancelled "request is cancelled or revoked"),
          later,
        )
  unfolding apply
  apply-revoke self token calls clock request =
      let later = (run calls (revoke host token self)).1 in
      let gone = run-Remembers calls (revoke host token self) token (revoked_lem token self) in
      elim (Bool-cases (is_suspended later.lifecycle)) [
        | inl asleep ↦ rw asleep
        | inr awake ↦ rw (awake, gone)
      ]
