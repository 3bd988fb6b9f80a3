-- ===== src/Browser/Invariant.antt =====
-- The invariant of the browser capsule, and that every input keeps it.
use sim_platform.Prelude.{
  ℕ, ◌+◌, ◌^◌, ◌≤◌, ◌<◌, true, false, none, List, [], ◌∷◌, ◌≡◌, refl, ap, ◌∙◌, arith, ltb,
  if◌then◌else◌, if_rule, Bool-cases, inl, inr, length, contains, All, IsNodup, number_key, ◌==◌,
}
use sim_platform.Prelude.Maps.{get, insert, get-insert}
use sim_platform.Browser.Types.{max_handles, BrowserApis, Lifecycle}
use sim_platform.Browser.{
  PendingCall, Capsule, new, ends_calls, Outcome, set_state, remove_call, remove_handle,
}

abbrev pub Calls : Type 0
Calls = List (ℕ × PendingCall)

-- No two calls have one number.
abbrev pub IsDistinct : Calls → Type 0
IsDistinct [] = Unit
IsDistinct ((j, call) ∷ calls) = (get j calls ≡ none) × IsDistinct calls

pub get-below : (n : ℕ) (calls : Calls) → All (λ c. c.0 < n) calls → get n calls ≡ none
unfolding get
get-below n [] h = refl
get-below n ((j, call) ∷ calls) h = ground (arith, get-below n calls h.1, h.0)

pub insert-IsDistinct :
    (n : ℕ) (call : PendingCall) (calls : Calls)
    → get n calls ≡ none
    → IsDistinct calls
    → IsDistinct (insert ltb n call calls)
unfolding get insert
insert-IsDistinct n call [] fresh d = (refl, tt)
insert-IsDistinct n call ((j, old) ∷ calls) fresh d =
    let later = insert-IsDistinct n call calls in
    elim (Bool-cases (j == n)) [
      | inl same ↦ cc (simp same at fresh)
      | inr other ↦
          let fresh_later : get n calls ≡ none = simp other at fresh in
          elim (Bool-cases (ltb n j)) [
            | inl before ↦ rw (other, before) (rw other fresh_later, d)
            | inr after ↦
                let apart : get j (insert ltb n call calls) ≡ none =
                  get-insert ltb n j call calls ∙ ground (arith, d.0, other) in
                rw (other, after) (apart, later fresh_later d.1)
          ]
    ]

pub insert-below :
    (n m : ℕ) (call : PendingCall) (calls : Calls)
    → n < m
    → n ≤ m
    → All (λ c. c.0 < n) calls
    → All (λ c. c.0 < m) (insert ltb n call calls)
unfolding insert
insert-below n m call [] h k below = (h, tt)
insert-below n m call ((j, old) ∷ calls) h k below =
    let later = insert-below n m call calls h k below.1 in
    let rest = weaken calls below.1 in
    let first : j < m = omega (arith, below.0) in
    if_rule (All (λ c. c.0 < m)) (j == n) _ _ (λ e. (first, rest))
      λ e.
        if_rule (All (λ c. c.0 < m)) (ltb n j) _ _ (λ e. (h, (first, rest))) (λ e. (first, later))
  where
    weaken : (calls : Calls) → All (λ c. c.0 < n) calls → All (λ c. c.0 < m) calls
    weaken [] b = tt
    weaken (c ∷ calls) b = (omega (arith, b.0), weaken calls b.1)

pub length-insert :
    (n : ℕ) (call : PendingCall) (calls : Calls)
    → length (insert ltb n call calls) ≤ length calls + 1
unfolding insert
length-insert n call [] = omega arith
length-insert n call ((j, old) ∷ calls) = ground (arith, length-insert n call calls)

pub get-remove_call :
    (n j : ℕ) (calls : Calls)
    → IsDistinct calls
    → get j (remove_call n calls) ≡ (if n == j then none else get j calls)
unfolding get remove_call
get-remove_call n j [] d = ground arith
get-remove_call n j ((i, call) ∷ calls) d = ground (
  arith,
  number_key.eq_decides i n,
  number_key.eq_decides n j,
  number_key.eq_decides i j,
  get-remove_call n j calls d.1,
  d.0,
  ap (λ k. get k calls) {x = i} {y = j},
)

pub remove_call-All :
    (P : ℕ × PendingCall → Type 0) (n : ℕ) (calls : Calls)
    → All P calls
    → All P (remove_call n calls)
unfolding remove_call
remove_call-All P n [] h = tt
remove_call-All P n ((i, call) ∷ calls) h =
    let later = remove_call-All P n calls h.1 in
    if_rule (All P) (i == n) _ _ (λ e. h.1) (λ e. (h.0, later))

pub remove_call-IsDistinct :
    (n : ℕ) (calls : Calls) → IsDistinct calls → IsDistinct (remove_call n calls)
unfolding remove_call
remove_call-IsDistinct n [] d = tt
remove_call-IsDistinct n ((i, call) ∷ calls) d =
    let later = remove_call-IsDistinct n calls d.1 in
    let apart : get i (remove_call n calls) ≡ none =
      get-remove_call n i calls d.1 ∙ ground (arith, d.0) in
    if_rule IsDistinct (i == n) _ _ (λ e. d.1) (λ e. (apart, later))

pub length-remove_call : (n : ℕ) (calls : Calls) → length (remove_call n calls) ≤ length calls
unfolding remove_call
length-remove_call n [] = omega arith
length-remove_call n ((i, call) ∷ calls) = ground (arith, length-remove_call n calls)

pub length-remove_handle :
    (n : ℕ) (handles : List ℕ) → length (remove_handle n handles) ≤ length handles
unfolding remove_handle
length-remove_handle n [] = omega arith
length-remove_handle n (h ∷ handles) = ground (arith, length-remove_handle n handles)

contains-remove_handle :
    (n a : ℕ) (handles : List ℕ)
    → contains handles a ≡ false
    → contains (remove_handle n handles) a ≡ false
unfolding remove_handle
contains-remove_handle n a [] h = refl
contains-remove_handle n a (i ∷ handles) h = ground (arith, contains-remove_handle n a handles)

pub remove_handle-IsNodup :
    (n : ℕ) (handles : List ℕ) → IsNodup handles → IsNodup (remove_handle n handles)
unfolding remove_handle
remove_handle-IsNodup n [] h = tt
remove_handle-IsNodup n (i ∷ handles) h =
    let later = remove_handle-IsNodup n handles h.1 in
    let apart = contains-remove_handle n i handles h.0 in
    if_rule IsNodup (i == n) _ _ (λ e. h.1) (λ e. (apart, later))

pub record IsValid (self : Capsule) : Type 0 where
  pub few_calls : length self.pending ≤ max_handles
  pub few_handles : length self.handles ≤ max_handles
  pub distinct : IsDistinct self.pending
  pub numbered : All (λ c. c.0 < self.next_call) self.pending
  pub in_range : self.next_call < 2 ^ 64
  pub open_once : IsNodup self.handles
  pub ended : ends_calls self.lifecycle ≡ true → (self.pending ≡ []) × (self.handles ≡ [])

abbrev pub After : Outcome → Type 0
After o = IsValid o.1

pub new-IsValid : (apis : BrowserApis) → IsValid (new apis)
unfolding new
new-IsValid apis = record {
  few_calls = omega arith;
  few_handles = omega arith;
  distinct = tt;
  numbered = tt;
  in_range = omega arith;
  open_once = tt;
  ended = λ e. (refl, refl);
}

pub set_state-IsValid :
    (state : Lifecycle) (self : Capsule) → IsValid self → IsValid (set_state state self)
unfolding set_state
set_state-IsValid state self v = elim (Bool-cases (ends_calls state)) [
  | inl ends ↦ rw ends (record {
    few_calls = omega arith;
    few_handles = omega arith;
    distinct = tt;
    numbered = tt;
    in_range = v.in_range;
    open_once = tt;
    ended = λ e. (refl, refl);
  })
  | inr goes_on ↦ rw goes_on (record {
    few_calls = v.few_calls;
    few_handles = v.few_handles;
    distinct = v.distinct;
    numbered = v.numbered;
    in_range = v.in_range;
    open_once = v.open_once;
    ended = λ e. cc (e, goes_on);
  })
]
