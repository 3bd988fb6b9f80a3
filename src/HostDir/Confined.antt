-- ===== src/HostDir/Confined.antt =====
-- `child`: a port that is derived from another one, and what its calls can reach.
use sim_platform.Prelude.{
  Bool, true, false, Option, none, List, [], ◌∷◌, ◌++◌, All, String, ◌≡◌, refl, ap, sym, ◌∙◌, subst,
  arith, if◌then◌else◌, Bool-cases, inl, inr, ok, err, text_key, ==-refl, ◌>>◌,
}
use sim_platform.HostDir.Store.{Segments, starts_with, same_segments, same_segments_iff}
use sim_platform.HostDir.{
  StoragePort, ModelEntry, ModelState, MemoryHostDirPort, PortResult, validate, child,
}
use sim_platform.HostDir.Laws.{
  View, update, key_of, view, Call, replacing, exchanging, removing, making, clearing, spec,
}
use sim_platform.HostDir.History.{run, perform, perform-Performs, Performs}

starts_with_trans :
    (k a base : Segments)
    → starts_with k a ≡ true
    → starts_with a base ≡ true
    → starts_with k base ≡ true
starts_with_trans k a [] h e = refl
starts_with_trans k [] (b ∷ base) h e = cc
starts_with_trans [] (x ∷ a) (b ∷ base) h e = cc
starts_with_trans (c ∷ k) (x ∷ a) (b ∷ base) h e =
    let later = starts_with_trans k a base (ground arith) (ground arith) in
    ground (arith, text_key.eq_decides c x, text_key.eq_decides x b, text_key.eq_decides c b, later)

starts_with-append : (a rest : Segments) → starts_with (a ++ rest) a ≡ true
starts_with-append [] rest = refl
starts_with-append (x ∷ a) rest = ground (arith, ==-refl x, starts_with-append a rest)

starts_with-key_of :
    (self : MemoryHostDirPort) (path base : Segments)
    → starts_with self.prefix base ≡ true
    → starts_with (key_of self path) base ≡ true
starts_with-key_of self path base h =
    starts_with_trans (key_of self path) self.prefix base (starts_with-append self.prefix path) h

abbrev pub port_of : Call → MemoryHostDirPort
port_of (replacing self path bytes c) = self
port_of (exchanging self path expected replacement before after) = self
port_of (removing self path) = self
port_of (making self path) = self
port_of (clearing self path) = self

module _ (base k : Segments) (outside : starts_with k base ≡ false) (fs : View) where
  update_outside :
      (key : Segments) (value : Option ModelEntry)
      → starts_with key base ≡ true
      → update fs key value k ≡ fs k
  update_outside key value inside = elim (Bool-cases (same_segments key k)) [
    | inl same ↦
        let e : key ≡ k = (same_segments_iff key k).0 same in
        cc (outside, inside, ap (λ p. starts_with p base) e)
    | inr other ↦ rw other
  ]

  clear_outside :
      (key : Segments)
      → starts_with key base ≡ true
      → (if starts_with k key then none else fs k) ≡ fs k
  clear_outside key inside = elim (Bool-cases (starts_with k key)) [
    | inl below ↦ cc (outside, starts_with_trans k key base below inside)
    | inr other ↦ rw other
  ]

  spec_outside :
      (call : Call) → starts_with (port_of call).prefix base ≡ true → spec call fs k ≡ fs k
  spec_outside (replacing self path bytes c) h =
      update_outside (key_of self path) _ (starts_with-key_of self path base h)
  spec_outside (exchanging self path expected replacement before after) h =
      update_outside (key_of self path) _ (starts_with-key_of self path base h)
  spec_outside (removing self path) h =
      update_outside (key_of self path) _ (starts_with-key_of self path base h)
  spec_outside (making self path) h =
      update_outside (key_of self path) _ (starts_with-key_of self path base h)
  spec_outside (clearing self path) h =
      clear_outside (key_of self path) (starts_with-key_of self path base h)

module _ (port : StoragePort) (root : MemoryHostDirPort) where
  -- The ports that come from `root` by `child`.
  pub data Derived : MemoryHostDirPort → Type 0 where
    here : Derived root
    below :
        {self inner : MemoryHostDirPort} (name : String)
        → Derived self
        → child port self name ≡ ok inner
        → Derived inner

  child-prefix :
      (self inner : MemoryHostDirPort) (name : String)
      → child port self name ≡ ok inner
      → inner.prefix ≡ self.prefix ++ name ∷ []
  unfolding child
  child-prefix self inner name h = after (validate port (name ∷ [])) h
    where
      after :
          (r : PortResult port (Unit {0}))
          → (r >> ok (record self { prefix = self.prefix ++ name ∷ [] })) ≡ ok inner
          → inner.prefix ≡ self.prefix ++ name ∷ []
      after (ok u) e = cc
      after (err x) e = cc

  Derived-prefix :
      {self : MemoryHostDirPort} → Derived self → starts_with self.prefix root.prefix ≡ true
  Derived-prefix here = prefix_self root.prefix
    where
      prefix_self : (p : Segments) → starts_with p p ≡ true
      prefix_self [] = refl
      prefix_self (x ∷ p) = ground (arith, ==-refl x, prefix_self p)
  Derived-prefix (below {self} {inner} name d h) =
      subst (λ p. starts_with p root.prefix ≡ true) (sym (child-prefix self inner name h))
        (starts_with_trans (self.prefix ++ name ∷ []) self.prefix root.prefix
          (starts_with-append self.prefix (name ∷ [])) (Derived-prefix d))

  -- Calls through a port and the ports derived from it by `child`, in any sequence, leave every entry
  -- outside the port's own prefix as it was.
  pub Derived-run :
      (calls : List Call) (state : ModelState) (k : Segments)
      → starts_with k root.prefix ≡ false
      → All (λ call. Derived (port_of call)) calls
      → view (run port calls state) k ≡ view state k
  unfolding run
  Derived-run [] state k outside h = refl
  Derived-run (call ∷ calls) state k outside h =
      Derived-run calls (perform port call state).1 k outside h.1
      ∙ step (perform port call state) (perform-Performs port call state)
    where
      step : (r : Bool × ModelState) → Performs port call state r → view r.1 k ≡ view state k
      step (true, state') e =
          ap (λ v. v k) e
          ∙ spec_outside root.prefix k outside (view state) call (Derived-prefix h.0)
      step (false, state') e = ap (λ s. view s k) e
