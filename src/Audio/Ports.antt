-- ===== src/Audio/Ports.antt =====
-- What a media capsule opens after its registrations.
use sim_platform.Prelude.{
  ℕ, false, not, Option, none, some, List, [], ◌∷◌, ◌≡◌, refl, sym, ◌∙◌, arith, eqb, if◌then◌else◌,
  ◌==◌, number_key, ◌⊎◌, inl, inr, ok, err, ok_or_rule, refuse_if_rule, bind_rule,
}
use sim_platform.Prelude.Maps.{get, get-insert}
use sim_platform.Audio.{
  AudioPorts, UbuntuPluginBinding, UbuntuMediaCapsule, UbuntuPlugin, Refused, default, bind_plugin,
  load,
}

module _ (ports : AudioPorts) where
  -- The last binding of an identity in a list of registrations.
  abbrev pub latest :
      ports.NativeId
      → Option (UbuntuPluginBinding ports)
      → List (UbuntuPluginBinding ports)
      → Option (UbuntuPluginBinding ports)
  latest id before [] = before
  latest id before (binding ∷ rest) =
      latest id
        (if ◌==◌ ⦃key = ports.id_key⦄ (ports.plugin_id binding.card) id
          then some binding
          else before)
        rest

  abbrev pub bind_all :
      List (UbuntuPluginBinding ports) → UbuntuMediaCapsule ports → UbuntuMediaCapsule ports
  bind_all [] self = self
  bind_all (binding ∷ rest) self = bind_all rest (bind_plugin ports binding self)

  get-bind_all :
      (id : ports.NativeId) (bindings : List (UbuntuPluginBinding ports))
      (known : Option (UbuntuPluginBinding ports)) (self : UbuntuMediaCapsule ports)
      → get ⦃e = ports.id_key⦄ id self.plugins ≡ known
      → get ⦃e = ports.id_key⦄ id (bind_all bindings self).plugins ≡ latest id known bindings
  unfolding bind_plugin
  get-bind_all id [] known self h = h
  get-bind_all id (binding ∷ rest) known self h =
      get-bind_all id rest _ (bind_plugin ports binding self) (
        get-insert ⦃e = ports.id_key⦄ ports.before (ports.plugin_id binding.card) id binding
          self.plugins
        ∙ rw h)

  module _ (bindings : List (UbuntuPluginBinding ports)) (id : ports.NativeId) (expected_abi : ℕ)
      (budget : ports.RealtimeBudget) where
    -- A plugin that may be loaded, or the reason why not.
    abbrev pub Loaded : Refused ports (UbuntuPlugin ports) → Type 0
    Loaded (ok plugin) =
        (binding : UbuntuPluginBinding ports) × (latest id none bindings ≡ some binding)
        × (ports.validate budget ≡ ok tt)
        × (ports.abi binding.card ≡ expected_abi)
        × (plugin ≡ record { card = binding.card; budget = budget; unloaded = false })
    Loaded (err e) =
        (ports.validate budget ≡ err e)
        ⊎ (((latest id none bindings ≡ none) × (e ≡ ports.unsupported))
            ⊎ ((binding : UbuntuPluginBinding ports) × (latest id none bindings ≡ some binding)
                × ¬ (ports.abi binding.card ≡ expected_abi)
                × (e ≡ ports.abi_mismatch expected_abi (ports.abi binding.card))))

    found :
        (o : Option (UbuntuPluginBinding ports))
        → get ⦃e = ports.id_key⦄ id (bind_all bindings (default ports)).plugins ≡ o
        → latest id none bindings ≡ o
    found o h = sym (get-bind_all id bindings none (default ports) (unfold get in refl)) ∙ h

    -- After any plugin registrations on a new capsule: a plugin is loaded only under a valid budget, from
    -- the last registration of its identity, when that has the expected ABI, and it is then live with that
    -- card and budget; a refusal is the one of the budget's check, or unsupported where nothing is
    -- registered, or the mismatch of the two ABIs.
    pub load-Loaded : Loaded (load ports (bind_all bindings (default ports)) id expected_abi budget)
    unfolding load
    load-Loaded =
        bind_rule Loaded (ports.validate budget) _
          (λ u valid.
            ok_or_rule Loaded
              (get ⦃e = ports.id_key⦄ id (bind_all bindings (default ports)).plugins)
              ports.unsupported _
              (λ binding there.
                refuse_if_rule Loaded (not (eqb (ports.abi binding.card) expected_abi))
                  (ports.abi_mismatch expected_abi (ports.abi binding.card)) _
                  (λ other. inr (inr (binding, found _ there, (λ same. ground arith), refl)))
                  (λ same. (binding, found _ there, valid, ground arith, refl)))
              (λ absent. inr (inl (found _ absent, refl))))
          (λ e refused. inl refused)
