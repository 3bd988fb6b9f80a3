-- ===== src/Bootstrap/Tests.antt =====
-- A run of crates/sim-platform-bootstrap in a small world, and the theorem at it. A path is its text, a
-- file's contents is one byte, and the manifests are read by that byte.
use sim_platform.Prelude.{ℕ, true, false, none, some, [], ◌∷◌, ◌≡◌, refl, ok, String, text_key}
use sim_platform.Core.Validation.{
  CapsuleManifest, BundleManifest, require_schema, require_nonempty, require_all_nonempty,
  validate_bundle,
}
use sim_platform.Bootstrap.{
  World, BootstrapEnvelope, BootstrapPolicy, bootstrap, admit, validate, admit_manifests,
  admit_artifact, read_bundle, read_capsule, read_bounded, require_plain_name,
}
use sim_platform.Bootstrap.Admission.{Justified, bootstrap-Justified}

abbrev card : CapsuleManifest
card = record {
  schema = "sim.platform-capsule/v1";
  provider = "platform/linux";
  services = "service/clock" ∷ [];
  shells = [];
  loader_kinds = "native" ∷ [];
}

abbrev bundle : BundleManifest
bundle = record {
  schema = "sim.platform-bundle/v1";
  capsule = "card.toml";
  artifact = "capsule.so";
  loader = "native";
  artifact_content = "sha256:00";
  entry = "sim_native_abi_v1";
  shell = none;
}

abbrev world : World
world = record {
  FilePath = String;
  OsString = String;
  Source = String;
  Loader = ℕ;
  Cx = ℕ;
  Library = String;
  parent = λ path. some "bin";
  join = λ path name. name;
  display = λ path. path;
  path_bytes = λ path. 9;
  os_bytes = λ arg. 9;
  text_bytes = λ text. 9;
  is_absolute = λ name. false;
  component_count = λ name. 1;
  metadata = λ path. ok (record { is_file = true; len = 1 });
  read = λ path. ok (7 ∷ []);
  from_utf8 = λ bytes. ok "manifest";
  capsule_from_str = λ text. ok card;
  bundle_from_str = λ text. ok bundle;
  show_error = λ e. "invalid";
  sha256_hex = λ bytes. "00";
  path_source = λ path. path;
  can_load = λ loader source. true;
  load_library = λ loader cx source. (ok source, 1);
}

abbrev envelope : BootstrapEnvelope world
envelope = record {
  argv = "sim" ∷ [];
  stdio = record { stdin = []; stdout = []; stderr = [] };
  bundle_identity = "pending";
  capsule_card = card;
  preopened_roots = [];
  config_roots = record { home = none; work = "work" };
  kernel_seed = 1;
}

abbrev policy : BootstrapPolicy world
policy = record { allowed_services = "service/clock" ∷ [] }

bootstrap_lem : bootstrap world "bin/sim" envelope policy 0 2 ≡ (
  ok (record {
    envelope = record envelope { bundle_identity = "sha256:00" };
    capsule = "capsule.so";
  }),
  1,
)
unfolding bootstrap admit validate admit_manifests admit_artifact read_bundle read_capsule
    read_bounded require_plain_name validate_bundle require_schema require_nonempty
    require_all_nonempty
bootstrap_lem = refl

bootstrap-Justified_example :
    Justified world "bin/sim" envelope policy 0 2 (bootstrap world "bin/sim" envelope policy 0 2)
bootstrap-Justified_example = bootstrap-Justified world "bin/sim" envelope policy 0 2
