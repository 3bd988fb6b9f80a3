-- ===== src/Lib.antt =====
-- Verification of sim-platform, the platform capsules of SIM: the provider-neutral contracts of the core,
-- and the parts of the capsules that decide what crosses between a host and the pure program.
--
-- The parts, and the files that model them (paths from the repository's root):
--   Core        crates/sim-platform-core: Core/Records and Core/Symbol the shared records and
--               OpenSymbol::new, Core/Digest stable_digest, Core/Require platform_require, Core/Bundle
--               compose_bundle, Core/Matrix platform_support_matrix (all src/records.rs), Core/Validation
--               PackageRole::parse, validate_capsules and validate_bundle (src/validation.rs)
--   Bootstrap   crates/sim-platform-bootstrap/src/bootstrap.rs: BootstrapEnvelope::validate,
--               read_bounded, require_plain_name and bootstrap
--   Halo        crates/sim-platform-halo/src/halo.rs: Halo/Types its data, Halo/Codec encode_message and
--               decode_fragment, Halo/Input decode_input and encode_surface_payload, Halo/Capsule the
--               methods of HaloCapsule
--   Amazfit     crates/sim-platform-amazfit/src/lib.rs: the methods of AmazfitCapsule
--   Midi        crates/sim-platform-midi/src/lib.rs: UbuntuMidiPort and UbuntuMidiConnection
--   Linux       crates/sim-platform-linux/src/linux.rs: the methods of Capsule, with XdgMounts
--   Audio       crates/sim-platform-audio/src/lib.rs: UbuntuMediaCapsule, UbuntuStream, UbuntuPlugin
--   HostDir     crates/sim-table-fs/src/adapters.rs: MemoryHostDirPort, with HostDir/Store its paths and map
--   TableFs     crates/sim-table-fs, the tables over it: TableFs/Leaf src/capabilities.rs and
--               src/fs_dir/leaf_io.rs, TableFs the methods of FsDir in src/fs_dir.rs and src/dir_edit.rs,
--               TableFs/Edit apply_edit and apply_edit_lines, TableFs/Steps a call on the shared state,
--               TableFs/Listing its listings and clear, TableFs/Find the walk and the search by a glob
--               in src/find.rs
--   Browser     crates/sim-platform-browser/src/browser.rs: Browser/Types the data of the membrane and
--               HostOperation::validate, Browser the methods of Capsule
--   Android     crates/sim-platform-android: Android/Audio src/audio.rs, Android/Speech src/speech.rs,
--               Android/Records and Android the records and the methods of Capsule in src/android.rs
--   Model       crates/sim-platform-model/src/model.rs: SeededPlatform, with Model/Reference the reference
--               that it is compared with
--   Windows     crates/sim-platform-windows: Windows/TablePath src/path.rs, Windows the methods of
--               WindowsCapsule in src/windows.rs
--   Macos       crates/sim-platform-macos/src/macos.rs: the methods of MacosCapsule
--   Ios         crates/sim-platform-ios/src/ios.rs: Ios/Records the records, Ios the methods of Capsule
--   Wasi        crates/sim-platform-wasi/src/wasi.rs: inspect_artifact and the methods of WasiCapsule
--   Prelude     the names, lists, results, maps, texts and words that the parts share
-- Below a part, the modules named for what they prove (Laws, Effects, Invariant, History, Delivery,
-- Budgets, Bounds, Revocation, Ownership, Admission, Exchange, Quota, Confined, Completion, Waiting,
-- Services, Turns, Replay, Life, Prompts, Imports, Candidates, Leaves, RoundTrip, Calls, Reads, Facts,
-- Memory, Stable, Refused, Pieces, Walk, Rows) hold its theorems, and Tests its runs on concrete
-- inputs and the instances of the theorems.
--
-- How the parts interact: a composed bundle of Core is described by the manifests that Core/Validation
-- checks; Bootstrap reads those manifests with the same checks beside the executable and hands the one
-- admitted artifact to the kernel's loader. The capsules then stand between the host and the program: the
-- Linux activation answers bounded requests and refuses in the words of Core/Records, the device proxies
-- Halo and Amazfit take consented, bounded, replay-free input, and Midi and Audio hold native endpoints.
-- Browser, Android and Ios are the same membrane in three hosts: a named function takes a framed input,
-- changes the capsule and puts out a framed output. Windows, Macos and Wasi gate native calls by grants,
-- HostDir stands where a host directory would and TableFs is its client, and Model answers a program's
-- facts without a host.
--
-- The modelling: a struct is a record and an enum a data type; a method on `&mut self` takes the object
-- last and returns its result and the object after it, also beside an error; `Result` and `?` are the
-- type Result with `>>=`, `if … { return Err(e) }` is `refuse_if`. Numbers are native naturals, an
-- arithmetic operation that can wrap has its modulus written out, and a narrowing conversion its error. A
-- BTreeMap is an association list in key order, a BTreeSet that is only asked for membership a list
-- without repetition, a VecDeque a list. Loops over a sequence are structural recursion on it; the only
-- counted loops are those of encode_frames (as many rounds as fragment_count), of entropy (as many as the
-- bytes asked for, in Linux and in Model) and of the sixteen printed digits of a hash, so that they need
-- no fuel. Fuel have decimal, which prints a number (20 digits are enough for 64 bits), and the walk over
-- a host directory (the length of its longest path is enough).
--
-- Parameters stand for code outside the repository: serde_json (to_vec, from_slice), toml (from_str),
-- sim_lib_midi_core (Midi.MidiCore), sim_audio_ports (Audio.AudioPorts), and the file system, the path
-- functions, SHA-256 and the kernel's loader (Bootstrap.World); for the Linux activation the clocks and
-- an implementation of the trait Portal (Linux.Clock, Linux.Host), for the Windows and macOS capsules one
-- each of NativeServices; sim_storage_port and the tests of one segment (HostDir.StoragePort); sim_kernel,
-- sim_codec and globset for the tables (TableFs.Leaf.Kernel); sim_codec_binary with serde_json (the records
-- FrameCodec of Browser, Android and Ios); wasmparser (the argument of Wasi.inspect_artifact). The
-- theorems hold for all of them. A Mutex is the value that it holds: that a thread panics while holding
-- it is not modelled.
--
-- Not modelled: the unsigned bundle and card of the macOS capsule, the web shell, SQLite, the Ubuntu
-- hardware probes, sandbox and process membrane, the native directories of the table file system, its
-- search by regular expressions and optional formats, the foreign function bindings, the modelled
-- processes, the loader and the site of the model platform (calls of the kernel), the packages and cards of the Windows
-- capsule, and the wall clock and headless portal of the Linux crate.
mod Prelude
pub mod Core
pub mod Halo
pub mod Amazfit
pub mod Midi
pub mod Linux
pub mod Audio
pub mod Bootstrap
pub mod HostDir
pub mod TableFs
pub mod Browser
pub mod Android
pub mod Model
pub mod Windows
pub mod Macos
pub mod Ios
pub mod Wasi
