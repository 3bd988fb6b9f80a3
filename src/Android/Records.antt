-- ===== src/Android/Records.antt =====
-- crates/sim-platform-android/src/android.rs: the records that cross the Android membrane, and what makes
-- them valid.
use Prim.Native.String
use Prim.Native.String.{len}
use sim_platform.Prelude.{
  ℕ, arith, ◌*◌, ◌≡◌, ◌↔◌, refl, ap, sym, ◌∙◌, String, Bool, true, false, not, ◌&&◌, ◌||◌, Option,
  none, some, List, [], ◌∷◌, map, leb, eqb, if◌then◌else◌, all, any, length, contains, Eq, text_key,
  ◌==◌, Result, ok, err, refuse_if, ◌>>◌,
}
use sim_platform.Prelude.Maps.{get, values}
use sim_platform.Prelude.Text.{codes, is_blank}
use sim_platform.Android.Audio.{AudioInput, AudioRouteReceipt, is_content_id}
use sim_platform.Android.Speech.{SpeechInput, SpeechOutput}

abbrev pub required_services : List String
required_services =
    "mount/app-private" ∷ "lifecycle" ∷ "foreground" ∷ "permissions" ∷ "activations"
    ∷ "provider-table" ∷ []

pub data Lifecycle : Type 0 where
  created active suspended stopped : Lifecycle

pub data AndroidEvent : Type 0 where
  rotation activity_recreation background_restriction suspend process_death restart
        memory_pressure :
      AndroidEvent

pub record ProviderSnapshot : Type 0 where
  pub content_id : String
  pub providers : List (String × String)

pub record BindPlan : Type 0 where
  pub snapshot : ProviderSnapshot
  pub app_private_mount : String
  pub services : List (String × String)

pub data Permission : Type 0 where
  camera microphone notifications shared_document : Permission

abbrev pub permission_code : Permission → ℕ
permission_code camera = 0
permission_code microphone = 1
permission_code notifications = 2
permission_code shared_document = 3

abbrev permission_at : ℕ → Permission
permission_at n =
    if eqb n 0
    then camera
    else if eqb n 1
    then microphone
    else if eqb n 2
    then notifications
    else shared_document

permission_at-permission_code : (p : Permission) → permission_at (permission_code p) ≡ p
permission_at-permission_code camera = refl
permission_at-permission_code microphone = refl
permission_at-permission_code notifications = refl
permission_at-permission_code shared_document = refl

abbrev pub same_permission : Permission → Permission → Bool
same_permission p q = eqb (permission_code p) (permission_code q)

pub same_permission_iff : (p q : Permission) → (same_permission p q ≡ true) ↔ (p ≡ q)
same_permission_iff p q = (
  λ h.
      sym (permission_at-permission_code p)
      ∙ ap permission_at (codes_agree (permission_code p) (permission_code q) h)
      ∙ permission_at-permission_code q,
  λ e. same_code (permission_code p) (permission_code q) (ap permission_code e),
)
  where
    codes_agree : (m n : ℕ) → eqb m n ≡ true → m ≡ n
    codes_agree m n h = ground arith

    same_code : (m n : ℕ) → m ≡ n → eqb m n ≡ true
    same_code m n e = ground arith

instance abbrev pub permission_key : Eq Permission
permission_key = record { eq = same_permission; eq_decides = same_permission_iff }

pub record RestorePlan : Type 0 where
  pub snapshot_content_id : String
  pub journal_content_id : String
  pub pending_turn_content_id : Option String
  pub permission_observations : List (Permission × Bool)

pub data ContentRef : Type 0 where
  table : (mount : String) (key : List String) → ContentRef
  dir : (mount : String) (relative : List String) → ContentRef
  bytes_of : (media_type : String) (bytes : List ℕ) → ContentRef

pub data Input : Type 0 where
  bind : BindPlan → Input
  event : AndroidEvent → Input
  restore : RestorePlan → Input
  submit_turn : (content_id : String) → Input
  set_lifecycle : Lifecycle → Input
  activation : (action : String) (content : Option ContentRef) → Input
  permission : Permission → (granted : Bool) → Input
  notification : (channel : String) (payload : List ℕ) → Input
  audio_input : AudioInput → Input
  speech_input : SpeechInput → Input
  background_execution : (allowed : Bool) → Input

pub record Output : Type 0 where
  pub lifecycle : Lifecycle
  pub accepted : Bool
  pub resources : ℕ
  pub snapshot_content_id : Option String
  pub resumed_turn_content_id : Option String
  pub audio_route : Option AudioRouteReceipt
  pub speech : Option SpeechOutput

abbrev pub is_separator : ℕ → Bool
is_separator c = eqb c 47 || eqb c 92

abbrev pub is_no_text : String → Bool
is_no_text String.[] = true
is_no_text (String.◌∷◌ c s) = false

unfoldable pub is_valid_part : String → Bool
is_valid_part part =
    not (is_no_text part)
    && leb (len part) 255
    && not (part == "..")
    && not (any is_separator (codes part))

abbrev pub is_valid_place : String → List String → Bool
is_valid_place mount key =
    not (is_no_text mount)
    && leb (len mount) 128
    && not (any (λ c. eqb c 47) (codes mount))
    && leb (length key) 32
    && all is_valid_part key

unfoldable pub valid_content_ref : ContentRef → Bool
unfolding is_valid_part is_blank
valid_content_ref (table mount key) = is_valid_place mount key
valid_content_ref (dir mount relative) = is_valid_place mount relative
valid_content_ref (bytes_of media_type bytes) =
    not (is_blank media_type) && leb (len media_type) 255 && leb (length bytes) (8 * 1024 * 1024)

unfoldable pub validate_content_id : String → String → Result String (Unit {0})
unfolding is_content_id
validate_content_id kind id =
    if is_content_id id
    then ok tt
    else err (String.◌++◌ "Android " (String.◌++◌ kind " must be a 64-digit content id"))

abbrev pub validate_pending_turn : Option String → Result String (Unit {0})
validate_pending_turn none = ok tt
validate_pending_turn (some id) = validate_content_id "pending turn" id

unfoldable pub validate_restore_plan : RestorePlan → Result String (Unit {0})
validate_restore_plan plan = do
  validate_content_id "provider snapshot" plan.snapshot_content_id
  validate_content_id "journal" plan.journal_content_id
  validate_pending_turn plan.pending_turn_content_id

-- The keys of the services as a set are the required ones.
abbrev pub is_required_set : List String → Bool
is_required_set declared =
    all (contains required_services) declared && all (contains declared) required_services

abbrev pub names_itself : String → Option String → Bool
names_itself provider none = false
names_itself provider (some value) = value == provider

unfoldable pub validate_bind_plan : BindPlan → Result String (Unit {0})
validate_bind_plan plan = do
  validate_content_id "provider snapshot" plan.snapshot.content_id
  refuse_if (not (plan.app_private_mount == "app-private"))
      "Android continuity root requires the app-private mount"
  refuse_if (not (is_required_set (map (λ s. s.0) plan.services)))
      "Android bind must resolve every required service atomically"
  refuse_if
      (any (λ provider. not (names_itself provider (get provider plan.snapshot.providers)))
        (values plan.services))
      "Android bind references a provider outside its immutable snapshot"
