-- ===== src/Ios/Records.antt =====
-- crates/sim-platform-ios/src/ios.rs: the records that cross the iOS membrane.
use Prim.Native.String.{len}
use sim_platform.Prelude.{
  ℕ, ◌*◌, ◌≡◌, ◌↔◌, refl, ap, sym, ◌∙◌, arith, String, Bool, true, false, not, ◌&&◌, ◌||◌, Option,
  List, leb, eqb, if◌then◌else◌, all, any, length, Eq, text_key, ◌==◌,
}
use sim_platform.Prelude.Text.{codes, is_blank}

pub data Lifecycle : Type 0 where
  connected active suspended disconnected : Lifecycle

pub data Permission : Type 0 where
  camera microphone notifications shared_document : Permission

abbrev pub permission_code : Permission → ℕ
permission_code camera = 0
permission_code microphone = 1
permission_code notifications = 2
permission_code shared_document = 3

abbrev permission_at : ℕ → Permission
permission_at n =
    if eqb n 0
    then camera
    else if eqb n 1
    then microphone
    else if eqb n 2
    then notifications
    else shared_document

permission_at-permission_code : (p : Permission) → permission_at (permission_code p) ≡ p
permission_at-permission_code camera = refl
permission_at-permission_code microphone = refl
permission_at-permission_code notifications = refl
permission_at-permission_code shared_document = refl

abbrev pub same_permission : Permission → Permission → Bool
same_permission p q = eqb (permission_code p) (permission_code q)

pub same_permission_iff : (p q : Permission) → (same_permission p q ≡ true) ↔ (p ≡ q)
same_permission_iff p q = (
  λ h.
      sym (permission_at-permission_code p)
      ∙ ap permission_at (codes_agree (permission_code p) (permission_code q) h)
      ∙ permission_at-permission_code q,
  λ e. same_code (permission_code p) (permission_code q) (ap permission_code e),
)
  where
    codes_agree : (m n : ℕ) → eqb m n ≡ true → m ≡ n
    codes_agree m n h = ground arith

    same_code : (m n : ℕ) → m ≡ n → eqb m n ≡ true
    same_code m n e = ground arith

instance abbrev pub permission_key : Eq Permission
permission_key = record { eq = same_permission; eq_decides = same_permission_iff }

pub data Service : Type 0 where
  audio_service notification_service document_service : Service

pub data ContentRef : Type 0 where
  table : (mount : String) (key : List String) → ContentRef
  dir : (mount : String) (relative : List String) → ContentRef
  bytes_of : (media_type : String) (bytes : List ℕ) → ContentRef

pub data Input : Type 0 where
  set_lifecycle : Lifecycle → Input
  activation : (action : String) (content : Option ContentRef) → Input
  permission : Permission → (granted : Bool) → Input
  notification : (channel : String) (payload : List ℕ) → Input
  audio_device : (id : String) (is_connected : Bool) → Input
  background_execution : (allowed : Bool) → Input
  document_grant : (id : String) (is_active : Bool) → Input
  use_service : Service → Input
  memory_pressure : Input

pub record Output : Type 0 where
  pub lifecycle : Lifecycle
  pub accepted : Bool
  pub resources : ℕ

abbrev pub is_separator : ℕ → Bool
is_separator c = eqb c 47 || eqb c 92

abbrev pub is_no_text : String → Bool
is_no_text String.[] = true
is_no_text (String.◌∷◌ c s) = false

unfoldable pub is_valid_part : String → Bool
is_valid_part part =
    not (is_no_text part)
    && leb (len part) 255
    && not (part == "..")
    && not (any is_separator (codes part))

abbrev pub is_valid_place : String → List String → Bool
is_valid_place mount key =
    not (is_no_text mount)
    && leb (len mount) 128
    && not (any (λ c. eqb c 47) (codes mount))
    && leb (length key) 32
    && all is_valid_part key

unfoldable pub valid_content_ref : ContentRef → Bool
unfolding is_valid_part is_blank
valid_content_ref (table mount key) = is_valid_place mount key
valid_content_ref (dir mount relative) = is_valid_place mount relative
valid_content_ref (bytes_of media_type bytes) =
    not (is_blank media_type) && leb (len media_type) 255 && leb (length bytes) (8 * 1024 * 1024)
