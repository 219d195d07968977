-- ===== src/Aura.antt =====
-- hardware/asus/AsusAuraHidProtocol.h and AsusAuraHidProtocol.cpp: the ASUS Aura HID protocol. The
-- children follow the file: `Config` validates a config table and finds the target of a zone,
-- `Parse` reads a response, `Report` lays out reports, `Write` builds the packets. A `QByteArray` is
-- a list of bytes, an `int` that the code tests for its sign is a ℤ.
pub mod Config
pub mod Parse
pub mod Report
pub mod Write
pub mod Ready
pub mod Targets
pub mod Stream
pub mod Packets
pub mod Examples
use luma_core.Prelude.{ℕ, ℤ, ◌≡◌, refl, Bool, true, false, List, []}
use luma_core.Message.{Message}

abbrev pub research_report_length : ℕ
research_report_length = 65

abbrev pub max_research_leds : ℕ
max_research_leds = 120

abbrev pub header_limit : ℕ
header_limit = 3

abbrev pub fixed_color_mask_leds : ℕ
fixed_color_mask_leds = 16

abbrev pub max_direct_channels : ℕ
max_direct_channels = 16

pub data AsusAuraHidPacketKind : Type 0 where
  research_preview static_color_write native_effect_write direct_frame_write all_off_write :
      AsusAuraHidPacketKind

pub data AsusAuraChannelType : Type 0 where
  fixed addressable : AsusAuraChannelType

pub record AsusAuraHidPacket : Type 0 where
  pub report : List ℕ
  pub reports : List (List ℕ)
  pub summary : Message
  pub provenance : Message
  pub kind : AsusAuraHidPacketKind
  pub hardware_write_approved : Bool

pub record AsusAuraConfigChannel : Type 0 where
  pub kind : AsusAuraChannelType
  pub effect_channel : ℤ
  pub direct_channel : ℤ
  pub led_count : ℤ
  pub header_count : ℤ

pub record AsusAuraConfigTable : Type 0 where
  pub valid : Bool
  pub addressable_header_count : ℤ
  pub mainboard_led_count : ℤ
  pub rgb_header_count : ℤ
  pub response : List ℕ
  pub table : List ℕ
  pub channels : List AsusAuraConfigChannel
  pub summary : Message
  pub error : Message

-- `AsusAuraHidProtocolResult`: `ok` with the value, or not `ok` with the error.
pub data ProtocolResult {ℓ} (A : Type ℓ) : Type ℓ where
  ok : A → ProtocolResult A
  fail : Message → ProtocolResult A

infixl 5 ◌>>=◌ ◌>>◌
abbrev pub ◌>>=◌ {ℓ κ} :
    {A : Type ℓ} {B : Type κ} → ProtocolResult A → (A → ProtocolResult B) → ProtocolResult B
fail error >>= rest = fail error
ok value >>= rest = rest value

abbrev pub ◌>>◌ {κ} : {B : Type κ} → ProtocolResult (Unit {0}) → ProtocolResult B → ProtocolResult B
m >> k = m >>= λ _. k

abbrev pub is_ok {ℓ} : {A : Type ℓ} → ProtocolResult A → Bool
is_ok (ok _) = true
is_ok (fail _) = false

-- A chain that succeeds has a first step that succeeds, and a rest that does on its value.
module _ {ℓ κ} {A : Type ℓ} {B : Type κ} where
  pub >>=-eq-ok :
      {last : B} (first : ProtocolResult A) (rest : A → ProtocolResult B)
      → (first >>= rest) ≡ ok last
      → (value : A) × (first ≡ ok value) × (rest value ≡ ok last)
  >>=-eq-ok (fail error) rest done = cc
  >>=-eq-ok (ok value) rest done = (value, refl, done)

  pub >>=-is_ok :
      (first : ProtocolResult A) (rest : A → ProtocolResult B)
      → is_ok (first >>= rest) ≡ true
      → (value : A) × (first ≡ ok value) × (is_ok (rest value) ≡ true)
  >>=-is_ok (fail error) rest done = cc
  >>=-is_ok (ok value) rest done = (value, refl, done)

pub ok_of_is_ok {ℓ} : {A : Type ℓ} (m : ProtocolResult A) → is_ok m ≡ true → (a : A) × (m ≡ ok a)
ok_of_is_ok (ok a) h = (a, refl)
ok_of_is_ok (fail e) h = cc
