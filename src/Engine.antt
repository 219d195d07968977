-- ===== src/Engine.antt =====
-- core/EffectsEngine.h and core/EffectsEngine.cpp, with `DeviceManager::paintZoneFrame` of
-- core/DeviceManager.cpp: the zones that stream host-rendered effects. The children `Frame` computes a
-- frame, `Tick` passes frames on. A `QSet` is a list in which no zone stands twice.
pub mod Frame
pub mod Tick
pub mod Laws
pub mod Bounds
pub mod Paint
pub mod Safe
pub mod Examples
use luma_core.Prelude.{
  ℤ, ◌==ℤ◌, Bool, true, false, ◌&&◌, List, [], ◌∷◌, if◌then◌else◌, not, Option, none, some,
}
use luma_core.Color.{RgbColor}

-- `QPair<int, int>` of a device and a zone.
pub record ZoneKey : Type 0 where
  pub device_index : ℤ
  pub zone_index : ℤ

abbrev pub same_zone : ZoneKey → ZoneKey → Bool
same_zone a b = a.device_index ==ℤ b.device_index && a.zone_index ==ℤ b.zone_index

abbrev pub Frames : Type 0
Frames = List (ZoneKey × List RgbColor)

pub record EffectsEngine : Type 0 where
  pub active_zones : List ZoneKey
  pub last_accepted_frames : Frames
  pub timer_active : Bool

unfoldable pub has_zone : List ZoneKey → ZoneKey → Bool
has_zone [] key = false
has_zone (k ∷ ks) key = if same_zone k key then true else has_zone ks key

unfoldable pub remove_zone : ZoneKey → List ZoneKey → List ZoneKey
remove_zone key [] = []
remove_zone key (k ∷ ks) =
    let rest = remove_zone key ks in if same_zone k key then rest else k ∷ rest

-- `QHash::remove`, `QHash::value` and `QHash::insert`.
unfoldable pub remove_frame : ZoneKey → Frames → Frames
remove_frame key [] = []
remove_frame key ((k, f) ∷ fs) =
    let rest = remove_frame key fs in if same_zone k key then rest else (k, f) ∷ rest

unfoldable pub frame_of : ZoneKey → Frames → Option (List RgbColor)
frame_of key [] = none
frame_of key ((k, f) ∷ fs) = if same_zone k key then some f else frame_of key fs

abbrev pub insert_frame : ZoneKey → List RgbColor → Frames → Frames
insert_frame key frame fs = (key, frame) ∷ remove_frame key fs

abbrev some_active : List ZoneKey → Bool
some_active [] = false
some_active (_ ∷ _) = true

unfoldable pub update_timer_state : EffectsEngine → EffectsEngine
update_timer_state e = record e { timer_active = some_active e.active_zones }

unfoldable pub start_zone : EffectsEngine → ZoneKey → EffectsEngine
unfolding update_timer_state
start_zone e key = update_timer_state (record e {
  last_accepted_frames = remove_frame key e.last_accepted_frames;
  active_zones = if has_zone e.active_zones key then e.active_zones else key ∷ e.active_zones;
})

unfoldable pub stop_zone : EffectsEngine → ZoneKey → EffectsEngine
unfolding update_timer_state
stop_zone e key = update_timer_state (record e {
  active_zones = remove_zone key e.active_zones;
  last_accepted_frames = remove_frame key e.last_accepted_frames;
})

-- The loop of `stopDevice`: the zones of other devices, and their frames.
unfoldable pub zones_of_others : ℤ → List ZoneKey → List ZoneKey
zones_of_others device [] = []
zones_of_others device (k ∷ ks) =
    let rest = zones_of_others device ks in if k.device_index ==ℤ device then rest else k ∷ rest

unfoldable pub frames_of_others : ℤ → List ZoneKey → Frames → Frames
frames_of_others device [] fs = []
frames_of_others device (k ∷ ks) fs =
    let rest = frames_of_others device ks fs in
    if k.device_index ==ℤ device
    then rest
    else elim (frame_of k fs) [ none ↦ rest | some f ↦ insert_frame k f rest ]

unfoldable pub stop_device : EffectsEngine → ℤ → EffectsEngine
unfolding update_timer_state
stop_device e device = update_timer_state (record e {
  active_zones = zones_of_others device e.active_zones;
  last_accepted_frames = frames_of_others device e.active_zones e.last_accepted_frames;
})

unfoldable pub stop_all : EffectsEngine → EffectsEngine
unfolding update_timer_state
stop_all e = update_timer_state (record e { active_zones = []; last_accepted_frames = [] })

abbrev pub is_zone_streaming : EffectsEngine → ZoneKey → Bool
is_zone_streaming e key = has_zone e.active_zones key
