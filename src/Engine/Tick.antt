-- ===== src/Engine/Tick.antt =====
-- core/EffectsEngine.cpp, `tick`, and core/DeviceManager.cpp, `paintZoneFrame`. The devices are behind
-- an interface, since each backend has its own; the signals to the interface are not modelled. The
-- order in which a `QSet` is passed through is the one of the list.
use luma_core.Prelude.{
  ℤ, Bool, true, false, not, ◌&&◌, ◌||◌, List, [], ◌∷◌, Option, none, some, if◌then◌else◌, ◌==◌,
  length, pos,
}
use luma_core.Color.{RgbColor}
use luma_core.Real.{Real}
use luma_core.Zone.{RgbZone}
use luma_core.Log.{ActivityLog, permission, log_warning}
use luma_core.Permission.{Guarded, zone_effect_write, check_write, is_granted, needs_confirmation}
use luma_core.Engine.{EffectsEngine, ZoneKey, has_zone, frame_of, insert_frame, stop_zone}
use luma_core.Engine.Frame.{compute_frame}

-- What the manager asks of its devices: the device behind an index, whether its writes are confirmed
-- in this session, a zone of it, and its two methods that take a frame.
pub record Devices (S D : Type 0) : Type 0 where
  pub device_at : S → ℤ → Option Guarded
  pub device_write_confirmed : S → ℤ → Bool
  pub zone_at : S → ZoneKey → Option (RgbZone D)
  pub set_zone_effect_colors : S → ZoneKey → List RgbColor → S × Bool
  pub apply_zone_frame : S → ZoneKey → List RgbColor → S × Bool

-- The devices, the engine, the log, and whether dry-run is on.
pub record World (S : Type 0) : Type 0 where
  pub devices : S
  pub engine : EffectsEngine
  pub activity_log : ActivityLog
  pub dry_run_enabled : Bool

abbrev same_color : RgbColor → RgbColor → Bool
same_color c d = c.red == d.red && c.green == d.green && c.blue == d.blue

unfoldable pub same_frame : List RgbColor → List RgbColor → Bool
same_frame [] [] = true
same_frame (c ∷ cs) (d ∷ ds) = same_color c d && same_frame cs ds
same_frame _ _ = false

-- `QHash::value`, which is an empty list for a missing key, compared with a frame.
abbrev pub accepted_already : Option (List RgbColor) → List RgbColor → Bool
accepted_already none frame = same_frame [] frame
accepted_already (some old) frame = same_frame old frame

module _ {S D : Type 0} (i : Devices S D) where
  abbrev pub may_write : Guarded → World S → ZoneKey → Bool
  may_write device w key =
      let p = check_write device zone_effect_write in
      is_granted p || (needs_confirmation p && i.device_write_confirmed w.devices key.device_index)

  unfoldable pub paint_zone_frame : World S → ZoneKey → List RgbColor → World S × Bool
  paint_zone_frame w key colors = elim (i.device_at w.devices key.device_index) [
    | none ↦ (w, false)
    | some device ↦
        let (shown, shown_ok) = i.set_zone_effect_colors w.devices key colors in
        let (written, written_ok) = i.apply_zone_frame w.devices key colors in
        if w.dry_run_enabled
        then (record w { devices = shown }, shown_ok)
        else if not (may_write device w key)
        then (
          record w {
            engine = stop_zone w.engine key;
            activity_log =
                log_warning w.activity_log permission (check_write device zone_effect_write).reason;
          },
          false,
        )
        else (record w { devices = written }, written_ok)
  ]

  abbrev pub keep_frame : ZoneKey → List RgbColor → World S × Bool → World S
  keep_frame key frame (w, true) = record w {
    engine = record w.engine {
      last_accepted_frames = insert_frame key frame w.engine.last_accepted_frames;
    };
  }
  keep_frame key frame (w, false) = w

  module _ ⦃r : Real D⦄ where
    -- A round of the loop of `tick`.
    unfoldable pub tick_zone : D → World S → ZoneKey → World S
    unfolding paint_zone_frame
    tick_zone elapsed w key =
        if not (has_zone w.engine.active_zones key) then w else elim (i.zone_at w.devices key) [
          | none ↦ w
          | some zone ↦
              let frame = compute_frame zone.effect (pos (length zone.leds)) elapsed in
              if length frame == 0
              then w
              else if accepted_already (frame_of key w.engine.last_accepted_frames) frame
              then w
              else keep_frame key frame (paint_zone_frame w key frame)
        ]

    unfoldable pub tick_zones : D → World S → List ZoneKey → World S
    unfolding tick_zone
    tick_zones elapsed w [] = w
    tick_zones elapsed w (key ∷ keys) = tick_zones elapsed (tick_zone elapsed w key) keys

    -- The loop runs over the zones that are active at its start.
    unfoldable pub tick : D → World S → World S
    unfolding tick_zones
    tick elapsed w = tick_zones elapsed w w.engine.active_zones
