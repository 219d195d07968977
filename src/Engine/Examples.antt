-- ===== src/Engine/Examples.antt =====
-- The theorems on the effects engine with one device of one zone.
use luma_core.Prelude.{ℕ, pos, refl, true, false, List, [], ◌∷◌, some}
use luma_core.Text.{codes}
use luma_core.Message.{blank}
use luma_core.Log.{new_log}
use luma_core.Log.Examples.{drop_spaces}
use luma_core.Color.{RgbColor, black}
use luma_core.Effect.{RgbEffect, marquee}
use luma_core.Zone.{RgbZone, addressable_header}
use luma_core.Real.Hundredths.{hundredths}
use luma_core.Permission.{Guarded, granted}
use luma_core.Engine.{EffectsEngine, ZoneKey, start_zone, stop_zone, stop_device, stop_all}
use luma_core.Engine.Frame.{compute_frame}
use luma_core.Engine.Bounds.{IsFrame, compute_frame-IsFrame}
use luma_core.Engine.Laws.{IsConsistent, engine_ops-IsConsistent}
use luma_core.Engine.Tick.{Devices, World, tick}
use luma_core.Engine.Paint.{tick-IsConsistent}
use luma_core.Engine.Safe.{Sent, tick-Sent}

abbrev green : RgbColor
green = record { red = 0; green = 200; blue = 0 }

abbrev blocks : RgbEffect ℕ
blocks = record { kind = marquee; color = green; speed = 100; brightness = 80 }

abbrev strip : RgbZone ℕ
strip = record {
  name = codes "Strip";
  kind = addressable_header;
  leds = record { index = 0; color = black } ∷ record { index = 1; color = black } ∷ [];
  current_color = black;
  effect = blocks;
}

abbrev first_zone : ZoneKey
first_zone = record { device_index = pos 0; zone_index = pos 0 }

abbrev board : Guarded
board = record {
  name = codes "Board";
  capabilities = record { can_discover = true; can_write_color = true; can_write_effect = true };
  check_runtime_permission = λ _. record { status = granted; reason = blank };
}

-- Devices that remember the last frame.
abbrev one_device : Devices (List RgbColor) ℕ
one_device = record {
  device_at = λ _ _. some board;
  device_write_confirmed = λ _ _. false;
  zone_at = λ _ _. some strip;
  set_zone_effect_colors = λ s _ _. (s, true);
  apply_zone_frame = λ s _ frame. (frame, true);
}

abbrev streaming : EffectsEngine
streaming = record {
  active_zones = first_zone ∷ [];
  last_accepted_frames = [];
  timer_active = true;
}

abbrev world : World (List RgbColor)
world = record {
  devices = [];
  engine = streaming;
  activity_log = new_log drop_spaces;
  dry_run_enabled = false;
}

streaming-IsConsistent : IsConsistent streaming
streaming-IsConsistent = record { timer = refl; frames = tt }

compute_frame-IsFrame_example : IsFrame 7 (compute_frame ⦃r = hundredths⦄ blocks (pos 7) 250)
compute_frame-IsFrame_example = compute_frame-IsFrame ⦃r = hundredths⦄ blocks (pos 7) 250

engine_ops-IsConsistent_example :
    IsConsistent (start_zone streaming first_zone)
    × IsConsistent (stop_zone streaming first_zone)
    × IsConsistent (stop_device streaming (pos 0))
    × IsConsistent (stop_all streaming)
engine_ops-IsConsistent_example =
    engine_ops-IsConsistent streaming first_zone (pos 0) streaming-IsConsistent

tick-Sent_example :
    Sent ⦃r = hundredths⦄ one_device
      (first_zone ∷ [])
      false
      250
      []
      (tick one_device ⦃r = hundredths⦄ 250 world).devices
tick-Sent_example = tick-Sent ⦃r = hundredths⦄ one_device 250 world

tick-IsConsistent_example : IsConsistent (tick one_device ⦃r = hundredths⦄ 250 world).engine
tick-IsConsistent_example =
    tick-IsConsistent one_device ⦃r = hundredths⦄ 250 world streaming-IsConsistent
