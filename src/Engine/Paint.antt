-- ===== src/Engine/Paint.antt =====
-- What a tick and the painting of a frame do to the devices and to the engine.
use luma_core.Prelude.{
  ◌≡◌, sym, ◌⊎◌, inl, inr, Bool, true, false, List, [], ◌∷◌, Bool-cases, none, some, Option-cases,
  subst, pos, length, ◌==◌,
}
use luma_core.Color.{RgbColor}
use luma_core.Real.{Real}
use luma_core.Log.{ActivityLog, permission, log_warning}
use luma_core.Permission.{Guarded, check_write, zone_effect_write}
use luma_core.Engine.Frame.{compute_frame}
use luma_core.Engine.{frame_of, ZoneKey, has_zone, stop_zone}
use luma_core.Engine.Laws.{IsConsistent, stop-IsConsistent, insert-Kept}
use luma_core.Engine.Tick.{
  Devices, World, paint_zone_frame, may_write, tick_zone, tick_zones, tick, keep_frame,
  accepted_already,
}

module _ {S D : Type 0} (i : Devices S D) where
  -- A frame reaches a device exactly in one of these ways.
  pub data Painted (w : World S) (key : ZoneKey) (colors : List RgbColor)
      : World S × Bool → Type 0 where
    missing : i.device_at w.devices key.device_index ≡ none → Painted w key colors (w, false)
    shown :
        w.dry_run_enabled ≡ true
        → Painted w key colors (
          record w { devices = (i.set_zone_effect_colors w.devices key colors).0 },
          (i.set_zone_effect_colors w.devices key colors).1,
        )
    written :
        (device : Guarded)
        → i.device_at w.devices key.device_index ≡ some device
        → w.dry_run_enabled ≡ false
        → may_write i device w key ≡ true
        → Painted w key colors (
          record w { devices = (i.apply_zone_frame w.devices key colors).0 },
          (i.apply_zone_frame w.devices key colors).1,
        )
    refused :
        (device : Guarded) (l : ActivityLog)
        → i.device_at w.devices key.device_index ≡ some device
        → w.dry_run_enabled ≡ false
        → may_write i device w key ≡ false
        → Painted w key colors
            (record w { engine = stop_zone w.engine key; activity_log = l }, false)

  -- A frame is written to the device only with dry-run off and a permission that is granted or confirmed;
  -- under dry-run it is only shown; where the permission is missing, no device changes and the zone
  -- stops streaming; and without a device nothing changes.
  pub paint_zone_frame-Painted :
      (w : World S) (key : ZoneKey) (colors : List RgbColor)
      → Painted w key colors (paint_zone_frame i w key colors)
  unfolding paint_zone_frame
  paint_zone_frame-Painted w key colors =
      elim (Option-cases (i.device_at w.devices key.device_index)) [
        | inl gone ↦ rw (paint_zone_frame, gone) (missing gone)
        | inr (device, there) ↦ elim (Bool-cases w.dry_run_enabled) [
          | inl dry ↦
              let (s, done) = i.set_zone_effect_colors w.devices key colors in
              let e : paint_zone_frame i w key colors ≡ (record w { devices = s }, done) =
                rw (paint_zone_frame, there, dry) in
              subst (Painted w key colors) (sym e) (shown dry)
          | inr wet ↦ elim (Bool-cases (may_write i device w key)) [
            | inl may ↦
                let (s, done) = i.apply_zone_frame w.devices key colors in
                let e : paint_zone_frame i w key colors ≡ (record w { devices = s }, done) =
                  rw (paint_zone_frame, there, wet, may) in
                subst (Painted w key colors) (sym e) (written device there wet may)
            | inr not_now ↦
                let l =
                  log_warning w.activity_log permission
                    (check_write device zone_effect_write).reason in
                let e : paint_zone_frame i w key colors
                    ≡ (record w { engine = stop_zone w.engine key; activity_log = l }, false) =
                  rw (paint_zone_frame, there, wet, not_now) in
                subst (Painted w key colors) (sym e) (refused device l there wet not_now)
          ]
        ]
      ]

  kept_or_not :
      (w : World S) (key : ZoneKey) (frame : List RgbColor) (s : S) (done : Bool)
      → has_zone w.engine.active_zones key ≡ true
      → IsConsistent w.engine
      → IsConsistent (keep_frame i key frame (record w { devices = s }, done)).engine
  kept_or_not w key frame s true active c = record {
    timer = c.timer;
    frames =
        insert-Kept w.engine.active_zones key frame w.engine.last_accepted_frames active c.frames;
  }
  kept_or_not w key frame s false active c = c

  keep-IsConsistent :
      (w : World S) (key : ZoneKey) (frame : List RgbColor) (out : World S × Bool)
      → Painted w key frame out
      → has_zone w.engine.active_zones key ≡ true
      → IsConsistent w.engine
      → IsConsistent (keep_frame i key frame out).engine
  keep-IsConsistent w key frame _ (missing gone) active c = c
  keep-IsConsistent w key frame _ (shown dry) active c = kept_or_not w key frame _ _ active c
  keep-IsConsistent w key frame _ (written device there wet may) active c =
      kept_or_not w key frame _ _ active c
  keep-IsConsistent w key frame _ (refused device l there wet not_now) active c =
      stop-IsConsistent w.engine key c

  module _ ⦃r : Real D⦄ where
    -- A round leaves the world, or keeps what the painting of some frame gives.
    tick_zone_cases :
        (elapsed : D) (w : World S) (key : ZoneKey)
        → (tick_zone i elapsed w key ≡ w)
          ⊎ ((frame : List RgbColor) × (has_zone w.engine.active_zones key ≡ true)
              × (tick_zone i elapsed w key
                  ≡ keep_frame i key frame (paint_zone_frame i w key frame)))
    unfolding tick_zone
    tick_zone_cases elapsed w key = elim (Bool-cases (has_zone w.engine.active_zones key)) [
      | inr idle ↦ inl (rw (tick_zone, idle))
      | inl active ↦ elim (Option-cases (i.zone_at w.devices key)) [
        | inl gone ↦ inl (rw (tick_zone, active, gone))
        | inr (zone, there) ↦
            let frame = compute_frame zone.effect (pos (length zone.leds)) elapsed in
            elim (Bool-cases (length frame == 0)) [
              | inl empty ↦ inl (rw (tick_zone, active, there, empty))
              | inr some_led ↦
                  elim (Bool-cases
                    (accepted_already (frame_of key w.engine.last_accepted_frames) frame)) [
                      | inl known ↦ inl (rw (tick_zone, active, there, some_led, known))
                      | inr new ↦ inr (frame, active, rw (tick_zone, active, there, some_led, new))
                    ]
            ]
      ]
    ]

    tick_zone-IsConsistent :
        (elapsed : D) (w : World S) (key : ZoneKey)
        → IsConsistent w.engine
        → IsConsistent (tick_zone i elapsed w key).engine
    tick_zone-IsConsistent elapsed w key c =
        let Ok : World S → Type 0 = λ v. IsConsistent v.engine in
        elim (tick_zone_cases elapsed w key) [
          | inl same ↦ subst Ok (sym same) c
          | inr (frame, active, painted) ↦ subst Ok (sym painted) (
              keep-IsConsistent w key frame (paint_zone_frame i w key frame)
                (paint_zone_frame-Painted w key frame) active c)
        ]

    tick_zones-IsConsistent :
        (elapsed : D) (w : World S) (keys : List ZoneKey)
        → IsConsistent w.engine
        → IsConsistent (tick_zones i elapsed w keys).engine
    unfolding tick_zones
    tick_zones-IsConsistent elapsed w [] c = c
    tick_zones-IsConsistent elapsed w (key ∷ keys) c =
        tick_zones-IsConsistent elapsed (tick_zone i elapsed w key) keys
          (tick_zone-IsConsistent elapsed w key c)

    -- A tick keeps the engine consistent, whatever the devices answer: its timer runs exactly if a zone
    -- streams, and every frame it keeps is of a zone that streams.
    pub tick-IsConsistent :
        (elapsed : D) (w : World S) → IsConsistent w.engine → IsConsistent (tick i elapsed w).engine
    unfolding tick
    tick-IsConsistent elapsed w c = tick_zones-IsConsistent elapsed w w.engine.active_zones c
