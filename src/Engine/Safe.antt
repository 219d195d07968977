-- ===== src/Engine/Safe.antt =====
-- core/EffectsEngine.cpp, `tick`, with `paintZoneFrame` of core/DeviceManager.cpp: which frames a tick
-- may send to a device.
use luma_core.Prelude.{
  All, ◌≡◌, refl, ◌∙◌, sym, inl, inr, Bool, true, false, List, [], ◌∷◌, Bool-cases, Option-cases,
  some, pos, length, arith, ◌==◌,
}
use luma_core.Color.{RgbColor}
use luma_core.Real.{Real}
use luma_core.Zone.{RgbZone}
use luma_core.Permission.{Guarded, check_write, zone_effect_write}
use luma_core.Permission.Laws.{Permits}
use luma_core.Engine.Frame.{compute_frame}
use luma_core.Engine.{ZoneKey, has_zone, frame_of}
use luma_core.Engine.Laws.{has_zone-cons, has_zone-head}
use luma_core.Engine.Tick.{
  Devices, World, paint_zone_frame, may_write, tick_zone, tick_zones, tick, keep_frame,
  accepted_already,
}
use luma_core.Engine.Paint.{Painted, missing, shown, written, refused, paint_zone_frame-Painted}

may_write-Permits :
    {S D : Type 0} (i : Devices S D) (device : Guarded) (w : World S) (key : ZoneKey)
    → may_write i device w key ≡ true
    → Permits
        (check_write device zone_effect_write)
        (i.device_write_confirmed w.devices key.device_index)
may_write-Permits i device w key h = ground arith

module _ {S D : Type 0} ⦃r : Real D⦄ (i : Devices S D) (zones : List ZoneKey) (dry : Bool)
    (elapsed : D) where
  -- The frame of one of the zones, as it stands in the devices: of the length of its strip, at the time
  -- of the tick.
  pub record FrameOf (s : S) (key : ZoneKey) (frame : List RgbColor) : Type 0 where
    pub streams : has_zone zones key ≡ true
    pub zone : RgbZone D
    pub there : i.zone_at s key ≡ some zone
    pub computed : compute_frame zone.effect (pos (length zone.leds)) elapsed ≡ frame

  -- The devices after frames of the zones: under dry-run they are only shown, and else each is written to
  -- a device that permits it then, outright or with its confirmation.
  pub data Sent (s : S) : S → Type 0 where
    nothing : Sent s s
    displayed :
        {t : S} (key : ZoneKey) (frame : List RgbColor)
        → Sent s t
        → dry ≡ true
        → FrameOf t key frame
        → Sent s (i.set_zone_effect_colors t key frame).0
    applied :
        {t : S} (key : ZoneKey) (frame : List RgbColor) (device : Guarded)
        → Sent s t
        → dry ≡ false
        → i.device_at t key.device_index ≡ some device
        → Permits
            (check_write device zone_effect_write)
            (i.device_write_confirmed t key.device_index)
        → FrameOf t key frame
        → Sent s (i.apply_zone_frame t key frame).0

  -- A world whose devices are sent frames, under the dry-run that it was.
  abbrev Goes : S → World S → Type 0
  Goes s w = Sent s w.devices × (w.dry_run_enabled ≡ dry)

  keep_frame-Goes :
      (s : S) (key : ZoneKey) (frame : List RgbColor) (w : World S) (done : Bool)
      → Goes s w
      → Goes s (keep_frame i key frame (w, done))
  keep_frame-Goes s key frame w true g = g
  keep_frame-Goes s key frame w false g = g

  Painted-Goes :
      (s : S) (w : World S) (key : ZoneKey) (frame : List RgbColor) (out : World S × Bool)
      → Painted i w key frame out
      → FrameOf w.devices key frame
      → Goes s w
      → Goes s out.0
  Painted-Goes s w key frame _ (missing gone) f g = g
  Painted-Goes s w key frame _ (shown on) f (sent, same) =
      (displayed key frame sent (sym same ∙ on) f, same)
  Painted-Goes s w key frame _ (written device there wet may) f (sent, same) = (
    applied key frame device sent (sym same ∙ wet) there (may_write-Permits i device w key may) f,
    same,
  )
  Painted-Goes s w key frame _ (refused device l there wet not_now) f g = g

  tick_zone-Goes :
      (s : S) (w : World S) (key : ZoneKey)
      → has_zone zones key ≡ true
      → Goes s w
      → Goes s (tick_zone i elapsed w key)
  unfolding tick_zone
  tick_zone-Goes s w key listed g = elim (Bool-cases (has_zone w.engine.active_zones key)) [
    | inr idle ↦ rw (tick_zone, idle) g
    | inl active ↦ elim (Option-cases (i.zone_at w.devices key)) [
      | inl gone ↦ rw (tick_zone, active, gone) g
      | inr (zone, there) ↦
          let frame = compute_frame zone.effect (pos (length zone.leds)) elapsed in
          let f : FrameOf w.devices key frame = record {
            streams = listed;
            zone = zone;
            there = there;
            computed = refl;
          } in
          let out = paint_zone_frame i w key frame in
          let painted =
            keep_frame-Goes s key frame out.0 out.1
              (Painted-Goes s w key frame out (paint_zone_frame-Painted i w key frame) f g) in
          elim (Bool-cases (length frame == 0)) [
            | inl empty ↦ rw (tick_zone, active, there, empty) g
            | inr some_led ↦
                elim (Bool-cases
                  (accepted_already (frame_of key w.engine.last_accepted_frames) frame)) [
                    | inl known ↦ rw (tick_zone, active, there, some_led, known) g
                    | inr new ↦ rw (tick_zone, active, there, some_led, new) painted
                  ]
          ]
    ]
  ]

  tick_zones-Goes :
      (s : S) (w : World S) (keys : List ZoneKey)
      → All (λ key. has_zone zones key ≡ true) keys
      → Goes s w
      → Goes s (tick_zones i elapsed w keys)
  unfolding tick_zones
  tick_zones-Goes s w [] all g = g
  tick_zones-Goes s w (key ∷ keys) (listed, all) g =
      tick_zones-Goes s (tick_zone i elapsed w key) keys all (tick_zone-Goes s w key listed g)

All-grow :
    (key : ZoneKey) (zones keys : List ZoneKey)
    → All (λ k. has_zone zones k ≡ true) keys
    → All (λ k. has_zone (key ∷ zones) k ≡ true) keys
All-grow key zones [] all = tt
All-grow key zones (k ∷ keys) (listed, all) =
    (has_zone-cons zones key k listed, All-grow key zones keys all)

All-listed : (zones : List ZoneKey) → All (λ k. has_zone zones k ≡ true) zones
All-listed [] = tt
All-listed (key ∷ zones) = (has_zone-head zones key, All-grow key zones zones (All-listed zones))

module _ {S D : Type 0} ⦃r : Real D⦄ (i : Devices S D) where
  -- Whatever the devices answer, a tick changes them only by frames of zones that stream at its start, each
  -- computed from the zone as it stands. Under dry-run the frames are only shown. With dry-run off each is
  -- written to a device that permits it at that moment: outright, or with a confirmation that is given.
  pub tick-Sent :
      (elapsed : D) (w : World S)
      → Sent i w.engine.active_zones w.dry_run_enabled elapsed w.devices (tick i elapsed w).devices
  unfolding tick
  tick-Sent elapsed w =
      let zones = w.engine.active_zones in
      (tick_zones-Goes i zones w.dry_run_enabled elapsed w.devices w zones (All-listed zones)
        (nothing, refl)).0
