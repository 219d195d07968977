-- ===== src/Asus/Live.antt =====
-- Which ASUS Aura devices can always be written to: those built from a verified config table, after
-- whatever operations.
use luma_core.Prelude.{
  ℕ, ◌≤◌, ◌<◌, ◌≡◌, ap, ◌∙◌, sym, ℤ, pos, true, List, some, length, All, arith, subst, ◌&&◌, ◌++◌,
  length-map, length-append, get_elem?, get_elem?-lt, get_elem?-some, All-get,
}
use luma_core.Message.{Message, blank}
use luma_core.Color.{RgbColor}
use luma_core.Effect.{RgbEffect}
use luma_core.Real.{Real}
use luma_core.Zone.{RgbZone}
use luma_core.Aura.{AsusAuraConfigTable}
use luma_core.Aura.Config.{exposed_zone_count, fixed_exposed_zone_count}
use luma_core.Aura.Ready.{WriteReady}
use luma_core.Aura.Report.{Report}
use luma_core.Aura.Packets.{sent}
use luma_core.Asus.Approved.{effect_packet-is_ok, effect_packet-IsApproved, send-built}
use luma_core.Asus.Guard.{behind_two-run}
use luma_core.Asus.Safe.{is_addressable_zone_iff}
use luma_core.Device.{zone_at, with_index}
use luma_core.Aura.Ready.Complete.{is_write_ready_iff}
use luma_core.Hid.{Hidapi, write_reports}
use luma_core.Asus.{
  is_addressable_zone, AsusAuraHidDevice, make_asus_device, initialize_zones, ProbeDevice,
  RgbZoneType, is_write_ready, format, end,
}
use luma_core.Asus.Write.{
  with_status, send_approved_packet, effect_packet, apply_zone_effect, apply_zone_frame,
  apply_all_off, update_metadata,
}
use luma_core.Asus.Zones.{Lit, All-append, All-map, initialize_zones-refine, shape, wanted}
use luma_core.Asus.Follows.{
  Follows, apply_zone_effect-Follows, apply_zone_frame-Follows, apply_all_off-Follows,
}
use luma_core.Asus.Metadata.{update_metadata-Follows}

-- A device whose table is verified and whose zones are those that the table exposes.
pub record IsUsable {D : Type 0} {H : Type 0} (d : AsusAuraHidDevice D H) : Type 0 where
  pub verified : d.config_table_verified ≡ true
  pub ready : WriteReady d.config_table
  pub size : length d.base.zones ≡ exposed_zone_count d.config_table
  pub lit : All Lit d.base.zones

module _ {D : Type 0} {H : Type 0} where
  Follows-IsUsable : {d x : AsusAuraHidDevice D H} → Follows d x → IsUsable d → IsUsable x
  Follows-IsUsable f u = record {
    verified = f.verified ∙ u.verified;
    ready = subst WriteReady (sym f.config) u.ready;
    size = f.size ∙ u.size ∙ ap exposed_zone_count (sym f.config);
    lit = f.lit u.lit;
  }

module _ {D : Type 0} {H : Type 0} ⦃r : Real D⦄ (api : Hidapi H) (trimmed : List ℕ → List ℕ) where
  -- One call of a method that can change the device.
  pub data Call : AsusAuraHidDevice D H → AsusAuraHidDevice D H → Type 0 where
    effect :
        (d : AsusAuraHidDevice D H) (zone : ℤ) (e : RgbEffect D)
        → Call d (apply_zone_effect api trimmed d zone e).1
    frame :
        (d : AsusAuraHidDevice D H) (zone : ℤ) (colors : List RgbColor)
        → Call d (apply_zone_frame api trimmed d zone colors).1
    all_off : (d : AsusAuraHidDevice D H) → Call d (apply_all_off api trimmed d).1
    metadata :
        (d : AsusAuraHidDevice D H) (zone : ℤ) (name : List ℕ) (count : ℤ)
        → Call d (update_metadata trimmed d zone name count).1

  pub data Reach (s : AsusAuraHidDevice D H) : AsusAuraHidDevice D H → Type 0 where
    here : Reach s s
    next : {d e : AsusAuraHidDevice D H} → Reach s d → Call d e → Reach s e

module _ {D : Type 0} {H : Type 0} ⦃r : Real D⦄ (api : Hidapi H) (trimmed : List ℕ → List ℕ) where
  Call-Follows : {d x : AsusAuraHidDevice D H} → Call api trimmed d x → Follows d x
  Call-Follows (effect d zone e) = apply_zone_effect-Follows api trimmed d zone e
  Call-Follows (frame d zone colors) = apply_zone_frame-Follows api trimmed d zone colors
  Call-Follows (all_off d) = apply_all_off-Follows api trimmed d
  Call-Follows (metadata d zone name count) = update_metadata-Follows trimmed d zone name count

  -- No sequence of writes and changes of metadata, whether they succeed or fail, makes a usable device
  -- unusable: the table stays verified, and each zone that it exposes stays, with 1 to 120 lamps.
  pub Reach-IsUsable :
      (d x : AsusAuraHidDevice D H) → Reach api trimmed d x → IsUsable d → IsUsable x
  Reach-IsUsable d x here u = u
  Reach-IsUsable d x (next s c) u = Follows-IsUsable (Call-Follows c) (Reach-IsUsable d _ s u)

  Header-Lit : (z : RgbZone D) → (z.kind ≡ RgbZoneType.motherboard) × Lit z → Lit z
  Header-Lit z h = h.1

  -- A device that is built from a verified table that is `WriteReady` is usable.
  pub make_asus_device-IsUsable :
      (print : ℕ → List ℕ) (device : ProbeDevice) (config : AsusAuraConfigTable) (summary : Message)
      (hid : H)
      → WriteReady config
      → IsUsable {D = D} (make_asus_device print device true config summary hid)
  unfolding make_asus_device exposed_zone_count
  make_asus_device-IsUsable print device config summary hid w =
      let (front, back, built, fronts, headers, shapes, lit) =
        initialize_zones-refine D print config w in
      let usable = (is_write_ready_iff config).1 w in
      let zones : initialize_zones {D = D} print (true && is_write_ready config) config
          ≡ front ++ back =
        ap (λ v. initialize_zones {D = D} print v config) usable ∙ built in
      let backs = sym (length-map back (shape D)) ∙ ap length shapes ∙ length-map _ (wanted D) in
      record {
        verified = usable;
        ready = w;
        size = ap length zones ∙ omega (arith, length-append front back, fronts, backs);
        lit =
            subst (All Lit) (sym zones)
              (All-append Lit front back (All-map Header-Lit front headers) lit);
      }

module _ {D : Type 0} {H : Type 0} ⦃r : Real D⦄ (api : Hidapi H) (trimmed : List ℕ → List ℕ) where
  -- A write of an effect to an addressable zone of a usable device is decided by the transport alone.
  usable-applies :
      (d : AsusAuraHidDevice D H) (i : ℕ) (z : RgbZone D) (e : RgbEffect D)
      → IsUsable d
      → get_elem? d.base.zones i ≡ some z
      → fixed_exposed_zone_count d.config_table ≤ i
      → e.brightness ≤ 100
      → (reports : List Report) × (sent (effect_packet d (pos i) z e) ≡ some reports)
        × ((apply_zone_effect api trimmed d (pos i) e).0
            ≡ (write_reports api trimmed d.device.path reports d.hid).0.success)
        × ((apply_zone_effect api trimmed d (pos i) e).1.hid
            ≡ (write_reports api trimmed d.device.path reports d.hid).1)
  unfolding apply_zone_effect
  usable-applies d i z e u found late level =
      let inside = get_elem?-lt d.base.zones i z found in
      let at : zone_at d.base.zones (pos i) ≡ some (i, z) = ap (with_index i) found in
      let lit = All-get Lit d.base.zones i z u.lit found in
      let built =
        effect_packet-is_ok d i z e u.ready late (omega (arith, inside, u.size)) lit level in
      let free = (is_addressable_zone_iff d i).1 (u.verified, u.ready.valid, late, inside) in
      let m = effect_packet d (pos i) z e in
      let (reports, out, s, k) =
        send-built api trimmed m (format "write" end) (with_status d blank) built
          (effect_packet-IsApproved d (pos i) z e) in
      let hid = (write_reports api trimmed d.device.path reports d.hid).1 in
      let ran : ((apply_zone_effect api trimmed d (pos i) e).0
            ≡ (send_approved_packet api trimmed m (format "write" end) (with_status d blank)).0)
          × ((apply_zone_effect api trimmed d (pos i) e).1.hid ≡ hid) =
        rw (apply_zone_effect, at)
          (behind_two-run (λ x. x.hid ≡ hid) d.config_table_verified (is_addressable_zone d (pos i))
            (send_approved_packet api trimmed m (format "write" end) (with_status d blank)).0 _ _ _
            _ u.verified free k k) in
      (reports, out, ran.0 ∙ s, ran.1)

  -- On a device that was built from a verified table that is `WriteReady`, after any operations that
  -- keep the path, an effect of brightness up to 100 on any zone that the protocol counts as addressable
  -- is turned into reports, and it succeeds exactly where HIDAPI takes them: no operation before can
  -- have made the device refuse it.
  pub built-writes :
      (print : ℕ → List ℕ) (device : ProbeDevice) (config : AsusAuraConfigTable) (summary : Message)
      (hid : H) (d : AsusAuraHidDevice D H) (i : ℕ) (e : RgbEffect D)
      → WriteReady config
      → Reach api trimmed (make_asus_device print device true config summary hid) d
      → fixed_exposed_zone_count d.config_table ≤ i
      → i < exposed_zone_count d.config_table
      → e.brightness ≤ 100
      → (z : RgbZone D) × (reports : List Report) × (get_elem? d.base.zones i ≡ some z)
        × (sent (effect_packet d (pos i) z e) ≡ some reports)
        × ((apply_zone_effect api trimmed d (pos i) e).0
            ≡ (write_reports api trimmed d.device.path reports d.hid).0.success)
        × ((apply_zone_effect api trimmed d (pos i) e).1.hid
            ≡ (write_reports api trimmed d.device.path reports d.hid).1)
  built-writes print device config summary hid d i e w reach late exposed level =
      let start = make_asus_device-IsUsable api trimmed print device config summary hid w in
      let u = Reach-IsUsable api trimmed _ d reach start in
      let (z, found) = get_elem?-some d.base.zones i (omega (arith, exposed, u.size)) in
      let (reports, out, s, k) = usable-applies d i z e u found late level in
      (z, reports, found, out, s, k)
