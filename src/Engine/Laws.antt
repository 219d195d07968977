-- ===== src/Engine/Laws.antt =====
-- The engine keeps frames only of zones that stream, and its timer runs exactly while one does.
use luma_core.Prelude.{
  All, ◌≡◌, ◌≢◌, refl, ap, ◌∙◌, sym, inl, inr, ℤ, ◌==ℤ◌, Bool, true, false, List, [], ◌∷◌, arith,
  Bool-cases, Option-cases, subst,
}
use luma_core.Color.{RgbColor}
use luma_core.Engine.{
  EffectsEngine, ZoneKey, Frames, same_zone, has_zone, remove_zone, remove_frame, frame_of,
  insert_frame, update_timer_state, start_zone, stop_zone, zones_of_others, frames_of_others,
  stop_device, stop_all, some_active,
}

abbrev pub Kept : List ZoneKey → Frames → Type 0
Kept zones = All (λ kf. has_zone zones kf.0 ≡ true)

pub record IsConsistent (e : EffectsEngine) : Type 0 where
  pub timer : e.timer_active ≡ some_active e.active_zones
  pub frames : Kept e.active_zones e.last_accepted_frames

same_ℤ : (a b : ℤ) → (a ==ℤ b) ≡ true → a ≡ b
same_ℤ a b h = ground arith

same_zone_eq : (a b : ZoneKey) → same_zone a b ≡ true → a ≡ b
same_zone_eq a b h =
    let d = same_ℤ a.device_index b.device_index (ground arith) in
    let z = same_ℤ a.zone_index b.zone_index (ground arith) in
    ap (λ x. record { device_index = x; zone_index = a.zone_index }) d
    ∙ ap (λ x. record { device_index = b.device_index; zone_index = x }) z

same_zone_refl : (a : ZoneKey) → same_zone a a ≡ true
same_zone_refl a = ground arith

clash : {X : Type 0} {b : Bool} → b ≡ true → b ≡ false → X
clash h k = absurd (cc)

-- A zone that is another one stays where one is removed.
has_zone-remove :
    (ks : List ZoneKey) (key k : ZoneKey)
    → same_zone k key ≡ false
    → has_zone ks k ≡ true
    → has_zone (remove_zone key ks) k ≡ true
unfolding has_zone remove_zone
has_zone-remove [] key k other h = h
has_zone-remove (x ∷ ks) key k other h = elim (Bool-cases (same_zone x key)) [
  | inl gone ↦ elim (Bool-cases (same_zone x k)) [
    | inl same ↦ clash (subst (λ z. same_zone z key ≡ true) (same_zone_eq x k same) gone) other
    | inr differs ↦
        rw (remove_zone, gone) (has_zone-remove ks key k other (rw (has_zone, differs) at h))
  ]
  | inr stays ↦ elim (Bool-cases (same_zone x k)) [
    | inl same ↦ rw (remove_zone, stays, has_zone, same)
    | inr differs ↦
        rw (remove_zone, stays, has_zone, differs)
          (has_zone-remove ks key k other (rw (has_zone, differs) at h))
  ]
]

Kept-mono :
    (ks ls : List ZoneKey) (fs : Frames)
    → ((k : ZoneKey) → has_zone ks k ≡ true → has_zone ls k ≡ true)
    → Kept ks fs
    → Kept ls fs
Kept-mono ks ls [] more h = tt
Kept-mono ks ls (kf ∷ fs) more h = (more kf.0 h.0, Kept-mono ks ls fs more h.1)

-- After the frame of a zone is removed, the frames are of other zones.
Kept-remove :
    (ks ls : List ZoneKey) (key : ZoneKey) (fs : Frames)
    → ((k : ZoneKey) → same_zone k key ≡ false → has_zone ks k ≡ true → has_zone ls k ≡ true)
    → Kept ks fs
    → Kept ls (remove_frame key fs)
unfolding remove_frame
Kept-remove ks ls key [] more h = tt
Kept-remove ks ls key ((k, f) ∷ fs) more h =
    let rest = Kept-remove ks ls key fs more h.1 in
    elim (Bool-cases (same_zone k key)) [
      | inl same ↦ rw (remove_frame, same) rest
      | inr other ↦ rw (remove_frame, other) (more k other h.0, rest)
    ]

pub has_zone-cons :
    (ks : List ZoneKey) (key k : ZoneKey) → has_zone ks k ≡ true → has_zone (key ∷ ks) k ≡ true
unfolding has_zone
has_zone-cons ks key k h = elim (Bool-cases (same_zone key k)) [
  | inl same ↦ rw (has_zone, same)
  | inr other ↦ rw (has_zone, other) h
]

pub has_zone-head : (ks : List ZoneKey) (key : ZoneKey) → has_zone (key ∷ ks) key ≡ true
unfolding has_zone
has_zone-head ks key = rw (has_zone, same_zone_refl key)

pub insert-Kept :
    (ks : List ZoneKey) (key : ZoneKey) (frame : List RgbColor) (fs : Frames)
    → has_zone ks key ≡ true
    → Kept ks fs
    → Kept ks (insert_frame key frame fs)
insert-Kept ks key frame fs active h = (active, Kept-remove ks ks key fs (λ k _ g. g) h)

pub start-IsConsistent :
    (e : EffectsEngine) (key : ZoneKey) → IsConsistent e → IsConsistent (start_zone e key)
unfolding start_zone update_timer_state
start-IsConsistent e key c = record {
  timer = refl;
  frames =
      Kept-remove e.active_zones _ key e.last_accepted_frames
        (λ k _ h. elim (Bool-cases (has_zone e.active_zones key)) [
          | inl there ↦ rw there h
          | inr new ↦ rw new (has_zone-cons e.active_zones key k h)
        ])
        c.frames;
}

pub stop-IsConsistent :
    (e : EffectsEngine) (key : ZoneKey) → IsConsistent e → IsConsistent (stop_zone e key)
unfolding stop_zone update_timer_state
stop-IsConsistent e key c = record {
  timer = refl;
  frames =
      Kept-remove e.active_zones _ key e.last_accepted_frames
        (λ k other h. has_zone-remove e.active_zones key k other h) c.frames;
}

others-Kept :
    (device : ℤ) (ks : List ZoneKey) (fs : Frames)
    → Kept (zones_of_others device ks) (frames_of_others device ks fs)
unfolding zones_of_others frames_of_others
others-Kept device [] fs = tt
others-Kept device (k ∷ ks) fs =
    let rest = others-Kept device ks fs in
    elim (Bool-cases (k.device_index ==ℤ device)) [
      | inl same ↦ rw (zones_of_others, frames_of_others, same) rest
      | inr other ↦
          let grown =
            Kept-mono (zones_of_others device ks) (k ∷ zones_of_others device ks)
              (frames_of_others device ks fs)
              (λ z h. has_zone-cons (zones_of_others device ks) k z h) rest in
          elim (Option-cases (frame_of k fs)) [
            | inl none_yet ↦ rw (zones_of_others, frames_of_others, other, none_yet) grown
            | inr (f, there) ↦
                rw (zones_of_others, frames_of_others, other, there)
                  (insert-Kept (k ∷ zones_of_others device ks) k f (frames_of_others device ks fs)
                    (has_zone-head (zones_of_others device ks) k) grown)
          ]
    ]

-- Starting a zone, stopping one, stopping a device and stopping all keep the engine consistent: the
-- timer runs exactly if a zone streams, and every kept frame is of a zone that streams.
pub engine_ops-IsConsistent :
    (e : EffectsEngine) (key : ZoneKey) (device : ℤ)
    → IsConsistent e
    → IsConsistent (start_zone e key)
      × IsConsistent (stop_zone e key)
      × IsConsistent (stop_device e device)
      × IsConsistent (stop_all e)
unfolding stop_device stop_all update_timer_state
engine_ops-IsConsistent e key device c = (
  start-IsConsistent e key c,
  stop-IsConsistent e key c,
  record { timer = refl; frames = others-Kept device e.active_zones e.last_accepted_frames },
  record { timer = refl; frames = tt },
)

others-gone :
    (device : ℤ) (ks : List ZoneKey) (key : ZoneKey)
    → (key.device_index ==ℤ device) ≡ true
    → has_zone (zones_of_others device ks) key ≡ false
unfolding zones_of_others has_zone
others-gone device [] key of = refl
others-gone device (k ∷ ks) key of = elim (Bool-cases (k.device_index ==ℤ device)) [
  | inl same ↦ rw (zones_of_others, same) (others-gone device ks key of)
  | inr other ↦ elim (Bool-cases (same_zone k key)) [
    | inl same ↦
        clash (subst (λ z. (z.device_index ==ℤ device) ≡ true) (sym (same_zone_eq k key same)) of)
          other
    | inr differs ↦ rw (zones_of_others, other, has_zone, differs) (others-gone device ks key of)
  ]
]

remove-gone : (ks : List ZoneKey) (key : ZoneKey) → has_zone (remove_zone key ks) key ≡ false
unfolding remove_zone has_zone
remove-gone [] key = refl
remove-gone (k ∷ ks) key = elim (Bool-cases (same_zone k key)) [
  | inl same ↦ rw (remove_zone, same) (remove-gone ks key)
  | inr other ↦ rw (remove_zone, other, has_zone, other) (remove-gone ks key)
]

-- A zone that is stopped does not stream, nor does any zone of a device that is stopped.
pub stopped-not_streaming :
    (e : EffectsEngine) (key : ZoneKey)
    → (has_zone (stop_zone e key).active_zones key ≡ false)
      × (has_zone (stop_device e key.device_index).active_zones key ≡ false)
unfolding stop_zone stop_device update_timer_state
stopped-not_streaming e key =
    (remove-gone e.active_zones key, others-gone key.device_index e.active_zones key (ground arith))

has_zone-other :
    (ks : List ZoneKey) (key other : ZoneKey)
    → other ≢ key
    → has_zone (remove_zone key ks) other ≡ has_zone ks other
unfolding remove_zone has_zone
has_zone-other [] key other differ = refl
has_zone-other (k ∷ ks) key other differ =
    let rest = has_zone-other ks key other differ in
    elim (Bool-cases (same_zone k key)) [
      | inl gone ↦ elim (Bool-cases (same_zone k other)) [
        | inl same ↦ absurd (differ (sym (same_zone_eq k other same) ∙ same_zone_eq k key gone))
        | inr new ↦ rw (remove_zone, gone, has_zone, new) rest
      ]
      | inr stays ↦ elim (Bool-cases (same_zone k other)) [
        | inl same ↦ rw (remove_zone, stays, has_zone, same)
        | inr new ↦ rw (remove_zone, stays, has_zone, new) rest
      ]
    ]

-- Starting and stopping a zone, and what they leave of another one.
pub start_zone_lem :
    (e : EffectsEngine) (key other : ZoneKey)
    → other ≢ key
    → (has_zone (start_zone e key).active_zones key ≡ true)
      × (has_zone (start_zone e key).active_zones other ≡ has_zone e.active_zones other)
unfolding start_zone update_timer_state has_zone
start_zone_lem e key other differ = elim (Bool-cases (has_zone e.active_zones key)) [
  | inl there ↦ rw there (there, refl)
  | inr new ↦ elim (Bool-cases (same_zone key other)) [
    | inl same ↦ absurd (differ (sym (same_zone_eq key other same)))
    | inr unlike ↦ rw new (has_zone-head e.active_zones key, rw (has_zone, unlike))
  ]
]

pub stop_zone_lem :
    (e : EffectsEngine) (key other : ZoneKey)
    → other ≢ key
    → (has_zone (stop_zone e key).active_zones key ≡ false)
      × (has_zone (stop_zone e key).active_zones other ≡ has_zone e.active_zones other)
unfolding stop_zone update_timer_state
stop_zone_lem e key other differ =
    (remove-gone e.active_zones key, has_zone-other e.active_zones key other differ)
