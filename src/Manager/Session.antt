-- ===== src/Manager/Session.antt =====
-- core/DeviceManager.cpp: how long a confirmation of hardware writes lasts, and what a new set of
-- devices starts from.
use luma_core.Prelude.{
  length-append, ℕ, ◌+◌, ◌≡◌, refl, ap, ◌∙◌, ℤ, pos, negsuc, true, false, List, [], ◌∷◌, some,
  Option-cases, Bool-cases, arith, length, inl, inr,
}
use luma_core.Text.{same_codes}
use luma_core.Log.{ActivityLog}
use luma_core.Permission.{check_any_write, allows_write_or_confirmation}
use luma_core.Engine.{update_timer_state, ZoneKey, has_zone, stop_all, is_zone_streaming}
use luma_core.Manager.{
  apply_saved_override, RgbDevices, QSettings, DeviceManager, device_at, device_write_confirmed,
  has_id, remove_id, confirm_device_writes, revoke_device_writes, register_device, register_all,
  forget_devices, replace_devices,
}

same_codes_self : (xs : List ℕ) → same_codes xs xs ≡ true
unfolding same_codes
same_codes_self [] = refl
same_codes_self (x ∷ xs) = let rest = same_codes_self xs in ground arith

has_id-added : (id : List ℕ) (ids : List (List ℕ)) → has_id (id ∷ ids) id ≡ true
unfolding has_id
has_id-added id ids = rw (has_id, same_codes_self id)

has_id-remove : (id : List ℕ) (ids : List (List ℕ)) → has_id (remove_id id ids) id ≡ false
unfolding has_id remove_id
has_id-remove id [] = refl
has_id-remove id (x ∷ xs) = elim (Bool-cases (same_codes x id)) [
  | inl same ↦ rw (remove_id, same) (has_id-remove id xs)
  | inr other ↦ rw (remove_id, other, has_id, other) (has_id-remove id xs)
]

module _ {V D Q : Type 0} (i : RgbDevices V D) where
  -- What the index finds does not depend on the confirmations and the log.
  same_place :
      (m : DeviceManager V Q) (ids : List (List ℕ)) (l : ActivityLog) (device : ℤ)
      → device_at i (record m { confirmed_write_device_ids = ids; activity_log = l }) device
        ≡ device_at i m device
  unfolding device_at
  same_place m ids l (pos k) = refl
  same_place m ids l (negsuc k) = refl

  confirmed_of :
      (m : DeviceManager V Q) (ids : List (List ℕ)) (l : ActivityLog) (device : ℤ) (n : ℕ) (v : V)
      → device_at i m device ≡ some (n, v)
      → device_write_confirmed i
          (record m { confirmed_write_device_ids = ids; activity_log = l })
          device
        ≡ has_id ids (i.base v).id
  unfolding device_write_confirmed
  confirmed_of m ids l device n v found =
      let there = same_place m ids l device ∙ found in rw (device_write_confirmed, there)

  revoke-ends :
      (m : DeviceManager V Q) (device : ℤ) (n : ℕ) (v : V)
      → device_at i m device ≡ some (n, v)
      → ((revoke_device_writes i m device).0 ≡ true)
        × (device_write_confirmed i (revoke_device_writes i m device).1 device ≡ false)
  unfolding revoke_device_writes
  revoke-ends m device n v found =
      let id = (i.base v).id in
      let ids = m.confirmed_write_device_ids in
      elim (Bool-cases (has_id ids id)) [
        | inl held ↦
            rw (revoke_device_writes, found, held)
              (refl, confirmed_of m (remove_id id ids) _ device n v found ∙ has_id-remove id ids)
        | inr free ↦
            rw (revoke_device_writes, found, free)
              (refl, confirmed_of m ids m.activity_log device n v found ∙ free)
      ]

  -- For a device that exists: a confirmation is accepted exactly if the device permits a write or asks
  -- for a confirmation of one; an accepted one holds from then on; and after a revocation none holds.
  pub confirm_device_writes_lem :
      (m : DeviceManager V Q) (device : ℤ) (n : ℕ) (v : V)
      → device_at i m device ≡ some (n, v)
      → ((confirm_device_writes i m device).0
          ≡ allows_write_or_confirmation (check_any_write (i.guarded v)))
        × ((confirm_device_writes i m device).0 ≡ true
            → device_write_confirmed i (confirm_device_writes i m device).1 device ≡ true)
        × ((revoke_device_writes i m device).0 ≡ true)
        × (device_write_confirmed i (revoke_device_writes i m device).1 device ≡ false)
  unfolding confirm_device_writes revoke_device_writes has_id
  confirm_device_writes_lem m device n v found =
      let id = (i.base v).id in
      let ids = m.confirmed_write_device_ids in
      let before = confirmed_of m ids m.activity_log device n v found in
      let added =
        λ (l : ActivityLog). confirmed_of m (id ∷ ids) l device n v found ∙ has_id-added id ids in
      let allowed = allows_write_or_confirmation (check_any_write (i.guarded v)) in
      let (again, gone) = revoke-ends m device n v found in
      elim (Bool-cases allowed) [
        | inr denied ↦ (
          rw (confirm_device_writes, found, denied),
          (λ h. let bad : false ≡ true = rw (confirm_device_writes, found, denied) at h in cc),
          again,
          gone,
        )
        | inl ok ↦ elim (Bool-cases (has_id ids id)) [
          | inl held ↦ (
            rw (confirm_device_writes, found, ok, held),
            (λ h. rw (confirm_device_writes, found, ok, held) (before ∙ held)),
            again,
            gone,
          )
          | inr free ↦ (
            rw (confirm_device_writes, found, ok, free),
            (λ h. rw (confirm_device_writes, found, ok, free) (added _)),
            again,
            gone,
          )
        ]
      ]

module _ {V D Q : Type 0} (i : RgbDevices V D) (q : QSettings Q) (key : List ℕ → List ℕ) where
  register_all-keeps :
      (m : DeviceManager V Q) (vs : List V)
      → ((register_all i q key m vs).effects_engine ≡ m.effects_engine)
        × ((register_all i q key m vs).confirmed_write_device_ids ≡ m.confirmed_write_device_ids)
        × (length (register_all i q key m vs).devices ≡ length m.devices + length vs)
  unfolding register_all register_device
  register_all-keeps m [] = (refl, refl, omega arith)
  register_all-keeps m (v ∷ vs) =
      let (e, c, n) = register_all-keeps (register_device i q key m v) vs in
      (
        e,
        c,
        omega (arith, n, length-append m.devices (apply_saved_override i q key m.settings v ∷ [])),
      )

  -- A new set of devices is registered whole, and starts without any confirmation of writes and without
  -- any zone that streams, whatever was confirmed and streamed before.
  pub replace_devices_lem :
      (m : DeviceManager V Q) (vs : List V) (device : ℤ) (zone : ZoneKey)
      → (length (replace_devices i q key m vs).devices ≡ length vs)
        × (device_write_confirmed i (replace_devices i q key m vs) device ≡ false)
        × (is_zone_streaming (replace_devices i q key m vs).effects_engine zone ≡ false)
  unfolding replace_devices forget_devices device_write_confirmed has_id stop_all has_zone
      update_timer_state
  replace_devices_lem m vs device zone =
      let n = register_all i q key (forget_devices i q key m) vs in
      let (e, c, size) = register_all-keeps (forget_devices i q key m) vs in
      (
        omega (arith, size),
        elim (Option-cases (device_at i (replace_devices i q key m vs) device)) [
          | inl missing ↦ rw (device_write_confirmed, missing)
          | inr ((k, v), found) ↦
              rw (device_write_confirmed, found) (ap (λ ids. has_id ids (i.base v).id) c)
        ],
        ap (λ x. is_zone_streaming x zone) e,
      )
