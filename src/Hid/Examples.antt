-- ===== src/Hid/Examples.antt =====
-- A writer on a HIDAPI that keeps what is written, and the theorems at it.
use luma_core.Prelude.{ℕ, suc, ◌-◌, ◌≡◌, refl, pos, true, List, [], ◌∷◌, ◌++◌, length, arith, ◌==ℤ◌}
use luma_core.Hid.{Hidapi, write_reports}
use luma_core.Hid.Laws.{IsHidapi, total_length, write_reports-out, write_reports-Balanced}

pub record Bus : Type 0 where
  pub opened : ℕ
  pub inits : ℕ
  pub out : List (List ℕ)

-- A device that takes every report and answers with two bytes.
unfoldable pub bus_api : Hidapi Bus
bus_api = record {
  hid_init = λ h. (pos 0, record h { inits = suc h.inits });
  hid_open_path = λ h path. (true, record h { opened = suc h.opened });
  hid_write = λ h r. (pos (length r), record h { out = h.out ++ (r ∷ []) });
  hid_read_timeout = λ h n t. (pos 2, 7 ∷ 8 ∷ [], h);
  hid_close = λ h. record h { opened = h.opened - 1 };
  hid_exit = λ h. record h { inits = h.inits - 1 };
}

same_int : (n : ℕ) → (pos n ==ℤ pos n) ≡ true
same_int n = ground arith

bus_laws : IsHidapi bus_api
unfolding bus_api
bus_laws = record {
  opened = λ h. h.opened;
  inits = λ h. h.inits;
  out = λ h. h.out;
  init_ok = λ h. (refl, refl, refl);
  open_ok = λ h path. (refl, refl, refl);
  write_ok = λ h r. (refl, refl, rw (same_int (length r)) refl);
  read_ok = λ h n t. (refl, refl, refl);
  close_ok = λ h. (refl, refl, refl);
  exit_ok = λ h. (refl, refl, refl);
}

abbrev pub idle : Bus
idle = record { opened = 0; inits = 0; out = [] }

abbrev two_reports : List (List ℕ)
two_reports = (1 ∷ 2 ∷ []) ∷ (3 ∷ 4 ∷ 5 ∷ []) ∷ []

write_reports-out_example :
    (bus_laws.out (write_reports bus_api (λ p. p) (47 ∷ []) two_reports idle).1
      ≡ bus_laws.out idle ++ two_reports)
    × ((write_reports bus_api (λ p. p) (47 ∷ []) two_reports idle).0.bytes_written
        ≡ total_length two_reports)
unfolding write_reports bus_api
write_reports-out_example =
    write_reports-out bus_api bus_laws (λ p. p) (47 ∷ []) two_reports idle refl

write_reports-Balanced_example :
    (bus_laws.inits (write_reports bus_api (λ p. p) (47 ∷ []) two_reports idle).1
      ≡ bus_laws.inits idle)
    × (bus_laws.opened (write_reports bus_api (λ p. p) (47 ∷ []) two_reports idle).1
        ≡ bus_laws.opened idle)
write_reports-Balanced_example =
    write_reports-Balanced bus_api bus_laws (λ p. p) (47 ∷ []) two_reports idle
