-- ===== src/Hid/Laws.antt =====
-- What the writer promises of the device and of HIDAPI: a success has written every report, and every
-- path gives back what it has taken.
use mathlib.Core.List.{append_assoc, append-nil}
use luma_core.Prelude.{
  ℕ, ◌+◌, ◌-◌, ◌≡◌, refl, ap, ◌∙◌, sym, inl, inr, ℤ, pos, pos_part, ltb_ℤ, ◌==ℤ◌, true, false, List,
  [], ◌∷◌, ◌++◌, if◌then◌else◌, length, arith, suc, Bool-cases,
}
use luma_core.Message.{is_empty}
use luma_core.Hid.{
  Hidapi, write_loop, write_reports, validate_path_and_reports, read_response,
  write_report_read_response, release,
}

-- What the writer relies on: how the number of open devices and of initialisations changes, and that
-- a write whose result is the length of a report has put that report out, and nothing else puts
-- any out that counts.
pub record IsHidapi {H : Type 0} (api : Hidapi H) : Type 0 where
  pub opened : H → ℕ
  pub inits : H → ℕ
  pub out : H → List (List ℕ)
  pub init_ok :
      (h : H)
      → (inits (api.hid_init h).1
          ≡ (if (api.hid_init h).0 ==ℤ pos 0 then suc (inits h) else inits h))
        × (opened (api.hid_init h).1 ≡ opened h)
        × (out (api.hid_init h).1 ≡ out h)
  pub open_ok :
      (h : H) (path : List ℕ)
      → (inits (api.hid_open_path h path).1 ≡ inits h)
        × (opened (api.hid_open_path h path).1
            ≡ (if (api.hid_open_path h path).0 then suc (opened h) else opened h))
        × (out (api.hid_open_path h path).1 ≡ out h)
  pub write_ok :
      (h : H) (r : List ℕ)
      → (inits (api.hid_write h r).1 ≡ inits h)
        × (opened (api.hid_write h r).1 ≡ opened h)
        × (out (api.hid_write h r).1
            ≡ (if (api.hid_write h r).0 ==ℤ pos (length r) then out h ++ (r ∷ []) else out h))
  pub read_ok :
      (h : H) (n : ℕ) (t : ℤ)
      → (inits (api.hid_read_timeout h n t).2 ≡ inits h)
        × (opened (api.hid_read_timeout h n t).2 ≡ opened h)
        × (out (api.hid_read_timeout h n t).2 ≡ out h)
  pub close_ok :
      (h : H)
      → (inits (api.hid_close h) ≡ inits h)
        × (opened (api.hid_close h) ≡ opened h - 1)
        × (out (api.hid_close h) ≡ out h)
  pub exit_ok :
      (h : H)
      → (inits (api.hid_exit h) ≡ inits h - 1)
        × (opened (api.hid_exit h) ≡ opened h)
        × (out (api.hid_exit h) ≡ out h)

unfoldable pub total_length : List (List ℕ) → ℕ
total_length [] = 0
total_length (r ∷ rs) = length r + total_length rs

module _ {H : Type 0} (api : Hidapi H) (laws : IsHidapi api) where
  -- What was taken is given back.
  abbrev Balanced : H → H → Type 0
  Balanced h h' = (laws.inits h' ≡ laws.inits h) × (laws.opened h' ≡ laws.opened h)

  -- An open device is closed, and an initialisation is ended.
  abbrev Released : H → H → Type 0
  Released h h' = (laws.inits h' ≡ laws.inits h - 1) × (laws.opened h' ≡ laws.opened h - 1)

  release-Released : (h : H) → Released h (release api h) × (laws.out (release api h) ≡ laws.out h)
  release-Released h =
      let (i, o, w) = laws.close_ok h in
      let (j, p, x) = laws.exit_ok (api.hid_close h) in
      ((omega (arith, i, j), omega (arith, o, p)), x ∙ w)

  write_loop-Released :
      (path : List ℕ) (rs : List (List ℕ)) (index total : ℕ) (h : H)
      → Released h (write_loop api path rs index total h).1
  unfolding write_loop
  write_loop-Released path [] index total h = (release-Released h).0
  write_loop-Released path (r ∷ rs) index total h =
      let (written, h') = api.hid_write h r in
      let (i, o, w) = laws.write_ok h r in
      let moved = λ (x : H) (rel : Released h' x).
        let there : Released h x = (omega (arith, i, rel.0), omega (arith, o, rel.1)) in there in
      elim (Bool-cases (ltb_ℤ written (pos 0))) [
        | inl failed ↦ rw failed (moved (release api h') (release-Released h').0)
        | inr put ↦ elim (Bool-cases (written ==ℤ pos (length r))) [
          | inr short ↦ rw (put, short) (moved (release api h') (release-Released h').0)
          | inl whole ↦
              rw (put, whole)
                (moved _ (write_loop-Released path rs (suc index) (total + pos_part written) h'))
        ]
      ]

  write_loop-out :
      (path : List ℕ) (rs : List (List ℕ)) (index total : ℕ) (h : H)
      → (write_loop api path rs index total h).0.success ≡ true
      → (laws.out (write_loop api path rs index total h).1 ≡ laws.out h ++ rs)
        × ((write_loop api path rs index total h).0.bytes_written ≡ total + total_length rs)
  unfolding write_loop total_length
  write_loop-out path [] index total h done =
      ((release-Released h).1 ∙ sym (append-nil (laws.out h)), omega arith)
  write_loop-out path (r ∷ rs) index total h done =
      let (written, h') = api.hid_write h r in
      elim (Bool-cases (ltb_ℤ written (pos 0))) [
        | inl failed ↦ let bad : false ≡ true = rw failed at done in cc
        | inr put ↦ elim (Bool-cases (written ==ℤ pos (length r))) [
          | inr short ↦ let bad : false ≡ true = rw (put, short) at done in cc
          | inl whole ↦
              let next = rw (put, whole) at done in
              let (o, b) = write_loop-out path rs (suc index) (total + pos_part written) h' next in
              let grown : laws.out h' ≡ laws.out h ++ (r ∷ []) =
                rw whole at ((laws.write_ok h r).2) in
              let bytes : pos_part written ≡ length r = ground arith in
              rw (put, whole)
                (
                  o ∙ ap (λ x. x ++ rs) grown ∙ append_assoc (laws.out h) (r ∷ []) rs,
                  omega (arith, b, bytes),
                )
        ]
      ]

  -- Behind a start that succeeds, what is released is what the start has taken.
  started-Balanced :
      (path : List ℕ) (h x : H)
      → ((api.hid_init h).0 ==ℤ pos 0) ≡ true
      → (api.hid_open_path (api.hid_init h).1 path).0 ≡ true
      → Released (api.hid_open_path (api.hid_init h).1 path).1 x
      → Balanced h x
  started-Balanced path h x init opens rel =
      let (i, o, _) = laws.init_ok h in
      let (j, p, _) = laws.open_ok (api.hid_init h).1 path in
      let i' : laws.inits (api.hid_init h).1 ≡ suc (laws.inits h) = rw init at i in
      let p' : laws.opened (api.hid_open_path (api.hid_init h).1 path).1
          ≡ suc (laws.opened (api.hid_init h).1) =
        rw opens at p in
      (omega (arith, i', j, rel.0), omega (arith, o, p', rel.1))

  -- A start that fails gives back what it has taken.
  unopened-Balanced :
      (path : List ℕ) (h : H)
      → ((api.hid_init h).0 ==ℤ pos 0) ≡ true
      → (api.hid_open_path (api.hid_init h).1 path).0 ≡ false
      → Balanced h (api.hid_exit (api.hid_open_path (api.hid_init h).1 path).1)
  unopened-Balanced path h init opens =
      let (i, o, _) = laws.init_ok h in
      let (j, p, _) = laws.open_ok (api.hid_init h).1 path in
      let (k, q, _) = laws.exit_ok (api.hid_open_path (api.hid_init h).1 path).1 in
      let i' : laws.inits (api.hid_init h).1 ≡ suc (laws.inits h) = rw init at i in
      let p' : laws.opened (api.hid_open_path (api.hid_init h).1 path).1
          ≡ laws.opened (api.hid_init h).1 =
        rw opens at p in
      (omega (arith, i', j, k), omega (arith, o, p', q))

  uninit-Balanced : (h : H) → ((api.hid_init h).0 ==ℤ pos 0) ≡ false → Balanced h (api.hid_init h).1
  uninit-Balanced h init =
      let (i, o, _) = laws.init_ok h in
      let i' : laws.inits (api.hid_init h).1 ≡ laws.inits h = rw init at i in (i', o)

  -- Every path through `writeReports` closes the device that it has opened and ends the use of HIDAPI
  -- that it has begun, errors included.
  pub write_reports-Balanced :
      (trimmed : List ℕ → List ℕ) (path : List ℕ) (reports : List (List ℕ)) (h : H)
      → (laws.inits (write_reports api trimmed path reports h).1 ≡ laws.inits h)
        × (laws.opened (write_reports api trimmed path reports h).1 ≡ laws.opened h)
  unfolding write_reports
  write_reports-Balanced trimmed path reports h =
      let invalid = validate_path_and_reports trimmed path reports in
      let h2 = (api.hid_open_path (api.hid_init h).1 path).1 in
      elim (Bool-cases (is_empty invalid)) [
        | inr bad ↦ rw (write_reports, bad) (refl, refl)
        | inl valid ↦ elim (Bool-cases ((api.hid_init h).0 ==ℤ pos 0)) [
          | inr no_init ↦ rw (write_reports, valid, no_init) (uninit-Balanced h no_init)
          | inl init ↦ elim (Bool-cases (api.hid_open_path (api.hid_init h).1 path).0) [
            | inr closed ↦
                rw (write_reports, valid, init, closed) (unopened-Balanced path h init closed)
            | inl opens ↦
                rw (write_reports, valid, init, opens)
                  (started-Balanced path h _ init opens (write_loop-Released path reports 0 0 h2))
          ]
        ]
      ]

  read_response-Released :
      (path : List ℕ) (written expected : ℕ) (timeout : ℤ) (h : H)
      → Released h (read_response api path written expected timeout h).1
  unfolding read_response
  read_response-Released path written expected timeout h =
      let (read, bytes, h') = api.hid_read_timeout h expected timeout in
      let (i, o, _) = laws.read_ok h expected timeout in
      let (a, b) = (release-Released h').0 in
      let rel : Released h (release api h') = (omega (arith, i, a), omega (arith, o, b)) in
      elim (Bool-cases (ltb_ℤ read (pos 0))) [
        | inl failed ↦ rw failed rel
        | inr got ↦ elim (Bool-cases (read ==ℤ pos 0)) [
          | inl late ↦ rw (got, late) rel
          | inr some_bytes ↦ rw (got, some_bytes) rel
        ]
      ]

  -- The response is read from the device that the request was written to.
  responded-Balanced :
      (path report : List ℕ) (expected : ℕ) (timeout : ℤ) (h : H)
      → ((api.hid_init h).0 ==ℤ pos 0) ≡ true
      → (api.hid_open_path (api.hid_init h).1 path).0 ≡ true
      → (written : ℕ)
      → Balanced h
          (read_response api path written expected timeout
            (api.hid_write (api.hid_open_path (api.hid_init h).1 path).1 report).1).1
  responded-Balanced path report expected timeout h init opens written =
      let h2 = (api.hid_open_path (api.hid_init h).1 path).1 in
      let (i, o, _) = laws.write_ok h2 report in
      let (a, b) =
        read_response-Released path written expected timeout (api.hid_write h2 report).1 in
      started-Balanced path h _ init opens (omega (arith, i, a), omega (arith, o, b))

  -- The same for a request whose write goes wrong.
  unwritten-Balanced :
      (path report : List ℕ) (h : H)
      → ((api.hid_init h).0 ==ℤ pos 0) ≡ true
      → (api.hid_open_path (api.hid_init h).1 path).0 ≡ true
      → Balanced h
          (release api (api.hid_write (api.hid_open_path (api.hid_init h).1 path).1 report).1)
  unwritten-Balanced path report h init opens =
      let h2 = (api.hid_open_path (api.hid_init h).1 path).1 in
      let (i, o, _) = laws.write_ok h2 report in
      let ((a, b), _) = release-Released (api.hid_write h2 report).1 in
      started-Balanced path h _ init opens (omega (arith, i, a), omega (arith, o, b))

  pub write_report_read_response-Balanced :
      (trimmed : List ℕ → List ℕ) (path report : List ℕ) (expected timeout : ℤ) (h : H)
      → (laws.inits (write_report_read_response api trimmed path report expected timeout h).1
          ≡ laws.inits h)
        × (laws.opened (write_report_read_response api trimmed path report expected timeout h).1
            ≡ laws.opened h)
  unfolding write_report_read_response
  write_report_read_response-Balanced trimmed path report expected timeout h =
      let invalid = validate_path_and_reports trimmed path (report ∷ []) in
      let h2 = (api.hid_open_path (api.hid_init h).1 path).1 in
      let w = (api.hid_write h2 report).0 in
      elim (Bool-cases (is_empty invalid)) [
        | inr bad ↦ rw (write_report_read_response, bad) (refl, refl)
        | inl valid ↦ elim (Bool-cases (ltb_ℤ expected (pos 1))) [
          | inl few ↦ rw (write_report_read_response, valid, few) (refl, refl)
          | inr enough ↦ elim (Bool-cases ((api.hid_init h).0 ==ℤ pos 0)) [
            | inr no_init ↦
                rw (write_report_read_response, valid, enough, no_init) (uninit-Balanced h no_init)
            | inl init ↦ elim (Bool-cases (api.hid_open_path (api.hid_init h).1 path).0) [
              | inr closed ↦
                  rw (write_report_read_response, valid, enough, init, closed)
                    (unopened-Balanced path h init closed)
              | inl opens ↦ elim (Bool-cases (ltb_ℤ w (pos 0))) [
                | inl failed ↦
                    rw (write_report_read_response, valid, enough, init, opens, failed)
                      (unwritten-Balanced path report h init opens)
                | inr put ↦ elim (Bool-cases (w ==ℤ pos (length report))) [
                  | inr short ↦
                      rw (write_report_read_response, valid, enough, init, opens, put, short)
                        (unwritten-Balanced path report h init opens)
                  | inl whole ↦
                      rw (write_report_read_response, valid, enough, init, opens, put, whole)
                        (responded-Balanced path report (pos_part expected) timeout h init opens
                          (pos_part w))
                ]
              ]
            ]
          ]
        ]
      ]

  -- A success of `writeReports` has put every report out, in order and behind what was out before,
  -- and counts their bytes.
  pub write_reports-out :
      (trimmed : List ℕ → List ℕ) (path : List ℕ) (reports : List (List ℕ)) (h : H)
      → (write_reports api trimmed path reports h).0.success ≡ true
      → (laws.out (write_reports api trimmed path reports h).1 ≡ laws.out h ++ reports)
        × ((write_reports api trimmed path reports h).0.bytes_written ≡ total_length reports)
  unfolding write_reports
  write_reports-out trimmed path reports h done =
      let invalid = validate_path_and_reports trimmed path reports in
      let (_, _, o1) = laws.init_ok h in
      let (_, _, o2) = laws.open_ok (api.hid_init h).1 path in
      let h2 = (api.hid_open_path (api.hid_init h).1 path).1 in
      elim (Bool-cases (is_empty invalid)) [
        | inr bad ↦ let no : false ≡ true = rw (write_reports, bad) at done in cc
        | inl valid ↦ elim (Bool-cases ((api.hid_init h).0 ==ℤ pos 0)) [
          | inr no_init ↦ let no : false ≡ true = rw (write_reports, valid, no_init) at done in cc
          | inl init ↦ elim (Bool-cases (api.hid_open_path (api.hid_init h).1 path).0) [
            | inr closed ↦
                let no : false ≡ true = rw (write_reports, valid, init, closed) at done in cc
            | inl opens ↦
                let ran = rw (write_reports, valid, init, opens) at done in
                let (o, b) = write_loop-out path reports 0 0 h2 ran in
                rw (write_reports, valid, init, opens)
                  (o ∙ ap (λ x. x ++ reports) (o2 ∙ o1), omega (arith, b))
          ]
        ]
      ]
