-- ===== src/Hid.antt =====
-- hardware/linux/HidDeviceWriter.h and hardware/linux/HidDeviceWriter.cpp, built with HIDAPI: the
-- writer of HID reports. HIDAPI is the interface `Hidapi`; the state `H` is its own and that of the
-- device behind it. The file for Windows makes the same calls.
pub mod Laws
pub mod Examples
use luma_core.Prelude.{
  ℕ, ◌+◌, ℤ, pos, pos_part, ltb_ℤ, ◌==ℤ◌, Bool, true, false, not, List, [], ◌∷◌, if◌then◌else◌,
  length, take, ltb, ◌==◌, suc,
}
use luma_core.Message.{Message, blank, format, end, num, int, txt, is_empty}

pub record Hidapi (H : Type 0) : Type 0 where
  pub hid_init : H → ℤ × H
  -- Whether the path could be opened.
  pub hid_open_path : H → List ℕ → Bool × H
  pub hid_write : H → List ℕ → ℤ × H
  -- The result, and the bytes in the buffer of the given length.
  pub hid_read_timeout : H → ℕ → ℤ → ℤ × List ℕ × H
  pub hid_close : H → H
  pub hid_exit : H → H

pub record HidWriteResult : Type 0 where
  pub success : Bool
  pub bytes_written : ℕ
  pub error : Message

pub record HidRequestResult : Type 0 where
  pub success : Bool
  pub bytes_written : ℕ
  pub response : List ℕ
  pub error : Message

-- The loop of `validatePathAndReports`, from the report at `index` on.
unfoldable pub validate_reports : List (List ℕ) → ℕ → Message
validate_reports [] index = blank
validate_reports (r ∷ rs) index =
    let rest = validate_reports rs (suc index) in
    if length r == 0 then format "HID report %1 is empty." (num (index + 1) end) else rest

unfoldable pub validate_path_and_reports : (List ℕ → List ℕ) → List ℕ → List (List ℕ) → Message
unfolding validate_reports
validate_path_and_reports trimmed path reports =
    if length (trimmed path) == 0
    then format "HID path is empty." end
    else if length reports == 0
    then format "HID report sequence is empty." end
    else validate_reports reports 0

abbrev pub failed_write : ℕ → Message → HidWriteResult
failed_write written error = record { success = false; bytes_written = written; error = error }

abbrev pub failed_request : ℕ → Message → HidRequestResult
failed_request written error = record {
  success = false;
  bytes_written = written;
  response = [];
  error = error;
}

module _ {H : Type 0} (api : Hidapi H) where
  -- `hid_close` and `hid_exit`, in front of a return.
  abbrev pub release : H → H
  release h = api.hid_exit (api.hid_close h)

  -- The loop of `writeReports` on an open device, with what was written before.
  unfoldable pub write_loop : List ℕ → List (List ℕ) → ℕ → ℕ → H → HidWriteResult × H
  write_loop path [] index total h =
      (record { success = true; bytes_written = total; error = blank }, release h)
  write_loop path (r ∷ rs) index total h =
      let (written, h') = api.hid_write h r in
      let rest = write_loop path rs (suc index) (total + pos_part written) h' in
      if ltb_ℤ written (pos 0)
      then (
        failed_write total
            (format "hid_write failed for %1 on report %2." (txt path (num (index + 1) end))),
        release h',
      )
      else if not (written ==ℤ pos (length r))
      then (
        failed_write (total + pos_part written) (
            format "Short HID write for %1 on report %2: wrote %3 of %4 byte(s)."
              (txt path (num (index + 1) (int written (num (length r) end))))),
        release h',
      )
      else rest

  unfoldable pub write_reports : (List ℕ → List ℕ) → List ℕ → List (List ℕ) → H → HidWriteResult × H
  unfolding write_loop validate_path_and_reports
  write_reports trimmed path reports h =
      let invalid = validate_path_and_reports trimmed path reports in
      let (code, h1) = api.hid_init h in
      let (opened, h2) = api.hid_open_path h1 path in
      if not (is_empty invalid)
      then (failed_write 0 invalid, h)
      else if not (code ==ℤ pos 0)
      then (failed_write 0 (format "hidapi initialization failed." end), h1)
      else if not opened
      then (
        failed_write 0 (format "Could not open HID device path: %1" (txt path end)),
        api.hid_exit h2,
      )
      else write_loop path reports 0 0 h2

  -- The part of `writeReportReadResponse` behind the request: the response.
  unfoldable pub read_response : List ℕ → ℕ → ℕ → ℤ → H → HidRequestResult × H
  read_response path written expected timeout h =
      let (read, bytes, h') = api.hid_read_timeout h expected timeout in
      if ltb_ℤ read (pos 0)
      then (
        failed_request written (format "hid_read_timeout failed for %1." (txt path end)),
        release h',
      )
      else if read ==ℤ pos 0
      then (
        failed_request written
            (format "Timed out waiting for HID response from %1." (txt path end)),
        release h',
      )
      else (
        record {
          success = true;
          bytes_written = written;
          response = take (pos_part read) bytes;
          error = blank;
        },
        release h',
      )

  unfoldable pub write_report_read_response :
      (List ℕ → List ℕ) → List ℕ → List ℕ → ℤ → ℤ → H → HidRequestResult × H
  unfolding read_response validate_path_and_reports
  write_report_read_response trimmed path report expected timeout h =
      let invalid = validate_path_and_reports trimmed path (report ∷ []) in
      let (code, h1) = api.hid_init h in
      let (opened, h2) = api.hid_open_path h1 path in
      let (written, h3) = api.hid_write h2 report in
      if not (is_empty invalid)
      then (failed_request 0 invalid, h)
      else if ltb_ℤ expected (pos 1)
      then (failed_request 0 (format "Expected HID response length must be positive." end), h)
      else if not (code ==ℤ pos 0)
      then (failed_request 0 (format "hidapi initialization failed." end), h1)
      else if not opened
      then (
        failed_request 0 (format "Could not open HID device path: %1" (txt path end)),
        api.hid_exit h2,
      )
      else if ltb_ℤ written (pos 0)
      then (
        failed_request 0 (format "hid_write failed for request on %1." (txt path end)),
        release h3,
      )
      else if not (written ==ℤ pos (length report))
      then (
        failed_request (pos_part written) (
            format "Short HID request write for %1: wrote %2 of %3 byte(s)."
              (txt path (int written (num (length report) end)))),
        release h3,
      )
      else read_response path (pos_part written) (pos_part expected) timeout h3
