-- ===== src/Progress/Reporter.antt =====
-- rust_backend/crates/core/src/progress/reporter.rs: the reporters that thin out the progress of a
-- transfer. Instants are numbers of nanoseconds.
pub mod Taken
pub mod Counted
pub mod Fresh
use spoti_flac_mobile.Prelude.{
  ℕ, ◌-◌, Bool, true, false, List, ◌&&◌, ◌||◌, not, ltb, if◌then◌else◌, length,
}
use spoti_flac_mobile.Prelude.Int.{ℤ, pos, ltb_ℤ, wrap_i64, ◌-ℤ◌, ◌+ℤ◌, eq_ℤ}
use spoti_flac_mobile.Prelude.Text.{Text, is_empty}
use spoti_flac_mobile.Prelude.Result.{Result, ok, err}
use spoti_flac_mobile.Cancellation
use spoti_flac_mobile.Progress.Item.{Floats, Arch, update_bytes}
use spoti_flac_mobile.Progress.Registry

-- 250 ms.
abbrev pub update_interval : ℕ
update_interval = 250000000

pub record ReportState : Type 0 where
  pub received : ℤ
  pub total : ℤ
  pub at : ℕ

pub record ItemTransferProgressReporter : Type 0 where
  pub id : Text
  pub state : ReportState

unfoldable pub new : Text → ℤ → ℤ → ℕ → ItemTransferProgressReporter
new id received total now = record {
  id = id;
  state = record { received = received; total = total; at = now };
}

-- A report that is close to the last one in bytes and in time, for the same total.
unfoldable pub is_close : ReportState → ℤ → ℤ → ℕ → Bool
is_close s received total now =
    let delta = wrap_i64 (received -ℤ s.received) in
    not (ltb_ℤ delta (pos 0))
    && ltb_ℤ delta (pos update_bytes)
    && eq_ℤ total s.total
    && ltb (now - s.at) update_interval

module _ (fl : Floats) (arch : Arch) where
  open fl use {F, of_i64, div, zero, le}

  -- What is reported to the registry; its errors are ignored.
  unfoldable pub forward : Text → ℤ → ℤ → Registry.Shared F → Registry.Shared F
  forward id received total p =
      if ltb_ℤ (pos 0) total
      then (Registry.set_progress fl arch id (div (of_i64 received) (of_i64 total)) received total
          p).1
      else (Registry.set_received fl arch id received p).1

  unfoldable pub report_at :
      ℤ
      → ℤ
      → ℕ
      → ItemTransferProgressReporter
      → Registry.Shared F
      → ItemTransferProgressReporter × Registry.Shared F
  report_at received total now r p =
      if is_empty r.id || is_close r.state received total now then (r, p) else (
        record r { state = record { received = received; total = total; at = now } },
        forward r.id received total p,
      )

-- `ItemProgressWriter` without its handles of the registries, which the calls take.
pub record ItemProgressWriter (W : Type 0) : Type 0 where
  pub writer : W
  pub id : Text
  pub current : ℤ
  pub last_reported : ℤ
  pub last_time : ℕ
  pub last_bytes : ℤ

pub data WriteError (E : Type 0) : Type 0 where
  download_cancelled : WriteError E
  cancellation : Cancellation.CancellationError → WriteError E
  io : E → WriteError E

unfoldable pub new_writer : {W : Type 0} → W → Text → ℕ → ItemProgressWriter W
new_writer writer id now = record {
  writer = writer;
  id = id;
  current = pos 0;
  last_reported = pos 0;
  last_time = now;
  last_bytes = pos 0;
}

-- The writer below is any writer; `as_secs_f64` and `mebibyte` are the standard library's conversion
-- of a duration and the number 1024.0 * 1024.0.
module _ (fl : Floats) (arch : Arch) {W E : Type 0} (write_inner : List ℕ → W → Result ℕ E × W)
    (as_secs_f64 : ℕ → fl.F) (mebibyte : fl.F) where
  open fl use {F, of_i64, div, zero, le}

  unfoldable pub speed_of : ItemProgressWriter W → ℕ → F
  speed_of w now =
      let elapsed = as_secs_f64 (now - w.last_time) in
      if le elapsed zero
      then zero
      else div (div (of_i64 (wrap_i64 (w.current -ℤ w.last_bytes))) mebibyte) elapsed

  -- What follows a write of `count` bytes.
  unfoldable pub count_bytes :
      ℕ → ℕ → ItemProgressWriter W → Registry.Shared F → ItemProgressWriter W × Registry.Shared F
  count_bytes count now w p =
      let w' : ItemProgressWriter W = record w {
        current = wrap_i64 (w.current +ℤ wrap_i64 (pos count));
      } in
      if eq_ℤ w'.last_reported (pos 0)
        || not (ltb_ℤ (wrap_i64 (w'.current -ℤ w'.last_reported)) (pos update_bytes))
      then (
        record w' { last_reported = w'.current; last_bytes = w'.current; last_time = now },
        (Registry.set_received_with_speed fl arch w'.id w'.current (speed_of w' now) p).1,
      )
      else (w', p)

  -- The cancellation of the identity, before anything is written.
  unfoldable pub check_cancelled : Text → Cancellation.Shared → Result (Unit {0}) (WriteError E)
  check_cancelled id c = if is_empty id then ok tt else elim (Cancellation.is_cancelled id c) [
    | err e ↦ err (cancellation e)
    | ok b ↦ if b then err download_cancelled else ok tt
  ]

  unfoldable pub write :
      List ℕ
      → ℕ
      → Cancellation.Shared
      → ItemProgressWriter W
      → Registry.Shared F
      → Result ℕ (WriteError E) × ItemProgressWriter W × Registry.Shared F
  write bytes now c w p = elim (check_cancelled w.id c) [
    | err e ↦ (err e, w, p)
    | ok _ ↦
        let (r, writer) = write_inner bytes w.writer in
        let w' : ItemProgressWriter W = record w { writer = writer } in
        elim r [
          | err e ↦ (err (io e), w', p)
          | ok count ↦ let (w'', p') = count_bytes count now w' p in (ok count, w'', p')
        ]
  ]
