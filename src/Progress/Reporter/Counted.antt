-- ===== src/Progress/Reporter/Counted.antt =====
-- rust_backend/crates/core/src/progress/reporter.rs: how far the registry lags behind a writer.
use spoti_flac_mobile.Progress.Reporter.{ItemProgressWriter, write, check_cancelled, WriteError}
use spoti_flac_mobile.Progress.Reporter.Taken.{ChangesTo, Shows}
use spoti_flac_mobile.Prelude.Int.{ℤ, wrap_i64, pos, ◌+ℤ◌, ◌-ℤ◌, ◌<ℤ◌}
use spoti_flac_mobile.Progress.Item.{Floats, ItemProgress, Arch, update_bytes}
use spoti_flac_mobile.Prelude.Result.{Result, ok, err}
use spoti_flac_mobile.Prelude.Text.{Text, is_empty}
use spoti_flac_mobile.Cancellation.{Flags}
use spoti_flac_mobile.Prelude.{ℕ, List, ◌≡◌, ◌⊎◌, false, true, arith, []}
use spoti_flac_mobile.Prelude.{◌∷◌}
use spoti_flac_mobile.Cancellation
use spoti_flac_mobile.Progress.Registry

-- The registry shows, at the item alone, bytes that are behind the total by less than the threshold;
-- or no byte was counted, and the registry is as it was.
abbrev pub IsBehind : {F : Type 0} → Text → Registry.Shared F → ℤ → Registry.Shared F → Type 0
IsBehind {F = F} id p0 total p =
    ((item : ItemProgress F) × Shows id item p
      × ChangesTo id item p0 p
      × (wrap_i64 (total -ℤ item.bytes_received) <ℤ pos update_bytes))
    ⊎ ((total ≡ pos 0) × (p ≡ p0))

-- The bytes that the writer's answers say, as an `i64`.
abbrev pub counted_by : {E : Type 0} → Result ℕ E → ℤ → ℤ
counted_by (ok count) total = wrap_i64 (total +ℤ wrap_i64 (pos count))
counted_by (err e) total = total

-- A call of `write`: the bytes, the time and the cancellations that it sees.
abbrev pub WriteCall : Type 0
WriteCall = List ℕ × ℕ × Cancellation.Shared

module _ (fl : Floats) (arch : Arch) {W E : Type 0} (write_inner : List ℕ → W → Result ℕ E × W)
    (as_secs_f64 : ℕ → fl.F) (mebibyte : fl.F) where
  open fl use {F}

  -- Calls one after the other, with the bytes that their answers say.
  unfoldable pub write_all :
      List WriteCall
      → ℤ
      → ItemProgressWriter W
      → Registry.Shared F
      → ℤ × ItemProgressWriter W × Registry.Shared F
  write_all [] total w p = (total, w, p)
  write_all ((bytes, now, c) ∷ calls) total w p =
      let (r, w', p') = write fl arch write_inner as_secs_f64 mebibyte bytes now c w p in
      write_all calls (counted_by r total) w' p'

  -- A write of a cancelled identity fails, and leaves the writer below and the progress as they
  -- were.
  pub write-cancelled :
      (bytes : List ℕ) (now : ℕ) (c : Cancellation.Shared) (w : ItemProgressWriter W)
      (p : Registry.Shared F)
      → is_empty w.id ≡ false
      → Cancellation.is_cancelled w.id c ≡ ok true
      → write fl arch write_inner as_secs_f64 mebibyte bytes now c w p
        ≡ (err WriteError.download_cancelled, w, p)
  unfolding write check_cancelled
  write-cancelled bytes now c w p named h = ground arith

  module _ (id : Text) (first : ItemProgress F) (p0 : Registry.Shared F)
      (there : Shows id first p0) where
    abbrev IsReported : ItemProgressWriter W → Registry.Shared F → Type 0
    IsReported w p =
        (item : ItemProgress F) × Shows id item p
        × ChangesTo id item p0 p
        × (item.bytes_received ≡ w.last_reported)
        × (wrap_i64 (w.current -ℤ w.last_reported) <ℤ pos update_bytes)

    abbrev IsCounted : ℤ → ItemProgressWriter W → Registry.Shared F → Type 0
    IsCounted total w p =
        (w.current ≡ total)
        × (w.id ≡ id)
        × (IsReported w p ⊎ ((w.current ≡ pos 0) × (w.last_reported ≡ pos 0) × (p ≡ p0)))
