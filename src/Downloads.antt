-- ===== src/Downloads.antt =====
-- rust_backend/crates/core/src/downloads.rs: `DownloadState`, which joins the cancellation and the
-- progress of downloads.
pub mod Cancelled
use spoti_flac_mobile.Prelude.{Option, none, some, List, [], ◌∷◌, if◌then◌else◌, ℕ, Bool}
use spoti_flac_mobile.Prelude.Text.{Text, is_empty}
use spoti_flac_mobile.Prelude.Result.{Result, ok, err}
use spoti_flac_mobile.Cancellation
use spoti_flac_mobile.Cancellation.{CancellationDomain, CancellationError, RequestLease}
use spoti_flac_mobile.Progress.Registry

pub record DownloadState (F : Type 0) : Type 0 where
  pub progress : Registry.Shared F
  pub cancellation : Cancellation.Shared

module _ {F : Type 0} where
  -- `strong` tells which of the observing threads are still held.
  unfoldable pub default : (ℕ → Bool) → DownloadState F
  default strong = record { progress = Registry.new; cancellation = Cancellation.new strong }

  unfoldable pub acquire :
      Text → DownloadState F → Result RequestLease CancellationError × DownloadState F
  acquire id s =
      let (r, c) = Cancellation.acquire CancellationDomain.download id s.cancellation in
      (r, record s { cancellation = c })

  -- `let _ = progress.remove(id)`; `none` is a panic.
  unfoldable pub remove : Text → DownloadState F → Option (DownloadState F)
  remove id s = elim (Registry.remove id s.progress) [
    | none ↦ none
    | some answer ↦ some (record s { progress = answer.1 })
  ]

  abbrev pub answered : {A : Type 0} → A → Option (DownloadState F) → Option (A × DownloadState F)
  answered a none = none
  answered a (some s) = some (a, s)

  unfoldable pub cancel :
      Text → DownloadState F → Option (Result (Unit {0}) CancellationError × DownloadState F)
  cancel id s =
      if is_empty id
      then some (ok tt, s)
      else let (r, c) = Cancellation.cancel id s.cancellation in
        let s' : DownloadState F = record s { cancellation = c } in
        elim r [ err e ↦ some (err e, s') | ok _ ↦ answered (ok tt) (remove id s') ]

  -- The loop of `cancel_active`.
  unfoldable pub remove_all : List Text → DownloadState F → Option (DownloadState F)
  remove_all [] s = some s
  remove_all (id ∷ ids) s = elim (remove id s) [ none ↦ none | some s' ↦ remove_all ids s' ]

  unfoldable pub cancel_active :
      DownloadState F → Option (Result (List Text) CancellationError × DownloadState F)
  cancel_active s =
      let (r, c) = Cancellation.cancel_active s.cancellation in
      let s' : DownloadState F = record s { cancellation = c } in
      elim r [ err e ↦ some (err e, s') | ok ids ↦ answered (ok ids) (remove_all ids s') ]

  unfoldable pub shutdown : DownloadState F → DownloadState F
  shutdown s = record {
    progress = Registry.shutdown s.progress;
    cancellation = Cancellation.shutdown s.cancellation;
  }
