-- ===== src/Progress/Reporter/Fresh.antt =====
-- rust_backend/crates/core/src/progress/reporter.rs: how far the reporters may lag behind, and their
-- cancellation.
use spoti_flac_mobile.Progress.Reporter.Taken.{Shows, Takes, forward-Takes}
use spoti_flac_mobile.Prelude.{
  ℕ, ◌-◌, ◌<◌, ◌≡◌, refl, true, false, ◌⊎◌, inl, inr, arith, ◌||◌, if_cases,
}
use spoti_flac_mobile.Prelude.Int.{ℤ, pos, ◌≤ℤ◌, ◌<ℤ◌, wrap_i64, ◌-ℤ◌, eq_ℤ_iff}
use spoti_flac_mobile.Prelude.Text.{is_empty}
use spoti_flac_mobile.Progress.Item.{Floats, Arch, update_bytes, ItemProgress}
use spoti_flac_mobile.Progress.Registry
use spoti_flac_mobile.Progress.Reporter.{
  ReportState, ItemTransferProgressReporter, report_at, is_close, forward, update_interval,
}

-- The last report that was passed on, against a call: the same total, fewer bytes behind than the
-- threshold, and less than the interval ago.
abbrev pub IsFresh : ReportState → ℤ → ℤ → ℕ → Type 0
IsFresh s received total now =
    (s.total ≡ total)
    × (pos 0 ≤ℤ wrap_i64 (received -ℤ s.received))
    × (wrap_i64 (received -ℤ s.received) <ℤ pos update_bytes)
    × (now - s.at < update_interval)

pub wrap_i64-sub_self : (z : ℤ) → wrap_i64 (z -ℤ z) ≡ pos 0
unfolding wrap_i64 ◌-ℤ◌
wrap_i64-sub_self z = ground arith

is_close-IsFresh :
    (s : ReportState) (received total : ℤ) (now : ℕ)
    → is_close s received total now ≡ true
    → IsFresh s received total now
unfolding is_close
is_close-IsFresh s received total now h = ground (arith, eq_ℤ_iff total s.total)

IsFresh-self :
    (received total : ℤ) (now : ℕ)
    → IsFresh (record { received = received; total = total; at = now }) received total now
IsFresh-self received total now =
    let z = wrap_i64-sub_self received in (refl, ground arith, ground arith, omega arith)

module _ (fl : Floats) (arch : Arch) where
  open fl use {F}

  -- After a call of a reporter with an identity, whose item an open registry shows, what was passed on
  -- last is fresh; and either nothing has changed, or this call is what was passed on last, and the
  -- registry shows its bytes, its total and its share at the item (where none are positive, what it
  -- showed before) and has changed no other item.
  pub report_at-IsFresh :
      (received total : ℤ) (now : ℕ) (r : ItemTransferProgressReporter) (item : ItemProgress F)
      (p : Registry.Shared F)
      → is_empty r.id ≡ false
      → Shows r.id item p
      → let x = report_at fl arch received total now r p in
        IsFresh x.0.state received total now
        × (((x.0 ≡ r) × (x.1 ≡ p))
            ⊎ ((x.0.state ≡ record { received = received; total = total; at = now })
                × Takes fl arch r.id received total item p x.1))
  unfolding report_at
  report_at-IsFresh received total now r item p named shown =
      let s : ReportState = record { received = received; total = total; at = now } in
      let close = is_close r.state received total now in
      if_cases {A = ItemTransferProgressReporter × Registry.Shared F}
        (λ x.
          IsFresh x.0.state received total now
          × (((x.0 ≡ r) × (x.1 ≡ p))
              ⊎ ((x.0.state ≡ s) × Takes fl arch r.id received total item p x.1)))
        (is_empty r.id || close) (r, p)
        (record r { state = s }, forward fl arch r.id received total p)
        (λ skip. (is_close-IsFresh r.state received total now (ground arith), inl (refl, refl)))
        (λ pass. (
          IsFresh-self received total now,
          inr (refl, forward-Takes fl arch r.id received total item p shown),
        ))
