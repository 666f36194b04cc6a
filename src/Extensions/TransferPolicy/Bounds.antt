-- ===== src/Extensions/TransferPolicy/Bounds.antt =====
-- rust_backend/crates/extensions/src/transfer_policy.rs: a policy and the limits of the host.
use spoti_flac_mobile.Prelude.{
  Bool, true, false, Option, none, some, List, [], ◌∷◌, ◌≡◌, ◌⊎◌, inl, refl, arith, if_cases, ◌&&◌,
  ◌||◌, ◌≢◌, if◌then◌else◌,
}
use spoti_flac_mobile.Prelude.Int.{ℤ, pos, ◌≤ℤ◌, ltb_ℤ, eq_ℤ}
use spoti_flac_mobile.Prelude.Text.{Text, codes, ◌=ₜ◌, =ₜ_iff}
use spoti_flac_mobile.Progress.Item.{Floats, Arch}
use spoti_flac_mobile.Extensions.TransferPolicy.{
  null, end, item, or_fallback, Value, Values, Fields, DownloadTransferPolicy, from_capabilities,
  from_config, policy_of, statuses, statuses_or, resume_or, insert, is_status, clamp, get,
  number_or, default, is_true, item, array, string, object, bool, number,
}

abbrev pub Between : ℤ → ℤ → ℤ → Type 0
Between lo hi x = (lo ≤ℤ x) × (x ≤ℤ hi)

abbrev pub AllStatus : List ℤ → Type 0
AllStatus [] = Unit
AllStatus (x ∷ xs) = Between (pos 400) (pos 599) x × AllStatus xs

-- The limits of the host.
abbrev pub IsWithinLimits : DownloadTransferPolicy → Type 0
IsWithinLimits p =
    Between (pos 1) (pos 8) p.max_attempts
    × Between (pos 100) (pos 30000) p.initial_retry_delay_ms
    × Between p.initial_retry_delay_ms (pos 120000) p.max_retry_delay_ms
    × ((p.resume_policy ≡ codes "none") ⊎ (p.resume_policy ≡ codes "validated"))
    × ((p.persistent_checkpoint ≡ false) ⊎ (p.resume_policy ≡ codes "validated"))
    × (p.refresh_stream_on_status ≢ [])
    × AllStatus p.refresh_stream_on_status
    × Between (pos 1) (pos 8) p.max_parallel_segments
    × Between (pos 1) (pos 3) p.max_concurrent_downloads

clamp-Between : (x lo hi : ℤ) → lo ≤ℤ hi → Between lo hi (clamp x lo hi)
clamp-Between x lo hi h = ground arith

AllStatus-insert :
    (x : ℤ) (xs : List ℤ) → Between (pos 400) (pos 599) x → AllStatus xs → AllStatus (insert x xs)
unfolding insert
AllStatus-insert x [] h k = (h, tt)
AllStatus-insert x (y ∷ ys) h k =
    if_cases AllStatus (ltb_ℤ x y) (x ∷ y ∷ ys) (if eq_ℤ x y then y ∷ ys else y ∷ insert x ys)
      (λ e. (h, k))
      (λ e.
        if_cases AllStatus (eq_ℤ x y) (y ∷ ys) (y ∷ insert x ys) (λ f. k)
          (λ f. (k.0, AllStatus-insert x ys h (k.1))))

is_status-Between : (x : ℤ) → is_status x ≡ true → Between (pos 400) (pos 599) x
is_status-Between x h = ground arith

abbrev IsUsable : List ℤ → Type 0
IsUsable xs = (xs ≢ []) × AllStatus xs

or_fallback-IsUsable :
    (xs fallback : List ℤ) → AllStatus xs → IsUsable fallback → IsUsable (or_fallback xs fallback)
or_fallback-IsUsable [] fallback h k = k
or_fallback-IsUsable (x ∷ xs) fallback h k = ((λ e. ground arith), h)

persists :
    (b : Bool) (r : Text) → ((b && (r =ₜ codes "validated")) ≡ false) ⊎ (r ≡ codes "validated")
persists b r = ground (arith, =ₜ_iff r (codes "validated"))

usable : IsUsable default.refresh_stream_on_status
usable = ((λ e. ground arith), ((omega arith, omega arith), ((omega arith, omega arith), tt)))

default-IsWithinLimits : IsWithinLimits default
default-IsWithinLimits = (
  (omega arith, omega arith),
  (omega arith, omega arith),
  (omega arith, omega arith),
  inl refl,
  inl refl,
  usable.0,
  usable.1,
  (omega arith, omega arith),
  (omega arith, omega arith),
)

module _ (fl : Floats) (arch : Arch) (trim to_lowercase : Text → Text) where
  open fl use {F}

  AllStatus-statuses : (values : Values F) → AllStatus (statuses fl arch trim to_lowercase values)
  unfolding statuses
  AllStatus-statuses end = tt
  AllStatus-statuses (item v values) =
      let rest = statuses fl arch trim to_lowercase values in
      let n = number_or fl arch trim to_lowercase (some v) (pos 0) in
      if_cases AllStatus (is_status n) (insert n rest) rest
        (λ e. AllStatus-insert n rest (is_status-Between n e) (AllStatus-statuses values))
        (λ e. AllStatus-statuses values)

  statuses_or-IsUsable :
      (v : Option (Value F)) (fallback : List ℤ)
      → IsUsable fallback
      → IsUsable (statuses_or fl arch trim to_lowercase v fallback)
  unfolding statuses_or
  statuses_or-IsUsable (some (array values)) fallback h =
      or_fallback-IsUsable (statuses fl arch trim to_lowercase values) fallback
        (AllStatus-statuses values) h
  statuses_or-IsUsable none fallback h = h
  statuses_or-IsUsable (some null) fallback h = h
  statuses_or-IsUsable (some (bool b)) fallback h = h
  statuses_or-IsUsable (some (number x)) fallback h = h
  statuses_or-IsUsable (some (string t)) fallback h = h
  statuses_or-IsUsable (some (object f)) fallback h = h

  resume_or-cases :
      (v : Option (Value F))
      → let r = resume_or fl arch trim to_lowercase v (codes "none") in
        (r ≡ codes "none") ⊎ (r ≡ codes "validated")
  unfolding resume_or
  resume_or-cases (some (string text)) =
      let r = to_lowercase (trim text) in
      if_cases (λ x. (x ≡ codes "none") ⊎ (x ≡ codes "validated"))
        ((r =ₜ codes "none") || (r =ₜ codes "validated")) r (codes "none")
        (λ e. ground (arith, =ₜ_iff r (codes "none"), =ₜ_iff r (codes "validated"))) (λ e. inl refl)
  resume_or-cases none = inl refl
  resume_or-cases (some null) = inl refl
  resume_or-cases (some (bool b)) = inl refl
  resume_or-cases (some (number x)) = inl refl
  resume_or-cases (some (array v)) = inl refl
  resume_or-cases (some (object f)) = inl refl

  from_config-IsWithinLimits :
      (config : Fields F) → IsWithinLimits (from_config fl arch trim to_lowercase config)
  unfolding from_config
  from_config-IsWithinLimits config =
      let n : Text → ℤ → ℤ =
        λ key fallback. number_or fl arch trim to_lowercase (get key config) fallback in
      let initial =
        clamp-Between (n (codes "initialRetryDelayMs") (pos 500)) (pos 100) (pos 30000)
          (omega arith) in
      let resume =
        resume_or fl arch trim to_lowercase (get (codes "resumePolicy") config) (codes "none") in
      (
        clamp-Between (n (codes "maxAttempts") (pos 3)) (pos 1) (pos 8) (omega arith),
        initial,
        clamp-Between (n (codes "maxRetryDelayMs") (pos 8000)) _ (pos 120000)
            (omega (arith, initial.1)),
        resume_or-cases (get (codes "resumePolicy") config),
        persists (is_true fl arch trim to_lowercase (get (codes "persistentCheckpoint") config))
            resume,
        (statuses_or-IsUsable (get (codes "refreshStreamOnStatus") config)
            default.refresh_stream_on_status usable).0,
        (statuses_or-IsUsable (get (codes "refreshStreamOnStatus") config)
            default.refresh_stream_on_status usable).1,
        clamp-Between (n (codes "maxParallelSegments") (pos 3)) (pos 1) (pos 8) (omega arith),
        clamp-Between (n (codes "maxConcurrentDownloads") (pos 3)) (pos 1) (pos 3) (omega arith),
      )

  policy_of-IsWithinLimits :
      (v : Option (Value F)) → IsWithinLimits (policy_of fl arch trim to_lowercase v)
  policy_of-IsWithinLimits (some (object config)) = from_config-IsWithinLimits config
  policy_of-IsWithinLimits none = default-IsWithinLimits
  policy_of-IsWithinLimits (some null) = default-IsWithinLimits
  policy_of-IsWithinLimits (some (bool b)) = default-IsWithinLimits
  policy_of-IsWithinLimits (some (number x)) = default-IsWithinLimits
  policy_of-IsWithinLimits (some (string t)) = default-IsWithinLimits
  policy_of-IsWithinLimits (some (array v)) = default-IsWithinLimits

  -- Whatever the capabilities of a manifest are, the policy stays within the limits of the host.
  pub from_capabilities-IsWithinLimits :
      (capabilities : Fields F)
      → IsWithinLimits (from_capabilities fl arch trim to_lowercase capabilities)
  unfolding from_capabilities
  from_capabilities-IsWithinLimits capabilities =
      policy_of-IsWithinLimits (get (codes "downloadTransfer") capabilities)
