-- ===== src/Extensions/TransferPolicy.antt =====
-- rust_backend/crates/extensions/src/transfer_policy.rs: the download policy that a manifest
-- declares. JSON values are serde_json's; `str::trim` and `str::to_lowercase` are parameters.
pub mod Bounds
use spoti_flac_mobile.Prelude.Result.{Result, ok, err, ◌>>◌}
use spoti_flac_mobile.Prelude.{
  ◌++◌, ℕ, Bool, true, false, Option, none, some, List, [], ◌∷◌, ◌&&◌, ◌||◌, if◌then◌else◌, ◌^◌,
  ◌-◌, not,
}
use spoti_flac_mobile.Prelude.Int.{ℤ, pos, negsuc, ltb_ℤ, eq_ℤ}
use spoti_flac_mobile.Prelude.Text.{Text, codes, ◌=ₜ◌}
use spoti_flac_mobile.Progress.Item.{Floats, Arch, x86, arm, other}

mutual
  pub data Value (F : Type 0) : Type 0 where
    null : Value F
    bool : Bool → Value F
    number : F → Value F
    string : Text → Value F
    array : Values F → Value F
    object : Fields F → Value F

  pub data Values (F : Type 0) : Type 0 where
    end : Values F
    item : Value F → Values F → Values F

  pub data Fields (F : Type 0) : Type 0 where
    last : Fields F
    field : Text → Value F → Fields F → Fields F

unfoldable pub get : {F : Type 0} → Text → Fields F → Option (Value F)
get key last = none
get key (field k v fields) = let rest = get key fields in if key =ₜ k then some v else rest

pub record DownloadTransferPolicy : Type 0 where
  pub max_attempts : ℤ
  pub initial_retry_delay_ms : ℤ
  pub max_retry_delay_ms : ℤ
  pub resume_policy : Text
  pub persistent_checkpoint : Bool
  pub refresh_stream_on_status : List ℤ
  pub max_parallel_segments : ℤ
  pub max_concurrent_downloads : ℤ

abbrev pub clamp : ℤ → ℤ → ℤ → ℤ
clamp value lo hi = if ltb_ℤ value lo then lo else if ltb_ℤ hi value then hi else value

abbrev pub default : DownloadTransferPolicy
default = record {
  max_attempts = pos 3;
  initial_retry_delay_ms = pos 500;
  max_retry_delay_ms = pos 8000;
  resume_policy = codes "none";
  persistent_checkpoint = false;
  refresh_stream_on_status = pos 401 ∷ pos 403 ∷ [];
  max_parallel_segments = pos 3;
  max_concurrent_downloads = pos 3;
}

-- `BTreeSet::insert`.
unfoldable pub insert : ℤ → List ℤ → List ℤ
insert x [] = x ∷ []
insert x (y ∷ ys) =
    let rest = insert x ys in
    if ltb_ℤ x y then x ∷ y ∷ ys else if eq_ℤ x y then y ∷ ys else y ∷ rest

abbrev pub is_status : ℤ → Bool
is_status v = not (ltb_ℤ v (pos 400)) && not (ltb_ℤ (pos 599) v)

abbrev pub or_fallback : List ℤ → List ℤ → List ℤ
or_fallback [] fallback = fallback
or_fallback (x ∷ xs) fallback = x ∷ xs

abbrev pub number_keys : List Text
number_keys =
    codes "maxAttempts"
    ∷ codes "initialRetryDelayMs"
    ∷ codes "maxRetryDelayMs"
    ∷ codes "maxParallelSegments"
    ∷ codes "maxConcurrentDownloads"
    ∷ []

module _ (fl : Floats) (arch : Arch) (trim to_lowercase : Text → Text) where
  open fl use {F, round, le, two63, to_i64}

  -- A number below `isize::MIN` gives `isize::MIN` on every target, since the cast saturates. The
  -- targets are those of 64 bits.
  unfoldable pub rounded_int : F → ℤ
  rounded_int value = elim arch [
    | x86 ↦ if le two63 (round value) then negsuc (2 ^ 63 - 1) else to_i64 (round value)
    | arm ↦ to_i64 (round value)
    | other ↦ to_i64 (round value)
  ]

  unfoldable pub number_or : Option (Value F) → ℤ → ℤ
  number_or (some (number v)) fallback = rounded_int v
  number_or v fallback = fallback

  unfoldable pub resume_or : Option (Value F) → Text → Text
  resume_or (some (string text)) policy =
      let resume = to_lowercase (trim text) in
      if (resume =ₜ codes "none") || (resume =ₜ codes "validated") then resume else policy
  resume_or v policy = policy

  abbrev pub is_true : Option (Value F) → Bool
  is_true (some (bool b)) = b
  is_true v = false

  unfoldable pub statuses : Values F → List ℤ
  statuses end = []
  statuses (item v values) =
      let rest = statuses values in
      let n = number_or (some v) (pos 0) in if is_status n then insert n rest else rest

  unfoldable pub statuses_or : Option (Value F) → List ℤ → List ℤ
  statuses_or (some (array values)) fallback = or_fallback (statuses values) fallback
  statuses_or v fallback = fallback

  unfoldable pub from_config : Fields F → DownloadTransferPolicy
  from_config config =
      let initial =
        clamp (number_or (get (codes "initialRetryDelayMs") config) default.initial_retry_delay_ms)
          (pos 100) (pos 30000) in
      let resume = resume_or (get (codes "resumePolicy") config) default.resume_policy in
      record {
        max_attempts =
            clamp (number_or (get (codes "maxAttempts") config) default.max_attempts) (pos 1)
              (pos 8);
        initial_retry_delay_ms = initial;
        max_retry_delay_ms =
            clamp (number_or (get (codes "maxRetryDelayMs") config) default.max_retry_delay_ms)
              initial (pos 120000);
        resume_policy = resume;
        persistent_checkpoint =
            is_true (get (codes "persistentCheckpoint") config) && (resume =ₜ codes "validated");
        refresh_stream_on_status =
            statuses_or (get (codes "refreshStreamOnStatus") config)
              default.refresh_stream_on_status;
        max_parallel_segments =
            clamp
              (number_or (get (codes "maxParallelSegments") config) default.max_parallel_segments)
              (pos 1) (pos 8);
        max_concurrent_downloads =
            clamp
              (number_or (get (codes "maxConcurrentDownloads") config)
                default.max_concurrent_downloads)
              (pos 1) (pos 3);
      }

  abbrev pub policy_of : Option (Value F) → DownloadTransferPolicy
  policy_of (some (object config)) = from_config config
  policy_of v = default

  unfoldable pub from_capabilities : Fields F → DownloadTransferPolicy
  from_capabilities capabilities = policy_of (get (codes "downloadTransfer") capabilities)

  abbrev pub validate_resume : Option (Value F) → Result (Unit {0}) Text
  validate_resume none = ok tt
  validate_resume (some (string text)) =
      if (text =ₜ codes "none") || (text =ₜ codes "validated")
      then ok tt
      else err (codes "resumePolicy must be 'none' or 'validated'")
  validate_resume (some v) = err (codes "resumePolicy must be 'none' or 'validated'")

  abbrev pub validate_checkpoint : Option (Value F) → Result (Unit {0}) Text
  validate_checkpoint none = ok tt
  validate_checkpoint (some (bool b)) = ok tt
  validate_checkpoint (some v) = err (codes "persistentCheckpoint must be a boolean")

  abbrev pub validate_number : Text → Option (Value F) → Result (Unit {0}) Text
  validate_number key none = ok tt
  validate_number key (some v) =
      if ltb_ℤ (number_or (some v) (negsuc 0)) (pos 0)
      then err (key ++ codes " must be a non-negative number")
      else ok tt

  unfoldable pub validate_numbers : List Text → Fields F → Result (Unit {0}) Text
  validate_numbers [] config = ok tt
  validate_numbers (key ∷ keys) config =
      validate_number key (get key config) >> validate_numbers keys config

  abbrev pub validate_raw : Option (Value F) → Result (Unit {0}) Text
  validate_raw none = ok tt
  validate_raw (some (object config)) =
      validate_resume (get (codes "resumePolicy") config)
      >> validate_checkpoint (get (codes "persistentCheckpoint") config)
      >> validate_numbers number_keys config
  validate_raw (some v) = err (codes "must be an object")

  unfoldable pub validate : Fields F → Result (Unit {0}) Text
  validate capabilities = validate_raw (get (codes "downloadTransfer") capabilities)
