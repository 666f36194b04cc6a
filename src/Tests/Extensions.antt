-- ===== src/Tests/Extensions.antt =====
-- A test and a witness for the transfer policy, with numbers in hundredths and texts that need no
-- trimming.
use spoti_flac_mobile.Prelude.Result.{ok, err}
use spoti_flac_mobile.Prelude.{ℕ, ◌≡◌, refl, [], ◌∷◌, true}
use spoti_flac_mobile.Prelude.Int.{pos}
use spoti_flac_mobile.Prelude.Text.{Text, codes, text_cmp}
use spoti_flac_mobile.Progress.Item.{other}
use spoti_flac_mobile.Extensions.TransferPolicy.{
  Fields, from_capabilities, from_config, get, number_or, rounded_int, resume_or, statuses,
  statuses_or, insert, field, object, number, string, bool, array, item, end, last, validate,
  validate_numbers,
}
use spoti_flac_mobile.Extensions.TransferPolicy.Bounds.{
  IsWithinLimits, from_capabilities-IsWithinLimits,
}
use spoti_flac_mobile.Tests.Progress.{hundredths}

abbrev same : Text → Text
same t = t

-- Ninety attempts, a checkpoint for a validated resume, and the statuses 200 and 503.
abbrev capabilities : Fields ℕ
capabilities =
    field (codes "downloadTransfer")
      (object (
        field (codes "maxAttempts") (number 9000) (
          field (codes "resumePolicy") (string (codes "validated")) (
            field (codes "persistentCheckpoint") (bool true) (
              field (codes "refreshStreamOnStatus")
                (array (item (number 20000) (item (number 50300) end))) last)))))
      last

from_capabilities_test : from_capabilities hundredths other same same capabilities ≡ record {
  max_attempts = pos 8;
  initial_retry_delay_ms = pos 500;
  max_retry_delay_ms = pos 8000;
  resume_policy = codes "validated";
  persistent_checkpoint = true;
  refresh_stream_on_status = pos 503 ∷ [];
  max_parallel_segments = pos 3;
  max_concurrent_downloads = pos 3;
}
unfolding from_capabilities from_config get number_or rounded_int resume_or statuses statuses_or
    insert text_cmp
from_capabilities_test = refl

from_capabilities-IsWithinLimits_example :
    IsWithinLimits (from_capabilities hundredths other same same capabilities)
from_capabilities-IsWithinLimits_example =
    from_capabilities-IsWithinLimits hundredths other same same capabilities

validate_test :
    (validate hundredths other same same capabilities ≡ ok tt)
    × (validate hundredths other same same (
          field
            (codes "downloadTransfer")
            (object (field (codes "maxAttempts") (bool true) last))
            last)
        ≡ err (codes "maxAttempts must be a non-negative number"))
unfolding validate validate_numbers get number_or rounded_int text_cmp
validate_test = (refl, refl)
