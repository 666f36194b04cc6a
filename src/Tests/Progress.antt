-- ===== src/Tests/Progress.antt =====
-- Runs of the registry of rust_backend/crates/core/src/progress, over numbers that stand for `f64`.
use spoti_flac_mobile.Prelude.{ℕ, ◌+◌, ◌*◌, ◌/◌, ◌≡◌, refl, true, false, leb, min, arith, ◌^◌}
use spoti_flac_mobile.Prelude.Int.{pos, negsuc, wrap_i64, div_trunc, ◌+ℤ◌}
use spoti_flac_mobile.Prelude.Text.{Text, codes, text_cmp}
use spoti_flac_mobile.BTreeMap.{get, insert, remove, retain}
use spoti_flac_mobile.Progress.Item.{other, Floats, bridge, bridge_eq, finite, mark_downloading}
use spoti_flac_mobile.Progress.Registry
use spoti_flac_mobile.Progress.Registry.{Shared, new, start}
use spoti_flac_mobile.Progress.Reads.{delta, all_finite}
use spoti_flac_mobile.Progress.Steps.{Change, Step, Reach, IsOrdered, HasRoom}
use spoti_flac_mobile.Progress.Invariant.{Reach-IsOrdered}
use spoti_flac_mobile.Progress.CatchUp.{delta-catches_up}
use spoti_flac_mobile.Progress.Sync.{apply, view}

-- Hundredths.
abbrev pub hundredths : Floats
hundredths = record {
  F = ℕ;
  zero = 0;
  one = 100;
  ten = 1000;
  hundred = 10000;
  two63 = 2 ^ 63 * 100;
  two64 = 2 ^ 64 * 100;
  is_nan = λ x. false;
  is_finite = λ x. true;
  le = leb;
  min = λ x y. min x y;
  mul = λ x y. x * y / 100;
  div = λ x y. x * 100 / y;
  round = λ x. (x + 50) / 100 * 100;
  to_i64 = λ x. pos (x / 100);
  to_u32 = λ x. x / 100;
  to_u64 = λ x. x / 100;
  of_i64 = λ z. elim z [ pos n ↦ n * 100 | negsuc n ↦ 0 ];
}

progress : Unit {0}
unfolding new start Registry.update Registry.remove delta get insert remove retain text_cmp wrap_i64
    ◌+ℤ◌ bridge bridge_eq finite mark_downloading div_trunc all_finite
progress = tt

abbrev track : Text
track = codes "a"

abbrev s0 : Shared ℕ
s0 = new

abbrev pub s1 : Shared ℕ
s1 = (start hundredths other track s0).1

abbrev s2 : Shared ℕ
s2 = (Registry.downloading hundredths other track s1).1

room0 : HasRoom s0
unfolding progress
room0 = omega arith

pub room1 : HasRoom s1
unfolding progress
room1 = omega arith

pub reached1 : Reach hundredths other new s1
reached1 = Reach.next Reach.here (Step.start s0 track room0)

reached2 : Reach hundredths other s1 s2
reached2 = Reach.next Reach.here (Step.update s1 Change.downloading track room1)

pub opened1 : s1.state.is_closed ≡ false
unfolding progress
opened1 = refl

opened2 : s2.state.is_closed ≡ false
unfolding progress
opened2 = refl

finite2 : all_finite hundredths other s2.state.items ≡ true
unfolding progress
finite2 = refl

Reach-IsOrdered_example : IsOrdered s1
Reach-IsOrdered_example = Reach-IsOrdered hundredths other reached1

delta-catches_up_example :
    apply hundredths other
      (delta hundredths other s1.state.seq s2.state)
      (view hundredths other s1.state)
      track
    ≡ view hundredths other s2.state track
delta-catches_up_example = delta-catches_up hundredths other reached1 reached2 opened2 finite2 track
