-- ===== src/Progress/Item.antt =====
-- rust_backend/crates/core/src/progress/mod.rs: one item's progress, what of it crosses the bridge,
-- and the changes that the registry makes to it. `f64` is a parameter: a type with the operations
-- that the code uses.
use spoti_flac_mobile.Prelude.{
  ℕ, ◌^◌, ◌≡◌, Bool, true, false, not, ◌&&◌, ◌||◌, [], if◌then◌else◌, arith, ◌-◌, ◌*◌,
}
use spoti_flac_mobile.Prelude.Int.{ℤ, pos, negsuc, ltb_ℤ, eq_ℤ, eq_ℤ_iff, div_trunc, wrap_i64}
use spoti_flac_mobile.Prelude.Text.{Text, codes, ◌=ₜ◌, =ₜ_iff}

-- The target of the build, where `rounded_speed` depends on it.
pub data Arch : Type 0 where
  x86 arm other : Arch

-- IEEE 754 binary64 with Rust's conversions. `to_i64` and the others saturate, and take NaN to 0.
pub record Floats : Type 1 where
  pub F : Type 0
  pub zero : F
  pub one : F
  pub ten : F
  pub hundred : F
  pub two63 : F
  pub two64 : F
  pub is_nan : F → Bool
  pub is_finite : F → Bool
  pub le : F → F → Bool
  pub min : F → F → F
  pub mul : F → F → F
  pub div : F → F → F
  pub round : F → F
  pub to_i64 : F → ℤ
  pub to_u32 : F → ℕ
  pub to_u64 : F → ℕ
  pub of_i64 : ℤ → F

abbrev pub update_bytes : ℕ
update_bytes = 131072

pub record ItemProgress (F : Type 0) : Type 0 where
  pub item_id : Text
  pub bytes_total : ℤ
  pub bytes_received : ℤ
  pub progress : F
  pub speed_mbps : F
  pub is_downloading : Bool
  pub status : Text
  pub stage : Text
  pub revision : ℤ

pub record BridgeState : Type 0 where
  pub bytes_bucket : ℤ
  pub total : ℤ
  pub percent : ℤ
  pub speed_tenths : ℤ
  pub downloading : Bool
  pub status : Text
  pub stage : Text

abbrev eq_bool : Bool → Bool → Bool
eq_bool true b = b
eq_bool false b = not b

-- The derived `PartialEq` of `BridgeState`.
unfoldable pub bridge_eq : BridgeState → BridgeState → Bool
bridge_eq a b =
    eq_ℤ a.bytes_bucket b.bytes_bucket
    && (eq_ℤ a.total b.total
        && (eq_ℤ a.percent b.percent
            && (eq_ℤ a.speed_tenths b.speed_tenths
                && (eq_bool a.downloading b.downloading
                    && (a.status =ₜ b.status && a.stage =ₜ b.stage)))))

pub eq_of_bridge_eq : (a b : BridgeState) → bridge_eq a b ≡ true → a ≡ b
unfolding bridge_eq
eq_of_bridge_eq a b h = ground (
  arith,
  eq_ℤ_iff a.bytes_bucket b.bytes_bucket,
  eq_ℤ_iff a.total b.total,
  eq_ℤ_iff a.percent b.percent,
  eq_ℤ_iff a.speed_tenths b.speed_tenths,
  =ₜ_iff a.status b.status,
  =ₜ_iff a.stage b.stage,
)

module _ (fl : Floats) (arch : Arch) where
  open fl use {F, zero, one, ten, hundred, two63, two64, is_nan, is_finite, le, to_i64}

  -- The bits of a `u64`, read as an `i64`.
  abbrev u64_as_i64 : ℕ → ℤ
  u64_as_i64 n = wrap_i64 (pos n)

  unfoldable pub rounded_speed : F → ℤ
  rounded_speed value =
      let v = fl.round value in
      elim arch [
        | x86 ↦ if le two63 v then negsuc (2 ^ 63 - 1) else to_i64 v
        | arm ↦
            if le two64 v || not (is_finite v)
            then u64_as_i64 (fl.to_u32 v * 2 ^ 32)
            else if le two63 v
            then u64_as_i64 (fl.to_u64 v)
            else to_i64 v
        | other ↦ to_i64 v
      ]

  unfoldable pub bridge : ItemProgress F → BridgeState
  unfolding rounded_speed
  bridge item =
      let p =
        if is_nan item.progress || le item.progress zero then zero else fl.min item.progress one in
      let speed =
        if is_nan item.speed_mbps || le item.speed_mbps zero then zero else item.speed_mbps in
      record {
        bytes_bucket = div_trunc item.bytes_received update_bytes;
        total = item.bytes_total;
        percent = to_i64 (fl.round (fl.mul p hundred));
        speed_tenths = rounded_speed (fl.mul speed ten);
        downloading = item.is_downloading;
        status = item.status;
        stage = item.stage;
      }

  unfoldable pub finite : ItemProgress F → Bool
  finite item = is_finite item.progress && is_finite item.speed_mbps

  -- The item that `start` inserts.
  abbrev pub started : Text → ℤ → ItemProgress F
  started id revision = record {
    item_id = id;
    bytes_total = pos 0;
    bytes_received = pos 0;
    progress = zero;
    speed_mbps = zero;
    is_downloading = false;
    status = codes "preparing";
    stage = [];
    revision = revision;
  }

  unfoldable pub mark_downloading : ItemProgress F → ItemProgress F
  mark_downloading item = record item {
    is_downloading = true;
    status = codes "downloading";
    stage = [];
  }

  unfoldable pub received_item : ℤ → ItemProgress F → ItemProgress F
  unfolding mark_downloading
  received_item received item =
      let share = fl.div (fl.of_i64 received) (fl.of_i64 item.bytes_total) in
      let counted = record item {
        bytes_received = received;
        progress = if ltb_ℤ (pos 0) item.bytes_total then share else item.progress;
      } in
      if ltb_ℤ (pos 0) received then mark_downloading counted else counted

  unfoldable pub preparing_item : Text → ItemProgress F → ItemProgress F
  preparing_item stage item = record item {
    progress = zero;
    bytes_received = pos 0;
    bytes_total = pos 0;
    speed_mbps = zero;
    is_downloading = true;
    status = codes "preparing";
    stage = stage;
  }

  unfoldable pub progress_item : F → ℤ → ℤ → ItemProgress F → ItemProgress F
  unfolding mark_downloading
  progress_item progress received total item =
      let has_bytes = ltb_ℤ (pos 0) received || ltb_ℤ (pos 0) total in
      let full = le one progress in
      let moved = record item {
        progress =
            if not (item.status =ₜ codes "preparing") || (has_bytes || full)
            then progress
            else zero;
        bytes_received = if ltb_ℤ (pos 0) received then received else item.bytes_received;
        bytes_total = if ltb_ℤ (pos 0) total then total else item.bytes_total;
      } in
      if has_bytes || (full || item.status =ₜ codes "downloading")
      then mark_downloading moved
      else moved

  unfoldable pub finalizing_item : ItemProgress F → ItemProgress F
  finalizing_item item = record item { progress = one; status = codes "finalizing"; stage = [] }

  unfoldable pub completed_item : ItemProgress F → ItemProgress F
  completed_item item = record item {
    progress = one;
    is_downloading = false;
    status = codes "completed";
    stage = [];
  }
