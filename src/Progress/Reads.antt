-- ===== src/Progress/Reads.antt =====
-- rust_backend/crates/core/src/progress/mod.rs: what a consumer reads of the registry.
use spoti_flac_mobile.Prelude.{
  Bool, true, false, not, ◌||◌, ◌&&◌, none, some, [], ◌∷◌, if◌then◌else◌,
}
use spoti_flac_mobile.Prelude.Int.{ℤ, pos, ltb_ℤ}
use spoti_flac_mobile.Prelude.Text.{Text}
use spoti_flac_mobile.Prelude.Result.{Result, ok, err, try}
use spoti_flac_mobile.BTreeMap
use spoti_flac_mobile.BTreeMap.{BTreeMap}
use spoti_flac_mobile.Progress.Item.{Arch, Floats, ItemProgress, finite}
use spoti_flac_mobile.Progress.Registry.{
  ProgressError, Json, State, Shared, Answer, check, empty_text, empty_object, item_json,
  snapshot_json, delta_json,
}

module _ (fl : Floats) (arch : Arch) where
  open fl use {F}

  unfoldable pub all_finite : BTreeMap (ItemProgress F) → Bool
  all_finite [] = true
  all_finite ((id, item) ∷ m) = finite fl arch item && all_finite m

  unfoldable pub delta : ℤ → State F → Json F
  unfolding all_finite
  delta since s =
      let reset = not (ltb_ℤ (pos 0) since) || ltb_ℤ since s.reset in
      let items = BTreeMap.retain (λ _ item. reset || ltb_ℤ since item.revision) s.items in
      let removed =
        if reset
        then []
        else BTreeMap.keys (BTreeMap.retain (λ _ revision. ltb_ℤ since revision) s.removed) in
      if not (ltb_ℤ since s.seq)
      then empty_text
      else if not (all_finite items)
      then empty_text
      else delta_json (record { seq = s.seq; reset = reset; items = items; removed = removed })

  unfoldable pub item : Text → Shared F → Result (Json F) ProgressError
  unfolding check
  item id s = elim (check s.state) [
    | err e ↦ err e
    | ok _ ↦ ok (elim (BTreeMap.get id s.state.items) [
      | none ↦ empty_object
      | some i ↦ if finite fl arch i then item_json i else empty_text
    ])
  ]

  unfoldable pub snapshot : Shared F → Answer F (Json F)
  unfolding check all_finite
  snapshot s = try (check s.state) s λ _.
      if s.state.dirty
      then (if all_finite s.state.items
          then (
            ok (snapshot_json s.state.items),
            record s {
              state = record s.state { cached = snapshot_json s.state.items; dirty = false };
            },
          )
          else (ok (snapshot_json []), s))
      else (ok s.state.cached, s)

  -- `ProgressRegistry::delta`.
  unfoldable pub read_delta : ℤ → Shared F → Result (Json F) ProgressError
  unfolding check delta
  read_delta since s = elim (check s.state) [ err e ↦ err e | ok _ ↦ ok (delta since s.state) ]
