-- ===== src/Progress/Registry.antt =====
-- rust_backend/crates/core/src/progress/mod.rs: the registry. A method runs under the state's
-- lock. A JSON text is the document that it encodes: `serde_json` is not modelled.
use spoti_flac_mobile.Prelude.{
  ℕ, ◌+◌, ◌/◌, Bool, true, false, Option, none, some, List, [], ◌∷◌, ltb, length, get_elem?,
  if◌then◌else◌,
}
use spoti_flac_mobile.Prelude.Int.{ℤ, pos, ltb_ℤ, ◌+ℤ◌, wrap_i64}
use spoti_flac_mobile.Prelude.Text.{Text}
use spoti_flac_mobile.Prelude.Result.{Result, ok, err, try}
use spoti_flac_mobile.BTreeMap
use spoti_flac_mobile.BTreeMap.{BTreeMap}
use spoti_flac_mobile.Progress.Item.{
  Arch, Floats, ItemProgress, bridge, bridge_eq, started, mark_downloading, received_item,
  preparing_item, progress_item, finalizing_item, completed_item,
}

pub data ProgressError : Type 0 where
  closed subscription_closed : ProgressError

-- The document of `State::delta`. Its flag and lists are left out of the JSON when false or empty.
pub record Delta (F : Type 0) : Type 0 where
  pub seq : ℤ
  pub reset : Bool
  pub items : BTreeMap (ItemProgress F)
  pub removed : List Text

-- What a method answers: the empty text, `{}`, or a document.
pub data Json (F : Type 0) : Type 0 where
  empty_text : Json F
  empty_object : Json F
  item_json : ItemProgress F → Json F
  snapshot_json : BTreeMap (ItemProgress F) → Json F
  delta_json : Delta F → Json F

pub record State (F : Type 0) : Type 0 where
  pub items : BTreeMap (ItemProgress F)
  pub removed : BTreeMap ℤ
  pub seq : ℤ
  pub reset : ℤ
  pub dirty : Bool
  pub cached : Json F
  pub is_closed : Bool

-- `changed` counts the calls of `notify_all` on the condition variable.
pub record Shared (F : Type 0) : Type 0 where
  pub state : State F
  pub changed : ℕ

abbrev pub Answer : Type 0 → Type 0 → Type 0
Answer F A = Result A ProgressError × Shared F

-- `sort_unstable` on the revisions.
unfoldable pub insert_sorted : ℤ → List ℤ → List ℤ
insert_sorted a [] = a ∷ []
insert_sorted a (b ∷ bs) =
    let rest = insert_sorted a bs in if ltb_ℤ b a then b ∷ rest else a ∷ b ∷ bs

unfoldable pub sort : List ℤ → List ℤ
unfolding insert_sorted
sort [] = []
sort (a ∷ rest) = insert_sorted a (sort rest)

abbrev pub max_ℤ : ℤ → ℤ → ℤ
max_ℤ a b = if ltb_ℤ a b then b else a

abbrev pub max_removed : ℕ
max_removed = 512

module _ {F : Type 0} where
  unfoldable pub default : State F
  default = record {
    items = [];
    removed = [];
    seq = pos 0;
    reset = pos 0;
    dirty = true;
    cached = snapshot_json [];
    is_closed = false;
  }

  unfoldable pub new : Shared F
  unfolding default
  new = record { state = default; changed = 0 }

  unfoldable pub check : State F → Result (Unit {0}) ProgressError
  check s = if s.is_closed then err closed else ok tt

  -- The new sequence number is the state's.
  unfoldable pub next : Shared F → Shared F
  next s = record {
    state = record s.state { seq = wrap_i64 (s.state.seq +ℤ pos 1); dirty = true };
    changed = s.changed + 1;
  }

  -- The pruning in `remove`: the older half of the removals is forgotten, and clients that have
  -- not seen them must reset. `none` is the index out of bounds.
  unfoldable pub prune : State F → Option (State F)
  unfolding sort
  prune s = elim (get_elem? (sort (BTreeMap.values s.removed)) (length s.removed / 2)) [
    | none ↦ none
    | some cutoff ↦ some (record s {
      removed = BTreeMap.retain (λ _ revision. ltb_ℤ cutoff revision) s.removed;
      reset = max_ℤ s.reset cutoff;
    })
  ]

  -- `remove` once the item is known to be there.
  unfoldable pub remove_present : Text → Shared F → Option (Shared F)
  unfolding next prune
  remove_present id s =
      let s' =
        next (record s { state = record s.state { items = BTreeMap.remove id s.state.items } }) in
      let marked = record s'.state { removed = BTreeMap.insert id s'.state.seq s'.state.removed } in
      if ltb max_removed (length marked.removed)
      then elim (prune marked) [ none ↦ none | some t ↦ some (record s' { state = t }) ]
      else some (record s' { state = marked })

  abbrev pub make_dirty : Shared F → Shared F
  make_dirty s = record s { state = record s.state { dirty = true } }

  -- `none` is a panic.
  unfoldable pub remove : Text → Shared F → Option (Answer F (Unit {0}))
  unfolding check remove_present
  remove id s = elim (check s.state) [
    | err e ↦ some (err e, s)
    | ok _ ↦ elim (BTreeMap.get id s.state.items) [
      | none ↦ some (ok tt, make_dirty s)
      | some _ ↦ elim (remove_present id s) [ none ↦ none | some s' ↦ some (ok tt, make_dirty s') ]
    ]
  ]

  unfoldable pub clear : Shared F → Answer F (Unit {0})
  unfolding check next
  clear s = try (check s.state) s λ _.
      let s' = next (record s { state = record s.state { items = []; removed = [] } }) in
      (ok tt, record s' { state = record s'.state { reset = s'.state.seq } })

  unfoldable pub shutdown : Shared F → Shared F
  shutdown s = record {
    state = record s.state { is_closed = true; items = []; removed = []; cached = empty_text };
    changed = s.changed + 1;
  }

module _ (fl : Floats) (arch : Arch) where
  open fl use {F}

  unfoldable pub start : Text → Shared F → Answer F (Unit {0})
  unfolding check next
  start id s = try (check s.state) s λ _.
      let s' = next s in
      (
        ok tt,
        record s' {
          state = record s'.state {
            items = BTreeMap.insert id (started fl arch id s'.state.seq) s'.state.items;
            removed = BTreeMap.remove id s'.state.removed;
          };
        },
      )

  -- A change that the bridge does not show keeps the revision.
  unfoldable pub update : Text → (ItemProgress F → ItemProgress F) → Shared F → Answer F (Unit {0})
  unfolding check next
  update id change s = try (check s.state) s λ _. elim (BTreeMap.get id s.state.items) [
    | none ↦ (ok tt, s)
    | some item ↦
        let item' = change item in
        let s' = next s in
        if bridge_eq (bridge fl arch item') (bridge fl arch item)
        then (
          ok tt,
          record s { state = record s.state { items = BTreeMap.insert id item' s.state.items } },
        )
        else (
          ok tt,
          record s' {
            state = record s'.state {
              items = BTreeMap.insert id (record item' { revision = s'.state.seq }) s'.state.items;
            };
          },
        )
  ]

  abbrev pub preparing : Text → Text → Shared F → Answer F (Unit {0})
  preparing id stage = update id (preparing_item fl arch stage)

  abbrev pub downloading : Text → Shared F → Answer F (Unit {0})
  downloading id = update id (mark_downloading fl arch)

  abbrev pub set_total : Text → ℤ → Shared F → Answer F (Unit {0})
  set_total id total = update id (λ item. record item { bytes_total = total })

  abbrev pub set_received : Text → ℤ → Shared F → Answer F (Unit {0})
  set_received id received = update id (received_item fl arch received)

  abbrev pub set_received_with_speed : Text → ℤ → F → Shared F → Answer F (Unit {0})
  set_received_with_speed id received speed =
      update id (λ item. received_item fl arch received (record item { speed_mbps = speed }))

  abbrev pub set_progress : Text → F → ℤ → ℤ → Shared F → Answer F (Unit {0})
  set_progress id progress received total =
      update id (progress_item fl arch progress received total)

  abbrev pub finalizing : Text → Shared F → Answer F (Unit {0})
  finalizing id = update id (finalizing_item fl arch)

  abbrev pub complete : Text → Shared F → Answer F (Unit {0})
  complete id = update id (completed_item fl arch)
