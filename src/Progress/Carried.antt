-- ===== src/Progress/Carried.antt =====
-- rust_backend/crates/core/src/progress/mod.rs: what one call of the registry does to a consumer that
-- has read it before.
use spoti_flac_mobile.Prelude.{
  ◌≡◌, refl, sym, subst, ap, true, false, none, some, Option, [], arith, Bool-cases, Option-cases,
  inl, inr, ◌⊎◌,
}
use spoti_flac_mobile.Prelude.Int.{ℤ, ◌≤ℤ◌, ◌<ℤ◌, ltb_ℤ}
use spoti_flac_mobile.Prelude.Text.{Text, ◌=ₜ◌, =ₜ_iff}
use spoti_flac_mobile.Prelude.Result.{ok}
use spoti_flac_mobile.BTreeMap
use spoti_flac_mobile.BTreeMap.{BTreeMap, get-insert, get-remove}
use spoti_flac_mobile.BTreeMap.Order.{get-retain, keep}
use spoti_flac_mobile.Progress.Item.{Arch, Floats, ItemProgress, BridgeState, bridge, started}
use spoti_flac_mobile.Progress.Registry.{Shared, start, remove, clear, max_ℤ}
use spoti_flac_mobile.Progress.Reads.{snapshot}
use spoti_flac_mobile.Progress.Steps.{Change, change, revision-change, HasRoom, IsOrdered}
use spoti_flac_mobile.Progress.Keeps.{
  seq', bumped, rises, marked, marked-IsSorted, Taken, kept, pruned, remove_present-Taken,
}
use spoti_flac_mobile.Progress.Invariant.{opened_of_remove}
use spoti_flac_mobile.Progress.Updated.{Updated, same, hidden, shown_change}
use spoti_flac_mobile.Progress.Sync.{Sync, Fits}

module _ (fl : Floats) (arch : Arch) (n : ℤ) (v : Text → Option BridgeState) where
  open fl use {F}

  abbrev Covered : ℤ → Option BridgeState → Option (ItemProgress F) → Option ℤ → Type 0
  Covered reset b o r = (n <ℤ reset) ⊎ Fits fl arch n b o r

  Covered-eq :
      (reset : ℤ) (b : Option BridgeState) (o o' : Option (ItemProgress F)) (r r' : Option ℤ)
      → o ≡ o'
      → r ≡ r'
      → Covered reset b o' r'
      → Covered reset b o r
  Covered-eq reset b o o' r r' p q h =
      subst (λ x. Covered reset b x r) (sym p) (subst (λ x. Covered reset b o' x) (sym q) h)

  module _ (s : Shared F) (k : IsOrdered s) (room : HasRoom s) (id : Text)
      (y : Sync fl arch n v s.state) where
    news : n <ℤ seq' s k room
    news = omega (arith, y.behind, rises s k room)

    -- An item with a new revision.
    Sync-news :
        (item : ItemProgress F) (removed : BTreeMap ℤ)
        → item.revision ≡ seq' s k room
        → ((j : Text) → (j =ₜ id) ≡ false → BTreeMap.get j removed ≡ BTreeMap.get j s.state.removed)
        → Sync fl arch n v
            (bumped s k room (BTreeMap.insert id item s.state.items) removed s.state.reset).state
    Sync-news item removed fresh others = record {
      behind = omega (arith, news);
      fits = λ j. elim (Bool-cases (j =ₜ id)) [
        | inl here ↦
            Covered-eq s.state.reset (v j) _ (some item) _ (BTreeMap.get j removed)
              (ground (arith, get-insert id j item s.state.items)) refl
              (inr (inl (ground (arith, news))))
        | inr there ↦
            Covered-eq s.state.reset (v j) _ (BTreeMap.get j s.state.items) _
              (BTreeMap.get j s.state.removed) (ground (arith, get-insert id j item s.state.items))
              (others j there) (y.fits j)
      ];
    }

    Sync-hidden :
        (c : Change F) (item : ItemProgress F)
        → BTreeMap.get id s.state.items ≡ some item
        → bridge fl arch (change fl arch c item) ≡ bridge fl arch item
        → Covered s.state.reset
            (v id)
            (some (change fl arch c item))
            (BTreeMap.get id s.state.removed)
    Sync-hidden c item found equal =
        let old : Covered s.state.reset (v id) (some item) (BTreeMap.get id s.state.removed) =
          Covered-eq s.state.reset (v id) (some item) _ _ _ (sym found) refl (y.fits id) in
        ground (arith, old, revision-change fl arch c item)

    pub Sync-Updated :
        (c : Change F) {t : Shared F} → Updated fl arch s k room id c t → Sync fl arch n v t.state
    Sync-Updated c same = y
    Sync-Updated c (hidden item found equal) = record {
      behind = y.behind;
      fits = λ j. elim (Bool-cases (j =ₜ id)) [
        | inl here ↦
            Covered-eq s.state.reset (v j) _ (some (change fl arch c item)) _
              (BTreeMap.get id s.state.removed)
              (ground (arith, get-insert id j (change fl arch c item) s.state.items))
              (ap (λ i. BTreeMap.get i s.state.removed) ((=ₜ_iff j id).0 here))
              (subst
                (λ i.
                  Covered s.state.reset (v i) (some (change fl arch c item))
                    (BTreeMap.get id s.state.removed))
                (sym ((=ₜ_iff j id).0 here)) (Sync-hidden c item found equal))
        | inr there ↦
            Covered-eq s.state.reset (v j) _ (BTreeMap.get j s.state.items) _
              (BTreeMap.get j s.state.removed)
              (ground (arith, get-insert id j (change fl arch c item) s.state.items)) refl
              (y.fits j)
      ];
    }
    Sync-Updated c (shown_change item found) =
        Sync-news (record (change fl arch c item) { revision = seq' s k room }) s.state.removed refl
          (λ j there. refl)

    pub Sync-start : s.state.is_closed ≡ false → Sync fl arch n v (start fl arch id s).1.state
    unfolding start
    Sync-start opened =
        let item = started fl arch id (seq' s k room) in
        let removed = BTreeMap.remove id s.state.removed in
        let after = bumped s k room (BTreeMap.insert id item s.state.items) removed s.state.reset in
        let e : (start fl arch id s).1 ≡ after = ground arith in
        subst (λ t. Sync fl arch n v t.state) (sym e)
          (Sync-news item removed refl (λ j there. ground (arith, get-remove id j s.state.removed)))

    -- Away from `id`, and at `id` once it is gone.
    Covered-removal :
        (j : Text)
        → Covered s.state.reset
            (v j)
            (BTreeMap.get j (BTreeMap.remove id s.state.items))
            (BTreeMap.get j (marked s k room id).state.removed)
    Covered-removal j = elim (Bool-cases (j =ₜ id)) [
      | inl here ↦
          Covered-eq s.state.reset (v j) _ none _ (some (seq' s k room))
            (ground (arith, get-remove id j s.state.items))
            (ground (arith, get-insert id j (seq' s k room) s.state.removed)) (inr (inl news))
      | inr there ↦
          Covered-eq s.state.reset (v j) _ (BTreeMap.get j s.state.items) _
            (BTreeMap.get j s.state.removed) (ground (arith, get-remove id j s.state.items))
            (ground (arith, get-insert id j (seq' s k room) s.state.removed)) (y.fits j)
    ]

    -- What is pruned is covered by the new reset mark.
    Covered-pruned :
        (j : Text) (cutoff reset reset' : ℤ) (b : Option BridgeState) (o : Option (ItemProgress F))
        (r : Option ℤ)
        → cutoff ≤ℤ reset'
        → reset ≤ℤ reset'
        → Covered reset b o r
        → Covered reset' b o (keep (λ _ x. ltb_ℤ cutoff x) j r)
    Covered-pruned j cutoff reset reset' b none none p q h = ground arith
    Covered-pruned j cutoff reset reset' b none (some x) p q h = ground arith
    Covered-pruned j cutoff reset reset' b (some item) none p q h = ground arith
    Covered-pruned j cutoff reset reset' b (some item) (some x) p q h = ground arith

    Sync-Taken : {t : Shared F} → Taken s k room id t → Sync fl arch n v t.state
    Sync-Taken (kept small) = record { behind = omega (arith, news); fits = Covered-removal }
    Sync-Taken (pruned c) = record {
      behind = omega (arith, news);
      fits = λ j.
          subst
            (λ x.
              Covered (max_ℤ s.state.reset c.cutoff) (v j)
                (BTreeMap.get j (BTreeMap.remove id s.state.items)) x)
            (sym (
              get-retain (λ _ x. ltb_ℤ c.cutoff x) j (marked s k room id).state.removed
                (marked-IsSorted s k room id)))
            (Covered-pruned j c.cutoff s.state.reset (max_ℤ s.state.reset c.cutoff) (v j)
              (BTreeMap.get j (BTreeMap.remove id s.state.items))
              (BTreeMap.get j (marked s k room id).state.removed) (ground arith) (ground arith)
              (Covered-removal j));
    }

    pub Sync-clear : s.state.is_closed ≡ false → Sync fl arch n v (clear s).1.state
    unfolding clear
    Sync-clear opened =
        let e : (clear s).1 ≡ bumped s k room [] [] (seq' s k room) = ground arith in
        subst (λ t. Sync fl arch n v t.state) (sym e)
          (record { behind = omega (arith, news); fits = λ j. inl news })

    pub Sync-remove : (t : Shared F) → remove id s ≡ some (ok tt, t) → Sync fl arch n v t.state
    unfolding remove
    Sync-remove t e = elim (Option-cases (BTreeMap.get id s.state.items)) [
      | inl missing ↦
          let same : t ≡ record s { state = record s.state { dirty = true } } =
            ground (arith, opened_of_remove s t id e) in
          subst (λ u. Sync fl arch n v u.state) (sym same)
            (record { behind = y.behind; fits = y.fits })
      | inr (item, found) ↦
          let (u, taken, x) = remove_present-Taken s k room id in
          let z : Sync fl arch n v u.state = Sync-Taken x in
          let same : t ≡ record u { state = record u.state { dirty = true } } =
            ground (arith, opened_of_remove s t id e) in
          subst (λ w. Sync fl arch n v w.state) (sym same)
            (record { behind = z.behind; fits = z.fits })
    ]

  pub Sync-snapshot :
      (s : Shared F) → Sync fl arch n v s.state → Sync fl arch n v (snapshot fl arch s).1.state
  unfolding snapshot
  Sync-snapshot s y =
      let items : (snapshot fl arch s).1.state.items ≡ s.state.items = ground arith in
      let removed : (snapshot fl arch s).1.state.removed ≡ s.state.removed = ground arith in
      let reset : (snapshot fl arch s).1.state.reset ≡ s.state.reset = ground arith in
      record {
        behind = ground (arith, y.behind);
        fits = λ j. rw (items, removed, reset) (y.fits j);
      }
