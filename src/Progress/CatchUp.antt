-- ===== src/Progress/CatchUp.antt =====
-- rust_backend/crates/core/src/progress/mod.rs: whatever happens between two reads of a consumer,
-- the second delta brings it up to date.
use spoti_flac_mobile.Prelude.{◌≡◌, true, false, Option, [], arith}
use spoti_flac_mobile.Prelude.Int.{ℤ}
use spoti_flac_mobile.Prelude.Text.{Text}
use spoti_flac_mobile.Progress.Item.{Arch, Floats, BridgeState}
use spoti_flac_mobile.Progress.Registry.{Shared, new, start, remove, clear, shutdown, update}
use spoti_flac_mobile.Progress.Reads.{all_finite, delta, snapshot}
use spoti_flac_mobile.Progress.Steps.{call-update, Step, Reach, IsOrdered}
use spoti_flac_mobile.Progress.Invariant.{Step-IsOrdered, Reach-IsOrdered, opened_of_remove}
use spoti_flac_mobile.Progress.Updated.{update-Updated}
use spoti_flac_mobile.Progress.Sync.{Sync, Sync-refl, view, apply, apply-delta}
use spoti_flac_mobile.Progress.Carried.{
  Sync-start, Sync-Updated, Sync-remove, Sync-clear, Sync-snapshot,
}

module _ (fl : Floats) (arch : Arch) (n : ℤ) (v : Text → Option BridgeState) where
  open fl use {F}

  open_before :
      {s t : Shared F} → Step fl arch s t → t.state.is_closed ≡ false → s.state.is_closed ≡ false
  unfolding start update remove clear snapshot shutdown
  open_before (Step.start s id room) o = ground arith
  open_before (Step.update s c id room) o = ground (arith, call-update fl arch c id s)
  open_before (Step.remove s t id room e) o = opened_of_remove s t id e
  open_before (Step.clear s room) o = ground arith
  open_before (Step.snapshot s) o = ground arith
  open_before (Step.shutdown s) o = absurd (cc)

  Step-Sync :
      {s t : Shared F}
      → Step fl arch s t
      → IsOrdered s
      → t.state.is_closed ≡ false
      → Sync fl arch n v s.state
      → Sync fl arch n v t.state
  Step-Sync (Step.start s id room) k o y =
      Sync-start fl arch n v s k room id y (open_before (Step.start s id room) o)
  Step-Sync (Step.update s c id room) k o y =
      rw (call-update fl arch c id s)
        (Sync-Updated fl arch n v s k room id y c (update-Updated fl arch s k room id c))
  Step-Sync (Step.remove s t id room e) k o y = Sync-remove fl arch n v s k room id y t e
  Step-Sync (Step.clear s room) k o y =
      Sync-clear fl arch n v s k room [] y (open_before (Step.clear s room) o)
  Step-Sync (Step.snapshot s) k o y = Sync-snapshot fl arch n v s y
  Step-Sync (Step.shutdown s) k o y = absurd (unfold shutdown in cc)

  Reach-Sync :
      {s t : Shared F}
      → Reach fl arch s t
      → IsOrdered s
      → t.state.is_closed ≡ false
      → Sync fl arch n v s.state
      → IsOrdered t × Sync fl arch n v t.state
  Reach-Sync Reach.here k o y = (k, y)
  Reach-Sync (Reach.next r st) k o y =
      let (k', y') = Reach-Sync r k (open_before st o) y in
      (Step-IsOrdered fl arch st k', Step-Sync st k' o y')

-- A consumer that shows the registry's items at some moment, and later applies the one delta since
-- the sequence number of that moment, shows the registry's items of the later moment: whatever was
-- started, changed, removed, pruned or cleared in between, while the registry is open and its
-- numbers are finite.
pub delta-catches_up :
    (fl : Floats) (arch : Arch) {s t : Shared fl.F}
    → Reach fl arch new s
    → Reach fl arch s t
    → t.state.is_closed ≡ false
    → all_finite fl arch t.state.items ≡ true
    → (id : Text)
    → apply fl arch (delta fl arch s.state.seq t.state) (view fl arch s.state) id
      ≡ view fl arch t.state id
delta-catches_up fl arch {s} {t} before after opened fin id =
    let (k, y) =
      Reach-Sync fl arch s.state.seq (view fl arch s.state) after (Reach-IsOrdered fl arch before)
        opened (Sync-refl fl arch s.state) in
    apply-delta fl arch s.state.seq (view fl arch s.state) t k y id fin
