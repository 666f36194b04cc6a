-- ===== src/Cancellation/World/Views.antt =====
-- How each operation changes the two views of the entries, and the count of the live leases.
use spoti_flac_mobile.Cancellation.Lease.{drop_reference}
use spoti_flac_mobile.Prelude.{
  ℕ, ◌≡◌, Option, none, some, if◌then◌else◌, arith, List, get_elem?, set, ◌+◌, ◌==◌, ◌<◌, ◌≤◌, true,
  length, ◌%◌, ◌^◌, ◌∷◌, ◌⊎◌, ◌-◌, suc, refl, [], zero, ltb,
}
use spoti_flac_mobile.Prelude.Text.{Text, is_empty, ◌=ₜ◌, =ₜ_iff}
use spoti_flac_mobile.BTreeMap.{get, get-insert, get-remove, BTreeMap}
use spoti_flac_mobile.Cancellation.{
  CancellationDomain, Shared, acquire, cancel, cancel_active, shutdown, reset_if_idle, RequestLease,
  cancel_entries, Entry, Flags, store,
}
use spoti_flac_mobile.Cancellation.World.{cell, references, active, is_active, bit}

-- The cell that an entry has, or the one that a new entry would get.
abbrev pub cell_or : Option ℕ → ℕ → ℕ
cell_or none n = n
cell_or (some c) n = c

module _ (id j : Text) (s : Shared) where
  pub cell-acquire :
      (d : CancellationDomain)
      → cell j (acquire d id s).1 ≡ (
          if s.state.closed
          then cell j s
          else if is_empty id
          then cell j s
          else if j =ₜ id
          then some (cell_or (cell id s) s.flags.next)
          else cell j s)
  unfolding cell acquire
  cell-acquire d = grind (arith, get-insert, =ₜ_iff)

  pub references-acquire :
      (d : CancellationDomain)
      → references j (acquire d id s).1 ≡ (
          if s.state.closed
          then references j s
          else if is_empty id
          then references j s
          else if j =ₜ id
          then (references id s + 1) % 2 ^ 64
          else references j s)
  unfolding references acquire
  references-acquire d = grind (arith, get-insert, =ₜ_iff)

  pub cell-cancel : cell j (cancel id s).1 ≡ (
      if s.state.closed
      then cell j s
      else if is_empty id
      then cell j s
      else if j =ₜ id
      then some (cell_or (cell id s) s.flags.next)
      else cell j s)
  unfolding cell cancel
  cell-cancel = grind (arith, get-insert, =ₜ_iff)

  pub references-cancel : references j (cancel id s).1 ≡ references j s
  unfolding references cancel
  references-cancel = grind (arith, get-insert, =ₜ_iff)

  pub cell-reset_if_idle : cell j (reset_if_idle id s).1 ≡ (
      if s.state.closed
      then cell j s
      else if references id s == 0
      then (if j =ₜ id then none else cell j s)
      else cell j s)
  unfolding cell references reset_if_idle
  cell-reset_if_idle = grind (arith, get-remove, =ₜ_iff)

  pub references-reset_if_idle : references j (reset_if_idle id s).1 ≡ references j s
  unfolding references reset_if_idle
  references-reset_if_idle = grind (arith, get-remove, =ₜ_iff)

  pub cell-drop_reference :
      references id s < 2 ^ 64
      → cell j (drop_reference id s)
        ≡ (if references id s == 1 then (if j =ₜ id then none else cell j s) else cell j s)
  unfolding cell references drop_reference
  cell-drop_reference h = grind (arith, get-remove, get-insert, =ₜ_iff)

  pub references-drop_reference :
      references id s < 2 ^ 64
      → cell id s ≡ none ⊎ (0 < references id s)
      → references j (drop_reference id s)
        ≡ (if j =ₜ id then references id s - 1 else references j s)
  unfolding cell references drop_reference
  references-drop_reference h p = grind (arith, get-remove, get-insert, =ₜ_iff)

pub cell-cancel_active : (j : Text) (s : Shared) → cell j (cancel_active s).1 ≡ cell j s
unfolding cell cancel_active
cell-cancel_active j s = ground arith

pub references-cancel_active :
    (j : Text) (s : Shared) → references j (cancel_active s).1 ≡ references j s
unfolding references cancel_active
references-cancel_active j s = ground arith

pub cell-shutdown : (j : Text) (s : Shared) → cell j (shutdown s) ≡ none
unfolding cell shutdown
cell-shutdown j s = unfold get in refl

pub active-set :
    (id : Text) (ls : List RequestLease) (i : ℕ) (l l' : RequestLease)
    → get_elem? ls i ≡ some l
    → active id (set ls i l') + bit (is_active id l) ≡ active id ls + bit (is_active id l')
unfolding active
active-set id [] i l l' h = cc
active-set id (m ∷ ls) zero l l' h = ground arith
active-set id (m ∷ ls) (suc i) l l' h = omega (arith, active-set id ls i l l' h)

pub active-pos :
    (id : Text) (ls : List RequestLease) (i : ℕ) (l : RequestLease)
    → get_elem? ls i ≡ some l
    → is_active id l ≡ true
    → 0 < active id ls
unfolding active
active-pos id [] i l h a = cc
active-pos id (m ∷ ls) zero l h a = ground arith
active-pos id (m ∷ ls) (suc i) l h a = omega (arith, active-pos id ls i l h a)

pub active-le-length : (id : Text) (ls : List RequestLease) → active id ls ≤ length ls
unfolding active
active-le-length id [] = omega arith
active-le-length id (l ∷ ls) = ground (arith, active-le-length id ls)

pub references-of_no_cell : (id : Text) (s : Shared) → cell id s ≡ none → references id s ≡ 0
unfolding cell references
references-of_no_cell id s h = ground arith

pub next-cancel_entries : (m : BTreeMap Entry) (f : Flags) → (cancel_entries m f).1.next ≡ f.next
unfolding cancel_entries
next-cancel_entries [] f = refl
next-cancel_entries ((id, e) ∷ m) f =
    ground
      (arith, next-cancel_entries m (if ltb 0 e.references then store f e.cancelled true else f))

pub closed-cancel : (id : Text) (s : Shared) → (cancel id s).1.state.closed ≡ s.state.closed
unfolding cancel
closed-cancel id s = ground arith
