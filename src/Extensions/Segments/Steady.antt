-- ===== src/Extensions/Segments/Steady.antt =====
-- rust_backend/crates/extensions/src/download/segments.rs: no step of a transfer publishes, or turns to
-- another resource.
use spoti_flac_mobile.Prelude.{
  ℕ, ◌≡◌, refl, subst, ◌∙◌, Bool, false, some, List, [], arith, Bool-cases, Option-cases, inl, inr,
  ◌∷◌, ap,
}
use spoti_flac_mobile.Prelude.Result.{Result, ok, err}
use spoti_flac_mobile.Extensions.Segments.Store.{SegmentOutput, Failed}
use spoti_flac_mobile.Extensions.Segments.Writing.{Completed, append, AppendFaults, Turn}
use spoti_flac_mobile.Extensions.Segments.Assembled.{Source}
use spoti_flac_mobile.Extensions.Segments.Jobs.{
  Transfer, fail, send_next, put_together, assemble_one, assemble, take_result, Round, find,
  without,
}
use spoti_flac_mobile.Extensions.Segments.Steps.{
  Step, take_job, fetch, fetch_failed, thread_failed, receive, Reach, here, next,
}
use spoti_flac_mobile.Extensions.Segments.Effects.{checkpoint-SameOutput}
use spoti_flac_mobile.Extensions.Segments.Published.{checkpoint-target}

pub record Steady (t u : Transfer) : Type 0 where
  pub target : u.directory.target ≡ t.directory.target
  pub fingerprint : u.output.state.fingerprint ≡ t.output.state.fingerprint

Steady-refl : (t : Transfer) → Steady t t
Steady-refl t = record { target = refl; fingerprint = refl }

Steady-trans : {t u v : Transfer} → Steady t u → Steady u v → Steady t v
Steady-trans a b = record {
  target = b.target ∙ a.target;
  fingerprint = b.fingerprint ∙ a.fingerprint;
}

append-fingerprint :
    (faults : AppendFaults) (turns : List Turn) (c : Completed) (o : SegmentOutput)
    (r : Result (Unit {0}) Failed × SegmentOutput)
    → append faults turns c o ≡ some r
    → r.1.state.fingerprint ≡ o.state.fingerprint
unfolding append
append-fingerprint faults turns c o (ok x, o') e = ground arith
append-fingerprint faults turns c o (err x, o') e = ground arith

put_together-Steady :
    (round : Round) (t : Transfer) (r : Result (Unit {0}) Failed × SegmentOutput)
    → r.1.state.fingerprint ≡ t.output.state.fingerprint
    → Steady t (put_together round t r).1
unfolding fail send_next
put_together-Steady round t (err e, o) same = record { target = refl; fingerprint = same }
put_together-Steady round t (ok x, o) same = ground (
  arith,
  same,
  checkpoint-target false round.outcome round.now round.elapsed round.instant o t.directory,
  (checkpoint-SameOutput false round.outcome round.now round.elapsed round.instant o
      t.directory).fingerprint,
)

put_together_from :
    (t before after : Transfer)
    → before.directory ≡ t.directory
    → before.output ≡ t.output
    → Steady before after
    → Steady t after
put_together_from t before after d o s = record {
  target = s.target ∙ ap (λ x. x.target) d;
  fingerprint = s.fingerprint ∙ ap (λ x. x.state.fingerprint) o;
}

assemble_one-Steady :
    (round : Round) (t t' : Transfer) (again : Bool)
    → assemble_one round t ≡ some (again, t')
    → Steady t t'
unfolding assemble_one
assemble_one-Steady round t t' again h =
    elim (Option-cases (find t.output.state.next_index t.pending)) [
      | inl missing ↦ subst (Steady t) (ground (arith, h, missing)) (Steady-refl t)
      | inr (c, found) ↦ elim (Option-cases (append round.faults round.turns c t.output)) [
        | inl unfinished ↦ absurd (ground (arith, h, found, unfinished))
        | inr (r, appended) ↦
            let before : Transfer = record t {
              pending = without t.output.state.next_index t.pending;
            } in
            let after : Transfer = (put_together round before r).1 in
            let together : Steady before after =
              put_together-Steady round before r
                (append-fingerprint round.faults round.turns c t.output r appended) in
            subst (Steady t) {x = after} {y = t'} (ground (arith, h, found, appended))
              (put_together_from t before after refl refl together)
      ]
    ]

assemble-Steady :
    (rounds : List Round) (t t' : Transfer) → assemble rounds t ≡ some t' → Steady t t'
unfolding assemble
assemble-Steady [] t t' h = subst (Steady t) (ground (arith, h)) (Steady-refl t)
assemble-Steady (round ∷ rounds) t t' h = elim (Option-cases (assemble_one round t)) [
  | inl unfinished ↦ absurd (ground (arith, h, unfinished))
  | inr ((again, u), one) ↦
      let first = assemble_one-Steady round t u again one in
      elim (Bool-cases again) [
        | inl more ↦ Steady-trans first (assemble-Steady rounds u t' (ground (arith, h, one, more)))
        | inr last ↦ subst (Steady t) (ground (arith, h, one, last)) first
      ]
]

take_result-Steady :
    (i : ℕ) (r : Result Completed Failed) (t : Transfer) → Steady t (take_result i r t)
unfolding take_result
take_result-Steady i (ok c) t = record { target = refl; fingerprint = refl }
take_result-Steady i (err e) t = record { target = refl; fingerprint = refl }

pub Step-Steady : {source : Source} {t u : Transfer} → Step source t u → Steady t u
unfolding fail
Step-Steady (take_job t i queue h) = record { target = refl; fingerprint = refl }
Step-Steady (fetch t before after i content h whole some_bytes) = record {
  target = refl;
  fingerprint = refl;
}
Step-Steady (fetch_failed t before after i j e h) = record { target = refl; fingerprint = refl }
Step-Steady (thread_failed t e) = record { target = refl; fingerprint = refl }
Step-Steady (receive t t' i r results rounds h done) =
    put_together_from t (record t { results = results }) t' refl refl
      (Steady-trans (take_result-Steady i r (record t { results = results }))
        (assemble-Steady rounds (take_result i r (record t { results = results })) t' done))

pub Reach-Steady : {source : Source} {t u : Transfer} → Reach source t u → Steady t u
Reach-Steady {t = t} here = Steady-refl t
Reach-Steady (next r s) = Steady-trans (Reach-Steady r) (Step-Steady s)
