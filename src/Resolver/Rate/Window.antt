-- ===== src/Resolver/Rate/Window.antt =====
-- rust_backend/crates/providers/src/resolver/rate.rs: the grants of a limiter over time.
use spoti_flac_mobile.Prelude.{
  ℕ, zero, suc, ◌+◌, ◌-◌, ◌≤◌, ◌<◌, ◌≡◌, refl, ap, sym, some, List, [], ◌∷◌, ◌++◌, length,
  get_elem?, arith, leb, length-append, if_cases, ◌∙◌, subst, ◌≢◌,
}
use spoti_flac_mobile.Resolver.Rate.{RateLimiter, attempt, expire, new, granted, sleep, sleep_for}

-- The grants of a limiter, the newest first, and the last reading of its clock, after any attempts
-- of any threads.
pub data Reach : RateLimiter → List ℕ → ℕ → Type 0 where
  start : (maximum window : ℕ) → Reach (new maximum window) [] 0
  grant :
      {l : RateLimiter} {grants : List ℕ} {last : ℕ} (now : ℕ)
      → Reach l grants last
      → last ≤ now
      → (attempt now l).0 ≡ granted
      → Reach ((attempt now l).1) (now ∷ grants) now
  refuse :
      {l : RateLimiter} {grants : List ℕ} {last duration : ℕ} (now : ℕ)
      → Reach l grants last
      → last ≤ now
      → (attempt now l).0 ≡ sleep duration
      → Reach ((attempt now l).1) grants now

-- Any maximum + 1 grants in a row take the window or longer.
abbrev pub IsSpaced : ℕ → ℕ → List ℕ → Type 0
IsSpaced maximum window [] = Unit
IsSpaced maximum window (g ∷ grants) =
    ((b : ℕ) → get_elem? (g ∷ grants) maximum ≡ some b → b + window ≤ g)
    × IsSpaced maximum window grants

abbrev reverse : List ℕ → List ℕ
reverse [] = []
reverse (x ∷ xs) = reverse xs ++ (x ∷ [])

reverse-snoc : (xs : List ℕ) (x : ℕ) → reverse (xs ++ (x ∷ [])) ≡ x ∷ reverse xs
reverse-snoc [] x = refl
reverse-snoc (y ∷ xs) x = rw (reverse-snoc xs x)

length-reverse : (xs : List ℕ) → length (reverse xs) ≡ length xs
length-reverse [] = refl
length-reverse (x ∷ xs) = omega (arith, length-append (reverse xs) (x ∷ []), length-reverse xs)

-- Every member has left the window by `now`.
abbrev AllLeft : ℕ → ℕ → List ℕ → Type 0
AllLeft window now [] = Unit
AllLeft window now (x ∷ xs) = (x + window ≤ now) × AllLeft window now xs

AllLeft-le : (window a b : ℕ) (xs : List ℕ) → a ≤ b → AllLeft window a xs → AllLeft window b xs
AllLeft-le window a b [] h p = tt
AllLeft-le window a b (x ∷ xs) h p = (omega arith, AllLeft-le window a b xs h (p.1))

AllLeft-get_elem? :
    (window now : ℕ) (xs : List ℕ) (i b : ℕ)
    → AllLeft window now xs
    → get_elem? xs i ≡ some b
    → b + window ≤ now
AllLeft-get_elem? window now [] i b p e = absurd (ground arith)
AllLeft-get_elem? window now (x ∷ xs) zero b p e = ground arith
AllLeft-get_elem? window now (x ∷ xs) (suc i) b p e = AllLeft-get_elem? window now xs i b (p.1) e

AllLeft-snoc :
    (window now : ℕ) (xs : List ℕ) (x : ℕ)
    → AllLeft window now xs
    → x + window ≤ now
    → AllLeft window now (xs ++ (x ∷ []))
AllLeft-snoc window now [] x p q = (q, tt)
AllLeft-snoc window now (y ∷ xs) x p q = (p.0, AllLeft-snoc window now xs x (p.1) q)

get_elem?-append :
    (xs ys : List ℕ) (i b : ℕ)
    → length xs ≤ i
    → get_elem? (xs ++ ys) i ≡ some b
    → (j : ℕ) × (get_elem? ys j ≡ some b)
get_elem?-append [] ys i b h e = (i, e)
get_elem?-append (x ∷ xs) ys zero b h e = absurd (omega arith)
get_elem?-append (x ∷ xs) ys (suc i) b h e = get_elem?-append xs ys i b (omega arith) e

append_assoc : (xs ys zs : List ℕ) → (xs ++ ys) ++ zs ≡ xs ++ (ys ++ zs)
append_assoc [] ys zs = refl
append_assoc (x ∷ xs) ys zs = rw (append_assoc xs ys zs)

-- What the loop of `expire` drops has left the window, and the stamps stay the newest grants.
abbrev Expired : ℕ → ℕ → List ℕ → List ℕ → List ℕ → Type 0
Expired window now ts old kept =
    AllLeft 0 now kept
    × (old' : List ℕ) × (reverse ts ++ old ≡ reverse kept ++ old')
    × AllLeft window now old'

expire-Expired :
    (window now : ℕ) (ts old : List ℕ)
    → AllLeft 0 now ts
    → AllLeft window now old
    → Expired window now ts old (expire window now ts)
unfolding expire
expire-Expired window now [] old q p = (tt, old, refl, p)
expire-Expired window now (t ∷ ts) old q p =
    if_cases (Expired window now (t ∷ ts) old) (leb window (now - t)) (expire window now ts)
      (t ∷ ts)
      (λ gone.
        let (r, old', e, l) = expire-Expired window now ts (t ∷ old) (q.1) (ground arith, p) in
        (r, old', append_assoc (reverse ts) (t ∷ []) old ∙ e, l))
      (λ stays. (q, old, refl, p))

abbrev kept : ℕ → RateLimiter → List ℕ
kept now l = expire l.window now l.timestamps

abbrev with_timestamps : RateLimiter → List ℕ → RateLimiter
with_timestamps l ts = record { timestamps = ts; maximum = l.maximum; window = l.window }

sleep_for-granted : (window now : ℕ) (ts : List ℕ) → sleep_for window now ts ≢ granted
sleep_for-granted window now [] e = ground arith
sleep_for-granted window now (t ∷ ts) e = ground arith

attempt-granted :
    (now : ℕ) (l : RateLimiter)
    → (attempt now l).0 ≡ granted
    → (length (kept now l) < l.maximum)
      × ((attempt now l).1 ≡ with_timestamps l (kept now l ++ (now ∷ [])))
unfolding attempt
attempt-granted now l e = ground (arith, sleep_for-granted l.window now (kept now l))

attempt-sleep :
    (now duration : ℕ) (l : RateLimiter)
    → (attempt now l).0 ≡ sleep duration
    → (attempt now l).1 ≡ with_timestamps l (kept now l)
unfolding attempt
attempt-sleep now duration l e = ground arith

abbrev IsSliding : RateLimiter → List ℕ → ℕ → Type 0
IsSliding l grants last =
    AllLeft 0 last l.timestamps
    × IsSpaced l.maximum l.window grants
    × (old : List ℕ) × (grants ≡ reverse l.timestamps ++ old)
    × AllLeft l.window last old

grant-IsSliding :
    (l : RateLimiter) (grants : List ℕ) (last now : ℕ)
    → IsSliding l grants last
    → last ≤ now
    → length (kept now l) < l.maximum
    → IsSliding (with_timestamps l (kept now l ++ (now ∷ []))) (now ∷ grants) now
grant-IsSliding l grants last now (q, s, old, e, p) h room =
    let (r, old', e', l') =
      expire-Expired l.window now l.timestamps old (AllLeft-le 0 last now l.timestamps h q)
        (AllLeft-le l.window last now old h p) in
    let tail : (now ∷ grants) ≡ (reverse (kept now l ++ (now ∷ [])) ++ old') =
      ap (◌∷◌ now) (e ∙ e') ∙ ap (λ xs. xs ++ old') (sym (reverse-snoc (kept now l) now)) in
    (
      AllLeft-snoc 0 now (kept now l) now r (omega arith),
      (
        (λ b f.
            let (j, g) =
              get_elem?-append (reverse (kept now l ++ (now ∷ []))) old' l.maximum b
                (omega (
                  arith,
                  length-reverse (kept now l ++ (now ∷ [])),
                  length-append (kept now l) (now ∷ []),
                ))
                (subst (λ xs. get_elem? xs l.maximum ≡ some b) tail f) in
            AllLeft-get_elem? l.window now old' j b l' g),
        s,
      ),
      old',
      tail,
      l',
    )

refuse-IsSliding :
    (l : RateLimiter) (grants : List ℕ) (last now : ℕ)
    → IsSliding l grants last
    → last ≤ now
    → IsSliding (with_timestamps l (kept now l)) grants now
refuse-IsSliding l grants last now (q, s, old, e, p) h =
    let (r, old', e', l') =
      expire-Expired l.window now l.timestamps old (AllLeft-le 0 last now l.timestamps h q)
        (AllLeft-le l.window last now old h p) in
    (r, s, old', e ∙ e', l')

Reach-IsSliding :
    {l : RateLimiter} {grants : List ℕ} {last : ℕ} → Reach l grants last → IsSliding l grants last
unfolding new
Reach-IsSliding (start maximum window) = (tt, tt, [], refl, tt)
Reach-IsSliding (grant {l = l} {grants = grants} {last = last} now r h e) =
    let (room, f) = attempt-granted now l e in
    subst (λ m. IsSliding m (now ∷ grants) now) (sym f)
      (grant-IsSliding l grants last now (Reach-IsSliding r) h room)
Reach-IsSliding (refuse {l = l} {grants = grants} {last = last} {duration = duration} now r h e) =
    subst (λ m. IsSliding m grants now) (sym (attempt-sleep now duration l e))
      (refuse-IsSliding l grants last now (Reach-IsSliding r) h)

-- In every limiter that any threads share, any maximum + 1 grants in a row take the window or
-- longer, whatever the times of the attempts, as long as the clock does not go back.
pub Reach-IsSpaced :
    (l : RateLimiter) (grants : List ℕ) (last : ℕ)
    → Reach l grants last
    → IsSpaced l.maximum l.window grants
Reach-IsSpaced l grants last r = (Reach-IsSliding r).1
