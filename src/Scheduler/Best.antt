-- ===== src/Scheduler/Best.antt =====
-- The selection loop: the search for a candidate that no other beats.
use zeroxos_os.Base.{
  ℕ, ◌≡◌, refl, sym, ap, subst, ◌∙◌, ◌⊎◌, inl, inr, Bool-cases, Option-cases, Bool, true, false,
  Option, none, some, List, [], ◌∷◌, ◌++◌, All,
}
use zeroxos_os.Scheduler.{SchedThread, scan_best}

-- A strict order in which two keys neither of which is better count as equal.
pub record IsRanking {ℓ} {K : Type ℓ} (better : K → K → Bool) : Type ℓ where
  pub chain : (a b c : K) → better a b ≡ true → better b c ≡ true → better a c ≡ true
  pub over : (a b c : K) → better a b ≡ true → better c b ≡ false → better a c ≡ true
  pub under : (a b c : K) → better a b ≡ true → better c b ≡ false → better c a ≡ false

-- Thread `t` is no candidate.
abbrev pub IsNone : {K : Type 0} → (SchedThread → Option (ℕ × K)) → SchedThread → Type 0
IsNone cand t = cand t ≡ none

module _ {K : Type 0} (cand : SchedThread → Option (ℕ × K)) (better : K → K → Bool) where
  -- Thread `t`, if it is a candidate, is beaten by key `k`; or does not beat it.
  abbrev pub IsBeaten : K → SchedThread → Type 0
  IsBeaten k t = (id : ℕ) (k' : K) → cand t ≡ some (id, k') → better k k' ≡ true

  abbrev pub IsNoBetter : K → SchedThread → Type 0
  IsNoBetter k t = (id : ℕ) (k' : K) → cand t ≡ some (id, k') → better k' k ≡ false

  -- `(id, k)` is what thread `t` of the list offers; it beats every candidate before it, and none
  -- after it is better.
  pub record IsFirstBest (ts : List SchedThread) (id : ℕ) (k : K) : Type 0 where
    pub before : List SchedThread
    pub chosen : SchedThread
    pub after : List SchedThread
    pub place : ts ≡ before ++ (chosen ∷ after)
    pub offers : cand chosen ≡ some (id, k)
    pub earlier : All (IsBeaten k) before
    pub later : All (IsNoBetter k) after

  -- What the loop returns, from nothing or from a best one so far.
  abbrev pub Selects : List SchedThread → Option (ℕ × K) → Type 0
  Selects ts none = All (IsNone cand) ts
  Selects ts (some (id, k)) = IsFirstBest ts id k

  abbrev SelectsFrom : ℕ → K → List SchedThread → Option (ℕ × K) → Type 0
  SelectsFrom id₀ b ts none = ⊥
  SelectsFrom id₀ b ts (some (id, k)) =
      ((id ≡ id₀) × (k ≡ b) × All (IsNoBetter b) ts) ⊎ (IsFirstBest ts id k × (better k b ≡ true))

  module _ (rank : IsRanking better) where
    -- A thread offers one key.
    offered :
        (P : K → Type 0) (t : SchedThread) (i : ℕ) (k : K) (j : ℕ) (k' : K)
        → cand t ≡ some (i, k)
        → cand t ≡ some (j, k')
        → P k
        → P k'
    offered P t i k j k' e f h =
        subst (λ o. elim o [ none ↦ Unit {0} | some (_, x) ↦ P x ]) (sym e ∙ f) h

    none_first :
        (t : SchedThread) (ts : List SchedThread) (r : Option (ℕ × K))
        → cand t ≡ none
        → Selects ts r
        → Selects (t ∷ ts) r
    none_first t ts none e h = (e, h)
    none_first t ts (some (i, k)) e f = record {
      before = t ∷ f.before;
      chosen = f.chosen;
      after = f.after;
      place = ap (◌∷◌ t) f.place;
      offers = f.offers;
      earlier = ((λ j k' g. absurd (cc)), f.earlier);
      later = f.later;
    }

    some_first :
        (t : SchedThread) (ts : List SchedThread) (i : ℕ) (k : K) (r : Option (ℕ × K))
        → cand t ≡ some (i, k)
        → SelectsFrom i k ts r
        → Selects (t ∷ ts) r
    some_first t ts i k none e h = absurd h
    some_first t ts i k (some (j, k')) e (inl (p, q, a)) = record {
      before = [];
      chosen = t;
      after = ts;
      place = refl;
      offers = rw (p, q) e;
      earlier = tt;
      later = rw q a;
    }
    some_first t ts i k (some (j, k')) e (inr (f, v)) = record {
      before = t ∷ f.before;
      chosen = f.chosen;
      after = f.after;
      place = ap (◌∷◌ t) f.place;
      offers = f.offers;
      earlier = ((λ n x g. offered (λ y. better k' y ≡ true) t i k n x e g v), f.earlier);
      later = f.later;
    }

    -- The first thread is no candidate: it changes nothing.
    skip :
        (id : ℕ) (b : K) (t : SchedThread) (ts : List SchedThread) (r : Option (ℕ × K))
        → cand t ≡ none
        → SelectsFrom id b ts r
        → SelectsFrom id b (t ∷ ts) r
    skip id b t ts none e h = h
    skip id b t ts (some (i, k)) e (inl (p, q, a)) = inl (p, q, ((λ j k' f. absurd (cc)), a))
    skip id b t ts (some (i, k)) e (inr (f, w)) = inr (
      record {
        before = t ∷ f.before;
        chosen = f.chosen;
        after = f.after;
        place = ap (◌∷◌ t) f.place;
        offers = f.offers;
        earlier = ((λ j k' g. absurd (cc)), f.earlier);
        later = f.later;
      },
      w,
    )

    -- It does not beat the best one so far, which goes on.
    stay :
        (id : ℕ) (b : K) (i : ℕ) (k : K) (t : SchedThread) (ts : List SchedThread)
        (r : Option (ℕ × K))
        → cand t ≡ some (i, k)
        → better k b ≡ false
        → SelectsFrom id b ts r
        → SelectsFrom id b (t ∷ ts) r
    stay id b i k t ts none e w h = h
    stay id b i k t ts (some (j, k')) e w (inl (p, q, a)) =
        inl (p, q, ((λ n x f. offered (λ y. better y b ≡ false) t i k n x e f w), a))
    stay id b i k t ts (some (j, k')) e w (inr (f, v)) = inr (
      record {
        before = t ∷ f.before;
        chosen = f.chosen;
        after = f.after;
        place = ap (◌∷◌ t) f.place;
        offers = f.offers;
        earlier = (
          (λ n x g. offered (λ y. better k' y ≡ true) t i k n x e g (rank.over k' b k v w)),
          f.earlier,
        );
        later = f.later;
      },
      v,
    )

    -- It beats the best one so far, and takes its place.
    take_over :
        (id : ℕ) (b : K) (i : ℕ) (k : K) (t : SchedThread) (ts : List SchedThread)
        (r : Option (ℕ × K))
        → cand t ≡ some (i, k)
        → better k b ≡ true
        → SelectsFrom i k ts r
        → SelectsFrom id b (t ∷ ts) r
    take_over id b i k t ts none e w h = h
    take_over id b i k t ts (some (j, k')) e w (inl (p, q, a)) = inr (
      record {
        before = [];
        chosen = t;
        after = ts;
        place = refl;
        offers = rw (p, q) e;
        earlier = tt;
        later = rw q a;
      },
      rw q w,
    )
    take_over id b i k t ts (some (j, k')) e w (inr (f, v)) = inr (
      record {
        before = t ∷ f.before;
        chosen = f.chosen;
        after = f.after;
        place = ap (◌∷◌ t) f.place;
        offers = f.offers;
        earlier = ((λ n x g. offered (λ y. better k' y ≡ true) t i k n x e g v), f.earlier);
        later = f.later;
      },
      rank.chain k' k b v w,
    )

    scan-SelectsFrom :
        (id : ℕ) (b : K) (ts : List SchedThread)
        → SelectsFrom id b ts (scan_best cand better (some (id, b)) ts)
    unfolding scan_best
    scan-SelectsFrom id b [] = inl (refl, refl, tt)
    scan-SelectsFrom id b (t ∷ ts) = elim (Option-cases (cand t)) [
      | inl e ↦ rw (e, scan_best) (skip id b t ts _ e (scan-SelectsFrom id b ts))
      | inr ((i, k), e) ↦ elim (Bool-cases (better k b)) [
        | inl w ↦ rw (e, w, scan_best) (take_over id b i k t ts _ e w (scan-SelectsFrom i k ts))
        | inr w ↦ rw (e, w, scan_best) (stay id b i k t ts _ e w (scan-SelectsFrom id b ts))
      ]
    ]

    -- From nothing, the loop ends with nothing if no thread is a candidate, and otherwise with the
    -- first of the best.
    pub scan-Selects : (ts : List SchedThread) → Selects ts (scan_best cand better none ts)
    unfolding scan_best
    scan-Selects [] = tt
    scan-Selects (t ∷ ts) = elim (Option-cases (cand t)) [
      | inl e ↦ rw (e, scan_best) (none_first t ts _ e (scan-Selects ts))
      | inr ((i, k), e) ↦ rw (e, scan_best) (some_first t ts i k _ e (scan-SelectsFrom i k ts))
    ]
