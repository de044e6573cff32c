-- ===== src/Chronology/Fronts.antt =====
-- The inner loop of `ChronologicalOrder::merge`: which StreamBroker it picks, and when it stops.
use sbio.Prelude.{
  ℕ, zero, suc, ◌+◌, ◌≤◌, ◌<◌, ◌≡◌, refl, ◌≢◌, inl, inr, true, false, none, some, arith,
  Option-cases, Bool-cases,
}
use sbio.Chronology.{
  ChronologicalOrder, PendingStep, front, step_key, is_exhausted, num_brokers, better, scan_fronts,
  scan,
}
use mathlib.Core.Path.{subst}

-- What the scan has found among the first `b` StreamBrokers.
pub record LeastBelow (o : ChronologicalOrder) (b best : ℕ) : Type 0 where
  pub skipped : (c : ℕ) → c < b → front o c ≡ none → is_exhausted o c ≡ true
  pub none_yet : best ≡ num_brokers o → (c : ℕ) → c < b → front o c ≡ none
  pub found : best ≢ num_brokers o → (best < b) × (front o best ≢ none)
  pub least :
      best ≢ num_brokers o
      → (c : ℕ) (t : PendingStep) → c < b
      → front o c ≡ some t
      → step_key (front o best) ≤ t.1
  pub first :
      best ≢ num_brokers o
      → (c : ℕ) (t : PendingStep) → c < best
      → front o c ≡ some t
      → step_key (front o best) < t.1

LeastBelow-skip :
    (o : ChronologicalOrder) (b best : ℕ)
    → front o b ≡ none
    → is_exhausted o b ≡ true
    → LeastBelow o b best
    → LeastBelow o (b + 1) best
LeastBelow-skip o b best e x l = record {
  skipped = λ c h f. grind (arith, l.skipped);
  none_yet = λ h c k. grind (arith, l.none_yet);
  found = λ h. grind (arith, l.found);
  least = λ h c t k f. grind (arith, l.least);
  first = λ h c t k f. l.first h c t k f;
}

LeastBelow-take :
    (o : ChronologicalOrder) (b best : ℕ) (s : PendingStep)
    → b < num_brokers o
    → front o b ≡ some s
    → LeastBelow o b best
    → LeastBelow o (b + 1) (better o b s best)
unfolding better
LeastBelow-take o b best s h e l = record {
  skipped = λ c k f. grind (arith, l.skipped);
  none_yet = λ k c m. grind (arith, l.none_yet, l.found);
  found = λ k. grind (arith, l.found);
  least = λ k c t m f. grind (arith, l.least, l.none_yet);
  first = λ k c t m f. grind (arith, l.first, l.none_yet, l.least);
}

module _ (o : ChronologicalOrder) (n b best : ℕ) where
  scan_fronts_skip :
      front o b ≡ none
      → is_exhausted o b ≡ true
      → scan_fronts o (suc n) b best ≡ scan_fronts o n (b + 1) best
  unfolding scan_fronts
  scan_fronts_skip f x = ground arith

  scan_fronts_stop :
      front o b ≡ none → is_exhausted o b ≡ false → scan_fronts o (suc n) b best ≡ none
  unfolding scan_fronts
  scan_fronts_stop f x = ground arith

  scan_fronts_take :
      (s : PendingStep)
      → front o b ≡ some s
      → scan_fronts o (suc n) b best ≡ scan_fronts o n (b + 1) (better o b s best)
  unfolding scan_fronts
  scan_fronts_take s f = ground arith

-- What the scan returns, from what it holds after `b` rounds.
scan_fronts-LeastBelow :
    (o : ChronologicalOrder) (n b best : ℕ) {r : ℕ}
    → b + n ≡ num_brokers o
    → LeastBelow o b best
    → scan_fronts o n b best ≡ some r
    → LeastBelow o (num_brokers o) r
unfolding scan_fronts
scan_fronts-LeastBelow o zero b best {r} e l q =
    subst (λ k. LeastBelow o k r) (omega arith) (subst (LeastBelow o b) (cc) l)
scan_fronts-LeastBelow o (suc n) b best e l q = elim (Option-cases (front o b)) [
  | inl f ↦ elim (Bool-cases (is_exhausted o b)) [
    | inl x ↦
        scan_fronts-LeastBelow o n (b + 1) best (omega arith) (LeastBelow-skip o b best f x l)
          (rw (scan_fronts_skip o n b best f x) at q)
    | inr x ↦ cc (scan_fronts_stop o n b best f x)
  ]
  | inr (s, f) ↦
      scan_fronts-LeastBelow o n (b + 1) (better o b s best) (omega arith)
        (LeastBelow-take o b best s (omega arith) f l) (rw (scan_fronts_take o n b best s f) at q)
]

-- The StreamBroker that the scan picks: no other front is earlier, and those before it are later.
pub scan-LeastBelow :
    (o : ChronologicalOrder) {r : ℕ} → scan o ≡ some r → LeastBelow o (num_brokers o) r
unfolding scan
scan-LeastBelow o q =
    scan_fronts-LeastBelow o (num_brokers o) 0 (num_brokers o) (omega arith) start q
  where
    start : LeastBelow o 0 (num_brokers o)
    start = record {
      skipped = λ c h f. absurd (omega arith);
      none_yet = λ h c k. absurd (omega arith);
      found = λ h. absurd (h refl);
      least = λ h c t k f. absurd (h refl);
      first = λ h c t k f. absurd (h refl);
    }

scan_fronts-none :
    (o : ChronologicalOrder) (n b best : ℕ)
    → b + n ≡ num_brokers o
    → scan_fronts o n b best ≡ none
    → (c : ℕ) × (c < num_brokers o) × (front o c ≡ none) × (is_exhausted o c ≡ false)
unfolding scan_fronts
scan_fronts-none o zero b best e q = cc
scan_fronts-none o (suc n) b best e q = elim (Option-cases (front o b)) [
  | inl f ↦ elim (Bool-cases (is_exhausted o b)) [
    | inl x ↦
        scan_fronts-none o n (b + 1) best (omega arith) (rw (scan_fronts_skip o n b best f x) at q)
    | inr x ↦ (b, omega arith, f, x)
  ]
  | inr (s, f) ↦
      scan_fronts-none o n (b + 1) (better o b s best) (omega arith)
        (rw (scan_fronts_take o n b best s f) at q)
]

-- The scan stops early only at a StreamBroker that may still bring an earlier step.
pub scan-none :
    (o : ChronologicalOrder)
    → scan o ≡ none
    → (c : ℕ) × (c < num_brokers o) × (front o c ≡ none) × (is_exhausted o c ≡ false)
unfolding scan
scan-none o q = scan_fronts-none o (num_brokers o) 0 (num_brokers o) (omega arith) q
