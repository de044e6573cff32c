-- ===== src/Execution/Threaded/Moves.antt =====
-- A move of one thread keeps the invariant.
use sbio.Prelude.{
  ℕ, ◌+◌, ◌≤◌, ◌<◌, ◌≡◌, ◌≢◌, refl, sym, true, false, some, some, List, length, set, arith,
  ℕ_discrete, ◌∙◌, inl, inr, Bool-cases, get_or-set_self, get_or-set_ne, length-set,
}
use mathlib.Core.Path.{subst}
use mathlib.Core.Option.{some-injective}
use sbio.Steps.{exhausted_sentinel, Tiles, Tiles-snoc}
use sbio.Execution.Threaded.{Shared, Pc, outside, Move, pc_of, claiming}
use sbio.Execution.Threaded.Counting.{total, total-set, total-le, weight-le-total, weight}
use sbio.Execution.Threaded.Invariant.{owns, triggers, Fits, Inv, guard}

-- What a move changes that other threads may rely on: only the holder of the mutex stores the shared
-- capacity and `m_exhausted`.
record Frame (p : Pc) (m m' : Shared) : Type 0 where
  capacity_le : m.shared_capacity ≤ m'.shared_capacity
  index_le : m.event_idx ≤ m'.event_idx
  kept : owns p ≡ false → (m'.shared_capacity ≡ m.shared_capacity) × (m'.exhausted ≡ m.exhausted)

Fits-Frame :
    (q : Pc) {p : Pc} {m m' : Shared}
    → Frame p m m'
    → (owns q ≡ true → owns p ≡ false)
    → Fits m q
    → Fits m' q
Fits-Frame (claiming c n cap) f o h = omega (arith, f.capacity_le)
Fits-Frame q f o h = ground (arith, f.kept, f.capacity_le, f.index_le)

module _ {m : Shared} {ts : List Pc} (inv : Inv m ts) (i : ℕ) (lt : i < length ts) where
  open inv use {few, capped, small, within, drained, counted, tiled, held, fits, quiet}

  Move-counted :
      {p p' : Pc} {m' : Shared}
      → Move i m p m' p'
      → weight (pc_of ts i) ≡ weight p
      → total (set ts i p') + weight (pc_of ts i) ≡ total ts + weight p'
      → (weight (pc_of ts i) ≤ total ts) × (total (set ts i p') ≤ length ts)
      → m'.in_flight ≡ total (set ts i p')
  Move-counted (Move.call_free k) e t r = omega (arith, counted)
  Move-counted mv e t r = ground (arith, counted, few)

  Move-Frame : {p p' : Pc} {m' : Shared} → Move i m p m' p' → Fits m p → Frame p m m'
  Move-Frame (Move.call_free k) f = record {
    capacity_le = omega arith;
    index_le = omega arith;
    kept = λ o. ground arith;
  }
  Move-Frame mv f = record {
    capacity_le = ground (arith, guard mv);
    index_le = ground (arith, guard mv);
    kept = λ o. ground arith;
  }

  Move-shared :
      {p p' : Pc} {m' : Shared}
      → Move i m p m' p'
      → Fits m p
      → (m'.shared_capacity ≤ m'.max_capacity)
        × (m'.max_capacity < exhausted_sentinel)
        × (m'.event_idx ≤ m'.shared_capacity)
        × (m'.exhausted ≡ true → m'.shared_capacity ≤ m'.event_idx)
  Move-shared (Move.call_free k) f = (capped, small, within, drained)
  Move-shared mv f = ground (arith, guard mv, capped, small, within, drained)

  Move-tiled :
      {p p' : Pc} {m' : Shared} → Move i m p m' p' → Fits m p → Tiles 0 m'.handed m'.event_idx
  Move-tiled (Move.call_free k) f = tiled
  Move-tiled (Move.exchange h e) f =
      Tiles-snoc 0 _ m.handed _ tiled (sym e) (ground (arith, f, capped, small))
  Move-tiled mv f = tiled

  Move-Fits : {p p' : Pc} {m' : Shared} → Move i m p m' p' → Fits m p → Fits m' p'
  Move-Fits (Move.call_free k) f = ground arith
  Move-Fits mv f = ground (arith, guard mv, f, capped)

  Move-held :
      {p p' : Pc} {m' : Shared}
      → Move i m p m' p'
      → (owns p ≡ true → m.mutex ≡ some i)
      → owns p' ≡ true
      → m'.mutex ≡ some i
  Move-held (Move.call_free k) h o = cc
  Move-held mv h o = ground (arith, h)

  -- Another thread that holds the mutex still does.
  Move-held_other :
      {p p' : Pc} {m' : Shared} (j : ℕ)
      → Move i m p m' p'
      → i ≢ j
      → (owns p ≡ true → m.mutex ≡ some i)
      → m.mutex ≡ some j
      → m'.mutex ≡ some j
  Move-held_other j (Move.call_free k) n h o = o
  Move-held_other j mv n h o = ground (arith, guard mv, h)

  -- While all of the capacity is handed out no thread gets a step.
  Move-no_step :
      {p p' : Pc} {m' : Shared}
      → Move i m p m' p'
      → Fits m p
      → m.shared_capacity ≤ m.event_idx
      → p' ≢ outside true
  Move-no_step (Move.call_free k) f h = λ e. cc
  Move-no_step mv f h = λ e. ground (arith, guard mv, f)

  -- A thread comes to call `trigger` only when no thread holds a step.
  Move-triggers :
      {p p' : Pc} {m' : Shared} (q : Pc)
      → Move i m p m' p'
      → (triggers p ≡ true → q ≢ outside true)
      → weight q ≤ total ts
      → triggers p' ≡ true
      → q ≢ outside true
  Move-triggers q (Move.call_free k) h w t = cc
  Move-triggers q mv h w t = λ e. ground (arith, guard mv, h, counted)

  triggers-full : (q : Pc) → triggers q ≡ true → Fits m q → m.shared_capacity ≤ m.event_idx
  triggers-full (Pc.triggering c n) t f = f.2
  triggers-full q t f = ground (arith, f)

-- The thread that moved, and the others, in the new list of threads.
pc_of-set_self : (ts : List Pc) (i : ℕ) (p : Pc) → i < length ts → pc_of (set ts i p) i ≡ p
pc_of-set_self ts i p h = get_or-set_self ts i p (outside false) h

pc_of-set_ne : (ts : List Pc) (i j : ℕ) (p : Pc) → i ≢ j → pc_of (set ts i p) j ≡ pc_of ts j
pc_of-set_ne ts i j p h = get_or-set_ne ts i j p (outside false) h

module _ {m : Shared} {ts : List Pc} (inv : Inv m ts) (i : ℕ) (lt : i < length ts) {p' : Pc}
    {m' : Shared} (mv : Move i m (pc_of ts i) m' p') where
  -- Two threads do not hold the mutex.
  one_owner : (j : ℕ) → i ≢ j → owns (pc_of ts j) ≡ true → owns (pc_of ts i) ≡ false
  one_owner j n o = elim (Bool-cases (owns (pc_of ts i))) [
    | inl x ↦ absurd (n (some-injective i j (sym (inv.held i x) ∙ inv.held j o)))
    | inr x ↦ x
  ]

  new-Fits : (j : ℕ) → Fits m' (pc_of (set ts i p') j)
  new-Fits j = elim (ℕ_discrete i j) [
    | yes e ↦
        subst (λ k. Fits m' (pc_of (set ts i p') k)) e
          (rw (pc_of-set_self ts i p' lt) (Move-Fits inv i lt mv (inv.fits i)))
    | no e ↦
        rw (pc_of-set_ne ts i j p' e) (
          Fits-Frame (pc_of ts j) (Move-Frame inv i lt mv (inv.fits i)) (one_owner j e)
            (inv.fits j))
  ]

  new_held : (j : ℕ) → owns (pc_of (set ts i p') j) ≡ true → m'.mutex ≡ some j
  new_held j o = elim (ℕ_discrete i j) [
    | yes e ↦
        subst (λ k. m'.mutex ≡ some k) e
          (Move-held inv i lt mv (inv.held i) (
            rw (pc_of-set_self ts i p' lt) at
              (subst (λ k. owns (pc_of (set ts i p') k) ≡ true) (sym e) o)))
    | no e ↦
        Move-held_other inv i lt j mv e (inv.held i)
          (inv.held j (rw (pc_of-set_ne ts i j p' e) at o))
  ]

  quiet_after_own : triggers p' ≡ true → (b : ℕ) → pc_of (set ts i p') b ≢ outside true
  quiet_after_own t b = elim (ℕ_discrete i b) [
    | yes e ↦
        subst (λ k. pc_of (set ts i p') k ≢ outside true) e
          (rw (pc_of-set_self ts i p' lt) (λ q. ground (arith, t)))
    | no e ↦
        rw (pc_of-set_ne ts i b p' e)
          (Move-triggers inv i lt (pc_of ts b) mv (inv.quiet i b) (weight-le-total ts b) t)
  ]

  quiet_after_other :
      (a : ℕ) → triggers (pc_of ts a) ≡ true → (b : ℕ) → pc_of (set ts i p') b ≢ outside true
  quiet_after_other a t b = elim (ℕ_discrete i b) [
    | yes e ↦
        subst (λ k. pc_of (set ts i p') k ≢ outside true) e
          (rw (pc_of-set_self ts i p' lt) (
            Move-no_step inv i lt mv (inv.fits i)
              (triggers-full inv i lt (pc_of ts a) t (inv.fits a))))
    | no e ↦ rw (pc_of-set_ne ts i b p' e) (inv.quiet a b t)
  ]

  new_quiet :
      (a b : ℕ) → triggers (pc_of (set ts i p') a) ≡ true → pc_of (set ts i p') b ≢ outside true
  new_quiet a b t = elim (ℕ_discrete i a) [
    | yes e ↦
        quiet_after_own
          (rw (pc_of-set_self ts i p' lt) at
            (subst (λ k. triggers (pc_of (set ts i p') k) ≡ true) (sym e) t))
          b
    | no e ↦ quiet_after_other a (rw (pc_of-set_ne ts i a p' e) at t) b
  ]

  -- Every access of a thread keeps the invariant.
  pub Move-Inv : Inv m' (set ts i p')
  Move-Inv =
      let (capped, small, within, drained) = Move-shared inv i lt mv (inv.fits i) in
      record {
        few = rw (length-set ts i p') inv.few;
        capped = capped;
        small = small;
        within = within;
        drained = drained;
        counted =
            Move-counted inv i lt mv refl (total-set ts i p' lt)
              (weight-le-total ts i, rw (length-set ts i p') at (total-le (set ts i p')));
        tiled = Move-tiled inv i lt mv (inv.fits i);
        held = new_held;
        fits = new-Fits;
        quiet = new_quiet;
      }
