-- ===== src/DataSource/Measure.antt =====
-- A round over all streams: what is left to read becomes less, or no stream was to be indexed.
use sbio.Prelude.{
  ℕ, suc, ◌+◌, ◌≤◌, ◌<◌, ◌≡◌, refl, ap, ◌∙◌, inl, inr, Bool, true, false, List, [], ◌∷◌, length,
  arith, if◌then◌else◌, Bool-cases, ℕ_discrete,
}
use sbio.Chronology.{ChronologicalOrder, may_index, is_exhausted, size}
use sbio.DataSource.{StreamBroker, index_next, enter_indexed, index_streams}
use sbio.DataSource.Rounds.{
  IsFinite, HasEntries, index_next_less, enter_indexed-HasEntries, enter_indexed_other,
  enter_indexed-size, enter_indexed_own,
}

module _ {B C : Type 0} (ops : StreamBroker B C) (left : B → List C → ℕ)
    (f : IsFinite ops left) where
  -- What the streams from number `n` on have left, and one more for each that is not exhausted.
  abbrev pub measure : ℕ → List (B × List C) → ChronologicalOrder → ℕ
  measure n [] o = 0
  measure n ((b, cs) ∷ rest) o =
      (if is_exhausted o n then 0 else suc (left b cs)) + measure (n + 1) rest o

  measure-same :
      (n : ℕ) (ss : List (B × List C)) (o o' : ChronologicalOrder)
      → ((m : ℕ) → n ≤ m → is_exhausted o m ≡ is_exhausted o' m)
      → measure n ss o ≡ measure n ss o'
  measure-same n [] o o' h = refl
  measure-same n ((b, cs) ∷ rest) o o' h =
      let x = measure-same (n + 1) rest o o' (λ m l. h m (omega arith)) in
      ground (arith, x, h n (omega arith))

  -- What a round has done.
  pub record IsRound (k n : ℕ) (ss : List (B × List C)) (o : ChronologicalOrder) (indexed : Bool)
      (ss' : List (B × List C)) (o' : ChronologicalOrder) : Type 0 where
    pub has_entries : HasEntries k o'
    pub same_length : length ss' ≡ length ss
    pub before : (m : ℕ) → m < n → is_exhausted o' m ≡ is_exhausted o m
    pub size_kept : size o' ≡ size o
    pub less : measure n ss' o' ≤ measure n ss o
    pub less_indexed : indexed ≡ true → measure n ss' o' < measure n ss o
    pub unchanged : indexed ≡ false → o' ≡ o
    pub none_due : indexed ≡ false → (m : ℕ) → n ≤ m → m < n + length ss → may_index o m ≡ false

  module _ (k n : ℕ) (b : B) (cs : List C) (rest ss' : List (B × List C))
      (o o' : ChronologicalOrder) (indexed : Bool) (h : HasEntries k o) (l : n < k) where
    not_exhausted : may_index o n ≡ true → is_exhausted o n ≡ false
    unfolding may_index
    not_exhausted a = ground arith

    -- A stream that is indexed.
    now-IsRound :
        may_index o n ≡ true
        → let (status, b', cs') = index_next ops b cs in
          IsRound k (n + 1) rest (enter_indexed ops n status b' o) indexed ss' o'
          → IsRound k n ((b, cs) ∷ rest) o true ((b', cs') ∷ ss') o'
    now-IsRound a r =
        let (status, b', cs') = index_next ops b cs in
        let o1 = enter_indexed ops n status b' o in
        let own = r.before n (omega arith) in
        let same =
          measure-same (n + 1) rest o1 o
            (λ m u. enter_indexed_other ops n status b' o m (λ e. apart m e u)) in
        let x = index_next_less ops left f b cs in
        let less = r.less in
        let strict : measure n ((b', cs') ∷ ss') o' < measure n ((b, cs) ∷ rest) o =
          elim (Bool-cases (is_exhausted o1 n)) [
            | inl e ↦ ground (arith, own, e, not_exhausted a, same, less)
            | inr e ↦
                let (s, z) = enter_indexed_own ops n status b' o (flag h.flags) e in
                let y = x.1 s z in ground (arith, own, e, not_exhausted a, same, less, y)
          ] in
        record {
          has_entries = r.has_entries;
          same_length = ap suc r.same_length;
          before = λ m u.
              r.before m (omega arith) ∙ enter_indexed_other ops n status b' o m (λ e. above m e u);
          size_kept = r.size_kept ∙ enter_indexed-size ops n status b' o;
          less = omega (arith, strict);
          less_indexed = λ e. strict;
          unchanged = λ e. cc;
          none_due = λ e. cc;
        }
      where
        apart : (m : ℕ) → n ≡ m → n + 1 ≤ m → ⊥
        apart m e u = omega arith

        above : (m : ℕ) → n ≡ m → m < n → ⊥
        above m e u = omega arith

        flag : length o.exhausted ≡ k → n < length o.exhausted
        flag e = omega arith

    -- A stream that is not.
    later-IsRound :
        may_index o n ≡ false
        → IsRound k (n + 1) rest o indexed ss' o'
        → IsRound k n ((b, cs) ∷ rest) o indexed ((b, cs) ∷ ss') o'
    later-IsRound a r =
        let own = r.before n (omega arith) in
        record {
          has_entries = r.has_entries;
          same_length = ap suc r.same_length;
          before = λ m u. r.before m (omega arith);
          size_kept = r.size_kept;
          less = ground (arith, own, r.less);
          less_indexed = λ e. ground (arith, own, r.less_indexed e);
          unchanged = r.unchanged;
          none_due = λ e m u v. elim (ℕ_discrete m n) [
            | yes z ↦ ground (arith, z, a)
            | no z ↦ r.none_due e m (omega arith) (omega arith)
          ];
        }

  pub index_streams_lem :
      (k n : ℕ) (ss : List (B × List C)) (o : ChronologicalOrder)
      → HasEntries k o
      → n + length ss ≤ k
      → let (indexed, ss', o') = index_streams ops n ss o in IsRound k n ss o indexed ss' o'
  unfolding index_streams
  index_streams_lem k n [] o h l = record {
    has_entries = h;
    same_length = refl;
    before = λ m u. refl;
    size_kept = refl;
    less = omega arith;
    less_indexed = λ e. cc;
    unchanged = λ e. refl;
    none_due = λ e m u v. absurd (omega arith);
  }
  index_streams_lem k n ((b, cs) ∷ rest) o h l = elim (Bool-cases (may_index o n)) [
    | inl a ↦
        let (status, b', cs') = index_next ops b cs in
        let o1 = enter_indexed ops n status b' o in
        let h1 = enter_indexed-HasEntries ops n status b' o k h in
        rw a (
          now-IsRound k n b cs rest _ o _ _ h (omega arith) a
            (index_streams_lem k (n + 1) rest o1 h1 (omega arith)))
    | inr a ↦ rw a (
        later-IsRound k n b cs rest _ o _ _ h (omega arith) a
          (index_streams_lem k (n + 1) rest o h (omega arith)))
  ]
