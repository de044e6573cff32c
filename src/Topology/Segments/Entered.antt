-- ===== src/Topology/Segments/Entered.antt =====
-- The constructor of a topology enters each StreamBroker with the access pattern of its first segment.
use sbio.Prelude.{
  ℕ, zero, suc, ◌≡◌, refl, sym, ◌∙◌, inl, inr, true, false, ◌||◌, none, some, List, [], ◌∷◌, ◌++◌,
  length, get_elem?, arith, ◌==◌, Bool-cases, length-append, get_elem?-snoc, get_elem?-lt,
}
use mathlib.Core.Path.{subst}
use mathlib.Core.List.{append_assoc, append-nil}
use sbio.Topology.{SegmentRef, first_of_broker, contains, add_brokers, create}
use sbio.Topology.Segments.{HasPatterns, HasSegments, first_of_broker_lem}

first_of_broker-append_some :
    (xs ys : List SegmentRef) (b : ℕ) (s : SegmentRef)
    → first_of_broker xs b ≡ some s
    → first_of_broker (xs ++ ys) b ≡ some s
unfolding first_of_broker
first_of_broker-append_some [] ys b s e = cc
first_of_broker-append_some (x ∷ xs) ys b s e = elim (Bool-cases (x.broker == b)) [
  | inl a ↦ ground arith
  | inr a ↦ ground (arith, first_of_broker-append_some xs ys b s)
]

first_of_broker-append_none :
    (xs ys : List SegmentRef) (b : ℕ)
    → first_of_broker xs b ≡ none
    → first_of_broker (xs ++ ys) b ≡ first_of_broker ys b
unfolding first_of_broker
first_of_broker-append_none [] ys b e = refl
first_of_broker-append_none (x ∷ xs) ys b e = elim (Bool-cases (x.broker == b)) [
  | inl a ↦ absurd (ground arith)
  | inr a ↦ ground (arith, first_of_broker-append_none xs ys b)
]

contains-snoc : (xs : List ℕ) (y b : ℕ) → contains (xs ++ y ∷ []) b ≡ (contains xs b || (y == b))
unfolding contains
contains-snoc [] y b = ground arith
contains-snoc (x ∷ xs) y b = ground (arith, contains-snoc xs y b)

contains_at : (xs : List ℕ) (i b : ℕ) → get_elem? xs i ≡ some b → contains xs b ≡ true
unfolding contains
contains_at [] i b e = cc
contains_at (x ∷ xs) zero b e = ground arith
contains_at (x ∷ xs) (suc i) b e = ground (arith, contains_at xs i b e)

-- The loop of the constructor, after the segments `done`.
record IsEntered (done : List SegmentRef) (brokers ptns : List ℕ) : Type 0 where
  same_length : length ptns ≡ length brokers
  entered :
      (b broker ptn : ℕ)
      → get_elem? brokers b ≡ some broker
      → get_elem? ptns b ≡ some ptn
      → (seg : SegmentRef) × (first_of_broker done broker ≡ some seg) × (seg.access_ptn ≡ ptn)
  absent : (broker : ℕ) → contains brokers broker ≡ false → first_of_broker done broker ≡ none

module _ (s : SegmentRef) (done : List SegmentRef) (brokers ptns : List ℕ)
    (i : IsEntered done brokers ptns) where
  last_found : first_of_broker (s ∷ []) s.broker ≡ some s
  unfolding first_of_broker
  last_found = ground arith

  last_other : (broker : ℕ) → (s.broker == broker) ≡ false → first_of_broker (s ∷ []) broker ≡ none
  unfolding first_of_broker
  last_other broker a = ground arith

  new_broker-IsEntered :
      contains brokers s.broker ≡ false
      → IsEntered (done ++ s ∷ []) (brokers ++ s.broker ∷ []) (ptns ++ s.access_ptn ∷ [])
  new_broker-IsEntered c = record {
    same_length = ground (
      arith,
      i.same_length,
      length-append brokers (s.broker ∷ []),
      length-append ptns (s.access_ptn ∷ []),
    );
    entered = λ b broker ptn q r. elim (get_elem?-snoc brokers s.broker b broker q) [
      | inl o ↦ elim (get_elem?-snoc ptns s.access_ptn b ptn r) [
        | inl u ↦
            let (seg, e, p) = i.entered b broker ptn o u in
            (seg, first_of_broker-append_some done (s ∷ []) broker seg e, p)
        | inr (n, _) ↦ absurd (omega (arith, i.same_length, get_elem?-lt brokers b broker o))
      ]
      | inr (n, w) ↦ elim (get_elem?-snoc ptns s.access_ptn b ptn r) [
        | inl u ↦ absurd (omega (arith, i.same_length, get_elem?-lt ptns b ptn u))
        | inr (_, p) ↦ (
          s,
          subst (λ x. first_of_broker (done ++ s ∷ []) x ≡ some s) w
              (first_of_broker-append_none done (s ∷ []) s.broker (i.absent s.broker c)
                ∙ last_found),
          p,
        )
      ]
    ];
    absent = λ broker a. ground (
      arith,
      contains-snoc brokers s.broker broker,
      first_of_broker-append_none done (s ∷ []) broker,
      i.absent broker,
      last_other broker,
    );
  }

  old_broker-IsEntered : contains brokers s.broker ≡ true → IsEntered (done ++ s ∷ []) brokers ptns
  old_broker-IsEntered c = record {
    same_length = i.same_length;
    entered = λ b broker ptn q r.
        let (seg, e, p) = i.entered b broker ptn q r in
        (seg, first_of_broker-append_some done (s ∷ []) broker seg e, p);
    absent = λ broker a. elim (Bool-cases (s.broker == broker)) [
      | inl e ↦ absurd (ground (arith, e, c, a))
      | inr e ↦
          first_of_broker-append_none done (s ∷ []) broker (i.absent broker a) ∙ last_other broker e
    ];
  }

add_brokers-IsEntered :
    (ss done : List SegmentRef) (brokers ptns : List ℕ)
    → IsEntered done brokers ptns
    → IsEntered (done ++ ss) (add_brokers ss brokers ptns).0 (add_brokers ss brokers ptns).1
unfolding add_brokers
add_brokers-IsEntered [] done brokers ptns i =
    subst (λ l. IsEntered l brokers ptns) (sym (append-nil done)) i
add_brokers-IsEntered (s ∷ ss) done brokers ptns i = elim (Bool-cases (contains brokers s.broker)) [
  | inl a ↦ rw a (
      subst (λ l. IsEntered l (add_brokers ss brokers ptns).0 (add_brokers ss brokers ptns).1)
        (append_assoc done (s ∷ []) ss)
        (add_brokers-IsEntered ss (done ++ s ∷ []) brokers ptns
          (old_broker-IsEntered s done brokers ptns i a)))
  | inr a ↦ rw a (
      subst
        (λ l.
          IsEntered l (add_brokers ss (brokers ++ s.broker ∷ []) (ptns ++ s.access_ptn ∷ [])).0
            (add_brokers ss (brokers ++ s.broker ∷ []) (ptns ++ s.access_ptn ∷ [])).1)
        (append_assoc done (s ∷ []) ss)
        (add_brokers-IsEntered ss (done ++ s ∷ []) (brokers ++ s.broker ∷ [])
          (ptns ++ s.access_ptn ∷ []) (new_broker-IsEntered s done brokers ptns i a)))
]

initial : IsEntered [] [] []
unfolding first_of_broker
initial = record { same_length = refl; entered = λ b broker ptn q r. cc; absent = λ broker a. refl }

-- In a constructed group each StreamBroker has its access pattern, and its first segment has that too.
pub create-HasSegments :
    (segs : List SegmentRef) → HasPatterns (create segs) × HasSegments (create segs)
unfolding create
create-HasSegments segs =
    let i = add_brokers-IsEntered segs [] [] [] initial in
    (
      i.same_length,
      λ b broker ptn q r.
          let (seg, e, p) = i.entered b broker ptn q r in
          let (_, _, w) = first_of_broker_lem segs broker seg e in (seg, e, w, p),
    )
