-- ===== src/Iteration/Plan/Complete.antt =====
-- The loops over the StreamBrokers and the groups, and the plan as a whole.
use sbio.Prelude.{
  ℕ, zero, suc, ◌+◌, ◌≤◌, ◌<◌, ◌≡◌, refl, sym, Option, some, List, [], ◌∷◌, length, get_elem?,
  arith, ℕ_discrete, Each,
}
use mathlib.Core.Path.{subst}
use sbio.Topology.Segments.{HasPatterns}
use sbio.Iteration.Plan.{Group, Fetch, plan_broker, plan_group, plan_groups, plan_fetches}
use sbio.Iteration.Plan.Planned.{IsPlan, Covers, Grows, Grows-Covers, plan_broker_lem}

-- The StreamBrokers of all groups.
abbrev pub count_brokers : List Group → ℕ
count_brokers [] = 0
count_brokers (g ∷ gs) = length g.topology.stream_brokers + count_brokers gs

module _ (groups : List Group) where
  plan_group_lem :
      (group : ℕ) (g : Group) (n b : ℕ) (fetches : List Fetch)
      → IsPlan groups fetches
      → get_elem? groups group ≡ some g
      → b + n ≤ length g.topology.stream_brokers
      → HasPatterns g.topology
      → IsPlan groups (plan_group groups group g n b fetches)
        × ((c : ℕ) → b ≤ c → c < b + n → Covers groups (plan_group groups group g n b fetches) g c)
        × Grows groups fetches (plan_group groups group g n b fetches)
        × (length (plan_group groups group g n b fetches) ≤ length fetches + n)
  unfolding plan_group
  plan_group_lem group g zero b fetches i at l h =
      (i, λ c u v. absurd (omega arith), (omega arith, λ j f q. q), omega arith)
  plan_group_lem group g (suc n) b fetches i at l h =
      let (j, c, o, w) = plan_broker_lem groups group g b fetches i at (omega arith) h in
      let (j', c', o', w') =
        plan_group_lem group g n (b + 1) (plan_broker groups group g b fetches) j at (omega arith)
          h in
      (
        j',
        λ d u v. elim (ℕ_discrete d b) [
          | yes e ↦
              Grows-Covers groups _ _ g d o'
                (subst (λ x. Covers groups (plan_broker groups group g b fetches) g x) (sym e) c)
          | no e ↦ c' d (omega arith) (omega arith)
        ],
        (omega arith, λ k f q. o'.1 k f (o.1 k f q)),
        omega arith,
      )

  plan_groups_lem :
      (gs : List Group) (group : ℕ) (fetches : List Fetch)
      → IsPlan groups fetches
      → ((k : ℕ) (g : Group) → get_elem? gs k ≡ some g → get_elem? groups (group + k) ≡ some g)
      → Each (λ g. HasPatterns g.topology) gs
      → IsPlan groups (plan_groups groups gs group fetches)
        × ((k b : ℕ) (g : Group)
            → get_elem? gs k ≡ some g
            → b < length g.topology.stream_brokers
            → Covers groups (plan_groups groups gs group fetches) g b)
        × Grows groups fetches (plan_groups groups gs group fetches)
        × (length (plan_groups groups gs group fetches) ≤ length fetches + count_brokers gs)
  unfolding plan_groups
  plan_groups_lem [] group fetches i at h =
      (i, λ k b g q l. cc, (omega arith, λ j f q. q), omega arith)
  plan_groups_lem (g ∷ gs) group fetches i at h =
      let next = plan_group groups group g (length g.topology.stream_brokers) 0 fetches in
      let (j, c, o, w) =
        plan_group_lem group g (length g.topology.stream_brokers) 0 fetches i
          (here group (at 0 g refl)) (omega arith) (h 0 g refl) in
      let (j', c', o', w') =
        plan_groups_lem gs (group + 1) next j (λ k u q. shift group k (some u) (at (suc k) u q))
          (λ k u q. h (suc k) u q) in
      (j', all next c o' c', (omega arith, λ k f q. o'.1 k f (o.1 k f q)), omega arith)
    where
      here : {o : Option Group} (n : ℕ) → get_elem? groups (n + 0) ≡ o → get_elem? groups n ≡ o
      here {o} n q = subst (λ x. get_elem? groups x ≡ o) (back n) q
        where
          back : (n : ℕ) → n + 0 ≡ n
          back n = omega arith

      shift :
          (n k : ℕ) (o : Option Group)
          → get_elem? groups (n + suc k) ≡ o
          → get_elem? groups (n + 1 + k) ≡ o
      shift n k o q = subst (λ x. get_elem? groups x ≡ o) (back n k) q
        where
          back : (n k : ℕ) → n + suc k ≡ n + 1 + k
          back n k = omega arith

      all :
          (next : List Fetch)
          → ((c : ℕ) → 0 ≤ c → c < 0 + length g.topology.stream_brokers → Covers groups next g c)
          → Grows groups next (plan_groups groups gs (group + 1) next)
          → ((k b : ℕ) (u : Group)
              → get_elem? gs k ≡ some u
              → b < length u.topology.stream_brokers
              → Covers groups (plan_groups groups gs (group + 1) next) u b)
          → (k b : ℕ) (u : Group) → get_elem? (g ∷ gs) k ≡ some u
          → b < length u.topology.stream_brokers
          → Covers groups (plan_groups groups gs (group + 1) next) u b
      all next c o r zero b u q l =
          subst (λ x. Covers groups (plan_groups groups gs (group + 1) next) x b) (the_head q)
            (Grows-Covers groups next _ g b o (c b (omega arith) (in_group q l)))
        where
          the_head : some g ≡ some u → g ≡ u
          the_head q = cc

          in_group :
              some g ≡ some u
              → b < length u.topology.stream_brokers
              → b < 0 + length g.topology.stream_brokers
          in_group q l = ground arith
      all next c o r (suc k) b u q l = r k b u q l

-- Where each StreamBroker of the groups has its access pattern: the plan has a fetch that does for every
-- StreamBroker of every group, and no two fetches that are the same. As far as groups of the same type
-- are concerned, a fetch with a buffer of its own fills none that an earlier one fills, and a fetch that
-- refers to another one has its buffer in common with that one, which is earlier and has its own. There
-- are at most as many fetches as the groups have StreamBrokers.
pub plan_fetches_lem :
    (groups : List Group)
    → Each (λ g. HasPatterns g.topology) groups
    → IsPlan groups (plan_fetches groups)
      × ((k b : ℕ) (g : Group)
          → get_elem? groups k ≡ some g
          → b < length g.topology.stream_brokers
          → Covers groups (plan_fetches groups) g b)
      × (length (plan_fetches groups) ≤ count_brokers groups)
unfolding plan_fetches
plan_fetches_lem groups h =
    let (i, c, _, w) = plan_groups_lem groups groups 0 [] nothing (λ k g q. start k (some g) q) h in
    (i, c, omega arith)
  where
    nothing : IsPlan groups []
    nothing = record {
      valid = λ j f q. cc;
      distinct = λ i j f h g u q r v. cc;
      own_buffer = λ i j f h g u q r v w. cc;
      other_buffer = λ j k h g q v w. cc;
    }

    start : (k : ℕ) (o : Option Group) → get_elem? groups k ≡ o → get_elem? groups (0 + k) ≡ o
    start k o q = subst (λ x. get_elem? groups x ≡ o) (back k) q
      where
        back : (k : ℕ) → k ≡ 0 + k
        back k = omega arith
