-- ===== src/Broker/Lifecycle/Moved.antt =====
-- The roles that move on to another chunk, described by their resources.
use sbio.Prelude.{
  ℕ, zero, suc, ◌+◌, ◌%◌, ◌^◌, ◌≡◌, ◌⊎◌, refl, sym, ap, ◌∙◌, inl, inr, Bool, true, false, ◌||◌,
  List, [], ◌∷◌, arith, ◌==◌, if◌then◌else◌, Bool-cases, get_or,
}
use mathlib.Core.Path.{subst}
use sbio.Io.{IoStatus, ok, ok_lem}
use sbio.Broker.Lifecycle.{
  StreamResource, path, file_descriptor, memory_region, same_path, same_resource, is_given,
  is_moved, Parts, connect_resource, advance_roles,
}
use sbio.Broker.Lifecycle.Roles.{next_resources, moves, advance_pass, connected, offset_after}

-- Two resources stand for the same one. Regions of memory do where the ends of their addresses agree.
abbrev pub IsAlike : StreamResource → StreamResource → Type 0
IsAlike (path a) (path b) = a ≡ b
IsAlike (file_descriptor a) (file_descriptor b) = a ≡ b
IsAlike (memory_region a size_a) (memory_region b size_b) = a % 2 ^ 32 ≡ b % 2 ^ 32
IsAlike a b = ⊥

-- The next chunk gives no resource for a role, or the one that it has.
abbrev pub IsKept : StreamResource → StreamResource → Type 0
IsKept current next = (next ≡ path []) ⊎ IsAlike next current

same_path_cases :
    (p q : List ℕ) → ((same_path p q ≡ true) × (p ≡ q)) ⊎ ((same_path p q ≡ false) × ¬ (p ≡ q))
unfolding same_path
same_path_cases [] [] = inl (refl, refl)
same_path_cases [] (b ∷ q) = inr (refl, λ e. cc)
same_path_cases (a ∷ p) [] = inr (refl, λ e. cc)
same_path_cases (a ∷ p) (b ∷ q) = elim (Bool-cases (a == b)) [
  | inr n ↦ inr (ground (arith, n), λ e. ground (arith, n, e))
  | inl y ↦ elim (same_path_cases p q) [
    | inl (s, e) ↦ inl (ground (arith, y, s), ground (arith, y, e))
    | inr (s, d) ↦ inr (ground (arith, y, s), λ e. ground (arith, d, e))
  ]
]

same_resource_cases :
    (a b : StreamResource)
    → ((same_resource a b ≡ true) × IsAlike a b) ⊎ ((same_resource a b ≡ false) × ¬ IsAlike a b)
unfolding same_resource
same_resource_cases (path p) (path q) = same_path_cases p q
same_resource_cases (path p) (file_descriptor b) = inr (refl, λ e. e)
same_resource_cases (path p) (memory_region b t) = inr (refl, λ e. e)
same_resource_cases (file_descriptor a) (path q) = inr (refl, λ e. e)
same_resource_cases (file_descriptor a) (file_descriptor b) = elim (Bool-cases (a == b)) [
  | inl y ↦ inl (y, ground arith)
  | inr n ↦ inr (n, λ e. ground (arith, n, e))
]
same_resource_cases (file_descriptor a) (memory_region b t) = inr (refl, λ e. e)
same_resource_cases (memory_region a s) (path q) = inr (refl, λ e. e)
same_resource_cases (memory_region a s) (file_descriptor b) = inr (refl, λ e. e)
same_resource_cases (memory_region a s) (memory_region b t) =
    elim (Bool-cases (a % 2 ^ 32 == b % 2 ^ 32)) [
      | inl y ↦ inl (y, ground arith)
      | inr n ↦ inr (n, λ e. ground (arith, n, e))
    ]

is_given_cases :
    (res : StreamResource)
    → ((is_given res ≡ true) × ¬ (res ≡ path [])) ⊎ ((is_given res ≡ false) × (res ≡ path []))
unfolding is_given
is_given_cases (path []) = inr (refl, refl)
is_given_cases (path (a ∷ p)) = inl (refl, λ e. cc)
is_given_cases (file_descriptor n) = inl (refl, λ e. cc)
is_given_cases (memory_region a s) = inl (refl, λ e. cc)

is_moved_cases :
    (c n : StreamResource)
    → ((is_moved c n ≡ true) × ¬ IsKept c n) ⊎ ((is_moved c n ≡ false) × IsKept c n)
unfolding is_moved
is_moved_cases c n = elim (is_given_cases n) [
  | inr (g, e) ↦ inr (ground (arith, g), inl e)
  | inl (g, d) ↦ elim (same_resource_cases n c) [
    | inl (s, a) ↦ inr (ground (arith, g, s), inr a)
    | inr (s, a) ↦ inl (ground (arith, g, s), neither c n d a)
  ]
]
  where
    neither : (c n : StreamResource) → ¬ (n ≡ path []) → ¬ IsAlike n c → ¬ IsKept c n
    neither c n d a (inl e) = d e
    neither c n d a (inr e) = a e

or_assoc : (a b c : Bool) → ((a || b) || c) ≡ (a || (b || c))
or_assoc true b c = refl
or_assoc false b c = refl

-- Which roles move.
pub moved_roles : List StreamResource → List StreamResource → List Bool
moved_roles (c ∷ cs) (n ∷ ns) = is_moved c n ∷ moved_roles cs ns
moved_roles cs ns = []

pub any_moved : List Bool → Bool
any_moved [] = false
any_moved (m ∷ ms) = m || any_moved ms

pub moves-moved_roles :
    (cs ns : List StreamResource) (k : ℕ) → moves cs ns k ≡ get_or (moved_roles cs ns) k false
unfolding moves moved_roles
moves-moved_roles [] ns k = refl
moves-moved_roles (c ∷ cs) [] zero = refl
moves-moved_roles (c ∷ cs) [] (suc k) = refl
moves-moved_roles (c ∷ cs) (n ∷ ns) zero = refl
moves-moved_roles (c ∷ cs) (n ∷ ns) (suc k) = moves-moved_roles cs ns k

module _ {D : Type 0} (parts : Parts D) where
  -- The roles from one on, from their resources to those of the next chunk: a role that is kept has its
  -- stream as it was, and one that moves has its stream closed and then connected to the next resource.
  -- The flags tell which ones move.
  pub data Advances
      : ℕ
        → List StreamResource
        → List StreamResource
        → D
        → List StreamResource
        → List Bool
        → D
        → Type 0 where
    no_role : {r : ℕ} {ns : List StreamResource} {env : D} → Advances r [] ns env [] [] env
    no_next :
        {r : ℕ} {c : StreamResource} {cs : List StreamResource} {env : D}
        → Advances r (c ∷ cs) [] env (c ∷ cs) [] env
    keep :
        {r : ℕ} {c n : StreamResource} {cs ns rs : List StreamResource} {ms : List Bool}
        {env env' : D}
        → IsKept c n
        → Advances (r + 1) cs ns env rs ms env'
        → Advances r (c ∷ cs) (n ∷ ns) env (c ∷ rs) (false ∷ ms) env'
    move :
        {r : ℕ} {c n : StreamResource} {cs ns rs : List StreamResource} {ms : List Bool}
        {env opened env' : D}
        → ¬ IsKept c n
        → connect_resource parts r n (parts.close r env) ≡ (IoStatus.success, opened)
        → Advances (r + 1) cs ns opened rs ms env'
        → Advances r (c ∷ cs) (n ∷ ns) env (n ∷ rs) (true ∷ ms) env'

  connected_kept :
      (r : ℕ) (c n : StreamResource) (env : D)
      → is_moved c n ≡ false
      → (connected parts r c n env).1 ≡ env
  connected_kept r c n env q = ground (arith, q)

  connected_moved :
      (r : ℕ) (c n : StreamResource) (env : D)
      → is_moved c n ≡ true
      → ok (connected parts r c n env).0 ≡ true
      → connect_resource parts r n (parts.close r env)
        ≡ (IoStatus.success, (connected parts r c n env).1)
  connected_moved r c n env q e =
      let there : connected parts r c n env ≡ connect_resource parts r n (parts.close r env) =
        ground (arith, q) in
      sym there
      ∙ ap (λ x. (x, (connected parts r c n env).1)) (ok_lem (connected parts r c n env).0 e)

  connected-ok :
      (r : ℕ) (c n : StreamResource) (cs ns : List StreamResource) (next_offset : ℕ → ℕ)
      (reopened : Bool) (env : D)
      → ok (advance_roles parts r (c ∷ cs) (n ∷ ns) next_offset reopened env).status ≡ true
      → ok (connected parts r c n env).0 ≡ true
  unfolding advance_roles
  connected-ok r c n cs ns next_offset reopened env e =
      elim (Bool-cases (ok (connected parts r c n env).0)) [
        | inl q ↦ q
        | inr q ↦ absurd (ground (arith, e, q))
      ]

  -- A role that is entered is kept or moves as its resources say.
  advance_role :
      (r : ℕ) (c n : StreamResource) (cs ns rs : List StreamResource) (ms : List Bool)
      (env env' : D)
      → ok (connected parts r c n env).0 ≡ true
      → Advances (r + 1) cs ns (connected parts r c n env).1 rs ms env'
      → Advances r
          (c ∷ cs)
          (n ∷ ns)
          env
          ((if is_moved c n then n else c) ∷ rs)
          (is_moved c n ∷ ms)
          env'
  advance_role r c n cs ns rs ms env env' e a = elim (is_moved_cases c n) [
    | inl (q, d) ↦ let here = move d (connected_moved r c n env q e) a in rw q here
    | inr (q, k) ↦
        let here =
          keep k
            (subst (λ x. Advances (r + 1) cs ns x rs ms env') (connected_kept r c n env q) a) in
        rw q here
  ]

  pub advance_roles-Advances :
      (r : ℕ) (cs ns : List StreamResource) (next_offset : ℕ → ℕ) (reopened : Bool) (env : D)
      → ok (advance_roles parts r cs ns next_offset reopened env).status ≡ true
      → Advances r cs ns env
          (next_resources cs ns)
          (moved_roles cs ns)
          (advance_roles parts r cs ns next_offset reopened env).env
        × ((advance_roles parts r cs ns next_offset reopened env).reopened
            ≡ (reopened || any_moved (moved_roles cs ns)))
  unfolding next_resources moved_roles any_moved advance_roles
  advance_roles-Advances r [] ns next_offset reopened env e = (no_role, ground arith)
  advance_roles-Advances r (c ∷ cs) [] next_offset reopened env e = (no_next, ground arith)
  advance_roles-Advances r (c ∷ cs) (n ∷ ns) next_offset reopened env e =
      let (o, a) = advance_pass parts r c n cs ns next_offset reopened env e in
      let (i, j) =
        advance_roles-Advances (r + 1) cs ns (offset_after parts r c n next_offset)
          (reopened || is_moved c n) (connected parts r c n env).1 o in
      let role =
        advance_role r c n cs ns (next_resources cs ns) (moved_roles cs ns) env _
          (connected-ok r c n cs ns next_offset reopened env e) i in
      (
        subst
            (λ x.
              Advances r (c ∷ cs) (n ∷ ns) env (next_resources (c ∷ cs) (n ∷ ns))
                (moved_roles (c ∷ cs) (n ∷ ns)) x)
            (sym (ap (λ x. x.env) a)) role,
        ap (λ x. x.reopened) a
            ∙ j
            ∙ or_assoc reopened (is_moved c n) (any_moved (moved_roles cs ns)),
      )
