-- ===== src/Broker/Lifecycle/Roles.antt =====
-- The roles of a StreamBroker that moves on to another chunk.
use sbio.Prelude.{
  ℕ, zero, suc, ◌+◌, ◌<◌, ◌≡◌, refl, ap, ◌∙◌, inl, inr, Bool, true, false, ◌||◌, List, [], ◌∷◌,
  arith, if◌then◌else◌, Bool-cases,
}
use sbio.Io.{IoStatus, ok}
use sbio.Broker.Index.{write}
use sbio.Broker.Lifecycle.{
  StreamResource, same_path, same_resource, is_moved, connect_resource, Parts, Advance,
  advance_roles,
}

same_path_refl : (p : List ℕ) → same_path p p ≡ true
unfolding same_path
same_path_refl [] = refl
same_path_refl (a ∷ rest) = ground (arith, same_path_refl rest)

same_resource_refl : (res : StreamResource) → same_resource res res ≡ true
unfolding same_resource
same_resource_refl (StreamResource.path p) = same_path_refl p
same_resource_refl (StreamResource.file_descriptor n) = ground arith
same_resource_refl (StreamResource.memory_region ptr size) = ground arith

-- A resource that has been moved to is not moved to again.
is_moved_again :
    (current next : StreamResource)
    → is_moved (if is_moved current next then next else current) next ≡ false
unfolding is_moved
is_moved_again current next = ground (arith, same_resource_refl next)

-- The resources of the roles in the next chunk.
unfoldable pub next_resources : List StreamResource → List StreamResource → List StreamResource
next_resources (current ∷ currents) (next ∷ nexts) =
    (if is_moved current next then next else current) ∷ next_resources currents nexts
next_resources currents nexts = currents

-- Whether role `k` moves.
unfoldable pub moves : List StreamResource → List StreamResource → ℕ → Bool
moves (current ∷ currents) (next ∷ nexts) zero = is_moved current next
moves (current ∷ currents) (next ∷ nexts) (suc k) = moves currents nexts k
moves currents nexts k = false

pub zero_add : (k : ℕ) → 0 + k ≡ k
zero_add k = omega arith

moves-nil : (cs : List StreamResource) (k : ℕ) → moves cs [] k ≡ false
unfolding moves
moves-nil [] k = refl
moves-nil (c ∷ cs) zero = refl
moves-nil (c ∷ cs) (suc k) = refl

module _ {D : Type 0} (parts : Parts D) where
  abbrev pub connected : ℕ → StreamResource → StreamResource → D → IoStatus × D
  connected r c n env =
      if is_moved c n
      then connect_resource parts r n (parts.close r env)
      else (IoStatus.success, env)

  abbrev pub offset_after : ℕ → StreamResource → StreamResource → (ℕ → ℕ) → ℕ → ℕ
  offset_after r c n next_offset = if is_moved c n then write next_offset r 0 else next_offset

  -- What the loop does after the role that it is at.
  abbrev later :
      ℕ
      → StreamResource
      → StreamResource
      → List StreamResource
      → List StreamResource
      → (ℕ → ℕ)
      → Bool
      → D
      → Advance parts
  later r c n cs ns next_offset reopened env =
      advance_roles parts (r + 1) cs ns (offset_after r c n next_offset) (reopened || is_moved c n)
        (connected r c n env).1

  pub advance_pass :
      (r : ℕ) (c n : StreamResource) (cs ns : List StreamResource) (next_offset : ℕ → ℕ)
      (reopened : Bool) (env : D)
      → ok (advance_roles parts r (c ∷ cs) (n ∷ ns) next_offset reopened env).status ≡ true
      → (ok (later r c n cs ns next_offset reopened env).status ≡ true)
        × (advance_roles parts r (c ∷ cs) (n ∷ ns) next_offset reopened env
            ≡ record (later r c n cs ns next_offset reopened env) {
              resources =
                  (if is_moved c n then n else c)
                  ∷ (later r c n cs ns next_offset reopened env).resources;
            })
  unfolding advance_roles
  advance_pass r c n cs ns next_offset reopened env e =
      elim (Bool-cases (ok (connected r c n env).0)) [
        | inl q ↦ (ground (arith, e, q), ground (arith, q))
        | inr q ↦ absurd (ground (arith, e, q))
      ]

  offsets_at :
      (after : ℕ → ℕ) (r : ℕ) (c n : StreamResource) (cs ns : List StreamResource)
      (next_offset : ℕ → ℕ)
      → ((k : ℕ)
          → after (r + 1 + k)
            ≡ (if moves cs ns k then 0 else offset_after r c n next_offset (r + 1 + k)))
      → after r ≡ offset_after r c n next_offset r
      → (k : ℕ) → after (r + k) ≡ (if moves (c ∷ cs) (n ∷ ns) k then 0 else next_offset (r + k))
  unfolding moves
  offsets_at after r c n cs ns next_offset h g zero =
      let here : r + 0 ≡ r = omega arith in ap after here ∙ g ∙ ground (arith, ap next_offset here)
  offsets_at after r c n cs ns next_offset h g (suc k) =
      let there : r + suc k ≡ r + 1 + k = omega arith in
      let kept : offset_after r c n next_offset (r + 1 + k) ≡ next_offset (r + 1 + k) =
        ground arith in
      ap after there ∙ h k ∙ ground (arith, kept, ap next_offset there)

  -- The resources after the loop, and the offsets that reading goes on from.
  pub advance_roles_lem :
      (r : ℕ) (cs ns : List StreamResource) (next_offset : ℕ → ℕ) (reopened : Bool) (env : D)
      → ok (advance_roles parts r cs ns next_offset reopened env).status ≡ true
      → ((advance_roles parts r cs ns next_offset reopened env).resources ≡ next_resources cs ns)
        × ((k : ℕ)
            → (advance_roles parts r cs ns next_offset reopened env).next_offset (r + k)
              ≡ (if moves cs ns k then 0 else next_offset (r + k)))
        × ((j : ℕ)
            → j < r
            → (advance_roles parts r cs ns next_offset reopened env).next_offset j ≡ next_offset j)
  unfolding next_resources moves advance_roles
  advance_roles_lem r [] ns next_offset reopened env e = (refl, (λ k. refl), λ j l. refl)
  advance_roles_lem r (c ∷ cs) [] next_offset reopened env e =
      (refl, (λ k. ground (arith, moves-nil (c ∷ cs) k)), λ j l. refl)
  advance_roles_lem r (c ∷ cs) (n ∷ ns) next_offset reopened env e =
      let (o, a) = advance_pass r c n cs ns next_offset reopened env e in
      let (i, h, g) =
        advance_roles_lem (r + 1) cs ns (offset_after r c n next_offset) (reopened || is_moved c n)
          (connected r c n env).1 o in
      (
        ap (λ x. x.resources) a ∙ ap (λ x. (if is_moved c n then n else c) ∷ x) i,
        (λ k.
            ap (λ x. x.next_offset (r + k)) a
            ∙ offsets_at (later r c n cs ns next_offset reopened env).next_offset r c n cs ns
                next_offset h (g r (omega arith)) k),
        λ j l. ap (λ x. x.next_offset j) a ∙ g j (omega arith) ∙ ground arith,
      )

  -- A second pass over the same roles connects nothing.
  pub advance_again :
      (r : ℕ) (cs ns : List StreamResource) (next_offset : ℕ → ℕ) (reopened : Bool) (env : D)
      → advance_roles parts r (next_resources cs ns) ns next_offset reopened env ≡ record {
        status = IoStatus.success;
        resources = next_resources cs ns;
        next_offset = next_offset;
        reopened = reopened;
        env = env;
      }
  unfolding next_resources advance_roles
  advance_again r [] ns next_offset reopened env = refl
  advance_again r (c ∷ cs) [] next_offset reopened env = refl
  advance_again r (c ∷ cs) (n ∷ ns) next_offset reopened env =
      let kept = is_moved_again c n in
      let i = advance_again (r + 1) cs ns next_offset reopened env in
      let same : (reopened || false) ≡ reopened = ground arith in ground (arith, kept, i, same)
