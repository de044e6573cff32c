-- ===== src/Broker/Lifecycle/Chunks.antt =====
-- A StreamBroker that has moved on to another chunk.
use sbio.Prelude.{
  ◌⊎◌, get_or, Bool, ℕ, ◌≡◌, sym, ap, ◌∙◌, inl, inr, true, false, ◌&&◌, List, arith, if◌then◌else◌,
  Bool-cases,
}
use mathlib.Core.Path.{subst}
use sbio.Io.{IoStatus, ok}
use sbio.Broker.Lifecycle.{
  BrokerState, StreamResource, StreamBroker, Parts, discover_metadata, advance_roles, advance_chunk,
}
use sbio.Broker.Lifecycle.Moved.{
  Advances, any_moved, moved_roles, moves-moved_roles, advance_roles-Advances,
}
use sbio.Broker.Lifecycle.Roles.{next_resources, moves, zero_add, advance_roles_lem, advance_again}

module _ {D : Type 0} (parts : Parts D) where
  -- A StreamBroker that has moved to a chunk.
  abbrev moved_to :
      List StreamResource → ℕ → BrokerState → StreamBroker D → (ℕ → ℕ) → D → StreamBroker D
  moved_to nexts chain_id state b next_offset env = record {
    state = state;
    resources = next_resources b.resources nexts;
    next_offset = next_offset;
    chain_id = chain_id;
    chunk_complete = false;
    env = env;
  }

  moved_to_again :
      (nexts : List StreamResource) (chain_id : ℕ) (state : BrokerState) (b : StreamBroker D)
      (next_offset : ℕ → ℕ) (env : D)
      → advance_chunk parts nexts chain_id (moved_to nexts chain_id state b next_offset env)
        ≡ (IoStatus.success, moved_to nexts chain_id state b next_offset env)
  unfolding advance_chunk
  moved_to_again nexts chain_id state b next_offset env =
      ground (arith, advance_again parts 0 b.resources nexts next_offset false env)

  -- The metadata of the next chunk is discovered after a reset where it has to be, and nothing is done
  -- where it need not.
  abbrev pub Rediscovered : StreamBroker D → Bool → D → StreamBroker D → Type 0
  Rediscovered b reopened env b' =
      (((parts.rediscovers_per_chunk && reopened) ≡ true)
        × (parts.discover (parts.reset env) ≡ (IoStatus.success, b'.env))
        × (b'.state ≡ BrokerState.ready))
      ⊎ (((parts.rediscovers_per_chunk && reopened) ≡ false)
          × (b'.env ≡ env)
          × (b'.state ≡ b.state))

  -- What `advance_chunk` leaves when it succeeds.
  advance_chunk_state :
      (nexts : List StreamResource) (chain_id : ℕ) (b b' : StreamBroker D)
      → advance_chunk parts nexts chain_id b ≡ (IoStatus.success, b')
      → let a = advance_roles parts 0 b.resources nexts b.next_offset false b.env in
        (ok a.status ≡ true)
        × (b' ≡ moved_to nexts chain_id b'.state b a.next_offset b'.env)
        × Rediscovered b a.reopened a.env b'
  unfolding advance_chunk discover_metadata
  advance_chunk_state nexts chain_id b b' e =
      let a = advance_roles parts 0 b.resources nexts b.next_offset false b.env in
      elim (Bool-cases (ok a.status)) [
        | inr q ↦ absurd (ground (arith, e, q))
        | inl q ↦
            let r = (advance_roles_lem parts 0 b.resources nexts b.next_offset false b.env q).0 in
            let d = parts.discover (parts.reset a.env) in
            elim (Bool-cases (parts.rediscovers_per_chunk && a.reopened)) [
              | inl m ↦
                  let found : parts.discover (parts.reset a.env) ≡ (IoStatus.success, b'.env) =
                    ground (arith, e, q, m) in
                  (q, ground (arith, e, q, m, r), inl (m, found, ground (arith, e, q, m)))
              | inr m ↦ (
                q,
                ground (arith, e, q, m, r),
                inr (m, ground (arith, e, q, m), ground (arith, e, q, m)),
              )
            ]
      ]

  -- `advance_chunk` that succeeds has gone through the roles: one whose resource is not given or is the
  -- one it has keeps it, and keeps its stream, open or closed; any other one has its stream closed, then
  -- connected to the next resource, which it has from then on. Reading goes on from offset 0 in the
  -- roles that moved and from where it was in the others. The next chunk's number is taken, as one that
  -- is not complete. Where the format discovers its metadata in each chunk and a role moved, the state
  -- of the index and the metadata are reset, the metadata is discovered, and the StreamBroker is ready;
  -- otherwise nothing else changes. To advance to the same chunk once more succeeds and changes nothing.
  pub advance_chunk_lem :
      (nexts : List StreamResource) (chain_id : ℕ) (b b' : StreamBroker D)
      → advance_chunk parts nexts chain_id b ≡ (IoStatus.success, b')
      → (moved : List Bool) × (env : D) × Advances parts 0 b.resources nexts b.env b'.resources
          moved env
        × ((k : ℕ) → b'.next_offset k ≡ (if get_or moved k false then 0 else b.next_offset k))
        × (b'.chain_id ≡ chain_id)
        × (b'.chunk_complete ≡ false)
        × Rediscovered b (any_moved moved) env b'
        × (advance_chunk parts nexts chain_id b' ≡ (IoStatus.success, b'))
  advance_chunk_lem nexts chain_id b b' e =
      let (q, same, found) = advance_chunk_state nexts chain_id b b' e in
      let a = advance_roles parts 0 b.resources nexts b.next_offset false b.env in
      let h = (advance_roles_lem parts 0 b.resources nexts b.next_offset false b.env q).1 in
      let (roles, flag) =
        advance_roles-Advances parts 0 b.resources nexts b.next_offset false b.env q in
      let moved = moved_roles b.resources nexts in
      (
        moved,
        a.env,
        subst (λ rs. Advances parts 0 b.resources nexts b.env rs moved a.env)
            (sym (ap (λ x. x.resources) same)) roles,
        (λ k.
            ap (λ x. x.next_offset k) same
            ∙ subst
                (λ j. a.next_offset j ≡ (if moves b.resources nexts k then 0 else b.next_offset j))
                (zero_add k) (h k)
            ∙ ap (λ m. if m then 0 else b.next_offset k) (moves-moved_roles b.resources nexts k)),
        ap (λ x. x.chain_id) same,
        ap (λ x. x.chunk_complete) same,
        subst (λ m. Rediscovered b m a.env b') flag found,
        subst (λ x. advance_chunk parts nexts chain_id x ≡ (IoStatus.success, x)) (sym same)
            (moved_to_again nexts chain_id b'.state b a.next_offset b'.env),
      )
