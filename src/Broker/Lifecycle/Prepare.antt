-- ===== src/Broker/Lifecycle/Prepare.antt =====
-- What is left after a StreamBroker is prepared.
use sbio.Prelude.{◌≡◌, ◌⊎◌, refl, ap, inl, inr, false, arith, Bool-cases}
use sbio.Io.{IoStatus, ok, ok_lem}
use sbio.Broker.Lifecycle.{
  BrokerState, StreamBroker, Parts, allocate_storage, connect_all, open_data_stream,
  discover_metadata, prepare,
}

module _ {D : Type 0} (parts : Parts D) where
  -- `prepare` that succeeds has connected all resources in order and discovered the metadata, and leaves
  -- the StreamBroker ready; where anything fails it leaves it in the error state.
  pub prepare_lem :
      (b : StreamBroker D)
      → ((b' : StreamBroker D) × (env : D) × (prepare parts b ≡ (IoStatus.success, b'))
          × (b'.state ≡ BrokerState.ready)
          × (connect_all parts 0 b.resources (parts.allocate_storage b.env)
              ≡ (IoStatus.success, env))
          × (parts.discover env ≡ (IoStatus.success, b'.env)))
        ⊎ ((status : IoStatus) × (b' : StreamBroker D) × (prepare parts b ≡ (status, b'))
            × (ok status ≡ false)
            × (b'.state ≡ BrokerState.error_state))
  unfolding prepare open_data_stream discover_metadata allocate_storage
  prepare_lem b =
      let c = connect_all parts 0 b.resources (parts.allocate_storage b.env) in
      let d = parts.discover c.1 in
      elim (Bool-cases (ok c.0)) [
        | inr q ↦ inr (
          c.0,
          record b { state = BrokerState.error_state; env = c.1 },
          ground (arith, q),
          q,
          refl,
        )
        | inl q ↦ elim (Bool-cases (ok d.0)) [
          | inl p ↦ inl (
            record b { state = BrokerState.ready; env = d.1 },
            c.1,
            ground (arith, q, p, ok_lem d.0 p),
            refl,
            ap (λ x. (x, c.1)) (ok_lem c.0 q),
            ap (λ x. (x, d.1)) (ok_lem d.0 p),
          )
          | inr p ↦ inr (
            d.0,
            record b { state = BrokerState.error_state; env = d.1 },
            ground (arith, q, p),
            p,
            refl,
          )
        ]
      ]
