-- ===== src/Broker/Lifecycle/Tests.antt =====
-- A StreamBroker of two roles, of which the first has another file in the next chunk.
use sbio.Prelude.{
  ℕ, ◌+◌, ◌≡◌, ◌⊎◌, refl, Bool, true, false, get_or, List, [], ◌∷◌, ◌==◌, if◌then◌else◌,
}
use sbio.Io.{IoStatus, ok}
use sbio.Broker.Lifecycle.{
  BrokerState, StreamResource, same_path, same_resource, is_given, is_moved, StreamBroker, Parts,
  connect_resource, connect_all, discover_metadata, prepare, advance_roles, advance_chunk,
}
use sbio.Broker.Lifecycle.Moved.{Advances, any_moved}
use sbio.Broker.Lifecycle.Chunks.{Rediscovered, advance_chunk_lem}
use sbio.Broker.Lifecycle.Prepare.{prepare_lem}

-- The state is the number of connections.
abbrev parts : Parts ℕ
parts = record {
  allocate_storage = λ d. d;
  connect_path = λ r p d. (IoStatus.success, d + 1);
  connect_fd = λ r fd d. (IoStatus.success, d + 1);
  close = λ r d. d;
  discover = λ d. (IoStatus.success, d);
  index = λ b. (IoStatus.success, b);
  reset = λ d. d;
  rediscovers_per_chunk = true;
}

abbrev broker : StreamBroker ℕ
broker = record {
  state = BrokerState.init;
  resources = StreamResource.path (97 ∷ []) ∷ StreamResource.file_descriptor 5 ∷ [];
  next_offset = λ k. 64;
  chain_id = 0;
  chunk_complete = true;
  env = 0;
}

abbrev nexts : List StreamResource
nexts = StreamResource.path (98 ∷ []) ∷ StreamResource.path [] ∷ []

abbrev advanced : StreamBroker ℕ
advanced = record {
  state = BrokerState.ready;
  resources = StreamResource.path (98 ∷ []) ∷ StreamResource.file_descriptor 5 ∷ [];
  next_offset = λ k. if k == 0 then 0 else 64;
  chain_id = 1;
  chunk_complete = false;
  env = 1;
}

broker_advances : advance_chunk parts nexts 1 broker ≡ (IoStatus.success, advanced)
unfolding advance_chunk advance_roles is_moved is_given connect_resource same_resource same_path
    discover_metadata
broker_advances = refl

advance_chunk_lem_example :
    (moved : List Bool) × (env : ℕ) × Advances parts 0 broker.resources nexts 0 advanced.resources
      moved env
    × ((k : ℕ) → advanced.next_offset k ≡ (if get_or moved k false then 0 else 64))
    × (advanced.chain_id ≡ 1)
    × (advanced.chunk_complete ≡ false)
    × Rediscovered parts broker (any_moved moved) env advanced
    × (advance_chunk parts nexts 1 advanced ≡ (IoStatus.success, advanced))
advance_chunk_lem_example = advance_chunk_lem parts nexts 1 broker advanced broker_advances

prepare_lem_example :
    ((b' : StreamBroker ℕ) × (env : ℕ) × (prepare parts broker ≡ (IoStatus.success, b'))
      × (b'.state ≡ BrokerState.ready)
      × (connect_all parts 0 broker.resources 0 ≡ (IoStatus.success, env))
      × (parts.discover env ≡ (IoStatus.success, b'.env)))
    ⊎ ((status : IoStatus) × (b' : StreamBroker ℕ) × (prepare parts broker ≡ (status, b'))
        × (ok status ≡ false)
        × (b'.state ≡ BrokerState.error_state))
prepare_lem_example = prepare_lem parts broker
