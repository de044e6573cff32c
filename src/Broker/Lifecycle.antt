-- ===== src/Broker/Lifecycle.antt =====
-- A StreamBroker around its index (core/broker.hh): its states, the connection of its streams, and the
-- change to the next chunk. The streams with the metadata and the index are a state `D`; what connects
-- and closes them, and the discovery and indexing within their transactions, are arguments.
pub mod Roles
pub mod Moved
pub mod Chunks
pub mod Prepare
mod Tests
use sbio.Prelude.{
  ℕ, zero, suc, ◌+◌, ◌%◌, ◌^◌, Bool, true, false, not, ◌&&◌, ◌||◌, List, [], ◌∷◌, ◌==◌,
  if◌then◌else◌,
}
use sbio.Io.{IoStatus, ok}
use sbio.Broker.Index.{write}

pub data BrokerState : Type 0 where
  init allocate connecting discovery ready indexing streaming error_state done : BrokerState

-- A path is the list of its characters, a region of memory its address and its size. The resources that
-- nothing makes, of Windows and of a network, are left out.
pub data StreamResource : Type 0 where
  path : List ℕ → StreamResource
  file_descriptor : ℕ → StreamResource
  memory_region : ℕ → ℕ → StreamResource

pub same_path : List ℕ → List ℕ → Bool
same_path [] [] = true
same_path (a ∷ rest_a) (b ∷ rest_b) = (a == b) && same_path rest_a rest_b
same_path path_a path_b = false

-- Regions of memory are compared by the part of their handles that is read as a descriptor.
pub same_resource : StreamResource → StreamResource → Bool
same_resource (path a) (path b) = same_path a b
same_resource (file_descriptor a) (file_descriptor b) = a == b
same_resource (memory_region a size_a) (memory_region b size_b) = a % 2 ^ 32 == b % 2 ^ 32
same_resource a b = false

pub is_given : StreamResource → Bool
is_given (path []) = false
is_given res = true

-- Whether a role's resource changes from one chunk to the next.
pub is_moved : StreamResource → StreamResource → Bool
is_moved current next = is_given next && not (same_resource next current)

pub record StreamBroker (D : Type 0) : Type 0 where
  pub state : BrokerState
  pub resources : List StreamResource
  pub next_offset : ℕ → ℕ
  pub chain_id : ℕ
  pub chunk_complete : Bool
  pub env : D

-- What a StreamBroker needs of its streams and of its format. `reset` drops the index state of the format
-- and the metadata of a chunk.
pub record Parts (D : Type 0) : Type 0 where
  pub allocate_storage : D → D
  pub connect_path : ℕ → List ℕ → D → IoStatus × D
  pub connect_fd : ℕ → ℕ → D → IoStatus × D
  pub close : ℕ → D → D
  pub discover : D → IoStatus × D
  pub index : StreamBroker D → IoStatus × StreamBroker D
  pub reset : D → D
  pub rediscovers_per_chunk : Bool

module _ {D : Type 0} (parts : Parts D) where
  pub allocate_storage : StreamBroker D → StreamBroker D
  allocate_storage b = record b { state = BrokerState.allocate; env = parts.allocate_storage b.env }

  pub connect_resource : ℕ → StreamResource → D → IoStatus × D
  connect_resource r (path p) env = parts.connect_path r p env
  connect_resource r (file_descriptor fd) env = parts.connect_fd r fd env
  connect_resource r (memory_region ptr size) env = (IoStatus.function_unavailable, env)

  -- The loop over the roles from `r` on, up to one that fails.
  pub connect_all : ℕ → List StreamResource → D → IoStatus × D
  connect_all r [] env = (IoStatus.success, env)
  connect_all r (res ∷ rest) env =
      let (status, env') = connect_resource r res env in
      let later = connect_all (r + 1) rest env' in if ok status then later else (status, env')

  pub open_data_stream : StreamBroker D → IoStatus × StreamBroker D
  open_data_stream b =
      let (status, env) = connect_all 0 b.resources b.env in
      (status, record b { state = BrokerState.connecting; env = env })

  pub discover_metadata : StreamBroker D → IoStatus × StreamBroker D
  discover_metadata b =
      let (status, env) = parts.discover b.env in
      (status, record b { state = BrokerState.ready; env = env })

  pub prepare : StreamBroker D → IoStatus × StreamBroker D
  prepare b =
      let (opened, b') = open_data_stream (allocate_storage b) in
      let (status, b'') = if ok opened then discover_metadata b' else (opened, b') in
      (status, if ok status then b'' else record b'' { state = BrokerState.error_state })

  pub index_stream : Bool → StreamBroker D → IoStatus × StreamBroker D
  index_stream should_index b =
      let indexing_b = record b { state = BrokerState.indexing } in
      let (status, b') =
        if should_index then parts.index indexing_b else (IoStatus.success, indexing_b) in
      (status, record b' { state = BrokerState.ready })

  pub record Advance : Type 0 where
    pub status : IoStatus
    pub resources : List StreamResource
    pub next_offset : ℕ → ℕ
    pub reopened : Bool
    pub env : D

  -- The loop over the roles from `r` on.
  pub advance_roles : ℕ → List StreamResource → List StreamResource → (ℕ → ℕ) → Bool → D → Advance
  advance_roles r (current ∷ currents) (next ∷ nexts) next_offset reopened env =
      let moved = is_moved current next in
      let (status, env') =
        if moved then connect_resource r next (parts.close r env) else (IoStatus.success, env) in
      let rest =
        advance_roles (r + 1) currents nexts (if moved then write next_offset r 0 else next_offset)
          (reopened || moved) env' in
      if ok status
      then record rest { resources = (if moved then next else current) ∷ rest.resources }
      else record {
        status = status;
        resources = current ∷ currents;
        next_offset = next_offset;
        reopened = reopened;
        env = env';
      }
  advance_roles r currents nexts next_offset reopened env = record {
    status = IoStatus.success;
    resources = currents;
    next_offset = next_offset;
    reopened = reopened;
    env = env;
  }

  pub advance_chunk : List StreamResource → ℕ → StreamBroker D → IoStatus × StreamBroker D
  advance_chunk nexts chain_id b =
      let a = advance_roles 0 b.resources nexts b.next_offset false b.env in
      let moved = record b { resources = a.resources; next_offset = a.next_offset; env = a.env } in
      let entered = record moved { chain_id = chain_id; chunk_complete = false } in
      if not (ok a.status)
      then (a.status, moved)
      else if parts.rediscovers_per_chunk && a.reopened
      then discover_metadata (record entered { env = parts.reset entered.env })
      else (IoStatus.success, entered)
