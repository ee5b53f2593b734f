-- ===== src/ControlPlane/Events.antt =====
-- What the server writes to its clients: cpp/mrc/src/internal/control_plane/server/client_instance.hpp
-- and the messages of protos/mrc/protos/architect.proto that the managers fill in. A stream writer is
-- the id of its stream; what is written is returned as a list, in order.
use mrc.Prelude.{ℕ, List}
use Prim.Native.String.{String}

-- `get_id` is the object's address.
pub record ClientInstance : Type 0 where
  pub id : ℕ
  pub stream_writer : ℕ
  pub worker_address : String

pub record TaggedInstance : Type 0 where
  pub instance_id : ℕ
  pub tag : ℕ

pub data Body : Type 0 where
  connections : List TaggedInstance → Body
  update_subscription_service : String → List TaggedInstance → Body
  drop_subscription_service : String → ℕ → Body

-- `protos::StateUpdate`; a number that is not set is 0.
pub record StateUpdate : Type 0 where
  pub service_name : String
  pub nonce : ℕ
  pub instance_id : ℕ
  pub body : Body

-- A ServerStateUpdate event, with the stream that it is written to.
pub record Event : Type 0 where
  pub stream : ℕ
  pub tag : ℕ
  pub message : StateUpdate
