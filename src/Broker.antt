-- ===== src/Broker.antt =====
-- internal/natsbroker/nats.go: the broker over a connection, whose library is a parameter.
use margo_hello_world.Common.{String, Option, ◌⊎◌, inl, inr}
use mathlib.Core.Option.{get_or}

-- encoding/json for one type of messages: Marshal, where it has no error, and Unmarshal into a
-- value, with the value that it leaves.
pub record Codec (A : Type 0) : Type 0 where
  pub encode : A → Option String
  pub decode : String → A → A × Option String

-- nats.Connect, and Publish of a connection, over the state of the network.
pub record Connection (Conn W : Type 0) : Type 0 where
  pub connect : String → Conn ⊎ String
  pub send : Conn → String → String → W → W × Option String

module _ {Conn W : Type 0} (C : Connection Conn W) where
  -- Broker is a structure with the connection.
  pub record Broker : Type 0 where
    pub conn : Conn

  -- New
  unfoldable pub new_broker : String → Broker ⊎ String
  new_broker url = elim (C.connect url) [ inl conn ↦ inl (record { conn = conn }) | inr e ↦ inr e ]

  -- Publish: the error of Marshal is ignored, and leaves no bytes.
  unfoldable pub publish : {A : Type 0} → Codec A → Broker → String → A → W → W × Option String
  publish codec b topic msg w = C.send b.conn topic (get_or (codec.encode msg) "") w

-- The callback of Subscribe, Subscribe2, Subscribe3 and Subscribe4, which differ in the type of
-- the messages: the error of Unmarshal is ignored.
unfoldable pub on_message : {A W : Type 0} → Codec A → A → (A → W → W) → String → W → W
on_message codec zero handler text w = handler (codec.decode text zero).0 w
