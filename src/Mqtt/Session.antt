-- ===== src/Mqtt/Session.antt =====
-- internal/mqtt/client.go: the connection to the broker. The paho client is a parameter; a client that
-- was made by NewClient of paho is named by a number, and `H` is the type of message handlers.
pub mod Closed
pub mod Restored
use aerosmart_gateway.Base.{
  ℕ, suc, ◌++◌, Bool, true, false, ◌&&◌, not, Option, none, some, List, [], ◌∷◌, Bytes, codes,
  eq_bytes, is_empty, if◌then◌else◌,
}
use aerosmart_gateway.Base.Decimal.{itoa}
use aerosmart_gateway.Base.Int.{ℤ, pos, ltb_ℤ}
use aerosmart_gateway.Mqtt.Client.{
  MqttSettings, Message, Reply, timed_out, answered, Failure, not_connected, unanswered, refused,
  Broker, publish_availability, publish_retained,
}

-- The fields of MQTTConfig that connecting reads
pub record Account : Type 0 where
  pub broker : Bytes
  pub port : ℤ
  pub username : Bytes
  pub password : Bytes
  pub client_id : Bytes

-- What clientOptions sets, without the handlers that only log; times are in nanoseconds.
pub record Options : Type 0 where
  pub url : Bytes
  pub client_id : Bytes
  pub username : Bytes
  pub password : Bytes
  pub clean_session : Bool
  pub auto_reconnect : Bool
  pub max_reconnect_interval : ℕ
  pub keep_alive : ℕ
  pub connect_timeout : ℤ
  pub write_timeout : ℤ
  pub will : Option Message

-- brokerURL
unfoldable pub broker_url : Account → Bytes
broker_url a = codes "tcp://" ++ (a.broker ++ (codes ":" ++ itoa a.port))

unfoldable pub client_options : Account → MqttSettings → Options
unfolding broker_url
client_options a c = record {
  url = broker_url a;
  client_id = a.client_id;
  username = a.username;
  password = a.password;
  clean_session = true;
  auto_reconnect = true;
  max_reconnect_interval = 60_000_000_000;
  keep_alive = 30_000_000_000;
  connect_timeout = c.op_timeout;
  write_timeout = c.op_timeout;
  will =
      if is_empty c.availability_topic
      then none
      else some
          (record { topic = c.availability_topic; retained = true; payload = codes "offline" });
}

-- The methods of paho that the program calls. Those with a time wait for their token so long.
pub record Paho (W : Type 0) : Type 0 where
  pub create : Options → W → W × ℕ
  pub connect : ℕ → ℤ → W → W × Reply
  pub disconnect : ℕ → ℕ → W → W
  pub is_connected : ℕ → W → Bool
  pub publish : ℕ → ℤ → Message → ℤ → W → W × Reply
  pub subscribe : ℕ → Bytes → ℤ → ℤ → W → W × Reply
  pub sleep : ℕ → W → W

-- The state of Client; range visits the map of subscriptions in the order of the list.
pub record Client (H : Type 0) : Type 0 where
  pub handle : Option ℕ
  pub subscribed_topics : List (Bytes × H)
  pub shutting_down : Bool

-- NewClient
unfoldable pub fresh_client : {H : Type 0} → Client H
fresh_client = record { handle = none; subscribed_topics = []; shutting_down = false }

-- `subscribedTopics[topic] = handler`
unfoldable pub track : {H : Type 0} → Bytes → H → List (Bytes × H) → List (Bytes × H)
track topic handler [] = (topic, handler) ∷ []
track topic handler ((t, h) ∷ more) =
    if eq_bytes t topic then (topic, handler) ∷ more else (t, h) ∷ track topic handler more

-- The callback of subscribe: what it hands to the handler, if it does
unfoldable pub live_message : Message → Option (Bytes × Bytes)
live_message m = if m.retained then none else some (m.topic, m.payload)

-- What a token says, as the error of the call
abbrev pub reply_error : Bytes → Reply → Option Failure
reply_error topic timed_out = some (unanswered topic)
reply_error topic (answered none) = none
reply_error topic (answered (some err)) = some (refused topic err)

-- The time that Disconnect gives the announcement
unfoldable pub shutdown_timeout : MqttSettings → ℤ
shutdown_timeout c =
    if ltb_ℤ (pos 0) c.op_timeout && ltb_ℤ c.op_timeout (pos 2_000_000_000)
    then c.op_timeout
    else pos 2_000_000_000

module _ {W H : Type 0} (paho : Paho W) (c : MqttSettings) where
  -- The broker as publishing sees it, through `handle` and `shuttingDown`
  abbrev pub broker_of : Client H → Broker W
  broker_of cl = record {
    is_connected = λ w. elim cl.handle [ none ↦ false | some h ↦ paho.is_connected h w ];
    is_shutting_down = λ w. cl.shutting_down;
    publish = λ qos m wait w. elim cl.handle [
      | none ↦ (w, timed_out)
      | some h ↦ paho.publish h qos m wait w
    ];
    sleep = paho.sleep;
  }

  -- closeExisting
  unfoldable pub close_existing : Client H → W → Client H × W
  close_existing cl w =
      (record cl { handle = none }, elim cl.handle [ none ↦ w | some h ↦ paho.disconnect h 0 w ])

  -- Connect
  unfoldable pub connect : Account → Client H → W → Client H × W × Option Failure
  unfolding close_existing client_options
  connect a cl w =
      let (cl₁, w₁) = close_existing cl w in
      let (w₂, h) = paho.create (client_options a c) w₁ in
      let (w₃, reply) = paho.connect h c.op_timeout w₂ in
      (record cl₁ { handle = some h }, w₃, reply_error (broker_url a) reply)

  -- publishOnce
  unfoldable pub publish_once : Bytes → Bytes → ℤ → Client H → W → W × Option Failure
  publish_once topic value timeout cl w =
      let b = broker_of cl in
      if not (b.is_connected w)
      then (w, some (not_connected topic))
      else (let (w₁, reply) =
            b.publish c.qos (record { topic = topic; retained = true; payload = value }) timeout
              w in
          (w₁, reply_error topic reply))

  -- subscribe
  unfoldable pub subscribe_topic : Bytes → Client H → W → W × Option Failure
  subscribe_topic topic cl w = elim cl.handle [
    | none ↦ (w, some (not_connected topic))
    | some h ↦
        let (w₁, reply) = paho.subscribe h topic c.qos c.op_timeout w in
        (w₁, reply_error topic reply)
  ]

  -- Subscribe
  unfoldable pub subscribe : Bytes → H → Client H → W → Client H × W × Option Failure
  unfolding subscribe_topic track
  subscribe topic handler cl w = elim cl.handle [
    | none ↦ (cl, w, some (not_connected topic))
    | some h ↦
        let cl₁ = record cl { subscribed_topics = track topic handler cl.subscribed_topics } in
        let (w₁, failed) = subscribe_topic topic cl₁ w in (cl₁, w₁, failed)
  ]

  -- The loop of resubscribeAll, and the number of subscriptions that failed
  unfoldable pub resubscribe_all : List (Bytes × H) → Client H → W → W × ℕ
  unfolding subscribe_topic
  resubscribe_all [] cl w = (w, 0)
  resubscribe_all ((topic, handler) ∷ more) cl w =
      let (w₁, result) = subscribe_topic topic cl w in
      let (w₂, failed) = resubscribe_all more cl w₁ in
      (w₂, elim result [ none ↦ failed | some e ↦ suc failed ])

  -- onConnected
  unfoldable pub on_connected : Client H → W → W
  unfolding publish_availability resubscribe_all
  on_connected cl w =
      if cl.shutting_down
      then w
      else (let w₁ = (publish_availability (broker_of cl) c (codes "online") w).0 in
          (resubscribe_all cl.subscribed_topics cl w₁).0)

  -- Disconnect
  unfoldable pub disconnect : Client H → W → Client H × W
  unfolding publish_once shutdown_timeout
  disconnect cl w = elim cl.handle [
    | none ↦ (cl, w)
    | some h ↦
        let cl₁ = record cl { shutting_down = true } in
        let w₁ =
          if paho.is_connected h w && not (is_empty c.availability_topic)
          then (publish_once c.availability_topic (codes "offline") (shutdown_timeout c) cl₁ w).0
          else w in
        (record cl₁ { handle = none }, paho.disconnect h 250 w₁)
  ]

  -- IsConnected
  unfoldable pub is_connected : Client H → W → Bool
  is_connected cl w = (broker_of cl).is_connected w
