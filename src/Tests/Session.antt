-- ===== src/Tests/Session.antt =====
-- A broker connection that fails its first subscription, for internal/mqtt/client.go.
use aerosmart_gateway.Base.{
  ℕ, zero, suc, ◌+◌, ◌≡◌, refl, Bool, true, false, none, some, List, [], ◌∷◌, ◌++◌, Bytes, codes,
  eq_bytes,
}
use aerosmart_gateway.Base.Int.{ℤ, pos}
use aerosmart_gateway.Mqtt.Client
use aerosmart_gateway.Mqtt.Client.{MqttSettings, Message, Reply, timed_out, answered}
use aerosmart_gateway.Mqtt.Session
use aerosmart_gateway.Mqtt.Session.{Paho, Client, Account, connect, fresh_client, disconnect}
use aerosmart_gateway.Mqtt.Session.Closed.{
  Call, publishes, subscribes, connected, run, step, IsSent, IsFinal, disconnect-IsFinal,
}
use aerosmart_gateway.Mqtt.Session.Restored.{IsAsked, IsRestored, run-IsRestored}

record Net : Type 0 where
  up : Bool
  fails : ℕ
  clients : ℕ
  sent : List (Message × ℤ)
  asks : List (ℕ × Bytes)

abbrev ask_from : ℕ → ℕ → Bytes → Net → Net × Reply
ask_from zero h topic w = (record w { asks = w.asks ++ (h, topic) ∷ [] }, answered none)
ask_from (suc n) h topic w = (record w { fails = n; asks = w.asks ++ (h, topic) ∷ [] }, timed_out)

abbrev net : Paho Net
net = record {
  create = λ o w. (record w { clients = w.clients + 1 }, w.clients);
  connect = λ h wait w. (record w { up = true }, answered none);
  disconnect = λ h quiesce w. record w { up = false };
  is_connected = λ h w. w.up;
  publish = λ h qos m wait w. (record w { sent = w.sent ++ (m, wait) ∷ [] }, answered none);
  subscribe = λ h topic qos wait w. ask_from w.fails h topic w;
  sleep = λ d w. w;
}

net-IsSent : (c : MqttSettings) → IsSent net c (λ (w : Net). w.sent)
net-IsSent c = record {
  publish_sent = λ h qos m wait w. refl;
  disconnect_sent = λ h quiesce w. refl;
}

net-asks :
    (n h : ℕ) (topic : Bytes) (w : Net) → (ask_from n h topic w).0.asks ≡ w.asks ++ (h, topic) ∷ []
net-asks zero h topic w = refl
net-asks (suc n) h topic w = refl

net-IsAsked : (c : MqttSettings) → IsAsked net c (λ (w : Net). w.asks)
net-IsAsked c = record {
  subscribe_asks = λ h topic qos wait w. net-asks w.fails h topic w;
  publish_asks = λ h qos m wait w. refl;
  sleep_asks = λ d w. refl;
}

abbrev settings : MqttSettings
settings = record {
  qos = pos 1;
  retain = true;
  publish_retry_count = pos 3;
  availability_topic = codes "aero/availability";
  op_timeout = pos 5_000_000_000;
}

abbrev account : Account
account = record {
  broker = codes "mqtt.local";
  port = pos 1_883;
  username = [];
  password = [];
  client_id = codes "aero";
}

abbrev down : Net
down = record { up = false; fails = 1; clients = 0; sent = []; asks = [] }

-- Handlers are numbers here.
abbrev open_client : Client ℕ
open_client = record { handle = some 0; subscribed_topics = []; shutting_down = false }

connect_run : (connect net settings account fresh_client down).0 ≡ open_client
unfolding connect fresh_client
connect_run = refl

abbrev up_net : Net
up_net = record down { up = true; clients = 1 }

abbrev calls : List (Call ℕ)
calls = subscribes (codes "fan/set") 1 ∷ publishes (codes "fan") (codes "3") true ∷ []

-- The subscription that failed is asked for again.
restored_run :
    (run net settings (calls ++ connected ∷ []) (open_client, up_net)).1.asks
    ≡ (0, codes "fan/set") ∷ (0, codes "fan/set") ∷ []
unfolding run step Session.subscribe Session.on_connected Session.track eq_bytes
    Session.resubscribe_all Session.subscribe_topic Client.publish_availability
    Client.publish_retained Client.publish_loop Client.publish_attempts Client.publish_attempt
    Client.publish_pause Client.judge_reply
restored_run = refl

run-IsRestored_example :
    IsRestored net settings
      (λ (w : Net). w.asks)
      (net-IsAsked settings)
      0
      calls
      (run net settings calls (open_client, up_net))
run-IsRestored_example =
    run-IsRestored net settings (λ (w : Net). w.asks) (net-IsAsked settings) 0 [] up_net calls tt

disconnect-IsFinal_example :
    IsFinal net settings (λ (w : Net). w.sent) 0 up_net (disconnect net settings open_client up_net)
disconnect-IsFinal_example =
    disconnect-IsFinal net settings (λ (w : Net). w.sent) open_client 0 up_net (net-IsSent settings)
      refl
