-- ===== src/Mqtt/Client.antt =====
-- internal/mqtt/client.go: what the client publishes.
pub mod Delivered
pub mod Retained
pub mod Untouched
use aerosmart_gateway.Base.{
  ℕ, zero, suc, ◌*◌, ◌-◌, Bool, true, false, ◌&&◌, not, Option, none, some, List, [], ◌∷◌, Bytes,
  is_empty, if◌then◌else◌, leb,
}
use aerosmart_gateway.Base.Int.{ℤ, pos, pos_part, leb_ℤ}
use aerosmart_gateway.Serial.Errors.{Err}

-- The fields of MQTTConfig that publishing reads; `op_timeout` is in nanoseconds.
pub record MqttSettings : Type 0 where
  pub qos : ℤ
  pub retain : Bool
  pub publish_retry_count : ℤ
  pub availability_topic : Bytes
  pub op_timeout : ℤ

-- What `client.Publish` is called with
pub record Message : Type 0 where
  pub topic : Bytes
  pub retained : Bool
  pub payload : Bytes

-- How a token ends: it is waited for in vain, or it has an error or none.
pub data Reply : Type 0 where
  timed_out : Reply
  answered : Option Err → Reply

-- The errors of publishing, each with the topic
pub data Failure : Type 0 where
  not_connected unanswered : Bytes → Failure
  refused : Bytes → Err → Failure

-- The paho client behind `c.handle()`, the `shuttingDown` flag, and time.Sleep. `publish` sends the
-- message and waits for its token for the given time.
pub record Broker (W : Type 0) : Type 0 where
  pub is_connected : W → Bool  -- the handle is not nil, and is connected
  pub is_shutting_down : W → Bool
  pub publish : ℤ → Message → ℤ → W → W × Reply
  pub sleep : ℕ → W → W

-- An attempt decides the call, or there is to be another one.
pub data Verdict : Type 0 where
  over : Option Failure → Verdict
  again : Failure → Verdict

-- NewClient
unfoldable pub new_client : MqttSettings → MqttSettings
new_client c = if leb_ℤ c.op_timeout (pos 0) then record c { op_timeout = pos 5_000_000_000 } else c

unfoldable pub publish_attempts : MqttSettings → ℕ
publish_attempts c =
    if leb_ℤ c.publish_retry_count (pos 0) then 3 else pos_part c.publish_retry_count

unfoldable pub judge_reply : Bytes → Reply → Verdict
judge_reply topic timed_out = again (unanswered topic)
judge_reply topic (answered (some err)) = again (refused topic err)
judge_reply topic (answered none) = over none

module _ {W : Type 0} (broker : Broker W) (c : MqttSettings) where
  -- The pause in front of every attempt but the first
  unfoldable pub publish_pause : ℕ → W → W
  publish_pause attempt w =
      if leb 2 attempt then broker.sleep ((attempt - 1) * 250_000_000) w else w

  unfoldable pub publish_attempt : Message → ℕ → Option Failure → W → W × Verdict
  unfolding publish_pause judge_reply
  publish_attempt m attempt last w =
      if not (broker.is_connected w)
      then (w, over (some (not_connected m.topic)))
      else if leb 2 attempt && broker.is_shutting_down w
      then (w, over last)
      else let (w₁, reply) = broker.publish c.qos m c.op_timeout (publish_pause attempt w) in
        (w₁, judge_reply m.topic reply)

  -- The loop, with `n` attempts left
  unfoldable pub publish_loop : ℕ → Message → ℕ → Option Failure → W → W × Option Failure
  unfolding publish_attempt
  publish_loop zero m attempt last w = (w, last)
  publish_loop (suc n) m attempt last w =
      let (w₁, verdict) = publish_attempt m attempt last w in
      elim verdict [
        | over result ↦ (w₁, result)
        | again failure ↦ publish_loop n m (suc attempt) (some failure) w₁
      ]

  unfoldable pub publish_retained : Bytes → Bytes → Bool → W → W × Option Failure
  unfolding publish_loop publish_attempts
  publish_retained topic value retain w =
      publish_loop (publish_attempts c)
        (record { topic = topic; retained = retain; payload = value }) 1 none w

  -- Publish
  unfoldable pub publish : Bytes → Bytes → W → W × Option Failure
  unfolding publish_retained
  publish topic value w = publish_retained topic value c.retain w

  unfoldable pub clear_discovery : Bytes → W → W × Option Failure
  unfolding publish_retained
  clear_discovery topic w = publish_retained topic [] true w

  unfoldable pub publish_availability : Bytes → W → W × Option Failure
  unfolding publish_retained
  publish_availability state w =
      if is_empty c.availability_topic
      then (w, none)
      else publish_retained c.availability_topic state true w
