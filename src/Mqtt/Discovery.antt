-- ===== src/Mqtt/Discovery.antt =====
-- internal/mqtt/discovery.go: Home Assistant's discovery payloads. A payload is the list of its fields,
-- named by the struct tags; the text that encoding/json makes of it is a parameter.
pub mod Topics
pub mod Publish
use aerosmart_gateway.Base.{
  Bool, true, false, ◌&&◌, List, [], ◌∷◌, ◌++◌, Bytes, codes, eq_bytes, is_empty, if◌then◌else◌,
}
use aerosmart_gateway.Base.Int.{ℤ, pos, eq_ℤ}
use aerosmart_gateway.Config.Types.{ReadRegister, WriteRegister, DerivedRegister}

pub data Leaf : Type 0 where
  text : Bytes → Leaf
  number : ℤ → Leaf
  texts : List Bytes → Leaf

pub data Value : Type 0 where
  leaf : Leaf → Value
  table : List (Bytes × Leaf) → Value

abbrev pub Payload : Type 0
Payload = List (Bytes × Value)

-- A field with the option `omitempty`
unfoldable pub unless_empty : Bytes → Bytes → Payload → Payload
unless_empty key s rest = if is_empty s then rest else (key, leaf (text s)) ∷ rest

unfoldable pub unless_zero : Bytes → ℤ → Payload → Payload
unless_zero key n rest = if eq_ℤ n (pos 0) then rest else (key, leaf (number n)) ∷ rest

-- CreateDeviceInfo: a map, in the order of its keys
unfoldable pub create_device_info : Bytes → Bytes → Bytes → Bytes → Bytes → List (Bytes × Leaf)
create_device_info device_id name manufacturer model sw_version =
    (codes "identifiers", texts (device_id ∷ []))
    ∷ (codes "manufacturer", text manufacturer)
    ∷ (codes "model", text model)
    ∷ (codes "name", text name)
    ∷ (if is_empty sw_version then [] else (codes "sw_version", text sw_version) ∷ [])

-- Discovery
pub record Discovery : Type 0 where
  pub device_id : Bytes
  pub prefix : Bytes
  pub device : List (Bytes × Leaf)
  pub availability_topic : Bytes
  pub expire_after : ℤ

-- uniqueID
unfoldable pub unique_id : Discovery → Bytes → Bytes
unique_id d name = d.device_id ++ (codes "_" ++ name)

-- topic
unfoldable pub topic_of : Discovery → Bytes → Bytes → Bytes
topic_of d component uid =
    d.prefix
    ++ (codes "/"
        ++ (component ++ (codes "/" ++ (d.device_id ++ (codes "/" ++ (uid ++ codes "/config"))))))

-- HASensorConfig, of the fields that differ between SensorConfig and DerivedSensorConfig
unfoldable pub sensor : Discovery → Bytes → Bytes → Bytes → Bytes → Bytes → Payload
unfolding unless_empty unless_zero
sensor d uid name state_topic unit device_class =
    (codes "name", leaf (text name))
    ∷ (codes "state_topic", leaf (text state_topic))
    ∷ unless_empty (codes "unit_of_measurement") unit (
        unless_empty (codes "device_class") device_class (
          (codes "unique_id", leaf (text uid))
          ∷ unless_empty (codes "availability_topic") d.availability_topic (
              unless_zero (codes "expire_after") d.expire_after
                ((codes "device", table d.device) ∷ []))))

-- SensorConfig
unfoldable pub sensor_config : {F : Type 0} → Discovery → ReadRegister F → Bytes × Payload
unfolding sensor topic_of unique_id
sensor_config d reg =
    let uid = unique_id d reg.name in
    (
      topic_of d (codes "sensor") uid,
      sensor d uid reg.ha_name reg.topic reg.ha_unit reg.ha_device_class,
    )

-- DerivedSensorConfig
unfoldable pub derived_sensor_config : Discovery → DerivedRegister → Bytes × Payload
unfolding sensor topic_of unique_id
derived_sensor_config d reg =
    let uid = unique_id d reg.name in
    (
      topic_of d (codes "sensor") uid,
      sensor d uid reg.ha_name reg.topic reg.ha_unit reg.ha_device_class,
    )

-- HASwitchConfig
unfoldable pub switch : Discovery → Bytes → WriteRegister → Payload
unfolding unless_empty
switch d uid reg =
    (codes "name", leaf (text reg.ha_name))
    ∷ (codes "command_topic", leaf (text reg.subscribe_topic))
    ∷ unless_empty (codes "state_topic") reg.topic (
        (codes "payload_on", leaf (text (codes "1")))
        ∷ (codes "payload_off", leaf (text (codes "0")))
        ∷ (codes "state_on", leaf (text (codes "1")))
        ∷ (codes "state_off", leaf (text (codes "0")))
        ∷ (codes "unique_id", leaf (text uid))
        ∷ unless_empty (codes "availability_topic") d.availability_topic
            ((codes "device", table d.device) ∷ []))

-- HANumberConfig
unfoldable pub number_box : Discovery → Bytes → WriteRegister → Payload
unfolding unless_empty
number_box d uid reg =
    (codes "name", leaf (text reg.ha_name))
    ∷ (codes "command_topic", leaf (text reg.subscribe_topic))
    ∷ unless_empty (codes "state_topic") reg.topic (
        (codes "min", leaf (number reg.min_value))
        ∷ (codes "max", leaf (number reg.max_value))
        ∷ (codes "step", leaf (number (pos 1)))
        ∷ (codes "mode", leaf (text (codes "box")))
        ∷ (codes "unique_id", leaf (text uid))
        ∷ unless_empty (codes "availability_topic") d.availability_topic
            ((codes "device", table d.device) ∷ []))

-- commandComponents
abbrev pub command_components : List Bytes
command_components = codes "switch" ∷ codes "number" ∷ []

-- CommandConfig: the component, the topic and the payload
unfoldable pub command_config : Discovery → WriteRegister → Bytes × Bytes × Payload
unfolding unique_id
command_config d reg =
    let uid = unique_id d reg.name in
    if eq_ℤ reg.min_value (pos 0) && eq_ℤ reg.max_value (pos 1)
    then (codes "switch", topic_of d (codes "switch") uid, switch d uid reg)
    else (codes "number", topic_of d (codes "number") uid, number_box d uid reg)

-- The loop of StaleCommandTopics, which skips the current topic
unfoldable pub stale_topics : Discovery → Bytes → Bytes → List Bytes → List Bytes
stale_topics d uid current [] = []
stale_topics d uid current (component ∷ components) =
    let topic = topic_of d component uid in
    let rest = stale_topics d uid current components in
    if eq_bytes topic current then rest else topic ∷ rest

-- StaleCommandTopics
unfoldable pub stale_command_topics : Discovery → WriteRegister → List Bytes
unfolding stale_topics command_config
stale_command_topics d reg =
    stale_topics d (unique_id d reg.name) (command_config d reg).1 command_components
