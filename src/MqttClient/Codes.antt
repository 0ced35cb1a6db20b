-- ===== src/MqttClient/Codes.antt =====
-- The constants of mqtt/mqtt-client.hpp. The enums have a fixed underlying type, so a variable of
-- one may hold any value of that type, and `static_cast` from an `int` keeps or truncates it.
use things_mqtt_lua.Prelude.{ℕ, ◌-◌, ◌%◌, Bool, List, [], ◌∷◌}
use things_mqtt_lua.Prelude.Int.{ℤ, pos, negsuc, eqb_ℤ}

abbrev pub mqtt_default_port : ℤ
mqtt_default_port = pos 1883

abbrev pub mqtts_default_port : ℤ
mqtts_default_port = pos 8883

-- `enum class MqttQos : uint8_t`
abbrev pub MqttQos : Type 0
MqttQos = ℕ

abbrev pub at_most_once : MqttQos
at_most_once = 0

abbrev pub at_least_once : MqttQos
at_least_once = 1

abbrev pub exactly_once : MqttQos
exactly_once = 2

-- `static_cast<MqttQos>` of an `int`
unfoldable pub to_qos : ℤ → MqttQos
to_qos (pos n) = n % 256
to_qos (negsuc n) = 255 - n % 256

-- `enum class MqttConnectRc`, whose underlying type is `int`
abbrev pub MqttConnectRc : Type 0
MqttConnectRc = ℤ

abbrev pub accepted : MqttConnectRc
accepted = pos 0

abbrev pub client_disconnected : MqttConnectRc
client_disconnected = pos 0

-- the codes named `Refused...`, in the source's order
abbrev pub refusals : List MqttConnectRc
refusals =
    pos 1
    ∷ pos 2
    ∷ pos 3
    ∷ pos 4
    ∷ pos 5
    ∷ pos 128
    ∷ pos 129
    ∷ pos 130
    ∷ pos 131
    ∷ pos 132
    ∷ pos 133
    ∷ pos 134
    ∷ pos 135
    ∷ pos 136
    ∷ pos 137
    ∷ pos 138
    ∷ pos 140
    ∷ pos 144
    ∷ pos 149
    ∷ pos 151
    ∷ pos 153
    ∷ pos 154
    ∷ pos 155
    ∷ pos 156
    ∷ pos 157
    ∷ pos 159
    ∷ []

abbrev pub is_accepted : MqttConnectRc → Bool
is_accepted rc = eqb_ℤ rc accepted
