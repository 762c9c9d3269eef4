-- ===== src/Examples/Subscriptions.antt =====
-- Subscriptions of an MQTT client.
use platform_sdk.Base.{◌≡◌, refl, [], ◌∷◌, arith}
use platform_sdk.Net.Mqtt.{Client, subscribe, unsubscribe, find, subscription_id}
use platform_sdk.Net.Mqtt.Subscriptions.{unsubscribe-subscribe}

abbrev connected : Client
connected = record {
  topic_map = record { iterator = 0; topic = "uav/traffic/sa/1"; callback = 4 } ∷ [];
  subscription_map = (1, 0) ∷ [];
  next = 1;
  dropped = [];
}

unsubscribe-subscribe_example :
    unsubscribe 2 (subscribe 2 "uav/traffic/alert/1" 5 connected)
    ≡ record connected { next = 2; dropped = "uav/traffic/alert/1" ∷ [] }
unfolding find subscription_id
unsubscribe-subscribe_example =
    unsubscribe-subscribe 2 "uav/traffic/alert/1" 5 connected refl (omega arith, tt)
