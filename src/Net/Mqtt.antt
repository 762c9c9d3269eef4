-- ===== src/Net/Mqtt.antt =====
-- src/airmap/net/mqtt/boost/client.{h,cpp}: the subscriptions of an MQTT client and their callbacks.
pub mod Subscriptions
use platform_sdk.Base.{
  ℕ, suc, ◌%◌, ◌^◌, ◌==◌, String, str_eq, Option, none, some, List, [], ◌∷◌, ◌++◌, if◌then◌else◌,
}

-- An entry of the multimap: its iterator, its topic and its callback, which is known by a number.
pub record Entry : Type 0 where
  pub iterator : ℕ
  pub topic : String
  pub callback : ℕ

-- The map from a `SubscriptionId` to an iterator is the list of its pairs, the multimap of topics
-- the list of its entries in the order of their insertion. `dropped` has the topics that the broker
-- was told to drop, the latest first.
pub record Client : Type 0 where
  pub topic_map : List Entry
  pub subscription_map : List (ℕ × ℕ)
  pub next : ℕ
  pub dropped : List String

-- A packet id as a `SubscriptionId`, which has 8 bits.
unfoldable pub subscription_id : ℕ → ℕ
subscription_id id = id % 2 ^ 8

unfoldable pub find : ℕ → List (ℕ × ℕ) → Option ℕ
find key [] = none
find key ((k, it) ∷ rest) = if k == key then some it else find key rest

unfoldable pub erase : ℕ → List (ℕ × ℕ) → List (ℕ × ℕ)
erase key [] = []
erase key ((k, it) ∷ rest) = if k == key then rest else (k, it) ∷ erase key rest

-- `emplace` leaves a key that is there as it is.
unfoldable pub emplace : ℕ → ℕ → List (ℕ × ℕ) → List (ℕ × ℕ)
emplace key it m = elim (find key m) [ none ↦ m ++ (key, it) ∷ [] | some old ↦ m ]

unfoldable pub erase_entry : ℕ → List Entry → List Entry
erase_entry it [] = []
erase_entry it (e ∷ es) = if e.iterator == it then es else e ∷ erase_entry it es

unfoldable pub topic_at : ℕ → List Entry → List String
topic_at it [] = []
topic_at it (e ∷ es) = if e.iterator == it then e.topic ∷ [] else topic_at it es

-- With the packet id that `async_subscribe` returns.
unfoldable pub subscribe : ℕ → String → ℕ → Client → Client
subscribe id topic cb c = record c {
  topic_map = c.topic_map ++ record { iterator = c.next; topic = topic; callback = cb } ∷ [];
  subscription_map = emplace (subscription_id id) c.next c.subscription_map;
  next = suc c.next;
}

unfoldable pub unsubscribe_at : ℕ → Option ℕ → Client → Client
unsubscribe_at key none c = c
unsubscribe_at key (some it) c = record c {
  topic_map = erase_entry it c.topic_map;
  subscription_map = erase key c.subscription_map;
  dropped = topic_at it c.topic_map ++ c.dropped;
}

-- The destructor of a subscription, with the packet id that it was made with.
unfoldable pub unsubscribe : ℕ → Client → Client
unsubscribe id c =
    let key = subscription_id id in unsubscribe_at key (find key c.subscription_map) c

-- The callbacks that a published message is handed to.
unfoldable pub callbacks : String → List Entry → List ℕ
callbacks topic [] = []
callbacks topic (e ∷ es) =
    let rest = callbacks topic es in if str_eq e.topic topic then e.callback ∷ rest else rest

unfoldable pub handle_publish : String → Client → List ℕ
handle_publish topic c = callbacks topic c.topic_map
