-- ===== src/Net/Mqtt/Subscriptions.antt =====
-- What a subscription adds, and what its end takes away.
use platform_sdk.Base.{
  ℕ, suc, ◌+◌, ◌<◌, ◌≡◌, refl, String, str_eq, none, some, List, [], ◌∷◌, ◌++◌, if◌then◌else◌, All,
  arith,
}
use platform_sdk.Net.Mqtt.{
  Entry, Client, subscription_id, find, erase, emplace, erase_entry, topic_at, subscribe,
  unsubscribe_at, unsubscribe, callbacks, handle_publish,
}

find_last :
    (key it : ℕ) (m : List (ℕ × ℕ)) → find key m ≡ none → find key (m ++ (key, it) ∷ []) ≡ some it
unfolding find
find_last key it [] h = ground arith
find_last key it ((k, i) ∷ m) h = ground (arith, find_last key it m)

erase_last :
    (key it : ℕ) (m : List (ℕ × ℕ)) → find key m ≡ none → erase key (m ++ (key, it) ∷ []) ≡ m
unfolding find erase
erase_last key it [] h = ground arith
erase_last key it ((k, i) ∷ m) h = ground (arith, erase_last key it m)

-- The iterators are older than the number.
abbrev pub Older : ℕ → List Entry → Type 0
Older n es = All (λ e. e.iterator < n) es

erase_entry_last :
    (x : Entry) (es : List Entry) → Older x.iterator es → erase_entry x.iterator (es ++ x ∷ []) ≡ es
unfolding erase_entry
erase_entry_last x [] h = ground arith
erase_entry_last x (e ∷ es) h = let young = h.0 in ground (arith, erase_entry_last x es h.1)

topic_at_last :
    (x : Entry) (es : List Entry)
    → Older x.iterator es
    → topic_at x.iterator (es ++ x ∷ []) ≡ x.topic ∷ []
unfolding topic_at
topic_at_last x [] h = ground arith
topic_at_last x (e ∷ es) h = let young = h.0 in ground (arith, topic_at_last x es h.1)

-- A subscription under an id whose last 8 bits no live subscription has: when it ends, both maps
-- are what they were before it, and the broker is told to drop its topic.
pub unsubscribe-subscribe :
    (id : ℕ) (topic : String) (cb : ℕ) (c : Client)
    → find (subscription_id id) c.subscription_map ≡ none
    → Older c.next c.topic_map
    → unsubscribe id (subscribe id topic cb c)
      ≡ record c { next = suc c.next; dropped = topic ∷ c.dropped }
unfolding unsubscribe subscribe emplace unsubscribe_at
unsubscribe-subscribe id topic cb c h o =
    let x : Entry = record { iterator = c.next; topic = topic; callback = cb } in
    ground (
      arith,
      find_last (subscription_id id) c.next c.subscription_map h,
      erase_last (subscription_id id) c.next c.subscription_map h,
      erase_entry_last x c.topic_map o,
      topic_at_last x c.topic_map o,
    )

callbacks_last :
    (topic : String) (x : Entry) (es : List Entry)
    → callbacks topic (es ++ x ∷ [])
      ≡ callbacks topic es ++ (if str_eq x.topic topic then x.callback ∷ [] else [])
unfolding callbacks
callbacks_last topic x [] = refl
callbacks_last topic x (e ∷ es) = ground (arith, callbacks_last topic x es)

-- After a subscription, a message is handed to the callbacks from before, in their order, and to
-- the new one last, where the topic is its own.
pub handle_publish-subscribe :
    (id : ℕ) (topic published : String) (cb : ℕ) (c : Client)
    → handle_publish published (subscribe id topic cb c)
      ≡ handle_publish published c ++ (if str_eq topic published then cb ∷ [] else [])
unfolding handle_publish subscribe
handle_publish-subscribe id topic published cb c = callbacks_last published _ c.topic_map

-- Two subscriptions of a new client whose ids differ by 256: the end of the later one takes the
-- callback of the earlier one away, and its own stays.
pub handle_publish-unsubscribe :
    (id : ℕ) (first second published : String) (a b n : ℕ)
    → handle_publish published (
        unsubscribe (id + 256) (
          subscribe (id + 256) second b (
            subscribe id first a
              (record { topic_map = []; subscription_map = []; next = n; dropped = [] }))))
      ≡ (if str_eq second published then b ∷ [] else [])
unfolding handle_publish subscribe unsubscribe unsubscribe_at emplace find erase erase_entry
    topic_at callbacks subscription_id
handle_publish-unsubscribe id first second published a b n = ground arith
