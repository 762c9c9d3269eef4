-- ===== src/Mavlink/Channel/Filtering.antt =====
-- Which messages a `FilteringChannel` lets through.
use platform_sdk.Base.{ℕ, ◌==◌, ◌≡◌, refl, List, [], ◌∷◌, ◌++◌, map, if◌then◌else◌, arith}
use mathlib.Core.List.{append-nil}
use platform_sdk.Mavlink.Channel.{Channel, invoke_subscribers, filter_message}

-- The messages of the systems other than the one that the channel is made for.
abbrev pub of_others : {M : Type 0} → (M → ℕ) → ℕ → List M → List M
of_others sysid system_id [] = []
of_others sysid system_id (m ∷ ms) =
    if sysid m == system_id then of_others sysid system_id ms else m ∷ of_others sysid system_id ms

-- The calls of subscribers for messages that come one after the other.
abbrev pub all_calls : {M : Type 0} → (M → List (ℕ × M)) → List M → List (ℕ × M)
all_calls f [] = []
all_calls f (m ∷ ms) = f m ++ all_calls f ms

module _ {B M : Type 0} (sysid : M → ℕ) (system_id : ℕ) where
  -- On any sequence of messages, a filtering channel makes the calls that a plain channel makes on
  -- the messages of the other systems: a message of the system that it is made for reaches no
  -- subscriber, and each other message reaches each subscriber, in the order of arrival.
  pub filter_message_lem :
      (c : Channel B) (ms : List M)
      → all_calls (λ m. filter_message sysid system_id m c) ms
        ≡ invoke_subscribers (of_others sysid system_id ms) c
  unfolding filter_message invoke_subscribers
  filter_message_lem c [] = refl
  filter_message_lem c (m ∷ ms) =
      let ih = filter_message_lem c ms in
      ground (arith, append-nil {A = ℕ × M} (map (λ s. (s, m)) c.subscribers))
