-- ===== src/Mavlink/Channel.antt =====
-- src/airmap/mavlink/channel.{h,cpp}: bytes become messages, counted and handed to subscribers.
-- The framing of the MAVLink library is a parameter: one byte takes its two buffers on and says
-- what came of it.
pub mod Counting
pub mod Filtering
use platform_sdk.Base.{
  ℕ, suc, ◌+◌, ◌%◌, ◌^◌, Bool, true, false, not, ◌==◌, Option, none, some, List, [], ◌∷◌, ◌++◌, map,
  if◌then◌else◌,
}

-- Each counter is a `std::uint64_t`.
pub record Counters : Type 0 where
  pub received : ℕ
  pub good : ℕ
  pub bad : ℕ

abbrev pub u64 : ℕ → ℕ
u64 n = n % 2 ^ 64

pub data Framing : Type 0 where
  incomplete ok bad_crc : Framing

-- `mavlink_frame_char_buffer` over the state `B` of the parser, with the message that it leaves in
-- the output buffer.
pub record Parser (B M : Type 0) : Type 0 where
  pub frame_char : B → ℕ → B × Framing × M

-- A subscriber is known by its position in the list: `subscriptions` numbers them as they come.
pub record Channel (B : Type 0) : Type 0 where
  pub counters : Counters
  pub subscribers : List ℕ
  pub next_subscription : ℕ
  pub parse_buffer : B

unfoldable pub erase : ℕ → List ℕ → List ℕ
erase i [] = []
erase i (j ∷ js) = if j == i then js else j ∷ erase i js

module _ {B : Type 0} where
  -- The iterator that `subscribe` returns names the new element.
  unfoldable pub subscribe : Channel B → Channel B × ℕ
  subscribe c = (
    record c {
      subscribers = c.subscribers ++ c.next_subscription ∷ [];
      next_subscription = suc c.next_subscription;
    },
    c.next_subscription,
  )

  unfoldable pub unsubscribe : ℕ → Channel B → Channel B
  unsubscribe i c = record c { subscribers = erase i c.subscribers }

  -- `start`, less the implementation's part.
  unfoldable pub start : Channel B → Channel B
  start c = record c { counters = record { received = 0; good = 0; bad = 0 } }

  -- The calls in the order of the two loops: a subscriber and a message each.
  unfoldable pub invoke_subscribers : {M : Type 0} → List M → Channel B → List (ℕ × M)
  invoke_subscribers [] c = []
  invoke_subscribers (msg ∷ msgs) c = map (λ s. (s, msg)) c.subscribers ++ invoke_subscribers msgs c

-- `push_back` into a result that is made when the first message comes.
abbrev pub push_back : {M : Type 0} → Option (List M) → M → Option (List M)
push_back none msg = some (msg ∷ [])
push_back (some msgs) msg = some (msgs ++ msg ∷ [])

unfoldable pub count : Framing → Counters → Counters
count incomplete n = n
count ok n = record n { received = u64 (n.received + 1); good = u64 (n.good + 1) }
count bad_crc n = record n { received = u64 (n.received + 1); bad = u64 (n.bad + 1) }

abbrev pub collect : {M : Type 0} → Framing → M → Option (List M) → Option (List M)
collect ok msg result = push_back result msg
collect incomplete msg result = result
collect bad_crc msg result = result

module _ {B M : Type 0} ⦃p : Parser B M⦄ where
  -- The loop over the bytes, with the result so far.
  unfoldable pub process_from : List ℕ → Option (List M) → Channel B → Channel B × Option (List M)
  process_from [] result c = (c, result)
  process_from (b ∷ bs) result c =
      let (buffer, rc, msg) = p.frame_char c.parse_buffer b in
      process_from bs (collect rc msg result)
        (record c { parse_buffer = buffer; counters = count rc c.counters })

  unfoldable pub process_mavlink_data : List ℕ → Channel B → Channel B × Option (List M)
  process_mavlink_data bs c = process_from bs none c

-- The callback of a `FilteringChannel`: the statement after the early `return` is its operand, so
-- the subscribers are invoked where the ids differ, and nothing is done where they are equal.
unfoldable pub filter_message : {B M : Type 0} → (M → ℕ) → ℕ → M → Channel B → List (ℕ × M)
filter_message sysid system_id msg c =
    if not (sysid msg == system_id) then invoke_subscribers (msg ∷ []) c else []
