-- ===== src/Examples/Channels.antt =====
-- Channels over a parser that takes every even byte for a message.
use platform_sdk.Base.{ℕ, ◌%◌, ◌==◌, ◌≡◌, refl, [], ◌∷◌, if◌then◌else◌, arith}
use platform_sdk.Mavlink.Channel.{
  Parser, incomplete, ok, bad_crc, Channel, process_mavlink_data, invoke_subscribers,
  filter_message,
}
use platform_sdk.Mavlink.Channel.Counting.{messages, result_of, process_mavlink_data_lem}
use platform_sdk.Mavlink.Channel.Filtering.{all_calls, filter_message_lem}

instance abbrev even_bytes : Parser ℕ ℕ
even_bytes = record {
  frame_char = λ b c. (c, (if c % 2 == 0 then ok else if c == 255 then bad_crc else incomplete), c);
}

abbrev fresh : Channel ℕ
fresh = record {
  counters = record { received = 0; good = 0; bad = 0 };
  subscribers = 0 ∷ 1 ∷ [];
  next_subscription = 2;
  parse_buffer = 0;
}

process_mavlink_data_lem_example :
    (process_mavlink_data {M = ℕ} (4 ∷ 7 ∷ 255 ∷ 6 ∷ []) fresh).1
    ≡ result_of (messages {B = ℕ} (4 ∷ 7 ∷ 255 ∷ 6 ∷ []) 0)
process_mavlink_data_lem_example =
    (process_mavlink_data_lem (4 ∷ 7 ∷ 255 ∷ 6 ∷ []) fresh (omega arith) refl).0

filter_message_lem_example :
    all_calls (λ (m : ℕ). filter_message (λ (n : ℕ). n) 7 m fresh) (7 ∷ 8 ∷ 7 ∷ [])
    ≡ invoke_subscribers (8 ∷ []) fresh
filter_message_lem_example = filter_message_lem (λ (m : ℕ). m) 7 fresh (7 ∷ 8 ∷ 7 ∷ [])
