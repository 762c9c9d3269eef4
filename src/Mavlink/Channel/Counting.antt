-- ===== src/Mavlink/Channel/Counting.antt =====
-- The counters and the result of a block of bytes.
use mathlib.Core.List.{append-nil, append_assoc}
use platform_sdk.Base.{
  ℕ, ◌+◌, ◌^◌, ◌≡◌, refl, Option, none, some, List, [], ◌∷◌, ◌++◌, arith, length, ap, sym, ◌<◌, ◌∙◌,
}
use platform_sdk.Mavlink.Channel.{
  u64, Framing, incomplete, ok, bad_crc, Parser, Channel, count, collect, process_from,
  process_mavlink_data,
}

-- The messages so far, where none are the same as no result.
abbrev pub so_far : {M : Type 0} → Option (List M) → List M
so_far none = []
so_far (some msgs) = msgs

abbrev pub result_of : {M : Type 0} → List M → Option (List M)
result_of [] = none
result_of (m ∷ ms) = some (m ∷ ms)

abbrev pub keep : {M : Type 0} → Framing → M → List M → List M
keep ok msg msgs = msg ∷ msgs
keep incomplete msg msgs = msgs
keep bad_crc msg msgs = msgs

collect-result_of :
    {M : Type 0} (rc : Framing) (m : M) (xs : List M)
    → collect rc m (result_of xs) ≡ result_of (xs ++ keep rc m [])
collect-result_of ok m [] = refl
collect-result_of ok m (x ∷ xs) = refl
collect-result_of incomplete m xs = ap result_of (sym (append-nil xs))
collect-result_of bad_crc m xs = ap result_of (sym (append-nil xs))

append-keep :
    {M : Type 0} (rc : Framing) (m : M) (xs ys : List M)
    → (xs ++ keep rc m []) ++ ys ≡ xs ++ keep rc m ys
append-keep ok m xs ys = append_assoc xs (m ∷ []) ys
append-keep incomplete m xs ys = append_assoc xs [] ys
append-keep bad_crc m xs ys = append_assoc xs [] ys

module _ {B M : Type 0} ⦃p : Parser B M⦄ where
  -- The complete messages that the framing finds in the bytes, in order.
  unfoldable pub messages : List ℕ → B → List M
  messages [] b = []
  messages (c ∷ cs) b = let (b', rc, msg) = p.frame_char b c in keep rc msg (messages cs b')

  process_from-counters :
      (bs : List ℕ) (r : Option (List M)) (c : Channel B)
      → c.counters.received ≡ u64 (c.counters.good + c.counters.bad)
      → (process_from bs r c).0.counters.received
        ≡ u64 ((process_from bs r c).0.counters.good + (process_from bs r c).0.counters.bad)
  unfolding process_from count
  process_from-counters [] r c e = e
  process_from-counters (b ∷ bs) r c e = process_from-counters bs _ _ (ground arith)

  process_from-good :
      (bs : List ℕ) (r : Option (List M)) (c : Channel B)
      → c.counters.good < 2 ^ 64
      → (process_from bs r c).0.counters.good
        ≡ u64 (c.counters.good + length (messages bs c.parse_buffer))
  unfolding process_from count messages
  process_from-good [] r c h = ground arith
  process_from-good (b ∷ bs) r c h =
      let f = p.frame_char c.parse_buffer b in
      let c' = record c { parse_buffer = f.0; counters = count f.1 c.counters } in
      ground (arith, process_from-good bs (collect f.1 f.2 r) c')

  process_from-result :
      (bs : List ℕ) (xs : List M) (c : Channel B)
      → (process_from bs (result_of xs) c).1 ≡ result_of (xs ++ messages bs c.parse_buffer)
  unfolding process_from messages
  process_from-result [] xs c = ap result_of (sym (append-nil xs))
  process_from-result (b ∷ bs) xs c =
      let f = p.frame_char c.parse_buffer b in
      let c' = record c { parse_buffer = f.0; counters = count f.1 c.counters } in
      ap (λ r. (process_from bs r c').1) (collect-result_of f.1 f.2 xs)
      ∙ process_from-result bs (xs ++ keep f.1 f.2 []) c'
      ∙ ap result_of (append-keep f.1 f.2 xs (messages bs f.0))

  -- A block of bytes gives the complete messages that the framing finds in them, in order, and no
  -- result where there is none. The counter of good messages grows by their number, modulo 2 ^ 64,
  -- and the counter of received messages stays the sum of the good and the bad ones, modulo 2 ^ 64.
  pub process_mavlink_data_lem :
      (bs : List ℕ) (c : Channel B)
      → c.counters.good < 2 ^ 64
      → c.counters.received ≡ u64 (c.counters.good + c.counters.bad)
      → ((process_mavlink_data bs c).1 ≡ result_of (messages bs c.parse_buffer))
        × ((process_mavlink_data {M = M} bs c).0.counters.good
            ≡ u64 (c.counters.good + length (messages bs c.parse_buffer)))
        × ((process_mavlink_data {M = M} bs c).0.counters.received
            ≡ u64 (
                (process_mavlink_data {M = M} bs c).0.counters.good
                + (process_mavlink_data {M = M} bs c).0.counters.bad))
  unfolding process_mavlink_data
  process_mavlink_data_lem bs c h e = (
    process_from-result bs [] c,
    process_from-good bs none c h,
    process_from-counters bs none c e,
  )
