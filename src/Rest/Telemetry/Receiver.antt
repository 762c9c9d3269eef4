-- ===== src/Rest/Telemetry/Receiver.antt =====
-- The other end of the datagrams: a reader of their format.
use platform_sdk.Base.{
  ℕ, String, zero, suc, ◌+◌, ◌*◌, Option, none, some, ◌>>=◌, List, [], ◌∷◌, length,
}

-- The first `n` bytes, and the rest.
abbrev pub split : ℕ → List ℕ → Option (List ℕ × List ℕ)
split zero bs = some ([], bs)
split (suc n) [] = none
split (suc n) (b ∷ bs) = do (front, rest) ← split n bs; some (b ∷ front, rest)

-- A record: two bytes of type, two of length, and the message.
abbrev pub read_records : ℕ → List ℕ → Option (List (ℕ × List ℕ))
read_records zero [] = some []
read_records zero (b ∷ bs) = none
read_records (suc n) [] = some []
read_records (suc n) (t ∷ t' ∷ l ∷ l' ∷ bs) = do
  (message, rest) ← split (l * 256 + l') bs
  records ← read_records n rest
  some ((t * 256 + t', message) ∷ records)
read_records (suc n) _ = none

-- A datagram, opened: the counter, the flight and the records.
pub record Opened : Type 0 where
  pub counter : ℕ
  pub id : List ℕ
  pub records : List (ℕ × List ℕ)

module _ (decrypt : List ℕ → String → List ℕ → List ℕ) (key : String) where
  -- After the counter: the length of the id, the id, the type of the encryption, 16 bytes of
  -- initialization vector and the encrypted records.
  abbrev pub open_body : ℕ → List ℕ → Option Opened
  open_body counter [] = none
  open_body counter (n ∷ bs) = do
    (id, encrypted) ← split n bs
    (kind, rest) ← split 1 encrypted
    (iv, msg) ← split 16 rest
    let plain = decrypt msg key iv
    records ← read_records (length plain) plain
    some (record { counter = counter; id = id; records = records })

  abbrev pub open_datagram : List ℕ → Option Opened
  open_datagram (a ∷ b ∷ c ∷ d ∷ bs) = open_body (a * 16777216 + b * 65536 + c * 256 + d) bs
  open_datagram _ = none
