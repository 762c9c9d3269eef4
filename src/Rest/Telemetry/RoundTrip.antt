-- ===== src/Rest/Telemetry/RoundTrip.antt =====
-- What the reader makes of the datagrams that are sent.
use platform_sdk.Base.{
  ℕ, String, zero, suc, ◌+◌, ◌*◌, ◌/◌, ◌%◌, ◌≤◌, ◌<◌, ◌≡◌, refl, sym, ap, subst, ◌∙◌, some, ◌>>=◌,
  List, [], ◌∷◌, ◌++◌, map, length, length-append, append_assoc, append-nil, All, arith,
}
use platform_sdk.Core.Flight.{Flight}
use platform_sdk.Rest.Telemetry.{
  Update, position, speed, attitude, barometer, Encoding, add_8, add_16, add_32, type, message,
  add_update, payload, submit_updates,
}
use platform_sdk.Rest.Telemetry.Receiver.{split, read_records, open_body, open_datagram}

split-append : (xs ys : List ℕ) → split (length xs) (xs ++ ys) ≡ some (xs, ys)
split-append [] ys = refl
split-append (x ∷ xs) ys = rw (split-append xs ys) refl

module _ {D F : Type 0} (e : Encoding D F) where
  -- The message fits the two bytes of its length.
  abbrev pub Fits : Update D F → Type 0
  Fits u = length (message e u) < 65536

  abbrev pub record_of : Update D F → ℕ × List ℕ
  record_of u = (type u, message e u)

  -- The numbers of the types fit two bytes.
  type_lem : (u : Update D F) → type u / 256 % 256 * 256 + type u % 256 ≡ type u
  unfolding type
  type_lem (position p) = refl
  type_lem (speed s) = refl
  type_lem (attitude a) = refl
  type_lem (barometer b) = refl

  read_records-add_update :
      (n : ℕ) (u : Update D F) (rest : List ℕ)
      → Fits u
      → read_records (suc n) (add_update e u [] ++ rest)
        ≡ (read_records n rest >>= λ records. some (record_of u ∷ records))
  unfolding add_update add_16
  read_records-add_update n u rest fits =
      let size : length (message e u) / 256 % 256 * 256 + length (message e u) % 256
          ≡ length (message e u) =
        omega arith in
      rw (size, type_lem u, split-append (message e u) rest) refl

  add_update-append :
      (u : Update D F) (buffer : List ℕ) → add_update e u buffer ≡ buffer ++ add_update e u []
  unfolding add_update add_16
  add_update-append u buffer = simp (append_assoc)

  payload-append :
      (updates : List (Update D F)) (buffer : List ℕ)
      → payload e updates buffer ≡ buffer ++ payload e updates []
  unfolding payload
  payload-append [] buffer = sym (append-nil buffer)
  payload-append (u ∷ updates) buffer =
      payload-append updates (add_update e u buffer)
      ∙ ap (λ b. b ++ payload e updates []) (add_update-append u buffer)
      ∙ append_assoc buffer (add_update e u []) (payload e updates [])
      ∙ ap (λ b. buffer ++ b) (sym (payload-append updates (add_update e u [])))

  read_records-payload :
      (n : ℕ) (updates : List (Update D F))
      → length updates ≤ n
      → All Fits updates
      → read_records n (payload e updates []) ≡ some (map record_of updates)
  unfolding payload
  read_records-payload zero [] enough fits = refl
  read_records-payload (suc n) [] enough fits = refl
  read_records-payload zero (u ∷ updates) enough fits = ground arith
  read_records-payload (suc n) (u ∷ updates) enough fits =
      rw (payload-append updates (add_update e u [])) (
        read_records-add_update n u (payload e updates []) fits.0
        ∙ ap (λ o. o >>= λ records. some (record_of u ∷ records))
            (read_records-payload n updates (omega arith) fits.1))

  length-payload :
      (updates : List (Update D F)) (buffer : List ℕ)
      → length updates + length buffer ≤ length (payload e updates buffer)
  unfolding payload add_update add_16
  length-payload [] buffer = omega arith
  length-payload (u ∷ updates) buffer =
      let first = length-payload updates (add_update e u buffer) in
      omega (
        arith,
        first,
        length-append (add_16 (length (message e u)) (add_16 (type u) buffer)) (message e u),
        length-append (add_16 (type u) buffer)
            (length (message e u) / 256 % 256 ∷ length (message e u) % 256 ∷ []),
        length-append buffer (type u / 256 % 256 ∷ type u % 256 ∷ []),
      )

  module _ (decrypt : List ℕ → String → List ℕ → List ℕ) where
    open_body-append :
        (key : String) (counter : ℕ) (id iv : List ℕ) (updates : List (Update D F))
        → length iv ≡ 16
        → All Fits updates
        → ((m : List ℕ) → decrypt (e.encrypt m key iv) key iv ≡ m)
        → open_body decrypt key counter
            (length id ∷ (id ++ (1 ∷ (iv ++ e.encrypt (payload e updates []) key iv))))
          ≡ some (record { counter = counter; id = id; records = map record_of updates })
    open_body-append key counter id iv updates sixteen fits inverse =
        let msg = e.encrypt (payload e updates []) key iv in
        let ivs : split 16 (iv ++ msg) ≡ some (iv, msg) =
          subst (λ n. split n (iv ++ msg) ≡ some (iv, msg)) sixteen (split-append iv msg) in
        let enough : length updates ≤ length (payload e updates []) =
          omega (arith, length-payload updates []) in
        rw
          (
            split-append id (1 ∷ (iv ++ msg)),
            ivs,
            inverse (payload e updates []),
            read_records-payload (length (payload e updates [])) updates enough fits,
          )
          refl

    -- Where the flight's id is shorter than 256 bytes, the message of each update shorter than 65536
    -- bytes, the initialization vector of 16 bytes and the counter a number of 32 bits, and the
    -- encryption is undone by the decryption, the datagram that is sent opens to the counter, the
    -- id and all updates in their order, each with its type and its message.
    pub open_datagram-submit_updates :
        (flight : Flight D) (key : String) (updates : List (Update D F)) (iv : List ℕ) (counter : ℕ)
        → counter < 4294967296
        → length (e.bytes flight.id) < 256
        → length iv ≡ 16
        → All Fits updates
        → ((m : List ℕ) → decrypt (e.encrypt m key iv) key iv ≡ m)
        → open_datagram decrypt key (submit_updates e flight key updates iv counter).1
          ≡ some (record {
            counter = counter;
            id = e.bytes flight.id;
            records = map record_of updates;
          })
    unfolding submit_updates add_8 add_32
    open_datagram-submit_updates flight key updates iv counter word short sixteen fits inverse =
        let id = e.bytes flight.id in
        let msg = e.encrypt (payload e updates []) key iv in
        let layout : id ++ 1 ∷ [] ++ iv ++ msg ≡ id ++ (1 ∷ (iv ++ msg)) =
          ap (λ b. b ++ msg) (append_assoc id (1 ∷ []) iv) ∙ append_assoc id (1 ∷ iv) msg in
        let size : length id % 256 ≡ length id = omega arith in
        let number : counter / 16777216 % 256 * 16777216
              + counter / 65536 % 256 * 65536
              + counter / 256 % 256 * 256
              + counter % 256
            ≡ counter =
          omega arith in
        rw (layout, size, number) (open_body-append key counter id iv updates sixteen fits inverse)
