-- ===== src/Take/Frames/Msgpack.antt =====
-- zizq/src/take.rs: length-prefixed MessagePack records, decoded as they were framed.
use zizq_rust.Prelude.{
  ℕ, zero, suc, ◌+◌, ◌/◌, ◌%◌, ◌^◌, ◌<◌, ◌≡◌, refl, ◌∙◌, ap, List, [], ◌∷◌, ◌++◌, length, Option,
  some, none, String, All, Bytes, arith, Result, take, take-append, drop-append, ltb, lt→ltb,
  ltb-false, ◌==◌, false, length-append,
}
use zizq_rust.Take.{
  Serde, need_more, decoded, next, msgpack, decode_msgpack, split_payload, from_be_bytes, BodyEvent,
  open_stream, feed, rebuffer,
}
use zizq_rust.Take.Resume.{split_payload_short}
use zizq_rust.Format.{message_pack}
use zizq_rust.Take.Collect.{deliver, collect, collect-deliver, received, ending}
use zizq_rust.Take.Frames.{encode_all, records, read_step, deliver-encode_all}

-- `u32::to_be_bytes`
abbrev pub to_be_bytes : ℕ → Bytes
to_be_bytes n = n / 2 ^ 24 % 256 ∷ n / 2 ^ 16 % 256 ∷ n / 2 ^ 8 % 256 ∷ n % 256 ∷ []

-- A record as the server sends it; the record without a payload is the heartbeat.
unfoldable pub frame : Bytes → Bytes
frame payload = to_be_bytes (length payload) ++ payload

-- The length has to fit its four bytes.
abbrev pub FitsU32 : Bytes → Type 0
FitsU32 payload = length payload < 2 ^ 32

to_be_bytes-value :
    (n : ℕ)
    → n < 2 ^ 32
    → from_be_bytes (n / 2 ^ 24 % 256) (n / 2 ^ 16 % 256) (n / 2 ^ 8 % 256) (n % 256) ≡ n
to_be_bytes-value n h = omega arith

length-take_lt {ℓ} : {A : Type ℓ} (n : ℕ) (xs : List A) → n < length xs → length (take n xs) ≡ n
length-take_lt zero xs h = refl
length-take_lt (suc n) [] h = absurd (omega arith)
length-take_lt (suc n) (x ∷ xs) h = ap suc (length-take_lt n xs (omega arith))

suc-ne-zero : (n : ℕ) → (suc n == 0) ≡ false
suc-ne-zero n = ground arith

module _ {J : Type 0} (serde : Serde J) where
  -- The record without a payload is the heartbeat.
  unfoldable pub read : Bytes → Option (Result J String)
  read [] = none
  read (b ∷ payload) = some (serde.from_msgpack (b ∷ payload))

module _ {J F : Type 0} (serde : Serde J) where
  split_payload-frame :
      (header payload rest : Bytes)
      → length header ≡ 4
      → split_payload {F = F} serde (length payload) (header ++ payload ++ rest) (payload ++ rest)
        ≡ (decoded (serde.from_msgpack payload), rest)
  unfolding split_payload
  split_payload-frame header payload rest h =
      let enough : ltb (length (header ++ payload ++ rest)) (4 + length payload) ≡ false =
        ltb-false _ _
          (omega (arith, length-append (header ++ payload) rest, length-append header payload)) in
      rw (enough, take-append payload rest, drop-append payload rest)

  decode_msgpack-frame :
      (p rest : Bytes)
      → FitsU32 p
      → next {F = F} serde (msgpack (frame p ++ rest))
        ≡ read_step serde (read serde p) (msgpack rest)
  unfolding next decode_msgpack frame read
  decode_msgpack-frame [] rest h = refl
  decode_msgpack-frame (b ∷ p) rest h =
      rw (to_be_bytes-value (length (b ∷ p)) h, suc-ne-zero (length p))
        (ap (rebuffer serde msgpack)
          (split_payload-frame (to_be_bytes (length (b ∷ p))) (b ∷ p) rest refl))

  -- A proper prefix of a record is not a record.
  decode_msgpack-partial :
      (c : ℕ) (b : ℕ) (p : Bytes)
      → FitsU32 (b ∷ p)
      → c < 4 + length (b ∷ p)
      → next {F = F} serde (msgpack (take c (frame (b ∷ p))))
        ≡ (need_more, msgpack (take c (frame (b ∷ p))))
  unfolding next decode_msgpack frame
  decode_msgpack-partial zero b p fits h = refl
  decode_msgpack-partial (suc zero) b p fits h = refl
  decode_msgpack-partial (suc (suc zero)) b p fits h = refl
  decode_msgpack-partial (suc (suc (suc zero))) b p fits h = refl
  decode_msgpack-partial (suc (suc (suc (suc c)))) b p fits h =
      rw (to_be_bytes-value (length (b ∷ p)) fits, suc-ne-zero (length p))
        (ap (rebuffer serde msgpack) (
          split_payload_short serde (length (b ∷ p))
            (to_be_bytes (length (b ∷ p)) ++ take c (b ∷ p)) (take c (b ∷ p))
            (lt→ltb _ _ (omega (arith, length-take_lt c (b ∷ p))))))

  -- A body that holds whole MessagePack records and then the first `c` bytes of one more, in any
  -- chunks, gives the consumer each record parsed, in order, heartbeats left out, up to the first
  -- that does not parse; if all parse, then what the end of the body gives: the transport failure if
  -- it broke, nothing if `c` is 0, and else a decode error. This holds for each number of polls
  -- above the bound, each record at most `2 ^ 32 - 1` bytes long.
  pub collect-frames :
      (payloads : List Bytes) (b : ℕ) (p : Bytes) (c n : ℕ) (events : List (BodyEvent F))
      → All FitsU32 payloads
      → FitsU32 (b ∷ p)
      → c < 4 + length (b ∷ p)
      → received events ≡ encode_all frame payloads ++ take c (frame (b ∷ p))
      → length (received events) + (length events + 1) < n
      → collect serde n (open_stream events message_pack)
        ≡ records (read serde) payloads (ending serde events (msgpack (take c (frame (b ∷ p)))))
  unfolding open_stream feed
  collect-frames payloads b p c n events all_fit fits h e enough =
      let m : ℕ = suc (length (received events) + length payloads) in
      collect-deliver serde n m events (msgpack []) (omega arith) (omega arith)
      ∙ (ap (λ t. deliver serde (ending serde events) m (msgpack t)) e
          ∙ deliver-encode_all serde msgpack frame (read serde) FitsU32 (decode_msgpack-frame)
              (take c (frame (b ∷ p))) (decode_msgpack-partial c b p fits h) (ending serde events)
              payloads m all_fit (omega arith))
