-- ===== src/Take.antt =====
-- zizq/src/take.rs: the framing decoders and the stream of jobs over them. `serde_json` and
-- `rmp_serde` are the interface `Serde`; `J` is the type of jobs, `F` that of transport failures.
pub mod Resume
pub mod Sizes
pub mod Collect
pub mod Frames
pub mod Chunking
use zizq_rust.Prelude.{
  ℕ, ◌+◌, ◌*◌, String, Bool, true, false, ◌||◌, Option, none, some, List, [], ◌∷◌, ◌++◌, length,
  take, drop, all, is_empty, ltb, ◌==◌, if◌then◌else◌, Result, ok, err, Bytes,
}
use zizq_rust.Error.{ZizqError, transport, decode}
use zizq_rust.Format.{Format, json, message_pack}

-- Parsing the bytes of one record: the job, or the text of the parser's error.
pub record Serde (J : Type 0) : Type 0 where
  pub from_json : Bytes → Result J String
  pub from_msgpack : Bytes → Result J String

pub data DecodeResult (J F : Type 0) : Type 0 where
  job : J → DecodeResult J F
  error : ZizqError F → DecodeResult J F
  need_more : DecodeResult J F

-- `u32::from_be_bytes`
abbrev pub from_be_bytes : ℕ → ℕ → ℕ → ℕ → ℕ
from_be_bytes a b c d = ((a * 256 + b) * 256 + c) * 256 + d

-- `u8::is_ascii_whitespace`: tab, line feed, form feed, carriage return, space.
abbrev pub is_ascii_whitespace : ℕ → Bool
is_ascii_whitespace b = b == 9 || b == 10 || b == 12 || b == 13 || b == 32

-- The line without one trailing carriage return.
abbrev pub strip_cr : Bytes → Bytes
strip_cr [] = []
strip_cr (b ∷ []) = if b == 13 then [] else b ∷ []
strip_cr (b ∷ c ∷ rest) = b ∷ strip_cr (c ∷ rest)

-- `poll_next` of the body: a chunk, a failed read, or nothing yet. A list of them is what the body
-- will answer from now on; after the last one it answers that it has ended.
pub data BodyEvent (F : Type 0) : Type 0 where
  chunk : Bytes → BodyEvent F
  broken : F → BodyEvent F
  pending : BodyEvent F

pub data StreamDecoder : Type 0 where
  ndjson : Bytes → StreamDecoder
  msgpack : Bytes → StreamDecoder

pub record TakeStream (F : Type 0) : Type 0 where
  pub inner : List (BodyEvent F)
  pub decoder : StreamDecoder
  pub finished : Bool

-- `Poll<Option<Result<Job, ZizqError>>>`
pub data Poll (J F : Type 0) : Type 0 where
  yields : Result J (ZizqError F) → Poll J F
  ended : Poll J F
  waits : Poll J F

unfoldable pub for_format : Format → StreamDecoder
for_format json = ndjson []
for_format message_pack = msgpack []

unfoldable pub feed : StreamDecoder → Bytes → StreamDecoder
feed (ndjson buffer) c = ndjson (buffer ++ c)
feed (msgpack buffer) c = msgpack (buffer ++ c)

-- The error for what is left in the buffer at the end of the body.
abbrev pub incomplete : {F : Type 0} → ZizqError F
incomplete = decode "incomplete frame at end of stream"

-- A non-empty buffer at the end of the body is an error, and is cleared.
abbrev finalize_buffer :
    {F : Type 0} → (Bytes → StreamDecoder) → Bytes → Option (ZizqError F) × StreamDecoder
finalize_buffer mk buffer = if is_empty buffer then (none, mk buffer) else (some incomplete, mk [])

unfoldable pub finalize : {F : Type 0} → StreamDecoder → Option (ZizqError F) × StreamDecoder
finalize (ndjson buffer) = finalize_buffer ndjson buffer
finalize (msgpack buffer) = finalize_buffer msgpack buffer

-- `Result` of a parser as a decode result: its error becomes `ZizqError::Decode`.
abbrev pub decoded : {J F : Type 0} → Result J String → DecodeResult J F
decoded (ok j) = job j
decoded (err m) = error (decode m)

module _ {J F : Type 0} (serde : Serde J) where
  -- `line` is what the search for the newline has passed; each newline found ends a round of the
  -- source's loop. A line of white space is a heartbeat.
  unfoldable pub decode_ndjson_from : Bytes → Bytes → DecodeResult J F × Bytes
  decode_ndjson_from line [] = (need_more, line)
  decode_ndjson_from line (b ∷ rest) =
      let again = decode_ndjson_from [] rest in
      let further = decode_ndjson_from (line ++ b ∷ []) rest in
      if b == 10
      then (if all is_ascii_whitespace (strip_cr line)
          then again
          else (decoded (serde.from_json (strip_cr line)), rest))
      else further

  unfoldable pub decode_ndjson : Bytes → DecodeResult J F × Bytes
  unfolding decode_ndjson_from
  decode_ndjson buffer = decode_ndjson_from [] buffer

  -- The payload of `len` bytes behind the header, if it is complete.
  unfoldable pub split_payload : ℕ → Bytes → Bytes → DecodeResult J F × Bytes
  split_payload len buffer rest =
      if ltb (length buffer) (4 + len)
      then (need_more, buffer)
      else (decoded (serde.from_msgpack (take len rest)), drop len rest)

  -- A record is its length in four bytes, most significant first, and its payload. Length 0 is a
  -- heartbeat.
  unfoldable pub decode_msgpack : Bytes → DecodeResult J F × Bytes
  decode_msgpack [] = (need_more, [])
  decode_msgpack (a ∷ []) = (need_more, a ∷ [])
  decode_msgpack (a ∷ b ∷ []) = (need_more, a ∷ b ∷ [])
  decode_msgpack (a ∷ b ∷ c ∷ []) = (need_more, a ∷ b ∷ c ∷ [])
  decode_msgpack (a ∷ b ∷ c ∷ d ∷ rest) =
      let again = decode_msgpack rest in
      let len = from_be_bytes a b c d in
      if len == 0 then again else split_payload len (a ∷ b ∷ c ∷ d ∷ rest) rest

  abbrev pub rebuffer :
      (Bytes → StreamDecoder) → DecodeResult J F × Bytes → DecodeResult J F × StreamDecoder
  rebuffer mk (r, buffer) = (r, mk buffer)

  unfoldable pub next : StreamDecoder → DecodeResult J F × StreamDecoder
  next (ndjson buffer) = rebuffer ndjson (decode_ndjson buffer)
  next (msgpack buffer) = rebuffer msgpack (decode_msgpack buffer)

  -- The body has ended.
  abbrev pub finish : Option (ZizqError F) × StreamDecoder → Poll J F × TakeStream F
  finish (none, d) = (ended, record { inner = []; decoder = d; finished = true })
  finish (some e, d) = (yields (err e), record { inner = []; decoder = d; finished = true })

  -- A record in the buffer answers the poll; only if there is none is the body polled.
  abbrev pub answer :
      DecodeResult J F × StreamDecoder
      → List (BodyEvent F)
      → (StreamDecoder → Poll J F × TakeStream F)
      → Poll J F × TakeStream F
  answer (job j, d) events poll_body =
      (yields (ok j), record { inner = events; decoder = d; finished = false })
  answer (error e, d) events poll_body =
      (yields (err e), record { inner = events; decoder = d; finished = true })
  answer (need_more, d) events poll_body = poll_body d

  -- The loop of `poll_next`, by what the body answers: a chunk goes into the buffer and the loop
  -- goes on.
  unfoldable pub poll_loop : StreamDecoder → List (BodyEvent F) → Poll J F × TakeStream F
  poll_loop d [] = answer (next d) [] (λ d'. finish (finalize d'))
  poll_loop d (chunk c ∷ events) =
      answer (next d) (chunk c ∷ events) (λ d'. poll_loop (feed d' c) events)
  poll_loop d (broken f ∷ events) =
      answer (next d) (broken f ∷ events) (λ d'.
        (yields (err (transport f)), record { inner = events; decoder = d'; finished = true }))
  poll_loop d (pending ∷ events) =
      answer (next d) (pending ∷ events)
        (λ d'. (waits, record { inner = events; decoder = d'; finished = false }))

  unfoldable pub poll_next : TakeStream F → Poll J F × TakeStream F
  unfolding poll_loop
  poll_next s = if s.finished then (ended, s) else poll_loop s.decoder s.inner

-- `TakeStream::new`
unfoldable pub open_stream : {F : Type 0} → List (BodyEvent F) → Format → TakeStream F
unfolding for_format
open_stream body format = record { inner = body; decoder = for_format format; finished = false }
