-- ===== src/Take/Sizes.antt =====
-- zizq/src/take.rs: how decoding changes the size of the buffer.
use zizq_rust.Prelude.{
  ℕ, ◌+◌, ◌<◌, ◌≤◌, ◌≡◌, refl, ap, [], ◌∷◌, ◌++◌, length, Bytes, length-append, length-drop, arith,
}
use zizq_rust.Take.{
  Serde, DecodeResult, job, error, need_more, from_be_bytes, StreamDecoder, ndjson, msgpack,
  decode_ndjson_from, decode_ndjson, split_payload, decode_msgpack, next, rebuffer,
}
use zizq_rust.Take.Resume.{buffered}

module _ {J : Type 0} (F : Type 0) (serde : Serde J) where
  decode_msgpack-keeps :
      (buffer : Bytes) → length (decode_msgpack {F = F} serde buffer).1 ≤ length buffer
  unfolding decode_msgpack split_payload
  decode_msgpack-keeps [] = omega arith
  decode_msgpack-keeps (a ∷ []) = omega arith
  decode_msgpack-keeps (a ∷ b ∷ []) = omega arith
  decode_msgpack-keeps (a ∷ b ∷ c ∷ []) = omega arith
  decode_msgpack-keeps (a ∷ b ∷ c ∷ d ∷ rest) =
      ground (arith, decode_msgpack-keeps rest, length-drop (from_be_bytes a b c d) rest)

  decode_ndjson_from-keeps :
      (line buffer : Bytes)
      → length (decode_ndjson_from {F = F} serde line buffer).1 ≤ length line + length buffer
  unfolding decode_ndjson_from
  decode_ndjson_from-keeps line [] = omega arith
  decode_ndjson_from-keeps line (b ∷ rest) = ground (
    arith,
    decode_ndjson_from-keeps [] rest,
    decode_ndjson_from-keeps (line ++ b ∷ []) rest,
    length-append line (b ∷ []),
  )

  -- Decoding adds nothing to the buffer.
  pub next-keeps :
      (d : StreamDecoder) → length (buffered (next {F = F} serde d).1) ≤ length (buffered d)
  unfolding next decode_ndjson
  next-keeps (ndjson buffer) = omega (arith, decode_ndjson_from-keeps [] buffer)
  next-keeps (msgpack buffer) = decode_msgpack-keeps buffer

module _ {J F : Type 0} (serde : Serde J) where
  -- A record that is found takes at least a byte from the buffer.
  decode_msgpack-shrinks :
      (buffer left : Bytes) (j : J)
      → decode_msgpack {F = F} serde buffer ≡ (job j, left)
      → length left < length buffer
  unfolding decode_msgpack split_payload
  decode_msgpack-shrinks [] left j e = cc
  decode_msgpack-shrinks (a ∷ []) left j e = cc
  decode_msgpack-shrinks (a ∷ b ∷ []) left j e = cc
  decode_msgpack-shrinks (a ∷ b ∷ c ∷ []) left j e = cc
  decode_msgpack-shrinks (a ∷ b ∷ c ∷ d ∷ rest) left j e =
      ground (arith, decode_msgpack-shrinks rest left j, length-drop (from_be_bytes a b c d) rest)

  decode_ndjson_from-shrinks :
      (line buffer left : Bytes) (j : J)
      → decode_ndjson_from {F = F} serde line buffer ≡ (job j, left)
      → length left < length buffer
  unfolding decode_ndjson_from
  decode_ndjson_from-shrinks line [] left j e = cc
  decode_ndjson_from-shrinks line (b ∷ rest) left j e = ground (
    arith,
    decode_ndjson_from-shrinks [] rest left j,
    decode_ndjson_from-shrinks (line ++ b ∷ []) rest left j,
  )

  rebuffer_shrinks :
      (mk : Bytes → StreamDecoder) (n : ℕ)
      → ((left : Bytes) → buffered (mk left) ≡ left)
      → (p : DecodeResult J F × Bytes)
      → ((left : Bytes) (j : J) → p ≡ (job j, left) → length left < n)
      → (d : StreamDecoder) (j : J) → rebuffer serde mk p ≡ (job j, d)
      → length (buffered d) < n
  rebuffer_shrinks mk n same (job j', left) h d j e =
      let sizes : length (buffered (mk left)) ≡ length (buffered d) =
        ap (λ q. length (buffered q.1)) e in
      omega (arith, h left j' refl, ap length (same left))
  rebuffer_shrinks mk n same (error x, left) h d j e = cc
  rebuffer_shrinks mk n same (need_more, left) h d j e = cc

  pub next-shrinks :
      (d d' : StreamDecoder) (j : J)
      → next {F = F} serde d ≡ (job j, d')
      → length (buffered d') < length (buffered d)
  unfolding next decode_ndjson
  next-shrinks (ndjson buffer) d' j e =
      rebuffer_shrinks ndjson (length buffer) (λ l. refl) (decode_ndjson_from serde [] buffer)
        (decode_ndjson_from-shrinks [] buffer) d' j e
  next-shrinks (msgpack buffer) d' j e =
      rebuffer_shrinks msgpack (length buffer) (λ l. refl) (decode_msgpack serde buffer)
        (decode_msgpack-shrinks buffer) d' j e
