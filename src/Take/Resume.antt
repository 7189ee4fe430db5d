-- ===== src/Take/Resume.antt =====
-- zizq/src/take.rs: decoding resumes where it stopped when more bytes arrive.
use zizq_rust.Prelude.{
  ℕ, ◌+◌, ◌≤◌, ◌≡◌, refl, sym, ◌∙◌, ap, true, false, [], ◌∷◌, ◌++◌, length, take, all, ltb, ◌==◌,
  All, Bool-cases, Bytes, length-append, take-append_le, drop-append_le, append_assoc, append-nil,
  arith, inl, inr, ltb-false, Result, ok, err,
}
use zizq_rust.Take.{
  Serde, DecodeResult, job, error, need_more, from_be_bytes, is_ascii_whitespace, strip_cr, decoded,
  StreamDecoder, ndjson, msgpack, feed, decode_ndjson_from, decode_ndjson, split_payload,
  decode_msgpack, next, rebuffer,
}

-- The bytes of the buffer.
abbrev pub buffered : StreamDecoder → Bytes
buffered (ndjson buffer) = buffer
buffered (msgpack buffer) = buffer

-- The newline is not among the bytes.
abbrev pub NoNewline : Bytes → Type 0
NoNewline = All (λ b. (b == 10) ≡ false)

NoNewline-append :
    (xs : Bytes) (b : ℕ) → NoNewline xs → (b == 10) ≡ false → NoNewline (xs ++ b ∷ [])
NoNewline-append [] b h e = (e, tt)
NoNewline-append (x ∷ xs) b h e = (h.0, NoNewline-append xs b h.1 e)

pub feed-nil : (d : StreamDecoder) → feed d [] ≡ d
unfolding feed
feed-nil (ndjson b) = ap ndjson (append-nil b)
feed-nil (msgpack b) = ap msgpack (append-nil b)

pub feed-append : (d : StreamDecoder) (b c : Bytes) → feed (feed d b) c ≡ feed d (b ++ c)
unfolding feed
feed-append (ndjson a) b c = ap ndjson (append_assoc a b c)
feed-append (msgpack a) b c = ap msgpack (append_assoc a b c)

pub feed-size :
    (d : StreamDecoder) (c : Bytes) → length (buffered (feed d c)) ≡ length (buffered d) + length c
unfolding feed
feed-size (ndjson a) c = length-append a c
feed-size (msgpack a) c = length-append a c

module _ {J F : Type 0} (serde : Serde J) where
  -- What decoding a longer buffer gives, from what the shorter one gave.
  abbrev resume_with :
      (Bytes → DecodeResult J F × Bytes)
      → DecodeResult J F × Bytes
      → Bytes
      → DecodeResult J F × Bytes
  resume_with decode (job j, left) more = (job j, left ++ more)
  resume_with decode (error e, left) more = (error e, left ++ more)
  resume_with decode (need_more, left) more = decode (left ++ more)

  abbrev pub resume : DecodeResult J F × StreamDecoder → Bytes → DecodeResult J F × StreamDecoder
  resume (job j, d) more = (job j, feed d more)
  resume (error e, d) more = (error e, feed d more)
  resume (need_more, d) more = next serde (feed d more)

  resume-decoded :
      (decode : Bytes → DecodeResult J F × Bytes) (r : Result J _) (left more : Bytes)
      → resume_with decode (decoded r, left) more ≡ (decoded r, left ++ more)
  resume-decoded decode (ok j) left more = refl
  resume-decoded decode (err m) left more = refl

  -- A complete payload is not changed by what follows it.
  split_payload-append :
      (len : ℕ) (buffer rest more : Bytes)
      → ltb (length buffer) (4 + len) ≡ false
      → length buffer ≡ 4 + length rest
      → split_payload serde len (buffer ++ more) (rest ++ more)
        ≡ resume_with (decode_msgpack serde) (split_payload serde len buffer rest) more
  unfolding split_payload
  split_payload-append len buffer rest more whole sizes =
      let fits : len ≤ length rest = ground arith in
      let still : ltb (length (buffer ++ more)) (4 + len) ≡ false =
        ltb-false _ _ (omega (arith, length-append buffer more)) in
      rw (whole, still, take-append_le len rest more fits, drop-append_le len rest more fits)
        (sym (resume-decoded (decode_msgpack serde) (serde.from_msgpack (take len rest)) _ more))

  pub split_payload_short :
      (len : ℕ) (buffer rest : Bytes)
      → ltb (length buffer) (4 + len) ≡ true
      → split_payload {F = F} serde len buffer rest ≡ (need_more, buffer)
  unfolding split_payload
  split_payload_short len buffer rest short = rw short

  decode_msgpack-append :
      (buffer more : Bytes)
      → decode_msgpack serde (buffer ++ more)
        ≡ resume_with (decode_msgpack serde) (decode_msgpack serde buffer) more
  unfolding decode_msgpack
  decode_msgpack-append [] more = refl
  decode_msgpack-append (a ∷ []) more = refl
  decode_msgpack-append (a ∷ b ∷ []) more = refl
  decode_msgpack-append (a ∷ b ∷ c ∷ []) more = refl
  decode_msgpack-append (a ∷ b ∷ c ∷ d ∷ rest) more =
      elim (Bool-cases (from_be_bytes a b c d == 0)) [
        | inl zero_len ↦ rw zero_len (decode_msgpack-append rest more)
        | inr some_len ↦
            elim (Bool-cases (ltb (length (a ∷ b ∷ c ∷ d ∷ rest)) (4 + from_be_bytes a b c d))) [
              | inl short ↦
                  rw
                    (
                      some_len,
                      split_payload_short (from_be_bytes a b c d) (a ∷ b ∷ c ∷ d ∷ rest) rest short,
                    )
                    (rw some_len refl)
              | inr whole ↦ rw some_len (
                  split_payload-append (from_be_bytes a b c d) (a ∷ b ∷ c ∷ d ∷ rest) rest more
                    whole (omega arith))
            ]
      ]

  -- Bytes without a newline are passed over.
  pub decode_ndjson_from-skip :
      (line xs more : Bytes)
      → NoNewline xs
      → decode_ndjson_from {F = F} serde line (xs ++ more)
        ≡ decode_ndjson_from serde (line ++ xs) more
  unfolding decode_ndjson_from
  decode_ndjson_from-skip line [] more h = rw append-nil refl
  decode_ndjson_from-skip line (x ∷ xs) more h =
      rw h.0 (decode_ndjson_from-skip (line ++ x ∷ []) xs more h.1 ∙ rw append_assoc refl)

  decode_ndjson_from-append :
      (line xs more : Bytes)
      → NoNewline line
      → decode_ndjson_from serde line (xs ++ more)
        ≡ resume_with (decode_ndjson serde) (decode_ndjson_from serde line xs) more
  unfolding decode_ndjson_from decode_ndjson
  decode_ndjson_from-append line [] more h = sym (decode_ndjson_from-skip [] line more h)
  decode_ndjson_from-append line (b ∷ xs) more h = elim (Bool-cases (b == 10)) [
    | inr other ↦
        rw other
          (decode_ndjson_from-append (line ++ b ∷ []) xs more (NoNewline-append line b h other))
    | inl newline ↦ elim (Bool-cases (all is_ascii_whitespace (strip_cr line))) [
      | inl heartbeat ↦ rw (newline, heartbeat) (decode_ndjson_from-append [] xs more tt)
      | inr record_line ↦
          rw (newline, record_line)
            (sym (resume-decoded (decode_ndjson serde) (serde.from_json (strip_cr line)) xs more))
    ]
  ]

  rebuffer-ndjson :
      (p : DecodeResult J F × Bytes) (more : Bytes)
      → rebuffer serde ndjson (resume_with (decode_ndjson serde) p more)
        ≡ resume (rebuffer serde ndjson p) more
  unfolding next feed
  rebuffer-ndjson (need_more, left) more = refl
  rebuffer-ndjson (_, left) more = refl

  rebuffer-msgpack :
      (p : DecodeResult J F × Bytes) (more : Bytes)
      → rebuffer serde msgpack (resume_with (decode_msgpack serde) p more)
        ≡ resume (rebuffer serde msgpack p) more
  unfolding next feed
  rebuffer-msgpack (need_more, left) more = refl
  rebuffer-msgpack (_, left) more = refl

  -- Decoding a buffer with more bytes behind it gives the record that was found, with those bytes
  -- behind what it leaves; where none was found, decoding goes on from what was left.
  pub next-feed :
      (d : StreamDecoder) (more : Bytes)
      → next serde (feed d more) ≡ resume (next {F = F} serde d) more
  unfolding next feed decode_ndjson
  next-feed (ndjson buffer) more =
      ap (rebuffer serde ndjson) (decode_ndjson_from-append [] buffer more tt)
      ∙ rebuffer-ndjson (decode_ndjson serde buffer) more
  next-feed (msgpack buffer) more =
      ap (rebuffer serde msgpack) (decode_msgpack-append buffer more)
      ∙ rebuffer-msgpack (decode_msgpack serde buffer) more
