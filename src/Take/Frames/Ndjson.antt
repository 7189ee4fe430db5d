-- ===== src/Take/Frames/Ndjson.antt =====
-- zizq/src/take.rs: newline-delimited JSON records, decoded as they were written.
use zizq_rust.Prelude.{
  ℕ, suc, ◌+◌, ◌<◌, ◌≡◌, refl, ◌∙◌, ap, List, [], ◌∷◌, ◌++◌, length, Option, some, none, String,
  All, Bytes, append_assoc, append-nil, sym, arith, Result, Bool-cases, inl, inr, all,
  if◌then◌else◌,
}
use zizq_rust.Take.{
  Serde, need_more, next, ndjson, decode_ndjson, decode_ndjson_from, BodyEvent, open_stream, feed,
  rebuffer, is_ascii_whitespace, strip_cr,
}
use zizq_rust.Take.Resume.{NoNewline, decode_ndjson_from-skip}
use zizq_rust.Format.{json}
use zizq_rust.Take.Collect.{deliver, collect, collect-deliver, received, ending}
use zizq_rust.Take.Frames.{encode_all, records, read_step, deliver-encode_all}

-- A line and its newline.
unfoldable pub terminated : Bytes → Bytes
terminated line = line ++ 10 ∷ []

module _ {J : Type 0} (serde : Serde J) where
  -- A line of white space is a heartbeat; a carriage return at the end is not part of the record.
  unfoldable pub read_line : Bytes → Option (Result J String)
  read_line line =
      if all is_ascii_whitespace (strip_cr line)
      then none
      else some (serde.from_json (strip_cr line))

module _ {J F : Type 0} (serde : Serde J) where
  decode_ndjson-line :
      (line rest : Bytes)
      → NoNewline line
      → next {F = F} serde (ndjson (terminated line ++ rest))
        ≡ read_step serde (read_line serde line) (ndjson rest)
  unfolding next decode_ndjson terminated read_line
  decode_ndjson-line line rest h =
      rw
        (
          append_assoc line (10 ∷ []) rest,
          decode_ndjson_from-skip {F = F} serde [] line (10 ∷ rest) h,
        )
        (elim (Bool-cases (all is_ascii_whitespace (strip_cr line))) [
          | inl heartbeat ↦ rw heartbeat refl
          | inr content ↦ rw content refl
        ])

  decode_ndjson-partial :
      (tail : Bytes) → NoNewline tail → next {F = F} serde (ndjson tail) ≡ (need_more, ndjson tail)
  unfolding next decode_ndjson
  decode_ndjson-partial tail h = ap (rebuffer serde ndjson) (
      ap (decode_ndjson_from serde []) (sym (append-nil tail))
      ∙ decode_ndjson_from-skip serde [] tail [] h)

  -- A body that holds whole lines and then `tail`, bytes without a newline, in any chunks, gives the
  -- consumer each line parsed, in order, lines of white space left out, up to the first that does
  -- not parse; if all parse, then what the end of the body gives: the transport failure if it broke,
  -- nothing if `tail` is empty, and else a decode error. This holds for each number of polls above
  -- the bound.
  pub collect-lines :
      (lines : List Bytes) (tail : Bytes) (n : ℕ) (events : List (BodyEvent F))
      → All NoNewline lines
      → NoNewline tail
      → received events ≡ encode_all terminated lines ++ tail
      → length (received events) + (length events + 1) < n
      → collect serde n (open_stream events json)
        ≡ records (read_line serde) lines (ending serde events (ndjson tail))
  unfolding open_stream feed
  collect-lines lines tail n events whole rest e enough =
      let m : ℕ = suc (length (received events) + length lines) in
      collect-deliver serde n m events (ndjson []) (omega arith) (omega arith)
      ∙ (ap (λ t. deliver serde (ending serde events) m (ndjson t)) e
          ∙ deliver-encode_all serde ndjson terminated (read_line serde) NoNewline
              decode_ndjson-line tail (decode_ndjson-partial tail rest) (ending serde events) lines
              m whole (omega arith))
