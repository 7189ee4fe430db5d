-- ===== src/Tests/Take.antt =====
-- The stream of jobs on concrete bodies.
use zizq_rust.Prelude.{◌≡◌, refl, String, List, [], ◌∷◌, Bytes, ok, err, arith, false}
use zizq_rust.Error.{decode, transport}
use zizq_rust.Format.{json, message_pack}
use zizq_rust.Take.{
  Serde, BodyEvent, chunk, broken, pending, open_stream, poll_next, ended, decode_msgpack,
  decode_ndjson, split_payload, next, feed, finalize, msgpack, ndjson, TakeStream,
}
use zizq_rust.Take.Collect.{collect, received, ending}
use zizq_rust.Take.Frames.{encode_all, records}
use zizq_rust.Take.Frames.Msgpack.{frame, read, collect-frames}
use zizq_rust.Take.Frames.Ndjson.{terminated, read_line, collect-lines}
use zizq_rust.Take.Chunking.{collect-chunking, poll_next-finished}

-- A parser that takes any bytes for the job.
abbrev echo : Serde Bytes
echo = record { from_json = λ b. ok b; from_msgpack = λ b. ok b }

-- Two records with a heartbeat between them, and half of a third, cut badly.
abbrev cut_body : List (BodyEvent String)
cut_body =
    chunk (0 ∷ 0 ∷ 0 ∷ [])
    ∷ pending
    ∷ chunk (1 ∷ 7 ∷ 0 ∷ 0 ∷ 0 ∷ 0 ∷ 0 ∷ [])
    ∷ chunk []
    ∷ chunk (0 ∷ 0 ∷ 2 ∷ 8 ∷ 9 ∷ 0 ∷ 0 ∷ [])
    ∷ chunk (0 ∷ 2 ∷ 5 ∷ [])
    ∷ []

cut_body_run :
    collect echo 40 (open_stream cut_body message_pack)
    ≡ ok (7 ∷ []) ∷ ok (8 ∷ 9 ∷ []) ∷ err (decode "incomplete frame at end of stream") ∷ []
unfolding collect poll_next open_stream decode_msgpack split_payload next feed finalize
cut_body_run = refl

abbrev payloads : List Bytes
payloads = (7 ∷ []) ∷ [] ∷ (8 ∷ 9 ∷ []) ∷ []

collect-frames_example :
    collect echo 40 (open_stream cut_body message_pack)
    ≡ records (read echo) payloads (ending echo cut_body (msgpack (0 ∷ 0 ∷ 0 ∷ 2 ∷ 5 ∷ [])))
unfolding received encode_all frame
collect-frames_example =
    collect-frames echo payloads 5 (6 ∷ []) 5 40 cut_body (omega arith) (omega arith) (omega arith)
      refl (omega arith)

-- A line, a heartbeat, a line that ends in a carriage return, and a body that breaks.
abbrev broken_body : List (BodyEvent String)
broken_body = chunk (55 ∷ []) ∷ chunk (10 ∷ 32 ∷ 10 ∷ 56 ∷ 13 ∷ 10 ∷ 57 ∷ []) ∷ broken "reset" ∷ []

abbrev lines : List Bytes
lines = (55 ∷ []) ∷ (32 ∷ []) ∷ (56 ∷ 13 ∷ []) ∷ []

broken_body_run :
    collect echo 40 (open_stream broken_body json)
    ≡ ok (55 ∷ []) ∷ ok (56 ∷ []) ∷ err (transport "reset") ∷ []
unfolding collect poll_next open_stream decode_ndjson next feed finalize
broken_body_run = refl

collect-lines_example :
    collect echo 40 (open_stream broken_body json)
    ≡ records (read_line echo) lines (ending echo broken_body (ndjson (57 ∷ [])))
unfolding received encode_all terminated
collect-lines_example =
    collect-lines echo lines (57 ∷ []) 40 broken_body
      ((refl, tt), ((refl, tt), ((refl, (refl, tt)), tt))) (refl, tt) refl (omega arith)

-- The same bytes in one chunk.
abbrev whole_body : List (BodyEvent String)
whole_body = chunk (55 ∷ 10 ∷ 32 ∷ 10 ∷ 56 ∷ 13 ∷ 10 ∷ 57 ∷ []) ∷ broken "reset" ∷ []

collect-chunking_example :
    collect echo 40 (open_stream broken_body json) ≡ collect echo 30 (open_stream whole_body json)
unfolding received ending
collect-chunking_example =
    collect-chunking echo json broken_body whole_body 40 30 refl refl (omega arith) (omega arith)

abbrev ended_stream : TakeStream String
ended_stream = record { inner = []; decoder = ndjson (57 ∷ []); finished = false }

poll_next-finished_example :
    poll_next echo (poll_next echo ended_stream).1 ≡ (ended, (poll_next echo ended_stream).1)
unfolding poll_next next decode_ndjson finalize
poll_next-finished_example = poll_next-finished echo ended_stream refl
