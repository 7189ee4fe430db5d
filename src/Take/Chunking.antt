-- ===== src/Take/Chunking.antt =====
-- zizq/src/take.rs: the stream does not depend on how the body is cut into chunks, and it stays
-- ended.
use zizq_rust.Prelude.{
  ℕ, suc, ◌+◌, ◌<◌, ◌≡◌, refl, ◌∙◌, ap, ap₂, sym, if◌then◌else◌, List, [], length, arith, true,
  false, Bool,
}
use zizq_rust.Error.{ZizqError}
use zizq_rust.Format.{Format, json, message_pack}
use zizq_rust.Take.{
  Serde, DecodeResult, job, error, need_more, StreamDecoder, ndjson, msgpack, next, BodyEvent,
  chunk, broken, pending, TakeStream, Poll, ended, waits, yields, poll_next, poll_loop, open_stream,
  feed, finalize, finish, answer,
}
use zizq_rust.Prelude.{ok, err, Option, some, none, ◌∷◌}
use zizq_rust.Take.Resume.{buffered}
use zizq_rust.Take.Collect.{collect, collect-deliver, received, ending, deliver, reading}

-- The poll's answer was an error or the end.
abbrev pub is_last : {J F : Type 0} → Poll J F → Bool
is_last (yields (err e)) = true
is_last (yields (ok j)) = false
is_last ended = true
is_last waits = false

module _ {J F : Type 0} (serde : Serde J) where
  collect-same_bytes :
      (d : StreamDecoder) (events events' : List (BodyEvent F)) (n n' : ℕ)
      → length (buffered d) ≡ 0
      → received events ≡ received events'
      → ending serde events ≡ ending serde events'
      → length (received events) + (length events + 1) < n
      → length (received events') + (length events' + 1) < n'
      → collect serde n (reading serde events d) ≡ collect serde n' (reading serde events' d)
  collect-same_bytes d events events' n n' e same_bytes same_end h h' =
      let m : ℕ = suc (length (received events)) in
      collect-deliver serde n m events d (omega arith) (omega arith)
      ∙ (ap₂ (λ k b. deliver serde k m (feed d b)) same_end same_bytes
          ∙ sym (
              collect-deliver serde n' m events' d (omega arith)
                (omega (arith, ap length same_bytes))))

  -- Two bodies that deliver the same bytes and end alike give a consumer the same, in either format,
  -- whatever the bytes are and however each body is cut into chunks. Both consumers poll more often
  -- than the bound.
  pub collect-chunking :
      (format : Format) (events events' : List (BodyEvent F)) (n n' : ℕ)
      → received events ≡ received events'
      → ending serde events ≡ ending serde events'
      → length (received events) + (length events + 1) < n
      → length (received events') + (length events' + 1) < n'
      → collect serde n (open_stream events format) ≡ collect serde n' (open_stream events' format)
  unfolding open_stream
  collect-chunking json events events' n n' same_bytes same_end h h' =
      collect-same_bytes (ndjson []) events events' n n' refl same_bytes same_end h h'
  collect-chunking message_pack events events' n n' same_bytes same_end h h' =
      collect-same_bytes (msgpack []) events events' n n' refl same_bytes same_end h h'

  answer-finished :
      (p : DecodeResult J F × StreamDecoder) (events : List (BodyEvent F))
      (body : StreamDecoder → Poll J F × TakeStream F)
      → ((d : StreamDecoder) → is_last (body d).0 ≡ true → (body d).1.finished ≡ true)
      → is_last (answer serde p events body).0 ≡ true
      → (answer serde p events body).1.finished ≡ true
  answer-finished (job j, d) events body rest h = cc
  answer-finished (error e, d) events body rest h = refl
  answer-finished (need_more, d) events body rest h = rest d h

  finish-finished : (o : Option (ZizqError F) × StreamDecoder) → (finish serde o).1.finished ≡ true
  finish-finished (none, d) = refl
  finish-finished (some e, d) = refl

  poll_loop-finished :
      (events : List (BodyEvent F)) (d : StreamDecoder)
      → is_last (poll_loop serde d events).0 ≡ true
      → (poll_loop serde d events).1.finished ≡ true
  unfolding poll_loop
  poll_loop-finished [] d =
      answer-finished (next serde d) [] _ (λ d' h. finish-finished (finalize d'))
  poll_loop-finished (chunk c ∷ events) d =
      answer-finished (next serde d) (chunk c ∷ events) _
        (λ d' h. poll_loop-finished events (feed d' c) h)
  poll_loop-finished (broken f ∷ events) d =
      answer-finished (next serde d) (broken f ∷ events) _ (λ d' h. refl)
  poll_loop-finished (pending ∷ events) d =
      answer-finished (next serde d) (pending ∷ events) _ (λ d' h. cc)

  abbrev poll_at : Bool → TakeStream F → Poll J F × TakeStream F
  poll_at b s = if b then (ended, s) else poll_loop serde s.decoder s.inner

  choose-finished :
      (b : Bool) (s : TakeStream F)
      → s.finished ≡ b
      → is_last (poll_at b s).0 ≡ true
      → (poll_at b s).1.finished ≡ true
  choose-finished true s e h = e
  choose-finished false s e h = poll_loop-finished s.inner s.decoder h

  poll_next_ended : (s : TakeStream F) → s.finished ≡ true → poll_next serde s ≡ (ended, s)
  unfolding poll_next
  poll_next_ended s h = simp h

  -- Once a poll has answered with an error or with the end, every later poll answers with the end
  -- and changes nothing.
  pub poll_next-finished :
      (s : TakeStream F)
      → is_last (poll_next serde s).0 ≡ true
      → poll_next serde (poll_next serde s).1 ≡ (ended, (poll_next serde s).1)
  poll_next-finished s h =
      poll_next_ended (poll_next serde s).1
        (unfold poll_next in choose-finished s.finished s refl h)
