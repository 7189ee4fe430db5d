-- ===== src/Take/Collect.antt =====
-- zizq/src/take.rs: what a consumer of the stream receives, however the body is cut into chunks.
use zizq_rust.Prelude.{
  ℕ, zero, suc, ◌+◌, ◌<◌, ◌≤◌, ◌≡◌, refl, sym, ◌∙◌, ap, true, false, List, [], ◌∷◌, ◌++◌, length,
  ◌⊎◌, inl, inr, Option, some, none, Bytes, length-append, arith, Result, ok, err,
}
use zizq_rust.Error.{ZizqError, transport}
use zizq_rust.Take.{
  Serde, DecodeResult, job, error, need_more, StreamDecoder, feed, next, BodyEvent, chunk, broken,
  pending, TakeStream, Poll, yields, ended, waits, finalize, poll_next, finish, answer,
}
use zizq_rust.Take.Resume.{buffered, resume, next-feed, feed-nil, feed-append, feed-size}
use zizq_rust.Take.Sizes.{next-keeps, next-shrinks}

module _ {F : Type 0} where
  -- The bytes that arrive before the body ends or breaks.
  unfoldable pub received : List (BodyEvent F) → Bytes
  received [] = []
  received (chunk c ∷ events) = c ++ received events
  received (broken f ∷ events) = []
  received (pending ∷ events) = received events

-- What a consumer of the stream receives.
abbrev pub Items : Type 0 → Type 0 → Type 0
Items J F = List (Result J (ZizqError F))

module _ {J F : Type 0} (serde : Serde J) where
  abbrev last_item : Option (ZizqError F) → Items J F
  last_item none = []
  last_item (some e) = err e ∷ []

  -- What is yielded last, after the records, when `d` holds what is left: the transport failure, or
  -- the error for an incomplete record.
  unfoldable pub ending : List (BodyEvent F) → StreamDecoder → Items J F
  ending [] d = last_item (finalize d).0
  ending (chunk c ∷ events) d = ending events d
  ending (broken f ∷ events) d = err (transport f) ∷ []
  ending (pending ∷ events) d = ending events d

  abbrev collect_step : Poll J F × TakeStream F → (TakeStream F → Items J F) → Items J F
  collect_step (yields r, s) more = r ∷ more s
  collect_step (ended, s) more = []
  collect_step (waits, s) more = more s

  -- A consumer polls until the stream has ended, `n` times at most.
  unfoldable pub collect : ℕ → TakeStream F → Items J F
  collect zero s = []
  collect (suc n) s = collect_step (poll_next serde s) (λ s'. collect n s')

  abbrev pub deliver_step :
      DecodeResult J F × StreamDecoder
      → (StreamDecoder → Items J F)
      → (StreamDecoder → Items J F)
      → Items J F
  deliver_step (job j, d) k more = ok j ∷ more d
  deliver_step (error e, d) k more = err e ∷ []
  deliver_step (need_more, d) k more = k d

  -- The records of one buffer that holds everything, up to the first bad one, and then `k`.
  unfoldable pub deliver : (StreamDecoder → Items J F) → ℕ → StreamDecoder → Items J F
  deliver k zero d = []
  deliver k (suc m) d = deliver_step (next serde d) k (λ d'. deliver k m d')

  next-cases :
      (p : DecodeResult J F × StreamDecoder)
      → ((j : J) × (d : StreamDecoder) × (p ≡ (job j, d)))
        ⊎ (((e : ZizqError F) × (d : StreamDecoder) × (p ≡ (error e, d)))
            ⊎ ((d : StreamDecoder) × (p ≡ (need_more, d))))
  next-cases (job j, d) = inl (j, d, refl)
  next-cases (error e, d) = inr (inl (e, d, refl))
  next-cases (need_more, d) = inr (inr (d, refl))

  -- A stream that has not finished.
  abbrev pub reading : List (BodyEvent F) → StreamDecoder → TakeStream F
  reading events d = record { inner = events; decoder = d; finished = false }

  collect_finished : (n : ℕ) (s : TakeStream F) → s.finished ≡ true → collect n s ≡ []
  unfolding collect poll_next
  collect_finished zero s h = refl
  collect_finished (suc n) s h = rw h refl

  -- The end of the body, when nothing in the buffer makes a record.
  collect_end :
      (n : ℕ) (o : Option (ZizqError F) × StreamDecoder)
      → collect_step (finish serde o) (λ s. collect n s) ≡ last_item o.0
  collect_end n (none, d) = refl
  collect_end n (some e, d) = ap (λ t. err e ∷ t) (collect_finished n _ refl)

  settled_size :
      (d d' : StreamDecoder)
      → next {F = F} serde d ≡ (need_more, d')
      → length (buffered d') ≤ length (buffered d)
  settled_size d d' e = rw e at (next-keeps F serde d)

  -- A decoder that found no record finds none until bytes arrive.
  next_settled :
      (d d' : StreamDecoder)
      → next {F = F} serde d ≡ (need_more, d')
      → next {F = F} serde (feed d' []) ≡ (need_more, d')
  next_settled d d' e =
      let again : next {F = F} serde (feed d []) ≡ next serde (feed d' []) =
        next-feed serde d [] ∙ ap (λ p. resume serde p []) e in
      sym again ∙ (ap (next serde) (feed-nil d) ∙ e)

  -- One poll, by what the decoder finds in the buffer.
  answer-deliver :
      (k : StreamDecoder → Items J F) (events : List (BodyEvent F)) (r : Bytes)
      (body : StreamDecoder → Poll J F × TakeStream F) (n m : ℕ)
      (p : DecodeResult J F × StreamDecoder)
      → ((j : J) (d' : StreamDecoder)
          → p ≡ (job j, d')
          → collect n (reading events d') ≡ deliver k m (feed d' r))
      → ((d' : StreamDecoder)
          → p ≡ (need_more, d')
          → collect_step (body d') (λ s. collect n s)
            ≡ deliver_step (next serde (feed d' r)) k (λ d''. deliver k m d''))
      → collect_step (answer serde p events body) (λ s. collect n s)
        ≡ deliver_step (resume serde p r) k (λ d''. deliver k m d'')
  answer-deliver k events r body n m (job j, d') given more = ap (λ t. ok j ∷ t) (given j d' refl)
  answer-deliver k events r body n m (error x, d') given more =
      ap (λ t. err x ∷ t) (collect_finished n _ refl)
  answer-deliver k events r body n m (need_more, d') given more = more d' refl

  -- Polling a stream until it ends gives the records of the bytes that arrive and then what the end
  -- of the body gives, however the bytes are cut into chunks and wherever nothing is there yet.
  pub collect-deliver :
      (n m : ℕ) (events : List (BodyEvent F)) (d : StreamDecoder)
      → length (buffered d) + length (received events) + (length events + 1) < n
      → length (buffered d) + length (received events) < m
      → collect n (reading events d) ≡ deliver (ending events) m (feed d (received events))
  unfolding collect deliver received ending poll_next
  collect-deliver zero m events d h k = absurd (omega arith)
  collect-deliver (suc n) zero events d h k = absurd (omega arith)
  collect-deliver (suc n) (suc m) [] d h k = rw (next-feed serde d []) (
      answer-deliver (ending []) [] [] _ n m (next serde d)
        (λ j d' e.
          collect-deliver n m [] d' (omega (arith, next-shrinks serde d d' j e))
            (omega (arith, next-shrinks serde d d' j e)))
        (λ d' e. rw (next_settled d d' e) (collect_end n (finalize d'))))
  collect-deliver (suc n) (suc m) (chunk c ∷ events) d h k =
      rw (next-feed serde d (c ++ received events)) (
        answer-deliver (ending (chunk c ∷ events)) (chunk c ∷ events) (c ++ received events) _ n m
          (next serde d)
          (λ j d' e.
            collect-deliver n m (chunk c ∷ events) d' (omega (arith, next-shrinks serde d d' j e))
              (omega (arith, next-shrinks serde d d' j e)))
          (λ d' e.
            collect-deliver (suc n) (suc m) events (feed d' c)
              (omega
                (arith, settled_size d d' e, feed-size d' c, length-append c (received events)))
              (omega
                (arith, settled_size d d' e, feed-size d' c, length-append c (received events)))
            ∙ ap (deliver (ending events) (suc m)) (feed-append d' c (received events))))
  collect-deliver (suc n) (suc m) (broken f ∷ events) d h k = rw (next-feed serde d []) (
      answer-deliver (ending (broken f ∷ events)) (broken f ∷ events) [] _ n m (next serde d)
        (λ j d' e.
          collect-deliver n m (broken f ∷ events) d' (omega (arith, next-shrinks serde d d' j e))
            (omega (arith, next-shrinks serde d d' j e)))
        (λ d' e.
          rw (next_settled d d' e) (ap (λ t. err (transport f) ∷ t) (collect_finished n _ refl))))
  collect-deliver (suc n) (suc m) (pending ∷ events) d h k =
      rw (next-feed serde d (received events)) (
        answer-deliver (ending (pending ∷ events)) (pending ∷ events) (received events) _ n m
          (next serde d)
          (λ j d' e.
            collect-deliver n m (pending ∷ events) d' (omega (arith, next-shrinks serde d d' j e))
              (omega (arith, next-shrinks serde d d' j e)))
          (λ d' e.
            collect-deliver n (suc m) events d' (omega (arith, settled_size d d' e))
              (omega (arith, settled_size d d' e))))
