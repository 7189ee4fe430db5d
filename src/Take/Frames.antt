-- ===== src/Take/Frames.antt =====
-- zizq/src/take.rs: streams of records, as a server writes them.
pub mod Msgpack
pub mod Ndjson
use zizq_rust.Prelude.{
  ℕ, zero, suc, ◌+◌, ◌<◌, ◌≡◌, refl, ◌∙◌, ap, List, [], ◌∷◌, ◌++◌, length, Option, some, none,
  String, All, Bytes, append_assoc, arith, Result, ok, err,
}
use zizq_rust.Error.{ZizqError, decode}
use zizq_rust.Take.{Serde, DecodeResult, job, error, need_more, decoded, StreamDecoder, next}
use zizq_rust.Take.Collect.{Items, deliver, deliver_step}

-- The bytes of all records, one after the other.
unfoldable pub encode_all : (Bytes → Bytes) → List Bytes → Bytes
encode_all frame [] = []
encode_all frame (p ∷ ps) = frame p ++ encode_all frame ps

module _ {J F : Type 0} where
  -- What a consumer should get: each record parsed, heartbeats left out, up to the first record that
  -- does not parse; if all do, then `last`. `read` gives `none` for a heartbeat.
  unfoldable pub records : (Bytes → Option (Result J String)) → List Bytes → Items J F → Items J F
  records read [] last = last
  records read (p ∷ ps) last = elim (read p) [
    | none ↦ records read ps last
    | some r ↦ elim r [ ok j ↦ ok j ∷ records read ps last | err m ↦ err (decode m) ∷ [] ]
  ]

module _ {J F : Type 0} (serde : Serde J) where
  abbrev pub read_step : Option (Result J String) → StreamDecoder → DecodeResult J F × StreamDecoder
  read_step none d = next serde d
  read_step (some r) d = (decoded r, d)

  module _ (mk : Bytes → StreamDecoder) (frame : Bytes → Bytes)
      (read : Bytes → Option (Result J String)) (Fits : Bytes → Type 0)
      (step : (p rest : Bytes)
        → Fits p
        → next {F = F} serde (mk (frame p ++ rest)) ≡ read_step (read p) (mk rest))
      (tail : Bytes) (partial : next {F = F} serde (mk tail) ≡ (need_more, mk tail)) where
    pub deliver-encode_all :
        (k : StreamDecoder → Items J F) (ps : List Bytes) (m : ℕ)
        → All Fits ps
        → length ps < m
        → deliver serde k m (mk (encode_all frame ps ++ tail)) ≡ records read ps (k (mk tail))
    unfolding deliver encode_all records
    deliver-encode_all k ps zero fits h = absurd (omega arith)
    deliver-encode_all k [] (suc m) fits h = rw partial
    deliver-encode_all k (p ∷ ps) (suc m) fits h =
        rw
          (
            append_assoc (frame p) (encode_all frame ps) tail,
            step p (encode_all frame ps ++ tail) fits.0,
          )
          (go (read p) (deliver-encode_all k ps (suc m) fits.1 (omega arith))
            (deliver-encode_all k ps m fits.1 (omega arith)))
      where
        go :
            (o : Option (Result J String))
            → deliver serde k (suc m) (mk (encode_all frame ps ++ tail))
              ≡ records read ps (k (mk tail))
            → deliver serde k m (mk (encode_all frame ps ++ tail)) ≡ records read ps (k (mk tail))
            → deliver_step serde
                (read_step o (mk (encode_all frame ps ++ tail)))
                k
                (λ d. deliver serde k m d)
              ≡ elim o [
                | none ↦ records read ps (k (mk tail))
                | some r ↦ elim r [
                  | ok j ↦ ok j ∷ records read ps (k (mk tail))
                  | err x ↦ err (decode x) ∷ []
                ]
              ]
        go none same_fuel less_fuel = same_fuel
        go (some (ok j)) same_fuel less_fuel = ap (λ t. ok j ∷ t) less_fuel
        go (some (err x)) same_fuel less_fuel = refl
