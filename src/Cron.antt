-- ===== src/Cron.antt =====
-- zizq/src/cron.rs: entries of a cron group and the builder that replaces a group. `X` is the type of
-- foreign errors, `P` that of erased payloads.
pub mod Groups
use zizq_rust.Prelude.{
  String, Bool, Option, some, none, List, [], ◌∷◌, ◌++◌, Result, ok, err, and_then,
}
use zizq_rust.Error.{ZizqError}
use zizq_rust.Enqueue.{EnqueueRequest, EnqueueBuilder, JobKind, into_request}
use zizq_rust.Bulk.{erase}

module _ (F P : Type 0) where
  pub record CronEntryBody : Type 0 where
    pub name : String
    pub expression : String
    pub timezone : Option String
    pub paused : Option Bool
    pub job : EnqueueRequest F P

module _ (F P X : Type 0) where
  pub record CronEntry : Type 0 where
    pub name : String
    pub expression : String
    pub timezone : Option String
    pub paused : Option Bool
    pub job : Result (EnqueueRequest F P) (ZizqError X)

  pub record ReplaceCronBuilder : Type 0 where
    pub name : String
    pub paused : Option Bool
    pub timezone : Option String
    pub entries : Result (List (CronEntryBody F P)) (ZizqError X)

module _ (F P : Type 0) where
  pub record ReplaceCronGroupBody : Type 0 where
    pub paused : Option Bool
    pub timezone : Option String
    pub entries : List (CronEntryBody F P)

module _ {F P X : Type 0} where
  unfoldable pub new_entry :
      {T : Type 0} → (T → P) → JobKind F T → String → String → EnqueueBuilder F T → CronEntry F P X
  unfolding into_request erase
  new_entry boxed kind name expression job = record {
    name = name;
    expression = expression;
    timezone = none;
    paused = none;
    job = ok (erase boxed (into_request kind job));
  }

  unfoldable pub set_entry_timezone : String → CronEntry F P X → CronEntry F P X
  set_entry_timezone timezone e = record e { timezone = some timezone }

  unfoldable pub set_entry_paused : Bool → CronEntry F P X → CronEntry F P X
  set_entry_paused paused e = record e { paused = some paused }

  unfoldable pub into_body : CronEntry F P X → Result (CronEntryBody F P) (ZizqError X)
  into_body e = and_then e.job (λ job. ok (record {
    name = e.name;
    expression = e.expression;
    timezone = e.timezone;
    paused = e.paused;
    job = job;
  }))

  unfoldable pub new_replace : String → ReplaceCronBuilder F P X
  new_replace name = record { name = name; paused = none; timezone = none; entries = ok [] }

  -- Behind a failed entry nothing is added.
  unfoldable pub entry : CronEntry F P X → ReplaceCronBuilder F P X → ReplaceCronBuilder F P X
  unfolding into_body
  entry e b = elim b.entries [
    | err _ ↦ b
    | ok entries ↦ elim (into_body e) [
      | ok body ↦ record b { entries = ok (entries ++ body ∷ []) }
      | err failure ↦ record b { entries = err failure }
    ]
  ]

  unfoldable pub set_group_paused : Bool → ReplaceCronBuilder F P X → ReplaceCronBuilder F P X
  set_group_paused paused b = record b { paused = some paused }

  unfoldable pub set_group_timezone : String → ReplaceCronBuilder F P X → ReplaceCronBuilder F P X
  set_group_timezone timezone b = record b { timezone = some timezone }

  -- The body that awaiting the builder sends.
  unfoldable pub group_body :
      ReplaceCronBuilder F P X → Result (ReplaceCronGroupBody F P) (ZizqError X)
  group_body b =
      and_then b.entries
        (λ entries. ok (record { paused = b.paused; timezone = b.timezone; entries = entries }))
