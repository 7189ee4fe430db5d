-- ===== src/Cron/Groups.antt =====
-- zizq/src/cron.rs: what a chain of calls makes of a group.
use zizq_rust.Prelude.{
  ◌≡◌, refl, ap, sym, ◌∙◌, List, [], ◌∷◌, ◌++◌, Result, ok, err, and_then, Option, some, none,
  String, Bool, append_assoc, append-nil,
}
use zizq_rust.Error.{ZizqError}
use zizq_rust.Cron.{
  CronEntry, CronEntryBody, ReplaceCronBuilder, ReplaceCronGroupBody, into_body, entry, group_body,
  new_replace, set_group_paused, set_group_timezone,
}

pub data GroupCall (F P X : Type 0) : Type 0 where
  with_entry : CronEntry F P X → GroupCall F P X
  with_paused : Bool → GroupCall F P X
  with_timezone : String → GroupCall F P X

abbrev pub group_of :
    {F P : Type 0}
    → Option Bool
    → Option String
    → List (CronEntryBody F P)
    → ReplaceCronGroupBody F P
group_of p z es = record { paused = p; timezone = z; entries = es }

module _ {F P X : Type 0} where
  abbrev pub call : GroupCall F P X → ReplaceCronBuilder F P X → ReplaceCronBuilder F P X
  unfolding entry set_group_paused set_group_timezone
  call (with_entry e) b = entry e b
  call (with_paused paused) b = set_group_paused paused b
  call (with_timezone timezone) b = set_group_timezone timezone b

  unfoldable pub chain :
      ReplaceCronBuilder F P X → List (GroupCall F P X) → ReplaceCronBuilder F P X
  unfolding call
  chain b [] = b
  chain b (c ∷ rest) = chain (call c b) rest

  -- The bodies of all entries in order, or the first error.
  unfoldable pub bodies : List (GroupCall F P X) → Result (List (CronEntryBody F P)) (ZizqError X)
  unfolding into_body
  bodies [] = ok []
  bodies (with_entry e ∷ rest) =
      and_then (into_body e) (λ body. and_then (bodies rest) (λ more. ok (body ∷ more)))
  bodies (with_paused paused ∷ rest) = bodies rest
  bodies (with_timezone timezone ∷ rest) = bodies rest

  unfoldable pub last_paused : Option Bool → List (GroupCall F P X) → Option Bool
  last_paused p [] = p
  last_paused p (with_entry e ∷ rest) = last_paused p rest
  last_paused p (with_paused paused ∷ rest) = last_paused (some paused) rest
  last_paused p (with_timezone timezone ∷ rest) = last_paused p rest

  unfoldable pub last_timezone : Option String → List (GroupCall F P X) → Option String
  last_timezone z [] = z
  last_timezone z (with_entry e ∷ rest) = last_timezone z rest
  last_timezone z (with_paused paused ∷ rest) = last_timezone z rest
  last_timezone z (with_timezone timezone ∷ rest) = last_timezone (some timezone) rest

  abbrev group :
      Option Bool
      → Option String
      → List (CronEntryBody F P)
      → List (GroupCall F P X)
      → Result (ReplaceCronGroupBody F P) (ZizqError X)
  unfolding bodies last_paused last_timezone
  group p z es calls =
      and_then (bodies calls)
        (λ more. ok (group_of (last_paused p calls) (last_timezone z calls) (es ++ more)))

  failed :
      (name : String) (p : Option Bool) (z : Option String) (e : ZizqError X)
      (calls : List (GroupCall F P X))
      → group_body (chain (record { name = name; paused = p; timezone = z; entries = err e }) calls)
        ≡ err e
  unfolding group_body chain call entry set_group_paused set_group_timezone
  failed name p z e [] = refl
  failed name p z e (with_entry c ∷ rest) = failed name p z e rest
  failed name p z e (with_paused b ∷ rest) = failed name (some b) z e rest
  failed name p z e (with_timezone t ∷ rest) = failed name p (some t) e rest

  one_more :
      (p : Option Bool) (z : Option String) (es : List (CronEntryBody F P))
      (body : CronEntryBody F P) (made : Result (List (CronEntryBody F P)) (ZizqError X))
      → and_then made (λ more. ok (group_of p z ((es ++ body ∷ []) ++ more)))
        ≡ and_then
            (and_then made (λ more. ok (body ∷ more)))
            (λ more. ok (group_of p z (es ++ more)))
  one_more p z es body (err e) = refl
  one_more p z es body (ok more) = ap (λ l. ok (group_of p z l)) (append_assoc es (body ∷ []) more)

  -- One entry, if the rest of the chain does what it should.
  entered :
      (name : String) (p : Option Bool) (z : Option String) (es : List (CronEntryBody F P))
      (rest : List (GroupCall F P X))
      → ((es : List (CronEntryBody F P))
          → group_body
              (chain (record { name = name; paused = p; timezone = z; entries = ok es }) rest)
            ≡ group p z es rest)
      → (r : Result (CronEntryBody F P) (ZizqError X))
      → group_body (
          chain
            (elim r [
              | ok body ↦ record {
                name = name;
                paused = p;
                timezone = z;
                entries = ok (es ++ body ∷ []);
              }
              | err failure ↦ record {
                name = name;
                paused = p;
                timezone = z;
                entries = err failure;
              }
            ])
            rest)
        ≡ and_then
            (and_then r (λ body. and_then (bodies rest) (λ more. ok (body ∷ more))))
            (λ more. ok (group_of (last_paused p rest) (last_timezone z rest) (es ++ more)))
  unfolding group
  entered name p z es rest again (err failure) = failed name p z failure rest
  entered name p z es rest again (ok body) =
      again (es ++ body ∷ [])
      ∙ one_more (last_paused p rest) (last_timezone z rest) es body (bodies rest)

  behind :
      (name : String) (p : Option Bool) (z : Option String) (es : List (CronEntryBody F P))
      (calls : List (GroupCall F P X))
      → group_body (chain (record { name = name; paused = p; timezone = z; entries = ok es }) calls)
        ≡ group p z es calls
  unfolding group_body chain call entry set_group_paused set_group_timezone group bodies last_paused
      last_timezone
  behind name p z es [] = ap (λ l. ok (group_of p z l)) (sym (append-nil es))
  behind name p z es (with_entry c ∷ rest) =
      entered name p z es rest (λ more. behind name p z more rest) (into_body c)
  behind name p z es (with_paused b ∷ rest) = behind name (some b) z es rest
  behind name p z es (with_timezone t ∷ rest) = behind name p (some t) es rest

  -- The body of a group that a chain of calls builds has the bodies of its entries in their order and the last
  -- setting of its state and of its time zone; the first entry that fails makes the whole group fail with its error.
  pub group_body-chain :
      (name : String) (calls : List (GroupCall F P X))
      → group_body (chain (new_replace name) calls)
        ≡ and_then
            (bodies calls)
            (λ entries. ok (group_of (last_paused none calls) (last_timezone none calls) entries))
  unfolding group new_replace
  group_body-chain name calls = behind name none none [] calls
