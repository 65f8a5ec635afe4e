-- ===== src/Database/Repl/Rounds.antt =====
-- A line that the test loop reads is answered by one signal, or the process crashes: komfydb/database.cc.
use komfy_db.Base.{
  ◌⊎◌, ◌≡◌, refl, ap, ◌∙◌, true, false, List, [], ◌∷◌, ◌++◌, if◌then◌else◌, Bytes, Bool, inl, inr,
}
use komfy_db.Base.Status.{StatusOr, Status, ok}
use komfy_db.Database.{Database, catalog_of, create_table}
use komfy_db.Database.Repl.{
  Signal, sigusr1, sigusr2, Event, written, sent, Round, Engine, signalled, is_diagnostic_command,
  test_query, test_round,
}
use komfy_db.Parser.Statement.{Query, Iterator, parse_query}
use komfy_db.Database.Repl.Calls.{
  Returns, with_value, with_error, Crashed, by_fault, cut_off, either_way, create_table-Returns,
}

-- the signals among the events
abbrev pub signals : List Event → List Signal
signals [] = []
signals (sent s ∷ es) = s ∷ signals es
signals (e ∷ es) = signals es

-- The signal that a line asks for.
abbrev pub reply : Bytes → Signal
reply line = if is_diagnostic_command line then sigusr1 else sigusr2

-- The round ends with one signal.
abbrev pub Answers : Signal → Round → Type 0
Answers s (d, es, r) = (signals es ≡ s ∷ []) × (r ≡ ok tt)

pub signals-append : (xs ys : List Event) → signals (xs ++ ys) ≡ signals xs ++ signals ys
signals-append [] ys = refl
signals-append (sent s ∷ xs) ys = ap (λ l. s ∷ l) (signals-append xs ys)
signals-append (e ∷ xs) ys = signals-append xs ys

last_signal : (es : List Event) → signals es ≡ [] → signals (es ++ sent sigusr2 ∷ []) ≡ sigusr2 ∷ []
last_signal es h = signals-append es (sent sigusr2 ∷ []) ∙ ap (λ l. l ++ sigusr2 ∷ []) h

signalled-Answers :
    (d : Database) (es : List Event) (r : Status)
    → signals es ≡ []
    → Returns r
    → Answers sigusr2 (signalled d es r)
signalled-Answers d es r h (with_value u) = (last_signal es h, refl)
signalled-Answers d es r h (with_error c) = (last_signal es h, refl)

module _ (e : Engine) where
  abbrev pub ExecutorCrashes : StatusOr (Query (Iterator (e.uses.I))) → Database → Type 0
  ExecutorCrashes parsed d =
      (it : Iterator (e.uses.I)) × (parsed ≡ ok (Query.iterator it))
      × Crashed (e.python_execute it d).2

  abbrev pub LineCrashes : Bytes → Database → Type 0
  LineCrashes line d =
      let parsed = parse_query e.uses (catalog_of d) line in
      (is_diagnostic_command line ≡ false) × (Crashed parsed ⊎ ExecutorCrashes parsed d)

  -- A round that ends without a signal, and the loop with it.
  abbrev pub IsSilent : Round → Type 0
  IsSilent (d, es, r) = (signals es ≡ []) × Crashed r

  Crashed-IsSilent :
      (d : Database) (es : List Event) (r : Status)
      → signals es ≡ []
      → Crashed r
      → IsSilent (signalled d es r)
  Crashed-IsSilent d es r h by_fault = (h, by_fault)
  Crashed-IsSilent d es r h cut_off = (h, cut_off)

  test_query-IsSilent :
      (r : StatusOr (Query (Iterator (e.uses.I)))) (d : Database)
      → Crashed r
      → IsSilent (test_query e r d)
  unfolding test_query
  test_query-IsSilent r d by_fault = (refl, by_fault)
  test_query-IsSilent r d cut_off = (refl, cut_off)

  abbrev pub Replied : Signal → Type 0 → Round → Type 0
  Replied s crash x = Answers s x ⊎ (crash × IsSilent x)

  test_query-Replied :
      (r : StatusOr (Query (Iterator (e.uses.I)))) (d : Database)
      → Returns r
      → Replied sigusr2 (ExecutorCrashes r d) (test_query e r d)
  unfolding test_query
  test_query-Replied r d (with_value (Query.iterator it)) =
      let x = e.python_execute it d in
      elim (either_way x.2) [
        | inl back ↦ inl (signalled-Answers x.0 (written x.1 ∷ []) x.2 refl back)
        | inr crash ↦
            inr ((it, refl, crash), Crashed-IsSilent x.0 (written x.1 ∷ []) x.2 refl crash)
      ]
  test_query-Replied r d (with_value (Query.create_table name td key)) =
      let x = create_table e.files name td key d in
      inl (signalled-Answers x.0 [] x.1 refl (create_table-Returns e.files name td key d))
  test_query-Replied r d (with_value Query.show_tables) = inl (refl, refl)
  test_query-Replied r d (with_value (Query.show_columns name)) = inl (refl, refl)
  test_query-Replied r d (with_error c) = inl (refl, refl)

  sync_or_query :
      (b : Bool) (d : Database) (crash : Type 0) (x : Round)
      → (b ≡ false → Replied sigusr2 crash x)
      → Replied
          (if b then sigusr1 else sigusr2)
          crash
          (if b then (d, sent sigusr1 ∷ [], ok tt) else x)
  sync_or_query true d crash x h = inl (refl, refl)
  sync_or_query false d crash x h = h refl

  pub test_round-Replied :
      (line : Bytes) (d : Database)
      → Replied (reply line) (LineCrashes line d) (test_round e line d)
  unfolding test_round
  test_round-Replied line d =
      sync_or_query (is_diagnostic_command line) d (LineCrashes line d)
        (test_query e (parse_query e.uses (catalog_of d) line) d) of_query
    where
      of_query :
          is_diagnostic_command line ≡ false
          → Replied sigusr2
              (LineCrashes line d)
              (test_query e (parse_query e.uses (catalog_of d) line) d)
      of_query query = elim (either_way (parse_query e.uses (catalog_of d) line)) [
        | inr crash ↦ inr (
          (query, inl crash),
          test_query-IsSilent (parse_query e.uses (catalog_of d) line) d crash,
        )
        | inl back ↦ elim (test_query-Replied (parse_query e.uses (catalog_of d) line) d back) [
          | inl answered ↦ inl answered
          | inr silent ↦ inr ((query, inr silent.0), silent.1)
        ]
      ]
