-- ===== src/Database/Repl/Signals.antt =====
-- The signals with which the test loop answers the lines that it reads: komfydb/database.cc.
use mathlib.Core.Path.{subst}
use komfy_db.Base.{sym, ◌⊎◌, ◌≡◌, refl, ap, ◌∙◌, List, [], ◌∷◌, ◌++◌, map, Bytes, inl, inr}
use komfy_db.Base.Status.{ok, err, fault, no_fuel}
use komfy_db.Database.{Database}
use komfy_db.Database.Repl.{Signal, Event, Round, Engine, then_rounds, test_round, test_repl}
use komfy_db.Database.Repl.Calls.{Crashed, by_fault, cut_off}
use komfy_db.Database.Repl.Rounds.{
  signals, reply, Answers, signals-append, LineCrashes, IsSilent, test_round-Replied,
}

-- The loop went through the lines: one signal for each, in their order.
abbrev pub Through : List Bytes → Round → Type 0
Through lines (d, es, r) = (signals es ≡ map reply lines) × (r ≡ ok tt)

module _ (e : Engine) where
  -- The loop went through some lines and crashed in a call that the line behind them needs.
  abbrev pub Broken : List Bytes → Database → Round → Type 0
  Broken lines d x =
      (before : List Bytes) × (line : Bytes) × (later : List Bytes) × (lines
        ≡ before ++ line ∷ later)
      × Through before (test_repl e before d)
      × LineCrashes e line (test_repl e before d).0
      × (signals x.1 ≡ map reply before)
      × Crashed x.2

  then_rounds-go :
      (s : Signal) (x : Round) (rest : Database → Round)
      → Answers s x
      → then_rounds x rest ≡ ((rest x.0).0, x.1 ++ (rest x.0).1, (rest x.0).2)
  then_rounds-go s (d, es, ok u) rest h = refl
  then_rounds-go s (d, es, err c) rest h = cc
  then_rounds-go s (d, es, fault) rest h = cc
  then_rounds-go s (d, es, no_fuel) rest h = cc

  signals-go :
      (s : Signal) (ss : List Signal) (xs ys : List Event)
      → signals xs ≡ s ∷ []
      → signals ys ≡ ss
      → signals (xs ++ ys) ≡ s ∷ ss
  signals-go s ss xs ys h k = signals-append xs ys ∙ ap (λ l. l ++ signals ys) h ∙ ap (λ l. s ∷ l) k

  go-Through :
      (line : Bytes) (lines : List Bytes) (d : Database)
      → Answers (reply line) (test_round e line d)
      → Through lines (test_repl e lines (test_round e line d).0)
      → Through (line ∷ lines) (test_repl e (line ∷ lines) d)
  unfolding test_repl
  go-Through line lines d answered (all, done) =
      subst (Through (line ∷ lines))
        (sym (then_rounds-go (reply line) (test_round e line d) (test_repl e lines) answered))
        (
          signals-go (reply line) (map reply lines) (test_round e line d).1
              (test_repl e lines (test_round e line d).0).1 answered.0 all,
          done,
        )

  go-database :
      (line : Bytes) (lines : List Bytes) (d : Database)
      → Answers (reply line) (test_round e line d)
      → (test_repl e lines (test_round e line d).0).0 ≡ (test_repl e (line ∷ lines) d).0
  unfolding test_repl
  go-database line lines d answered =
      ap (λ (x : Round). x.0)
        (sym (then_rounds-go (reply line) (test_round e line d) (test_repl e lines) answered))

  go-Broken :
      (line : Bytes) (lines : List Bytes) (d : Database)
      → Answers (reply line) (test_round e line d)
      → Broken lines (test_round e line d).0 (test_repl e lines (test_round e line d).0)
      → Broken (line ∷ lines) d (test_repl e (line ∷ lines) d)
  unfolding test_repl
  go-Broken line lines d answered (before, at, later, split, through, crash, sent_all, down) =
      subst (Broken (line ∷ lines) d)
        (sym (then_rounds-go (reply line) (test_round e line d) (test_repl e lines) answered))
        (
          line ∷ before,
          at,
          later,
          ap (λ ls. line ∷ ls) split,
          go-Through line before d answered through,
          subst (LineCrashes e at) (go-database line before d answered) crash,
          signals-go (reply line) (map reply before) (test_round e line d).1
              (test_repl e lines (test_round e line d).0).1 answered.0 sent_all,
          down,
        )

  silent-Broken :
      (line : Bytes) (lines : List Bytes) (d : Database) (x : Round) (rest : Database → Round)
      → LineCrashes e line d
      → IsSilent e x
      → Broken (line ∷ lines) d (then_rounds x rest)
  unfolding test_repl
  silent-Broken line lines d (d', es, r) rest crash (none_sent, by_fault) =
      ([], line, lines, refl, (refl, refl), crash, none_sent, by_fault)
  silent-Broken line lines d (d', es, r) rest crash (none_sent, cut_off) =
      ([], line, lines, refl, (refl, refl), crash, none_sent, cut_off)

  -- The test loop goes through all lines, with one signal for each, in their order: SIGUSR1 for SYNC,
  -- SIGUSR2 for any other line, whatever becomes of its query. Or it crashes at the first line whose call
  -- of the parser or of the executor, on the database as the lines before have left it, does not come
  -- back; then it has sent the signals of the lines before, and no other.
  pub test_repl-signals :
      (lines : List Bytes) (d : Database)
      → Through lines (test_repl e lines d) ⊎ Broken lines d (test_repl e lines d)
  unfolding test_repl
  test_repl-signals [] d = inl (refl, refl)
  test_repl-signals (line ∷ lines) d = elim (test_round-Replied e line d) [
    | inl answered ↦ elim (test_repl-signals lines (test_round e line d).0) [
      | inl through ↦ inl (go-Through line lines d answered through)
      | inr broken ↦ inr (go-Broken line lines d answered broken)
    ]
    | inr silent ↦
        inr (silent-Broken line lines d (test_round e line d) (test_repl e lines) silent.0 silent.1)
  ]
