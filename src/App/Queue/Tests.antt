-- ===== src/App/Queue/Tests.antt =====
-- A queue with one place.
use garcon.Prelude.{ℕ, false, [], ◌∷◌}
use garcon.App.Queue.{WorkQueue}
use garcon.App.Queue.History.{pushes, tries, pops, closes, run, Step, run-Step}

abbrev queue : WorkQueue ℕ
queue = record { capacity = 1; sockets = 5 ∷ []; is_closed = false }

run-Step_example :
    Step queue (run queue (tries 6 ∷ pops false ∷ tries 7 ∷ closes ∷ pushes false 8 ∷ []))
run-Step_example = run-Step queue (tries 6 ∷ pops false ∷ tries 7 ∷ closes ∷ pushes false 8 ∷ [])
