-- ===== src/FiberPool/Tests.antt =====
-- A fiber that starts, exits and leaves its stack to the next.
use xx_core.Base.{ℕ, ◌≡◌, true, some, [], ◌∷◌, refl}
use xx_core.FiberPool.{new_fiber, exit_fiber, System, starts, exits, Reachable, created, stepped}
use xx_core.FiberPool.Unique.{IsPool, Reachable-IsPool}

abbrev half : ℕ
half = 128

abbrev one : System
one = record {
  data_of = record { pool = []; active = 1 };
  running = record { stack = 0; start = 7 } ∷ [];
  made = 1;
  peak = 1;
}

abbrev preserved_one : System
preserved_one = record {
  data_of = record { pool = record { stack = 0; start = 7 } ∷ []; active = 0 };
  running = [];
  made = 1;
  peak = 1;
}

abbrev nothing_yet : System
nothing_yet = record {
  data_of = record { pool = []; active = 0 };
  running = [];
  made = 0;
  peak = 0;
}

one-Reachable : Reachable half one
unfolding new_fiber
one-Reachable =
    stepped nothing_yet one created (
      starts nothing_yet 7 (record { stack = 0; start = 7 }) (record { pool = []; active = 1 })
        refl)

preserved_one-Reachable : Reachable half preserved_one
unfolding exit_fiber
preserved_one-Reachable = stepped one preserved_one one-Reachable (
    exits one [] [] (record { stack = 0; start = 7 }) true (System.data_of preserved_one) refl refl)

start_anew :
    new_fiber half 8 5 (System.data_of preserved_one)
    ≡ some (record { stack = 0; start = 8 }, record { pool = []; active = 1 })
unfolding new_fiber
start_anew = refl

Reachable-IsPool_example : IsPool preserved_one
Reachable-IsPool_example = Reachable-IsPool half preserved_one preserved_one-Reachable
