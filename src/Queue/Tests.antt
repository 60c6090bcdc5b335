-- ===== src/Queue/Tests.antt =====
-- Calls of the ring on concrete descriptors.
use recording_agent_continuo.Prelude.{ℕ, ◌≡◌, true, false, List, [], ◌∷◌}
use recording_agent_continuo.Queue.{Queue, init}
use recording_agent_continuo.Queue.Inv.{init-IsValid}
use recording_agent_continuo.Queue.Window.{contents}
use recording_agent_continuo.Queue.Refine.{Op, put, get, run, fifo, run-fifo}

abbrev blank : Queue ℕ
blank = record {
  initialized = false;
  buf = λ i. 0;
  head = 4;
  tail = 7;
  full = true;
  empty = true;
  not_full_signals = 3;
  not_empty_signals = 2;
}

abbrev calls : List (Op ℕ)
calls = put 5 ∷ put 6 ∷ get ∷ put 7 ∷ get ∷ get ∷ get ∷ []

run-fifo_example : run (init blank) calls ≡ fifo (contents (init blank)) calls
run-fifo_example = run-fifo calls (init-IsValid blank)
