-- ===== src/Metarec/Intf/Tests.antt =====
-- The queue of metadata and the map of digital inputs on concrete descriptors.
use recording_agent_continuo.Prelude.{ℕ, ◌≡◌, refl, true, false, some, List, [], ◌∷◌, ◌++◌, arith}
use recording_agent_continuo.Prelude.Int.{pos}
use recording_agent_continuo.Queue.{Queue, init, enq, deq}
use recording_agent_continuo.Queue.Inv.{IsValid, init-IsValid, enq-IsValid}
use recording_agent_continuo.Queue.Window.{contents, count}
use recording_agent_continuo.Queue.Refine.{enq_all, length-contents}
use recording_agent_continuo.Metarec.{Desc, gps, gps_memory}
use recording_agent_continuo.Metarec.Intf.{Intf, Env, initial_config_map, get_metadata_descriptor}
use recording_agent_continuo.Metarec.Intf.Fifo.{
  IsUp, get_metadata_descriptor-first, get_metadata_descriptor-overrun,
}

abbrev position : ℕ → Desc
position t = record {
  data_type = gps;
  data_length = 12;
  payload = gps_memory (pos 1) (pos 2) (pos 3);
  block = 0;
  tod_sec = t;
  ts_sec = t;
  ts_nsec = 0;
}

abbrev blank : Queue Desc
blank = record {
  initialized = false;
  buf = λ i. position 0;
  head = 0;
  tail = 0;
  full = false;
  empty = false;
  not_full_signals = 0;
  not_empty_signals = 0;
}

-- The wait ends at once and finds the queue as it was.
abbrev calm : Env
calm = record { mutex = 0; timedwait = λ q. (0, q); tod_sec = 100; ts_sec = 50; ts_nsec = 7 }

abbrev with_queue : Queue Desc → Intf
with_queue q = record { queue = q; config_map = initial_config_map; next_block = 1 }

abbrev one_waiting : Intf
one_waiting = with_queue (enq (init blank) (position 1))

one_waiting-IsUp : IsUp calm one_waiting
unfolding init enq
one_waiting-IsUp = record { up = refl; free = refl }

one_waiting_nonempty : one_waiting.queue.empty ≡ false
unfolding init enq
one_waiting_nonempty = refl

one_waiting_count : count one_waiting.queue ≡ 1
unfolding init enq count
one_waiting_count = refl

-- Two descriptors are queued before the copy.
abbrev meanwhile_two : Intf → Intf
meanwhile_two s = record s { queue = enq_all s.queue (position 2 ∷ position 3 ∷ []) }

get_metadata_descriptor-first_example :
    let (got, s') = get_metadata_descriptor calm meanwhile_two one_waiting in
    (d : Desc) × (rest : List Desc) × (contents one_waiting.queue ≡ d ∷ rest)
    × (got ≡ some d)
    × (contents s'.queue ≡ rest ++ (position 2 ∷ position 3 ∷ []))
get_metadata_descriptor-first_example =
    get_metadata_descriptor-first calm one_waiting one_waiting-IsUp meanwhile_two
      (position 2 ∷ position 3 ∷ []) (enq-IsValid (position 1) (init-IsValid blank))
      one_waiting_nonempty refl
      (omega (arith, length-contents one_waiting.queue, one_waiting_count))

-- A full ring, whose next descriptor is in slot 3.
abbrev full_queue : Queue Desc
full_queue = record {
  initialized = true;
  buf = position;
  head = 3;
  tail = 3;
  full = true;
  empty = false;
  not_full_signals = 1;
  not_empty_signals = 13;
}

full_queue-IsValid : IsValid full_queue
full_queue-IsValid = ground arith

full_queue-IsUp : IsUp calm (with_queue full_queue)
full_queue-IsUp = record { up = refl; free = refl }

abbrev meanwhile_one : Intf → Intf
meanwhile_one s = record s { queue = enq s.queue (position 20) }

get_metadata_descriptor-overrun_example :
    let (got, s') = get_metadata_descriptor calm meanwhile_one (with_queue full_queue) in
    (got ≡ some (position 20))
    × (contents s'.queue ≡ contents (deq full_queue).1 ++ (position 20 ∷ []))
get_metadata_descriptor-overrun_example =
    get_metadata_descriptor-overrun calm (with_queue full_queue) full_queue-IsUp meanwhile_one
      (position 20) full_queue-IsValid refl refl
