-- ===== src/Metarec/Intf/Fifo.antt =====
-- How descriptors go through the queue of metadata: what queueing reports, and what the recording
-- thread gets when producers run between its dequeue and its copy.
use recording_agent_continuo.Prelude.{
  ℕ, ◌+◌, ◌%◌, ◌^◌, ◌≤◌, ◌<◌, ◌≡◌, refl, ap, true, false, some, List, [], ◌∷◌, ◌++◌, arith, length,
}
use recording_agent_continuo.Queue.{queue_size, enq, deq}
use recording_agent_continuo.Queue.Inv.{IsValid, enq-IsValid, deq-IsValid}
use recording_agent_continuo.Queue.Window.{contents}
use recording_agent_continuo.Queue.Refine.{
  contents-enq_room, contents-deq, enq_all, enq_full, deq_parts, deq-room, contents-enq_all,
  deq-slot_kept, deq-slot_lost, length-contents,
}
use recording_agent_continuo.Metarec.{Desc}
use recording_agent_continuo.Metarec.Intf.{
  Intf, Env, alloc_size, enq_metadata_descriptor, get_metadata_descriptor,
}

-- The descriptor as it is queued, with a block of its own.
abbrev pub own_block : Intf → Desc → Desc
own_block s d = record d { block = s.next_block }

-- The queue is initialized and its mutex can be taken.
pub record IsUp (e : Env) (s : Intf) : Type 0 where
  pub up : s.queue.initialized ≡ true
  pub free : e.mutex ≡ 0

-- The state after a descriptor was queued.
queued : Intf → Desc → Intf
queued s d = record s { queue = enq s.queue (own_block s d); next_block = s.next_block + 1 }

module _ (e : Env) (s : Intf) (d : Desc) (h : IsUp e s) where
  enq_queued : s.queue.full ≡ false → enq_metadata_descriptor e s d ≡ (1, queued s d)
  unfolding enq_metadata_descriptor queued
  enq_queued room = ground (arith, h.up, h.free)

  -- With the queue initialized, its mutex taken, and the ring valid with room, queueing returns 1,
  -- the descriptor with a block of its own is the last of what waits, and the ring stays valid.
  pub enq_metadata_descriptor-room :
      IsValid s.queue
      → s.queue.full ≡ false
      → let (rc, s') = enq_metadata_descriptor e s d in
        (rc ≡ 1)
        × (contents s'.queue ≡ contents s.queue ++ (own_block s d ∷ []))
        × (s'.next_block ≡ s.next_block + 1)
        × IsValid s'.queue
  unfolding queued
  enq_metadata_descriptor-room v room =
      rw (enq_queued room)
        (refl, contents-enq_room (own_block s d) v room, refl, enq-IsValid (own_block s d) v)

  -- With the queue initialized and its mutex taken: if the wait for room in a full ring reports
  -- success and leaves the ring as it was, queueing returns 1 and takes a block, and the queue is
  -- unchanged.
  enq_metadata_descriptor-lost :
      s.queue.full ≡ true
      → e.timedwait s.queue ≡ (0, s.queue)
      → let (rc, s') = enq_metadata_descriptor e s d in
        (rc ≡ 1) × (s'.queue ≡ s.queue) × (s'.next_block ≡ s.next_block + 1)
  unfolding enq_metadata_descriptor
  enq_metadata_descriptor-lost f w =
      ground (arith, h.up, h.free, enq_full s.queue (own_block s d) f)

-- The block that is allocated for n bytes holds them, is a whole number of 16-byte units and is at
-- most 32 bytes longer, if n + 32 is below 2 ^ 32.
alloc_size_bounds :
    (n : ℕ)
    → n + 32 < 2 ^ 32
    → (n ≤ alloc_size n) × (alloc_size n ≤ n + 32) × (alloc_size n % 16 ≡ 0)
unfolding alloc_size
alloc_size_bounds n h = omega arith

-- The state after the first descriptor was taken out.
abbrev pub dequeued : Intf → Intf
dequeued s = record s { queue = (deq s.queue).1 }

module _ (e : Env) (s : Intf) (h : IsUp e s) where
  get_parts :
      (meanwhile : Intf → Intf)
      → s.queue.empty ≡ false
      → get_metadata_descriptor e meanwhile s
        ≡ (some ((meanwhile (dequeued s)).queue.buf s.queue.head), meanwhile (dequeued s))
  unfolding get_metadata_descriptor
  get_parts meanwhile ne = ground (arith, h.up, h.free, deq_parts s.queue ne)

  -- With the queue initialized, its mutex taken and the ring valid and not empty: if the
  -- descriptors that other threads queue between the dequeue and the copy are no more than the
  -- ring had room for before the call, the recording thread gets the first descriptor that waited,
  -- and the rest waits with the new ones behind it.
  pub get_metadata_descriptor-first :
      (meanwhile : Intf → Intf) (xs : List Desc)
      → IsValid s.queue
      → s.queue.empty ≡ false
      → (meanwhile (dequeued s)).queue ≡ enq_all (deq s.queue).1 xs
      → length xs + length (contents s.queue) ≤ queue_size
      → let (got, s') = get_metadata_descriptor e meanwhile s in
        (d : Desc) × (rest : List Desc) × (contents s.queue ≡ d ∷ rest)
        × (got ≡ some d)
        × (contents s'.queue ≡ rest ++ xs)
  get_metadata_descriptor-first meanwhile xs v ne m fits =
      rw (get_parts meanwhile ne, m)
        (
          s.queue.buf s.queue.head,
          contents (deq s.queue).1,
          contents-deq v ne,
          ap some (deq-slot_kept xs v ne (omega (arith, length-contents s.queue))),
          contents-enq_all xs (deq-IsValid v) (omega (arith, ap length (contents-deq v ne))),
        )

  -- With the queue initialized, its mutex taken and the ring valid: if the ring was full and one
  -- descriptor is queued between the dequeue and the copy, the recording thread gets that
  -- descriptor in place of the first that waited, and it waits in the queue as well.
  pub get_metadata_descriptor-overrun :
      (meanwhile : Intf → Intf) (x : Desc)
      → IsValid s.queue
      → s.queue.full ≡ true
      → (meanwhile (dequeued s)).queue ≡ enq (deq s.queue).1 x
      → let (got, s') = get_metadata_descriptor e meanwhile s in
        (got ≡ some x) × (contents s'.queue ≡ contents (deq s.queue).1 ++ (x ∷ []))
  get_metadata_descriptor-overrun meanwhile x v f m =
      let ne = v.not_both f in
      rw (get_parts meanwhile ne, m)
        (ap some (deq-slot_lost x v f), contents-enq_room x (deq-IsValid v) (deq-room v ne))
