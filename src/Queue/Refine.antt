-- ===== src/Queue/Refine.antt =====
-- A valid ring behaves as the bounded queue of the descriptors that wait in it, and how long the
-- slot that `meta_q_deq` points at stays as it was.
use recording_agent_continuo.Prelude.{
  ℕ, suc, ◌+◌, ◌-◌, ◌%◌, ◌≤◌, ◌<◌, ◌≡◌, refl, sym, append-nil, append_assoc, length-append, ap, ap₂,
  ◌∙◌, true, false, Option, none, some, ltb, if◌then◌else◌, List, [], ◌∷◌, ◌++◌, arith, length,
  Bool-cases, inl, inr,
}
use native.Mathlib.Nat.{add-zero}
use recording_agent_continuo.Queue.{Queue, queue_size, write, next_slot, enq, deq, peek}
use recording_agent_continuo.Queue.Inv.{IsValid, enq-IsValid, deq-IsValid}
use recording_agent_continuo.Queue.Window.{
  window, count, contents, length-window, window-write, window-suc, write_ne,
}

-- A client's calls: put a descriptor in, or take one out and copy it at once.
pub data Op {ℓ} (A : Type ℓ) : Type ℓ where
  put : A → Op A
  get : Op A

module _ {ℓ} {A : Type ℓ} where
  -- What the calls return on the ring; the copy of a descriptor is the read of its slot.
  pub run : Queue A → List (Op A) → List (Option A)
  run q [] = []
  run q (put x ∷ ops) = none ∷ run (enq q x) ops
  run q (get ∷ ops) =
      let (p, q') = deq q in (elim p [ none ↦ none | some i ↦ some (q'.buf i) ]) ∷ run q' ops

  -- The same calls on a list of at most `queue_size` items that drops what does not fit.
  pub fifo_put : List A → A → List A
  fifo_put l x = if ltb (length l) queue_size then l ++ (x ∷ []) else l

  pub fifo : List A → List (Op A) → List (Option A)
  fifo l [] = []
  fifo l (put x ∷ ops) = none ∷ fifo (fifo_put l x) ops
  fifo [] (get ∷ ops) = none ∷ fifo [] ops
  fifo (x ∷ l) (get ∷ ops) = some x ∷ fifo l ops

  pub length-contents : (q : Queue A) → length (contents q) ≡ count q
  unfolding contents
  length-contents q = length-window q.buf q.head (count q)

  count-enq : {q : Queue A} (x : A) → IsValid q → q.full ≡ false → count (enq q x) ≡ suc (count q)
  unfolding enq count
  count-enq x v h = ground arith

  count_lt : {q : Queue A} → IsValid q → q.full ≡ false → count q < queue_size
  unfolding count
  count_lt v h = ground arith

  tail_lem : {q : Queue A} → IsValid q → q.full ≡ false → q.tail ≡ (q.head + count q) % queue_size
  unfolding count
  tail_lem v h = ground arith

  window_cong :
      {b b' : ℕ → A} {h h' n n' : ℕ} → b ≡ b' → h ≡ h' → n ≡ n' → window b h n ≡ window b' h' n'
  window_cong p q r = λ i. window (p i) (q i) (r i)

  count_full : {q : Queue A} → IsValid q → q.full ≡ true → count q ≡ queue_size
  unfolding count
  count_full v h = ground arith

  count_pos : {q : Queue A} → IsValid q → q.empty ≡ false → 0 < count q
  unfolding count
  count_pos v h = ground arith

  head_past :
      {q : Queue A}
      → IsValid q
      → q.empty ≡ false
      → q.head ≡ (q.tail + (queue_size - count q)) % queue_size
  unfolding count
  head_past v h = ground arith

  contents_parts : (q : Queue A) → contents q ≡ window q.buf q.head (count q)
  unfolding contents
  contents_parts q = refl

  write_self : (buf : ℕ → A) (i : ℕ) (x : A) → write buf i x i ≡ x
  write_self buf i x = ground arith

  deq_empty : (q : Queue A) → q.empty ≡ true → deq q ≡ (none, q)
  unfolding deq
  deq_empty q e = rw e

  pub enq_full : (q : Queue A) (x : A) → q.full ≡ true → enq q x ≡ q
  unfolding enq
  enq_full q x f = rw f

  enq_room :
      (q : Queue A) (x : A)
      → q.full ≡ false
      → ((enq q x).buf ≡ write q.buf q.tail x)
        × ((enq q x).head ≡ q.head)
        × ((enq q x).tail ≡ next_slot q.tail)
  unfolding enq
  enq_room q x f = rw f (refl, refl, refl)

  -- A descriptor put into a ring with room is the last of what waits.
  pub contents-enq_room :
      {q : Queue A} (x : A)
      → IsValid q
      → q.full ≡ false
      → contents (enq q x) ≡ contents q ++ (x ∷ [])
  contents-enq_room {q} x v f =
      let e = enq_room q x f in
      let room = count_lt v f in
      let at_tail = tail_lem v f in
      contents_parts (enq q x)
      ∙ window_cong e.0 e.1 (count-enq x v f)
      ∙ (window-suc (write q.buf q.tail x) q.head (count q) q.tail v.head_in at_tail
          ∙ ap₂ (λ l y. l ++ (y ∷ []))
              (window-write q.buf x q.head (count q) q.tail 0 v.head_in (omega arith)
                  (rw add-zero at_tail)
                ∙ sym (contents_parts q))
              (write_self q.buf q.tail x))

  -- A descriptor put into a ring with room is the last of what waits; a full ring is unchanged.
  pub contents-enq :
      {q : Queue A} (x : A) → IsValid q → contents (enq q x) ≡ fifo_put (contents q) x
  unfolding fifo_put
  contents-enq {q} x v = elim (Bool-cases q.full) [
    | inl f ↦ rw (enq_full q x f) (ground (arith, length-contents q, count_full v f))
    | inr f ↦ contents-enq_room x v f ∙ ground (arith, length-contents q, count_lt v f)
  ]

  pub deq_parts :
      (q : Queue A)
      → q.empty ≡ false
      → ((deq q).0 ≡ some q.head)
        × ((deq q).1.buf ≡ q.buf)
        × ((deq q).1.head ≡ next_slot q.head)
        × ((deq q).1.tail ≡ q.tail)
  unfolding deq
  deq_parts q e = ground arith

  count-deq : {q : Queue A} → IsValid q → q.empty ≡ false → count q ≡ suc (count (deq q).1)
  unfolding deq count
  count-deq v h = ground arith

  -- What is taken out is the first of what waits.
  pub contents-deq :
      {q : Queue A} → IsValid q → q.empty ≡ false → contents q ≡ q.buf q.head ∷ contents (deq q).1
  contents-deq {q} v h =
      let d = deq_parts q h in
      contents_parts q ∙ rw (count-deq v h, contents_parts (deq q).1, d.1, d.2)

  contents-nil : (q : Queue A) → q.empty ≡ true → contents q ≡ []
  unfolding contents count
  contents-nil q h = rw h

  -- For every sequence of puts and gets on a valid ring of ten slots, what the calls return is
  -- what a list of at most ten items returns that takes items out in the order they were put in
  -- and drops an item that does not fit.
  pub run-fifo : (ops : List (Op A)) {q : Queue A} → IsValid q → run q ops ≡ fifo (contents q) ops
  unfolding run fifo
  run-fifo [] v = refl
  run-fifo (put x ∷ ops) {q} v =
      ap (λ l. none ∷ l) (run-fifo ops (enq-IsValid x v) ∙ rw (contents-enq x v))
  run-fifo (get ∷ ops) {q} v = elim (Bool-cases q.empty) [
    | inl e ↦
        rw (contents-nil q e, deq_empty q e)
          (ap (λ l. none ∷ l) (run-fifo ops v ∙ rw (contents-nil q e)))
    | inr e ↦
        rw (contents-deq v e, (deq_parts q e).0, (deq_parts q e).1)
          (ap (λ l. some (q.buf q.head) ∷ l) (run-fifo ops (deq-IsValid v)))
  ]

  -- `meta_q_peek` points at what `meta_q_deq` would take, and changes nothing.
  pub peek-deq : (q : Queue A) → peek q ≡ (deq q).0
  unfolding peek deq
  peek-deq q = ground arith

  -- The calls of a producer between two steps of the consumer.
  abbrev pub enq_all : Queue A → List A → Queue A
  enq_all q [] = q
  enq_all q (x ∷ xs) = enq_all (enq q x) xs

  -- After a descriptor is taken out there is room.
  pub deq-room : {q : Queue A} → IsValid q → q.empty ≡ false → (deq q).1.full ≡ false
  unfolding deq
  deq-room v h = ground arith

  room_of_count : {q : Queue A} → count q < queue_size → IsValid q → q.full ≡ false
  unfolding count
  room_of_count h v = ground arith

  -- Descriptors that fit into the ring wait in their order.
  pub contents-enq_all :
      (xs : List A) {q : Queue A}
      → IsValid q
      → length xs + length (contents q) ≤ queue_size
      → contents (enq_all q xs) ≡ contents q ++ xs
  contents-enq_all [] {q} v h = sym (append-nil (contents q))
  contents-enq_all (x ∷ xs) {q} v h =
      let e = contents-enq_room x v (room_of_count (omega (arith, length-contents q)) v) in
      contents-enq_all xs (enq-IsValid x v)
        (omega (arith, ap length e, length-append (contents q) (x ∷ [])))
      ∙ rw e (append_assoc (contents q) (x ∷ []) xs)

  slot_kept :
      (xs : List A) (q : Queue A) (i d : ℕ)
      → q.tail < queue_size
      → i ≡ (q.tail + d) % queue_size
      → d < queue_size
      → length xs ≤ d
      → IsValid q
      → (enq_all q xs).buf i ≡ q.buf i
  slot_kept [] q i d ht e hd hl v = refl
  slot_kept (x ∷ xs) q i d ht e hd hl v = elim (Bool-cases q.full) [
    | inl f ↦
        ap (λ r. (enq_all r xs).buf i) (enq_full q x f) ∙ slot_kept xs q i d ht e hd (omega arith) v
    | inr f ↦
        let p = enq_room q x f in
        slot_kept xs (enq q x) i (d - 1) (rw p.2 (ground arith)) (rw p.2 (ground arith))
          (omega arith) (omega arith) (enq-IsValid x v)
        ∙ rw p.0 (write_ne q.buf q.tail i x (ground arith))
  ]

  -- In a valid ring that is not empty, the slot that a dequeue points at is as it was after as
  -- many puts as the ring had room for before the dequeue.
  pub deq-slot_kept :
      {q : Queue A} (xs : List A)
      → IsValid q
      → q.empty ≡ false
      → length xs + count q ≤ queue_size
      → (enq_all (deq q).1 xs).buf q.head ≡ q.buf q.head
  deq-slot_kept {q} xs v h le =
      let p = deq_parts q h in
      let w = deq-IsValid v in
      slot_kept xs (deq q).1 q.head (queue_size - count q) w.tail_in (rw (p.3) (head_past v h))
        (omega (arith, count_pos v h)) (omega arith) w
      ∙ rw p.1

  -- In a full ring that slot is the next to be written: one put replaces what the pointer names.
  pub deq-slot_lost :
      {q : Queue A} (x : A) → IsValid q → q.full ≡ true → (enq (deq q).1 x).buf q.head ≡ x
  unfolding enq deq
  deq-slot_lost x v f = ground arith
