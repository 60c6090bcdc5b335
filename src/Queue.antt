-- ===== src/Queue.antt =====
-- metarec/src/metaqueue.c: the ring of ten metadata descriptors between the threads that receive
-- messages and the thread that records. Each function takes the queue that its pointer names; the
-- callers pass the address of one static queue, so the pointer is never null.
pub mod Inv
pub mod Refine
pub mod Window
mod Tests
use recording_agent_continuo.Prelude.{
  ℕ, ◌+◌, ◌==◌, Bool, true, false, not, Option, none, some, if◌then◌else◌,
}

-- METADATA_DESC_QUEUE_SIZE
abbrev pub queue_size : ℕ
queue_size = 10

-- The result of a locking or waiting function: -1 for a queue that is not initialized, else the
-- code of the pthread call, 0 for success.
pub data Rc : Type 0 where
  minus_one : Rc
  posix : ℕ → Rc

abbrev pub rc_is_zero : Rc → Bool
rc_is_zero minus_one = false
rc_is_zero (posix n) = n == 0

-- `meta_desc_q_t`. The array is a function of the index; the mutex is left to the thread model,
-- and each condition variable is the number of signals that it was sent.
pub record Queue {ℓ} (A : Type ℓ) : Type ℓ where
  pub initialized : Bool
  pub buf : ℕ → A
  pub head : ℕ
  pub tail : ℕ
  pub full : Bool
  pub empty : Bool
  pub not_full_signals : ℕ
  pub not_empty_signals : ℕ

-- `i++; if (i == METADATA_DESC_QUEUE_SIZE) i = 0;`
abbrev pub next_slot : ℕ → ℕ
next_slot i = if i + 1 == queue_size then 0 else i + 1

module _ {ℓ} {A : Type ℓ} where
  -- `buf[i] = x`
  abbrev pub write : (ℕ → A) → ℕ → A → ℕ → A
  write buf i x j = if j == i then x else buf j

  unfoldable pub signal_notempty : Queue A → Queue A
  signal_notempty q = record q { not_empty_signals = q.not_empty_signals + 1 }

  unfoldable pub signal_notfull : Queue A → Queue A
  signal_notfull q = record q { not_full_signals = q.not_full_signals + 1 }

  -- `mutex` is the result of the pthread call.
  unfoldable pub lock : Queue A → (mutex : ℕ) → Rc
  lock q mutex = if q.initialized then posix mutex else minus_one

  unfoldable pub unlock : Queue A → (mutex : ℕ) → Rc
  unlock q mutex = if q.initialized then posix mutex else minus_one

  unfoldable pub isfull : Queue A → Bool
  isfull q = q.full

  unfoldable pub isempty : Queue A → Bool
  isempty q = q.empty

  -- pthread_cond_timedwait gives up the mutex: it returns a code, and the queue as the other
  -- threads left it.
  unfoldable pub wait_for_room : (Queue A → ℕ × Queue A) → Queue A → Rc × Queue A
  wait_for_room timedwait q =
      let waited = timedwait q in
      if q.initialized
      then (if q.full then (posix waited.0, waited.1) else (posix 0, q))
      else (minus_one, q)

  unfoldable pub wait_for_data : (Queue A → ℕ × Queue A) → Queue A → Rc × Queue A
  wait_for_data timedwait q =
      let waited = timedwait q in
      if q.initialized
      then (if q.empty then (posix waited.0, waited.1) else (posix 0, q))
      else (minus_one, q)

  unfoldable pub deinit : Queue A → Queue A
  deinit q = if q.initialized then record q { initialized = false } else q

  unfoldable pub init : Queue A → Queue A
  unfolding deinit signal_notfull
  init q =
      let q1 = if q.initialized then deinit q else q in
      let q2 = record q1 {
        empty = true;
        full = false;
        head = 0;
        tail = 0;
        not_full_signals = 0;
        not_empty_signals = 0;
      } in
      record (signal_notfull q2) { initialized = true }

  unfoldable pub enq : Queue A → A → Queue A
  unfolding signal_notempty
  enq q x =
      let tail' = next_slot q.tail in
      if q.full
      then q
      else signal_notempty (record q {
        buf = write q.buf q.tail x;
        tail = tail';
        full = if tail' == q.head then true else q.full;
        empty = false;
      })

  -- The result is the pointer `&q->buf[i]`, given by its index.
  unfoldable pub deq : Queue A → Option ℕ × Queue A
  unfolding signal_notfull
  deq q =
      let head' = next_slot q.head in
      let q1 = record q { head = head'; empty = if head' == q.tail then true else q.empty } in
      if q.empty
      then (none, q)
      else (some q.head, if q.full then signal_notfull (record q1 { full = false }) else q1)

  unfoldable pub peek : Queue A → Option ℕ
  peek q = if not q.empty then some q.head else none
