-- ===== src/Queue/Inv.antt =====
-- The representation invariant of the ring of descriptors, and that every operation keeps it.
use recording_agent_continuo.Prelude.{◌<◌, ◌≡◌, true, false, arith}
use recording_agent_continuo.Queue.{Queue, queue_size, init, enq, deq}

-- Both indices lie in the array, and where they meet exactly one of the two flags is set.
pub record IsValid {ℓ} {A : Type ℓ} (q : Queue A) : Type 0 where
  pub head_in : q.head < queue_size
  pub tail_in : q.tail < queue_size
  pub full_meets : q.full ≡ true → q.head ≡ q.tail
  pub empty_meets : q.empty ≡ true → q.head ≡ q.tail
  pub not_both : q.full ≡ true → q.empty ≡ false
  pub one_of : q.head ≡ q.tail → q.full ≡ false → q.empty ≡ true

module _ {ℓ} {A : Type ℓ} where
  pub init-IsValid : (q : Queue A) → IsValid (init q)
  unfolding init
  init-IsValid q = ground arith

  pub enq-IsValid : {q : Queue A} (x : A) → IsValid q → IsValid (enq q x)
  unfolding enq
  enq-IsValid x v = ground arith

  pub deq-IsValid : {q : Queue A} → IsValid q → IsValid (deq q).1
  unfolding deq
  deq-IsValid v = ground arith
