-- ===== src/Queue/Window.antt =====
-- What the ring holds: the slots from the head on, going round at the end of the array.
use recording_agent_continuo.Prelude.{
  ℕ, zero, suc, ◌+◌, ◌-◌, ◌%◌, ◌<◌, ◌≡◌, refl, ap, ap₂, false, ◌==◌, if◌then◌else◌, List, [], ◌∷◌,
  ◌++◌, arith, length,
}
use recording_agent_continuo.Queue.{Queue, queue_size, write, next_slot}

module _ {ℓ} {A : Type ℓ} where
  abbrev pub window : (ℕ → A) → ℕ → ℕ → List A
  window buf h zero = []
  window buf h (suc n) = buf h ∷ window buf (next_slot h) n

  -- The number of descriptors that wait.
  unfoldable pub count : Queue A → ℕ
  count q =
      if q.empty
      then 0
      else if q.full
      then queue_size
      else (q.tail + queue_size - q.head) % queue_size

  -- The waiting descriptors, oldest first.
  unfoldable pub contents : Queue A → List A
  contents q = window q.buf q.head (count q)

  pub length-window : (buf : ℕ → A) (h n : ℕ) → length (window buf h n) ≡ n
  length-window buf h zero = refl
  length-window buf h (suc n) = ap suc (length-window buf (next_slot h) n)

  pub write_ne : (buf : ℕ → A) (i j : ℕ) (x : A) → (j == i) ≡ false → write buf i x j ≡ buf j
  write_ne buf i j x h = rw h

  -- A write at least `d + 1` slots past the last of a window does not touch it.
  pub window-write :
      (buf : ℕ → A) (x : A) (h n i d : ℕ)
      → h < queue_size
      → n + d < queue_size
      → i ≡ (h + n + d) % queue_size
      → window (write buf i x) h n ≡ window buf h n
  window-write buf x h zero i d hh lt e = refl
  window-write buf x h (suc n) i d hh lt e =
      ap₂ ◌∷◌ (write_ne buf i h x (ground arith))
        (window-write buf x (next_slot h) n i d (ground arith) (omega arith) (ground arith))

  -- A longer window ends with the slot that it takes in.
  pub window-suc :
      (buf : ℕ → A) (h n i : ℕ)
      → h < queue_size
      → i ≡ (h + n) % queue_size
      → window buf h (suc n) ≡ window buf h n ++ (buf i ∷ [])
  window-suc buf h zero i hh e = rw e (ap (λ k. buf k ∷ []) (omega arith))
  window-suc buf h (suc n) i hh e =
      ap (λ l. buf h ∷ l) (window-suc buf (next_slot h) n i (ground arith) (ground arith))
