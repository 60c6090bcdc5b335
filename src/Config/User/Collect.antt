-- ===== src/Config/User/Collect.antt =====
-- When the collection of the user's configuration ends.
use recording_agent_continuo.Prelude.{ℕ, zero, suc, ◌<◌, ltb, true, false, ◌≡◌, refl, List, arith}
use recording_agent_continuo.Config.User.{
  Versions, Message, User, Blank, video_application_status, send, uc_is_ready, poll, collect_loop,
  uc_timeout, collect, uc_collect,
}

module _ {C T L : Type 0} (versions : Versions) (blank : Blank C T L)
    (polls : ℕ → List (Message C T L)) where
  -- The state after n polls from the i-th on.
  unfoldable pub polled : (n i : ℕ) → User C T L → User C T L
  polled zero i u = u
  polled (suc n) i u = polled n (suc i) (poll versions blank (polls i) u)

  collect_loop-ready :
      (k ttl i : ℕ) (u : User C T L)
      → suc k < ttl
      → ((j : ℕ) → j < k → uc_is_ready (polled (suc j) i u) ≡ false)
      → uc_is_ready (polled (suc k) i u) ≡ true
      → collect_loop versions blank ttl polls i u ≡ polled (suc k) i u
  unfolding collect_loop polled
  collect_loop-ready k zero i u lt before now = absurd (omega arith)
  collect_loop-ready zero (suc ttl) i u lt before now =
      let more : ltb 0 ttl ≡ true = ground arith in rw (more, now) refl
  collect_loop-ready (suc k) (suc ttl) i u lt before now =
      let more : ltb 0 ttl ≡ true = ground arith in
      let first = before 0 (omega arith) in
      rw (more, first)
        (collect_loop-ready k ttl (suc i) (poll versions blank (polls i) u) (omega arith)
          (λ j lt'. before (suc j) (omega arith)) now)

  collect_loop-late :
      (ttl i : ℕ) (u : User C T L)
      → ((j : ℕ) → suc j < suc ttl → uc_is_ready (polled (suc j) i u) ≡ false)
      → collect_loop versions blank (suc ttl) polls i u ≡ polled ttl i u
  unfolding collect_loop polled
  collect_loop-late zero i u never = refl
  collect_loop-late (suc ttl) i u never =
      let more : ltb 0 (suc ttl) ≡ true = ground arith in
      let first = never 0 (omega arith) in
      rw (more, first)
        (collect_loop-late ttl (suc i) (poll versions blank (polls i) u)
          (λ j lt. never (suc j) (omega arith)))

  -- If the user's configuration is not complete, the connection and the attachment of the messages
  -- succeed, and the (k + 1)-th round is the first behind which it is complete, for a k below 9,
  -- the collection returns 1 with the state behind that round.
  pub uc_collect-ready :
      (exit_ptc_init_err k : ℕ) (u : User C T L)
      → uc_is_ready u ≡ false
      → k < 9
      → ((j : ℕ)
          → j < k
          → uc_is_ready (polled (suc j) 0 (send (video_application_status true) u)) ≡ false)
      → uc_is_ready (polled (suc k) 0 (send (video_application_status true) u)) ≡ true
      → uc_collect versions blank exit_ptc_init_err true true polls u
        ≡ (1, polled (suc k) 0 (send (video_application_status true) u))
  unfolding uc_collect collect
  uc_collect-ready err k u start lt before now =
      rw
        (
          start,
          collect_loop-ready k uc_timeout 0 (send (video_application_status true) u) (omega arith)
              before now,
          now,
        )
        refl

  pub uc_collect-late :
      (exit_ptc_init_err : ℕ) (u : User C T L)
      → uc_is_ready u ≡ false
      → ((j : ℕ)
          → j < 9
          → uc_is_ready (polled (suc j) 0 (send (video_application_status true) u)) ≡ false)
      → uc_collect versions blank exit_ptc_init_err true true polls u
        ≡ (0, polled 9 0 (send (video_application_status true) u))
  unfolding uc_collect collect
  uc_collect-late err u start never =
      let start_u = send (video_application_status true) u in
      rw
        (
          start,
          collect_loop-late 9 0 start_u (λ j lt. never j (omega arith)),
          never 8 (omega arith),
        )
        refl
