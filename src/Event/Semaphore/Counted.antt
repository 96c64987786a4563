-- ===== src/Event/Semaphore/Counted.antt =====
-- The notifications of a Semaphore (rpc/sem_event.h), in any order of calls.
use gboost_rpc.Base.{
  ◌^◌, ℕ, ◌+◌, ◌*◌, ◌/◌, ◌<◌, ◌≡◌, ◌≢◌, ◌==◌, refl, sym, ap, ◌∙◌, ◌⊎◌, inl, inr, if◌then◌else◌,
  Bool, Bool-cases, Option-cases, true, false, none, some, ok, fatal, arith,
}
use gboost_rpc.Event.Semaphore.{
  Timespec, SemaphoreCalls, etimedout, einval, new_semaphore, semaphore_notify, semaphore_wait,
  timespec_of, semaphore_timed_wait, semaphore_get_value,
}

-- What POSIX documents. A semaphore counts; a call that fails leaves it as it was; a wait that succeeds
-- found it positive; and a timed wait refuses exactly the times with a billion nanoseconds and more.
pub record IsSemaphore {S : Type 0} (sys : SemaphoreCalls S) : Type 0 where
  pub count : S → ℕ
  pub begins : (value : ℕ) → (sys.sem_init value).1 ≡ 0 → count (sys.sem_init value).0 ≡ value
  pub posts :
      (s : S)
      → count (sys.sem_post s).0 ≡ (if (sys.sem_post s).1 == 0 then count s + 1 else count s)
  pub waits :
      (s s' : S) (errno : ℕ)
      → sys.sem_wait s ≡ some (s', errno)
      → count s ≡ (if errno == 0 then count s' + 1 else count s')
  pub times :
      (s s' : S) (t : Timespec) (errno : ℕ)
      → sys.sem_timedwait s t ≡ some (s', errno)
      → count s ≡ (if errno == 0 then count s' + 1 else count s')
  pub valid_times :
      (s s' : S) (t : Timespec) → t.tv_nsec < 1000000000 → sys.sem_timedwait s t ≢ some (s', einval)
  pub values : (s : S) → (sys.sem_getvalue s).1 ≡ 0 → (sys.sem_getvalue s).0 ≡ count s

-- The semaphore, the calls of `Notify` that returned, and those of `Wait`, and of `TimedWait` with
-- true, that did.
pub record Counting (S : Type 0) : Type 0 where
  pub state : S
  pub notified : ℕ
  pub passed : ℕ

module _ {S : Type 0} (sys : SemaphoreCalls S) where
  pub data CountingStep (c : Counting S) : Counting S → Type 0 where
    notifies :
        {s : S}
        → semaphore_notify sys c.state ≡ ok s
        → CountingStep c (record c { state = s; notified = c.notified + 1 })
    passes :
        {s : S}
        → semaphore_wait sys c.state ≡ some (ok s)
        → CountingStep c (record c { state = s; passed = c.passed + 1 })
    passes_in_time :
        (duration : ℕ) {s : S}
        → semaphore_timed_wait sys c.state duration ≡ some (ok (s, true))
        → CountingStep c (record c { state = s; passed = c.passed + 1 })
    gives_up :
        (duration : ℕ) {s : S}
        → semaphore_timed_wait sys c.state duration ≡ some (ok (s, false))
        → CountingStep c (record c { state = s })

  pub data CountingSteps (c : Counting S) : Counting S → Type 0 where
    none_yet : CountingSteps c c
    and_then : {d e : Counting S} → CountingSteps c d → CountingStep d e → CountingSteps c e

module _ {S : Type 0} {sys : SemaphoreCalls S} (law : IsSemaphore sys) where
  notified_count : (s s' : S) → semaphore_notify sys s ≡ ok s' → law.count s' ≡ law.count s + 1
  unfolding semaphore_notify
  notified_count s s' e = elim (Bool-cases ((sys.sem_post s).1 == 0)) [
    | inl good ↦
        let same : (sys.sem_post s).0 ≡ s' = ground (arith, good, e) in
        ap law.count (sym same) ∙ law.posts s ∙ rw good refl
    | inr bad ↦ absurd (ground (arith, bad, e))
  ]

  waited_count : (s s' : S) → semaphore_wait sys s ≡ some (ok s') → law.count s ≡ law.count s' + 1
  unfolding semaphore_wait
  waited_count s s' e = elim (Option-cases (sys.sem_wait s)) [
    | inl waits ↦ absurd (ground (arith, waits, e))
    | inr ((s'', errno), answered) ↦
        let known = law.waits s s'' errno answered in
        elim (Bool-cases (errno == 0)) [
          | inl good ↦
              let same : s'' ≡ s' = ground (arith, good, answered, e) in
              known ∙ rw good (ap (λ t. law.count t + 1) same)
          | inr bad ↦ absurd (ground (arith, bad, answered, e))
        ]
  ]

  timed_count :
      (s s' : S) (duration : ℕ) (in_time : Bool)
      → semaphore_timed_wait sys s duration ≡ some (ok (s', in_time))
      → law.count s ≡ (if in_time then law.count s' + 1 else law.count s')
  unfolding semaphore_timed_wait
  timed_count s s' duration in_time e =
      elim (Option-cases (sys.sem_timedwait s (timespec_of sys duration))) [
        | inl waits ↦ absurd (ground (arith, waits, e))
        | inr ((s'', errno), answered) ↦
            let known = law.times s s'' (timespec_of sys duration) errno answered in
            elim (Bool-cases (errno == 0)) [
              | inl good ↦
                  let same : s'' ≡ s' = ground (arith, good, answered, e) in
                  let yes : in_time ≡ true = ground (arith, good, answered, e) in
                  rw yes (known ∙ rw good (ap (λ t. law.count t + 1) same))
              | inr bad ↦ elim (Bool-cases (errno == etimedout)) [
                | inl late ↦
                    let same : s'' ≡ s' = ground (arith, bad, late, answered, e) in
                    let no_time : in_time ≡ false = ground (arith, bad, late, answered, e) in
                    rw no_time (known ∙ rw bad (ap law.count same))
                | inr other ↦ absurd (ground (arith, bad, other, answered, e))
              ]
            ]
      ]

  abbrev Balances : Counting S → Type 0
  Balances c = law.count c.state + c.passed ≡ c.notified

  CountingStep-Balances : {c d : Counting S} → CountingStep sys c d → Balances c → Balances d
  CountingStep-Balances {c} (notifies {s} e) b = omega (arith, notified_count c.state s e, b)
  CountingStep-Balances {c} (passes {s} e) b = omega (arith, waited_count c.state s e, b)
  CountingStep-Balances {c} (passes_in_time duration {s} e) b =
      omega (arith, timed_count c.state s duration true e, b)
  CountingStep-Balances {c} (gives_up duration {s} e) b =
      omega (arith, timed_count c.state s duration false e, b)

  CountingSteps-Balances : {c d : Counting S} → CountingSteps sys c d → Balances c → Balances d
  CountingSteps-Balances none_yet b = b
  CountingSteps-Balances (and_then before step) b =
      CountingStep-Balances step (CountingSteps-Balances before b)

  -- Over semaphores as POSIX documents them: after any calls of `Notify`, `Wait` and `TimedWait` on a new
  -- Semaphore that returned, in any order, what `GetValue` answers, where it returns, are the notifications
  -- less the waits that they let through. A TimedWait that gives up takes none.
  pub new_semaphore-Counted :
      (s : S) (d : Counting S) (value : ℕ)
      → new_semaphore sys ≡ ok s
      → CountingSteps sys (record { state = s; notified = 0; passed = 0 }) d
      → semaphore_get_value sys d.state ≡ ok value
      → value + d.passed ≡ d.notified
  unfolding new_semaphore semaphore_get_value
  new_semaphore-Counted s d value made steps got = elim (Bool-cases ((sys.sem_init 0).1 == 0)) [
    | inr bad ↦ absurd (ground (arith, bad, made))
    | inl good ↦
        let same : (sys.sem_init 0).0 ≡ s = ground (arith, good, made) in
        let zero_count : law.count s ≡ 0 =
          ap law.count (sym same) ∙ law.begins 0 (ground (arith, good)) in
        let end : law.count d.state + d.passed ≡ d.notified =
          CountingSteps-Balances steps (omega (arith, zero_count)) in
        elim (Bool-cases ((sys.sem_getvalue d.state).1 == 0)) [
          | inr bad ↦ absurd (ground (arith, bad, got))
          | inl fine ↦
              let answer : (sys.sem_getvalue d.state).0 ≡ value = ground (arith, fine, got) in
              let counted : (sys.sem_getvalue d.state).0 ≡ law.count d.state =
                law.values d.state (ground (arith, fine)) in
              omega (arith, end, answer, counted)
        ]
  ]

  -- `TimedWait` of any duration: the time that it hands to the system is the duration, its nanoseconds
  -- are less than a billion, and are computed without overflow in 32 bits. Either the call waits, or
  -- it ends, and not with EINVAL: `TimedWait` returns true where it took a notification, false where
  -- the time is over, and stops the process at any other error.
  pub semaphore_timed_wait_lem :
      (s : S) (duration : ℕ)
      → duration < 2 ^ 32
      → let t = timespec_of sys duration in
        (t.tv_sec * 1000 + t.tv_nsec / 1000000 ≡ duration)
        × (t.tv_nsec < 1000000000)
        × (t.tv_nsec < 2 ^ 32)
        × ((semaphore_timed_wait sys s duration ≡ none)
            ⊎ ((s' : S) × (errno : ℕ) × (sys.sem_timedwait s t ≡ some (s', errno))
                × (errno ≢ einval)
                × (semaphore_timed_wait sys s duration
                    ≡ some (
                        if errno == 0
                        then ok (s', true)
                        else if errno == etimedout
                        then ok (s', false)
                        else fatal))))
  unfolding semaphore_timed_wait
  semaphore_timed_wait_lem s duration small =
      let t = timespec_of sys duration in
      let short : t.tv_nsec < 1000000000 = omega arith in
      (
        omega arith,
        short,
        omega arith,
        elim (Option-cases (sys.sem_timedwait s t)) [
          | inl waits ↦ inl (ground (arith, waits))
          | inr ((s', errno), answered) ↦ inr (
            s',
            errno,
            answered,
            λ invalid.
                law.valid_times s s' t short (answered ∙ ap (λ (n : ℕ). some (s', n)) invalid),
            ground (arith, answered),
          )
        ],
      )
