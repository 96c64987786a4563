-- ===== src/Examples/Helping.antt =====
-- A thread that waits for each kind of event, and the text of a negative number.
use gboost_rpc.Base.{◌≡◌, refl, false, true, [], ◌∷◌, arith, ok}
use gboost_rpc.Event.{try_wait, timed_wait, notify, load_positive, exchange}
use gboost_rpc.Event.Blocking.{
  Waiters, Moves, stays, moves, enters, sleeps, notifies, passes, timed_passes, nobody, IsFair,
  nobody-IsFair,
}
use gboost_rpc.Event.Spinning
use gboost_rpc.Event.Spinning.{Spinners, Spins, IsExact, no_spinner, no_spinner-IsExact}
use gboost_rpc.Util.{convert_to_string}

-- A thread sleeps, is notified twice, and goes on; another takes what is left in `TimedWait`.
abbrev one_returned : Waiters
one_returned = record {
  event = record { value = 0; auto_reset = false };
  asleep = 0;
  awake = 0;
  timed_asleep = 0;
  returned = 1;
  timed = 1;
  notified = 2;
}

one_returned-Moves : Moves (nobody false) one_returned
unfolding try_wait timed_wait notify
one_returned-Moves =
    moves
      (moves
        (moves (moves (moves (moves stays enters) (sleeps (omega arith) refl)) (notifies refl))
          (notifies refl))
        (passes (omega arith) refl))
      (timed_passes false (λ e. absurd cc) refl)

nobody-IsFair_example : IsFair false one_returned
nobody-IsFair_example = nobody-IsFair false one_returned-Moves

abbrev one_let_go : Spinners
one_let_go = record { value = 0; reading = 0; loaded = []; returned = 1; notified = 1 }

one_let_go-Spins : Spins no_spinner one_let_go
unfolding load_positive exchange
one_let_go-Spins =
    Spinning.spins
      (Spinning.spins
        (Spinning.spins (Spinning.spins Spinning.stays Spinning.enters) Spinning.notifies)
        (Spinning.loads 1 (omega arith) refl))
      (Spinning.passes [] [] 1 0 refl refl)

no_spinner-IsExact_example : IsExact one_let_go
no_spinner-IsExact_example = no_spinner-IsExact one_let_go-Spins (omega arith)

-- The least int8.
least_text : convert_to_string 8 true 128 10 ≡ ok (45 ∷ [])
unfolding convert_to_string
least_text = refl
