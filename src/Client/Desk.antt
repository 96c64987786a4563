-- ===== src/Client/Desk.antt =====
-- What a client promises, without its channel and its objects: calls that wait at a desk.
use gboost_rpc.Base.{ℕ, ◌+◌, ◌≡◌, ◌==◌, if◌then◌else◌, List, [], ◌∷◌, ◌++◌, arith}

-- The number of the next call, the numbers and closures of the calls that wait, oldest first, the
-- closures that were given, and those that ran.
pub record Desk : Type 0 where
  pub next_number : ℕ
  pub waits : List (ℕ × ℕ)
  pub given : List ℕ
  pub ran : List ℕ

-- A call gets the next number and waits last. Any call that waits may be answered: it leaves.
pub data DeskStep (t : Desk) : Desk → Type 0 where
  take_call :
      (done : ℕ)
      → DeskStep t (record {
        next_number = t.next_number + 1;
        waits = t.waits ++ (t.next_number, done) ∷ [];
        given = t.given ++ done ∷ [];
        ran = t.ran;
      })
  answer :
      (front back : List (ℕ × ℕ)) (number done : ℕ)
      → t.waits ≡ front ++ (number, done) ∷ back
      → DeskStep t (record t { waits = front ++ back; ran = t.ran ++ done ∷ [] })

pub data DeskReach (t : Desk) : Desk → Type 0 where
  at_start : DeskReach t t
  after : {u v : Desk} → DeskReach t u → DeskStep u v → DeskReach t v

-- How often a closure stands in a list, and among the calls that wait.
abbrev pub occurs : ℕ → List ℕ → ℕ
occurs d [] = 0
occurs d (x ∷ xs) = (if d == x then 1 else 0) + occurs d xs

abbrev pub waiting : ℕ → List (ℕ × ℕ) → ℕ
waiting d [] = 0
waiting d ((number, done) ∷ calls) = (if d == done then 1 else 0) + waiting d calls

occurs-append : (d : ℕ) (xs ys : List ℕ) → occurs d (xs ++ ys) ≡ occurs d xs + occurs d ys
occurs-append d [] ys = omega arith
occurs-append d (x ∷ xs) ys = omega (arith, occurs-append d xs ys)

waiting-append : (d : ℕ) (xs ys : List (ℕ × ℕ)) → waiting d (xs ++ ys) ≡ waiting d xs + waiting d ys
waiting-append d [] ys = omega arith
waiting-append d ((number, done) ∷ xs) ys = omega (arith, waiting-append d xs ys)

-- Every closure that was given ran or waits, as often as it was given.
abbrev pub IsBalanced : Desk → Type 0
IsBalanced t = (d : ℕ) → occurs d t.given ≡ occurs d t.ran + waiting d t.waits

DeskStep-IsBalanced : {t u : Desk} → DeskStep t u → IsBalanced t → IsBalanced u
DeskStep-IsBalanced {t} (take_call done) b = λ d. omega (
  arith,
  b d,
  occurs-append d t.given (done ∷ []),
  waiting-append d t.waits ((t.next_number, done) ∷ []),
)
DeskStep-IsBalanced {t} (answer front back number done e) b = λ d.
    let split : waiting d t.waits ≡ waiting d (front ++ (number, done) ∷ back) = rw e in
    omega (
      arith,
      b d,
      split,
      occurs-append d t.ran (done ∷ []),
      waiting-append d front back,
      waiting-append d front ((number, done) ∷ back),
    )

pub DeskReach-IsBalanced : {t u : Desk} → DeskReach t u → IsBalanced t → IsBalanced u
DeskReach-IsBalanced at_start b = b
DeskReach-IsBalanced (after r s) b = DeskStep-IsBalanced s (DeskReach-IsBalanced r b)
