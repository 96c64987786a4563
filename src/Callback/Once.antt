-- ===== src/Callback/Once.antt =====
-- The closures of rpc/callback.h that the calls of a client (rpc/detail/rpc_client_impl.cc) run.
use gboost_rpc.Base.{
  ℕ, suc, ◌≤◌, ◌<◌, ◌≡◌, ◌⊎◌, refl, ap, ◌∙◌, ◌==◌, if◌then◌else◌, Bool, Bool-cases, inl, inr, true,
  false, ◌&&◌, ltb, Option, none, some, List, [], ◌∷◌, Outcome, ok, arith,
}
use gboost_rpc.Protocol.{Protobuf, IsProtobuf}
use gboost_rpc.Heap.{Heap}
use gboost_rpc.Client.History.{Caller, Reach}
use gboost_rpc.Client.Desk.{occurs}
use gboost_rpc.Client.Refine.{new_caller, new_caller-IsBalanced}
use gboost_rpc.Callback.{EasyCallback, Closures, run_callback, run_callbacks}

-- The closures of this list are there, and those that delete themselves stand in it once.
abbrev pub AreRunnable : Closures → List ℕ → Type 0
AreRunnable closures as' =
    (d : ℕ)
    → 0 < occurs d as'
    → (c : EasyCallback) × (closures d ≡ some c) × ((occurs d as' ≤ 1) ⊎ (c.self_deleting ≡ false))

-- What is left of a closure that ran so often.
abbrev pub left_of : Option EasyCallback → ℕ → Option EasyCallback
left_of none n = none
left_of (some c) n = if c.self_deleting && ltb 0 n then none else some c

-- The closures were run: those of them that delete themselves are gone, and no others.
pub record Ran (closures : Closures) (as' : List ℕ) (result : Outcome (Closures × List ℕ))
    : Type 0 where
  pub last : Closures
  pub cbs : List ℕ
  pub returns : result ≡ ok (last, cbs)
  pub left : (d : ℕ) → last d ≡ left_of (closures d) (occurs d as')

occurs_first : (a : ℕ) (as' : List ℕ) → occurs a (a ∷ as') ≡ suc (occurs a as')
occurs_first a as' = ground arith

first_occurs : (a : ℕ) (as' : List ℕ) → 0 < occurs a (a ∷ as')
first_occurs a as' = ground arith

left_never : (o : Option EasyCallback) → o ≡ left_of o 0
left_never none = refl
left_never (some c) = ground arith

module _ (closures : Closures) (a : ℕ) (as' : List ℕ) (c : EasyCallback)
    (e : closures a ≡ some c) where
  stays-AreRunnable : AreRunnable closures (a ∷ as') → AreRunnable closures as'
  stays-AreRunnable runnable d some_time =
      let (k, there, once) = runnable d (omega (arith, some_time)) in
      (k, there, elim once [ inl one ↦ inl (omega (arith, one)) | inr permanent ↦ inr permanent ])

  abbrev without : Closures
  without = λ b. if b == a then none else closures b

  goes-AreRunnable : occurs a as' ≡ 0 → AreRunnable closures (a ∷ as') → AreRunnable without as'
  goes-AreRunnable never runnable d some_time =
      let (k, there, once) = stays-AreRunnable runnable d some_time in
      let other : (d == a) ≡ false = elim (Bool-cases (d == a)) [
        | inr other ↦ other
        | inl same ↦
            let at : d ≡ a = ground arith in
            absurd (omega (arith, some_time, never, ap (λ x. occurs x as') at))
      ] in
      (k, ground (arith, there, other), once)

  left_stays :
      (d : ℕ)
      → c.self_deleting ≡ false
      → left_of (closures d) (occurs d as') ≡ left_of (closures d) (occurs d (a ∷ as'))
  left_stays d stays = elim (Bool-cases (d == a)) [
    | inl same ↦
        let at : d ≡ a = ground arith in
        let one : closures d ≡ some c = ap closures at ∙ e in ground (arith, one, stays)
    | inr other ↦ ground (arith, other)
  ]

  left_goes :
      (d : ℕ)
      → c.self_deleting ≡ true
      → left_of (without d) (occurs d as') ≡ left_of (closures d) (occurs d (a ∷ as'))
  left_goes d goes = elim (Bool-cases (d == a)) [
    | inl same ↦
        let at : d ≡ a = ground arith in
        let one : closures d ≡ some c = ap closures at ∙ e in ground (arith, one, goes, same)
    | inr other ↦ ground (arith, other)
  ]

run_callbacks-Ran :
    (closures : Closures) (as' : List ℕ)
    → AreRunnable closures as'
    → Ran closures as' (run_callbacks closures as')
unfolding run_callbacks run_callback
run_callbacks-Ran closures [] runnable = record {
  last = closures;
  cbs = [];
  returns = refl;
  left = λ d. left_never (closures d);
}
run_callbacks-Ran closures (a ∷ as') runnable =
    let (c, e, once) = runnable a (first_occurs a as') in
    elim (Bool-cases c.self_deleting) [
      | inr stays ↦
          let rest =
            run_callbacks-Ran closures as' (stays-AreRunnable closures a as' c e runnable) in
          record {
            last = rest.last;
            cbs = c.cb ∷ rest.cbs;
            returns = ground (arith, e, stays, rest.returns);
            left = λ d. rest.left d ∙ left_stays closures a as' c e d stays;
          }
      | inl goes ↦
          let never : occurs a as' ≡ 0 = elim once [
            | inl one ↦ ground (arith, one)
            | inr permanent ↦ absurd (ground (arith, goes, permanent))
          ] in
          let rest =
            run_callbacks-Ran (without closures a as' c e) as'
              (goes-AreRunnable closures a as' c e never runnable) in
          record {
            last = rest.last;
            cbs = c.cb ∷ rest.cbs;
            returns = ground (arith, e, goes, rest.returns);
            left = λ d. rest.left d ∙ left_goes closures a as' c e d goes;
          }
    ]

-- A user gives each closure that deletes itself with one call at most: then, along every history of a
-- new client, the closures that ran could run, none of them after it was deleted, and behind it those
-- of them that delete themselves are gone, and no others.
pub new_caller-Ran :
    {M : Type 0} {pb : Protobuf M}
    → IsProtobuf pb
    → (city_hash : List ℕ → ℕ) (reconnects : Bool) (h : Heap M) (closures : Closures) {m : Caller M}
    → Reach pb city_hash (new_caller reconnects h) m
    → AreRunnable closures m.given
    → Ran closures m.ran (run_callbacks closures m.ran)
new_caller-Ran law city_hash reconnects h closures {m} r runnable =
    let balanced = new_caller-IsBalanced law city_hash reconnects h r in
    run_callbacks-Ran closures m.ran λ d some_time.
      let (c, there, once) = runnable d (omega (arith, some_time, balanced d)) in
      (
        c,
        there,
        elim once [
          | inl one ↦ inl (omega (arith, one, balanced d))
          | inr permanent ↦ inr permanent
        ],
      )
