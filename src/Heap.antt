-- ===== src/Heap.antt =====
-- The RPCData objects that pointers name. A pointer to an object that was deleted, or never made,
-- is a fault: the process does something undefined.
use gboost_rpc.Base.{
  ℕ, ◌≡◌, ◌==◌, if◌then◌else◌, Bool, false, ◌||◌, Option, none, some, List, [], ◌∷◌, Outcome, ok,
  fatal,
}
use gboost_rpc.RpcData.{RpcData}

abbrev pub Heap : Type 0 → Type 0
Heap M = ℕ → Option (RpcData M)

module _ {M : Type 0} where
  abbrev pub load : Heap M → ℕ → Outcome (RpcData M)
  load h a = elim (h a) [ none ↦ fatal | some d ↦ ok d ]

  abbrev pub store : Heap M → ℕ → Option (RpcData M) → Heap M
  store h a o = λ b. if b == a then o else h b

  -- `delete`, a fault at an object that is gone.
  abbrev pub delete : Heap M → ℕ → Outcome (Heap M)
  delete h a = elim (h a) [ none ↦ fatal | some d ↦ ok (store h a none) ]

-- Whether an address stands in a list.
abbrev pub contains : ℕ → List ℕ → Bool
contains a [] = false
contains a (b ∷ bs) = a == b || contains a bs

abbrev pub AllDistinct : List ℕ → Type 0
AllDistinct [] = Unit
AllDistinct (a ∷ as') = (contains a as' ≡ false) × AllDistinct as'
