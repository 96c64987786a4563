-- ===== src/Client/Gather.antt =====
-- The sessions of rpc/detail/client_session.h with their requests: each has an object of its own.
use gboost_rpc.Base.{
  ℕ, suc, ◌<◌, ◌≡◌, refl, sym, ◌==◌, Bool-cases, inl, inr, false, true, some, List, [], ◌∷◌, arith,
}
use gboost_rpc.Base.Assoc.{lookup, IsAbove, lookup-IsAbove}
use gboost_rpc.Heap.{Heap, contains, AllDistinct}
use gboost_rpc.RpcChannel.Queue.{Items, addresses}
use gboost_rpc.Session.{ClientSession}
use gboost_rpc.Client.Requests.{IsLoaded, HasRequests}

-- Every session has a live request with a filled buffer.
abbrev pub AllLoaded : {M : Type 0} → Heap M → List (ℕ × ClientSession) → Type 0
AllLoaded h sessions =
    (i : ℕ) (s : ClientSession)
    → lookup i sessions ≡ some s
    → (bytes : List ℕ) × IsLoaded h s.data_ bytes

-- No two sessions share a request.
abbrev pub AllApart : List (ℕ × ClientSession) → Type 0
AllApart sessions =
    (i j : ℕ) (s t : ClientSession)
    → lookup i sessions ≡ some s
    → lookup j sessions ≡ some t
    → s.data_ ≡ t.data_
    → i ≡ j

-- A session whose request is at this address.
pub record Owner (sessions : List (ℕ × ClientSession)) (a : ℕ) : Type 0 where
  pub number : ℕ
  pub session : ClientSession
  pub found : lookup number sessions ≡ some session
  pub at_address : session.data_ ≡ a

-- The requests of the sessions, as a queue of distinct addresses.
pub record Gathered {M : Type 0} (h : Heap M) (sessions : List (ℕ × ClientSession)) : Type 0 where
  pub items : Items
  pub requests : HasRequests h sessions items
  pub distinct : AllDistinct (addresses items)
  pub owned : (a : ℕ) → contains a (addresses items) ≡ true → Owner sessions a

lookup-later :
    (low j i : ℕ) (w s : ClientSession) (m : List (ℕ × ClientSession))
    → IsAbove low ((j, w) ∷ m)
    → lookup i m ≡ some s
    → (lookup i ((j, w) ∷ m) ≡ some s) × (j < i)
lookup-later low j i w s m above e = elim (native.Mathlib.Decide.dec_lt j i) [
  | yes after ↦ (ground arith, after)
  | no before ↦ absurd (ground (arith, lookup-IsAbove i (suc j) m (omega (arith, before)) above.1))
]

-- Sessions in order, with live requests and none shared, have their requests gathered.
pub gather :
    {M : Type 0} (h : Heap M) (low : ℕ) (sessions : List (ℕ × ClientSession))
    → IsAbove low sessions
    → AllLoaded h sessions
    → AllApart sessions
    → Gathered h sessions
gather h low [] above loaded apart = record {
  items = [];
  requests = tt;
  distinct = tt;
  owned = λ a i. absurd cc;
}
gather h low ((j, w) ∷ m) above loaded apart =
    let head : lookup j ((j, w) ∷ m) ≡ some w = ground arith in
    let rest =
      gather h (suc j) m above.1 (λ i s e. loaded i s (lookup-later low j i w s m above e).0)
        (λ i k s t e f.
          apart i k s t (lookup-later low j i w s m above e).0
            (lookup-later low j k w t m above f).0) in
    let (bytes, l) = loaded j w head in
    let later =
      λ (a : ℕ) (o : Owner m a). lookup-later low j o.number w o.session m above o.found in
    let fresh : contains w.data_ (addresses rest.items) ≡ false =
      elim (Bool-cases (contains w.data_ (addresses rest.items))) [
        | inr out ↦ out
        | inl inside ↦
            let o = rest.owned w.data_ inside in
            let same : j ≡ o.number =
              apart j o.number w o.session head (later w.data_ o).0 (sym o.at_address) in
            absurd (omega (arith, same, (later w.data_ o).1))
      ] in
    record {
      items = (w.data_, bytes) ∷ rest.items;
      requests = (refl, l, rest.requests);
      distinct = (fresh, rest.distinct);
      owned = λ a i. elim (Bool-cases (a == w.data_)) [
        | inl here ↦ record { number = j; session = w; found = head; at_address = ground arith }
        | inr there ↦
            let o = rest.owned a (ground arith) in
            record {
              number = o.number;
              session = o.session;
              found = (later a o).0;
              at_address = o.at_address;
            }
      ];
    }
