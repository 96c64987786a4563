-- ===== src/Pipeline/Reads.antt =====
-- The reads of a client, with the handling of the messages in between (rpc/detail/rpc_channel.cc,
-- rpc/detail/rpc_client_impl.cc): the handling does not touch the channel.
use gboost_rpc.Base.{
  ℕ, ◌≡◌, refl, sym, ap, subst, ◌∙◌, false, List, [], ◌∷◌, ◌++◌, append_assoc, Outcome, ok, fatal,
  stuck, ◌>>=◌, ok-injective, arith,
}
use gboost_rpc.Protocol.{Protobuf}
use gboost_rpc.RpcData.{RpcData}
use gboost_rpc.Heap.{Heap}
use gboost_rpc.RpcChannel.{
  RpcChannel, Action, received, cancelled, read_started, write_started, shut_down, read_in_loop,
  receive,
}
use gboost_rpc.Client.{Client, Effect, receive_package}
use gboost_rpc.Client.History.{with_channel}
use gboost_rpc.Pipeline.{delivered, handle_all, client_reads}

abbrev Handled : Type 0 → Type 0
Handled M = Outcome (Client M × Heap M × List (Effect M))

abbrev before : {M : Type 0} → List (Effect M) → Client M × Heap M × List (Effect M) → Handled M
before effects (k, h, others) = ok (k, h, effects ++ others)

module _ {M : Type 0} (pb : Protobuf M) (c : RpcChannel M) where
  abbrev on_channel : Handled M → Handled M
  on_channel o = o >>= λ r. ok (with_channel r.0 c, r.1, r.2)

  bind-on_channel :
      (o : Handled M) (f : Client M × Heap M × List (Effect M) → Handled M)
      → ((k : Client M) (h : Heap M) (effects : List (Effect M))
          → f (with_channel k c, h, effects) ≡ on_channel (f (k, h, effects)))
      → (on_channel o >>= f) ≡ on_channel (o >>= f)
  bind-on_channel (ok (k, h, effects)) f same = same k h effects
  bind-on_channel fatal f same = refl
  bind-on_channel stuck f same = refl

  receive_package-with_channel :
      (k : Client M) (h : Heap M) (d : RpcData M)
      → receive_package pb (with_channel k c) h d ≡ on_channel (receive_package pb k h d)
  unfolding receive_package
  receive_package-with_channel k h d = ground arith

  handle_all-with_channel :
      (ds : List (RpcData M)) (k : Client M) (h : Heap M)
      → handle_all pb (with_channel k c) h ds ≡ on_channel (handle_all pb k h ds)
  unfolding handle_all
  handle_all-with_channel [] k h = refl
  handle_all-with_channel (d ∷ ds) k h =
      let rest =
        λ (r : Client M × Heap M × List (Effect M)). handle_all pb r.0 r.1 ds >>= before r.2 in
      ap (λ o. o >>= rest) (receive_package-with_channel k h d)
      ∙ bind-on_channel (receive_package pb k h d) rest (λ k' h' effects.
        ap (λ o. o >>= before effects) (handle_all-with_channel ds k' h')
        ∙ bind-on_channel (handle_all pb k' h' ds) (before effects) (λ k'' h'' others. refl))

-- A chain that returns: its first part returned.
bind_returns :
    {A B : Type 0} (o : Outcome A) (f : A → Outcome B) (b : B)
    → (o >>= f) ≡ ok b
    → (a : A) × (o ≡ ok a) × (f a ≡ ok b)
bind_returns (ok a) f b e = (a, refl, e)
bind_returns fatal f b e = absurd cc
bind_returns stuck f b e = absurd cc

module _ {M : Type 0} where
  delivered-append :
      (actions more : List (Action M))
      → delivered (actions ++ more) ≡ delivered actions ++ delivered more
  delivered-append [] more = refl
  delivered-append (received d ∷ actions) more = ap (λ ds. d ∷ ds) (delivered-append actions more)
  delivered-append (cancelled ∷ actions) more = delivered-append actions more
  delivered-append (read_started ∷ actions) more = delivered-append actions more
  delivered-append (write_started b ∷ actions) more = delivered-append actions more
  delivered-append (shut_down ∷ actions) more = delivered-append actions more

  before_nil : (o : Handled M) → o ≡ (o >>= before [])
  before_nil (ok (k, h, others)) = refl
  before_nil fatal = refl
  before_nil stuck = refl

  before_twice :
      (o : Handled M) (effects others : List (Effect M))
      → (o >>= before others >>= before effects) ≡ (o >>= before (effects ++ others))
  before_twice (ok (k, h, last)) effects others =
      ap (λ (l : List (Effect M)). ok (k, h, l)) (sym (append_assoc effects others last))
  before_twice fatal effects others = refl
  before_twice stuck effects others = refl

  abbrev and_then : (Client M → Heap M → Handled M) → Handled M → Handled M
  and_then g o = o >>= λ r. g r.0 r.1 >>= before r.2

  and_then-before :
      (o : Handled M) (g : Client M → Heap M → Handled M) (effects : List (Effect M))
      → (and_then g o >>= before effects) ≡ and_then g (o >>= before effects)
  and_then-before (ok (k, h, others)) g effects = before_twice (g k h) effects others
  and_then-before fatal g effects = refl
  and_then-before stuck g effects = refl

  and_then_assoc :
      (o : Handled M) (f g both : Client M → Heap M → Handled M)
      → ((k : Client M) (h : Heap M) → both k h ≡ and_then g (f k h))
      → and_then both o ≡ and_then g (and_then f o)
  and_then_assoc (ok (k, h, effects)) f g both same =
      ap (λ (o : Handled M). o >>= before effects) (same k h) ∙ and_then-before (f k h) g effects
  and_then_assoc fatal f g both same = refl
  and_then_assoc stuck f g both same = refl

module _ {M : Type 0} (pb : Protobuf M) where
  handle_all-append :
      (ds es : List (RpcData M)) (k : Client M) (h : Heap M)
      → handle_all pb k h (ds ++ es)
        ≡ and_then (λ k' h'. handle_all pb k' h' es) (handle_all pb k h ds)
  unfolding handle_all
  handle_all-append [] es k h = before_nil (handle_all pb k h es)
  handle_all-append (d ∷ ds) es k h =
      and_then_assoc (receive_package pb k h d) (λ k' h'. handle_all pb k' h' ds)
        (λ k' h'. handle_all pb k' h' es) (λ k' h'. handle_all pb k' h' (ds ++ es))
        (handle_all-append ds es)

  -- The reads of a channel, one after the other, with what each sets off.
  data Reading : RpcChannel M → List (List ℕ) → RpcChannel M → List (Action M) → Type 0 where
    over : {c : RpcChannel M} → Reading c [] c []
    and_read :
        {c c₁ c₂ : RpcChannel M} {bytes : List ℕ} {more : List (List ℕ)} (a₁ : List (Action M))
        {a₂ : List (Action M)}
        → read_in_loop pb c false bytes ≡ ok (c₁, a₁)
        → Reading c₁ more c₂ a₂
        → Reading c (bytes ∷ more) c₂ (a₁ ++ a₂)

  receive-Reading :
      (reads : List (List ℕ)) (c : RpcChannel M) (r : RpcChannel M × List (Action M))
      → receive pb c reads ≡ ok r
      → Reading c reads r.0 r.1
  unfolding receive
  receive-Reading [] c r got =
      subst (λ (r : RpcChannel M × List (Action M)). Reading c [] r.0 r.1) (ok-injective got) over
  receive-Reading (bytes ∷ more) c r got =
      let (r₁, read, got₁) = bind_returns (read_in_loop pb c false bytes) _ r got in
      let (r₂, others, got₂) = bind_returns (receive pb r₁.0 more) _ r got₁ in
      subst (λ (r : RpcChannel M × List (Action M)). Reading c (bytes ∷ more) r.0 r.1)
        (ok-injective got₂) (and_read r₁.1 read (receive-Reading more r₁.0 r₂ others))

  client_reads-Reading :
      {reads : List (List ℕ)} {c₀ c : RpcChannel M} {actions : List (Action M)}
      → Reading c₀ reads c actions
      → (k : Client M) (h : Heap M) (r : Client M × Heap M × List (Effect M))
      → handle_all pb k h (delivered actions) ≡ ok r
      → client_reads pb (with_channel k c₀) h reads ≡ ok (with_channel r.0 c, r.1, r.2)
  unfolding client_reads handle_all
  client_reads-Reading {c = c} over k h r handled = ap (on_channel pb c) handled
  client_reads-Reading {c = c} (and_read {c₁ = c₁} a₁ {a₂} read reading) k h r handled =
      let split =
        sym (
          ap (handle_all pb k h) (delivered-append a₁ a₂)
          ∙ handle_all-append (delivered a₁) (delivered a₂) k h)
        ∙ handled in
      let (r₁, first, handled₁) = bind_returns (handle_all pb k h (delivered a₁)) _ r split in
      let (r₂, others, last) =
        bind_returns (handle_all pb r₁.0 r₁.1 (delivered a₂)) (before r₁.2) r handled₁ in
      let first' = handle_all-with_channel pb c₁ (delivered a₁) k h ∙ ap (on_channel pb c₁) first in
      let rest = client_reads-Reading reading r₁.0 r₁.1 r₂ others in
      rw (client_reads, read, first', rest) (ap (on_channel pb c) last)

  -- Where the reads alone return, and the messages that they complete are handled afterwards, the reads
  -- with the handling in between return the same.
  pub client_reads-receive :
      (reads : List (List ℕ)) (k k' : Client M) (h h' : Heap M) (effects : List (Effect M))
      (c : RpcChannel M) (actions : List (Action M))
      → receive pb k.channel reads ≡ ok (c, actions)
      → handle_all pb k h (delivered actions) ≡ ok (k', h', effects)
      → client_reads pb k h reads ≡ ok (with_channel k' c, h', effects)
  client_reads-receive reads k k' h h' effects c actions got handled =
      client_reads-Reading (receive-Reading reads k.channel (c, actions) got) k h (k', h', effects)
        handled
