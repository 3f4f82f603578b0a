-- ===== src/Gateway/InStep/Nodes.antt =====
-- How a change of one client node and of a queue of events keeps messages and events in step.
use mqtt_s_gateway.Base.{
  ℕ, zero, suc, ◌+◌, ◌≡◌, refl, sym, ap, subst, ◌∙◌, inl, inr, false, Option, some, List, [], ◌∷◌,
  ◌++◌, arith, ◌==◌, eqb→eq, eq→eqb, Bool-cases, set, some-injective, ◌-◌, none,
}
use mqtt_s_gateway.Client.{ClientNode}
use mqtt_s_gateway.Clients.{client_at}
use mqtt_s_gateway.Event.{Event}
use mqtt_s_gateway.Gateway.InStep.{count, measured, Paired}

pub count-append :
    (p : Event → Option ℕ) (j : ℕ) (xs ys : List Event)
    → count p j (xs ++ ys) ≡ count p j xs + count p j ys
unfolding count
count-append p j [] ys = omega arith
count-append p j (x ∷ xs) ys = ground (arith, count-append p j xs ys)

measured-at :
    (f : ClientNode → ℕ) (nodes : List ClientNode) (i : ℕ) (c : ClientNode)
    → client_at nodes i ≡ some c
    → measured f nodes i ≡ f c
unfolding measured client_at
measured-at f [] i c e = absurd (cc e)
measured-at f (x ∷ xs) zero c e = ap f (some-injective e)
measured-at f (x ∷ xs) (suc i) c e = measured-at f xs i c e

measured-set :
    (f : ClientNode → ℕ) (nodes : List ClientNode) (i : ℕ) (c v : ClientNode)
    → client_at nodes i ≡ some c
    → measured f (set nodes i v) i ≡ f v
unfolding measured client_at
measured-set f [] i c v e = absurd (cc e)
measured-set f (x ∷ xs) zero c v e = refl
measured-set f (x ∷ xs) (suc i) c v e = measured-set f xs i c v e

measured-set_other :
    (f : ClientNode → ℕ) (nodes : List ClientNode) (i j : ℕ) (v : ClientNode)
    → (j == i) ≡ false
    → measured f (set nodes i v) j ≡ measured f nodes j
unfolding measured
measured-set_other f [] i j v e = refl
measured-set_other f (x ∷ xs) zero zero v e = absurd (cc e)
measured-set_other f (x ∷ xs) zero (suc j) v e = refl
measured-set_other f (x ∷ xs) (suc i) zero v e = refl
measured-set_other f (x ∷ xs) (suc i) (suc j) v e = measured-set_other f xs i j v (ground arith)

-- A new node without messages.
measured-append :
    (f : ClientNode → ℕ) (nodes : List ClientNode) (c : ClientNode) (j : ℕ)
    → f c ≡ 0
    → measured f (nodes ++ c ∷ []) j ≡ measured f nodes j
unfolding measured
measured-append f [] c zero e = e
measured-append f [] c (suc j) e = refl
measured-append f (x ∷ xs) c zero e = refl
measured-append f (x ∷ xs) c (suc j) e = measured-append f xs c j e

module _ {p : Event → Option ℕ} {f : ClientNode → ℕ} {nodes : List ClientNode} {que : List Event}
    (h : Paired p f nodes que) where
  pub Paired-new : (c : ClientNode) → f c ≡ 0 → Paired p f (nodes ++ c ∷ []) que
  Paired-new c e = record { each = λ j. measured-append f nodes c j e ∙ h.each j }

  -- An event that the count leaves out comes last or first.
  pub Paired-also : (e : Event) → p e ≡ none → Paired p f nodes (que ++ e ∷ [])
  unfolding count
  Paired-also e none_named = record {
    each = λ j. h.each j ∙ sym (count-append p j que (e ∷ []) ∙ rw none_named (omega arith));
  }

  module _ (i : ℕ) (c v : ClientNode) (at : client_at nodes i ≡ some c) where
    -- The node and the queue change by the same amount, and only for this client.
    pub Paired-change :
        (que' : List Event)
        → f v + count p i que ≡ f c + count p i que'
        → ((j : ℕ) → (j == i) ≡ false → count p j que' ≡ count p j que)
        → Paired p f (set nodes i v) que'
    Paired-change que' here others = record {
      each = λ j. elim (Bool-cases (j == i)) [
        | inl same ↦
            subst (λ k. measured f (set nodes i v) k ≡ count p k que') (sym (eqb→eq j i same))
              (omega
                (arith, measured-set f nodes i c v at, measured-at f nodes i c at, h.each i, here))
        | inr other ↦ measured-set_other f nodes i j v other ∙ h.each j ∙ sym (others j other)
      ];
    }

    pub Paired-same : f v ≡ f c → Paired p f (set nodes i v) que
    Paired-same e = Paired-change que (ap (λ n. n + count p i que) e) (λ j other. refl)

    pub Paired-post :
        (e : Event) → f v ≡ f c + 1 → p e ≡ some i → Paired p f (set nodes i v) (que ++ e ∷ [])
    unfolding count
    Paired-post e more named =
        Paired-change (que ++ e ∷ []) (omega (arith, count-append p i que (e ∷ []), more, self))
          (λ j other. count-append p j que (e ∷ []) ∙ omega (arith, elsewhere j other))
      where
        self : count p i (e ∷ []) ≡ 1
        self = rw named (ground (arith, eq→eqb i i refl))

        elsewhere : (j : ℕ) → (j == i) ≡ false → count p j (e ∷ []) ≡ 0
        elsewhere j other = rw named (ground arith)

module _ {p : Event → Option ℕ} {f : ClientNode → ℕ} {nodes : List ClientNode} {e : Event}
    {que : List Event} (h : Paired p f nodes (e ∷ que)) where
  pub Paired-ignore : p e ≡ none → Paired p f nodes que
  unfolding count
  Paired-ignore none_named = record { each = λ j. h.each j ∙ rw none_named refl }

  -- The event is taken, and a message of its client is deleted.
  pub Paired-take :
      (i : ℕ) (c v : ClientNode)
      → client_at nodes i ≡ some c
      → f v ≡ f c - 1
      → p e ≡ some i
      → Paired p f (set nodes i v) que
  unfolding count
  Paired-take i c v at less named =
      Paired-change h i c v at que (omega (arith, measured-at f nodes i c at, h.each i, self, less))
        (λ j other. elsewhere j other)
    where
      self : count p i (e ∷ que) ≡ count p i que + 1
      self = rw named (ground (arith, eq→eqb i i refl))

      elsewhere : (j : ℕ) → (j == i) ≡ false → count p j que ≡ count p j (e ∷ que)
      elsewhere j other = rw named (ground arith)
