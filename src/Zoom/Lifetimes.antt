-- ===== src/Zoom/Lifetimes.antt =====
-- zoom: the life of what the binding makes. The events of a run are followed with the list of
-- the objects that are alive, the last one made first.
use yazpp.Prelude.{ℕ, ◌≡◌, refl, sym, subst, ◌⊎◌, List, [], ◌∷◌, ◌++◌}
use yazpp.Zoom.Calls.{
  Exception, text, Object, Event, created, used, destroyed, out, err, Outcome, returned, threw,
  undefined, Ran, Action, Api, ◌>>=◌, after, closing, with_object,
}

-- The object is among those.
abbrev pub Alive : Object → List Object → Type 0
Alive o [] = ⊥
Alive o (p ∷ s) = (p ≡ o) ⊎ Alive o s

-- Each object is used between its creation and its destruction, and it is destroyed while it is the
-- last one that is alive.
abbrev pub Scoped : List Event → List Object → List Object → Type 0
Scoped [] s t = t ≡ s
Scoped (created o ∷ es) s t = Scoped es (o ∷ s) t
Scoped (used o ∷ es) s t = Alive o s × Scoped es s t
Scoped (destroyed o ∷ es) [] t = ⊥
Scoped (destroyed o ∷ es) (p ∷ s) t = (p ≡ o) × Scoped es s t
Scoped (out x ∷ es) s t = Scoped es s t
Scoped (err x ∷ es) s t = Scoped es s t

pub Scoped-append :
    (xs ys : List Event) (s t u : List Object)
    → Scoped xs s t
    → Scoped ys t u
    → Scoped (xs ++ ys) s u
Scoped-append [] ys s t u e h = subst (λ v. Scoped ys v u) e h
Scoped-append (created o ∷ xs) ys s t u g h = Scoped-append xs ys (o ∷ s) t u g h
Scoped-append (used o ∷ xs) ys s t u g h = (g.0, Scoped-append xs ys s t u g.1 h)
Scoped-append (destroyed o ∷ xs) ys [] t u g h = elim g [ ]
Scoped-append (destroyed o ∷ xs) ys (p ∷ s) t u g h = (g.0, Scoped-append xs ys s t u g.1 h)
Scoped-append (out x ∷ xs) ys s t u g h = Scoped-append xs ys s t u g h
Scoped-append (err x ∷ xs) ys s t u g h = Scoped-append xs ys s t u g h

-- Derived from `ZOOM::exception`.
abbrev pub Derived : Exception → Type 0
Derived (text t) = ⊥
Derived _ = Unit

-- The objects that are alive after an outcome; of an undefined one, what has led to it.
abbrev pub Ends {ℓ} :
    {A : Type ℓ}
    → Type 0
    → (A → List Object → Type 0)
    → (List Object → Type 0)
    → Outcome A
    → List Object
    → Type 0
Ends N P Q (returned a) t = P a t
Ends N P Q (threw e) t = Q t × Derived e
Ends N P Q undefined t = N

module _ {W : Type 0} (N : Type 0) where
  abbrev pub Run {ℓ} :
      {A : Type ℓ}
      → (A → List Object → Type 0)
      → (List Object → Type 0)
      → List Object
      → Ran W A
      → Type 0
  Run P Q s r = (t : List Object) × Scoped r.events s t × Ends N P Q r.outcome t

  -- A run from one list of objects that leaves another, and a third one when it throws.
  abbrev pub Kept {ℓ} :
      {A : Type ℓ} → (A → List Object) → List Object → List Object → Ran W A → Type 0
  Kept g e s r = Run (λ a t. t ≡ g a) (λ t. t ≡ e) s r

  after-Run {ℓ κ} :
      {A : Type ℓ} {B : Type κ} (P : A → List Object → Type 0) (P' : B → List Object → Type 0)
      (Q : List Object → Type 0) (s t : List Object) (o : Outcome A) (w : W) (es : List Event)
      (f : A → Action W B)
      → Scoped es s t
      → Ends N P Q o t
      → ((a : A) → P a t → Run P' Q t (f a w))
      → Run P' Q s (after o w es f)
  after-Run P P' Q s t (returned a) w es f h ends next =
      let r = f a w in
      let (u, later, done) = next a ends in (u, Scoped-append es r.events s t u h later, done)
  after-Run P P' Q s t (threw e) w es f h ends next = (t, h, ends)
  after-Run P P' Q s t undefined w es f h ends next = (t, h, ends)

  pub >>=-Run {ℓ κ} :
      {A : Type ℓ} {B : Type κ} (P : A → List Object → Type 0) (P' : B → List Object → Type 0)
      (Q : List Object → Type 0) (s : List Object) (m : Action W A) (f : A → Action W B) (w : W)
      → Run P Q s (m w)
      → ((a : A) (t : List Object) (w' : W) → P a t → Run P' Q t (f a w'))
      → Run P' Q s ((m >>= f) w)
  >>=-Run P P' Q s m f w h next =
      let r = m w in
      let (t, first, ends) = h in
      after-Run P P' Q s t r.outcome r.lib r.events f first ends λ a p. next a t r.lib p

  pub >>=-Kept {ℓ κ} :
      {A : Type ℓ} {B : Type κ} (g : A → List Object) (g' : B → List Object) (e s : List Object)
      (m : Action W A) (f : A → Action W B) (w : W)
      → Kept g e s (m w)
      → ((a : A) (w' : W) → Kept g' e (g a) (f a w'))
      → Kept g' e s ((m >>= f) w)
  >>=-Kept g g' e s m f w h next =
      >>=-Run (λ a t. t ≡ g a) (λ b t. t ≡ g' b) (λ t. t ≡ e) s m f w h
        λ a t w' p. subst (λ v. Kept g' e v (f a w')) (sym p) (next a w')

  module _ {ℓ} {A : Type ℓ} (api : Api W) where
    -- A block destroys its object, whether it returns or throws.
    pub closing-Kept :
        (o : Object) (s : List Object) (body : Action W A) (w : W)
        → Kept (λ a. o ∷ s) (o ∷ s) (o ∷ s) (body w)
        → Kept (λ a. s) s (o ∷ s) (closing api o body w)
    closing-Kept o s body w h =
        let r = body w in let (t, f, e) = h in closed_by r.outcome r.lib r.events t f e
      where
        last :
            (es : List Event) (t : List Object)
            → Scoped es (o ∷ s) t
            → t ≡ o ∷ s
            → Scoped (es ++ destroyed o ∷ []) (o ∷ s) s
        last es t h e =
            Scoped-append es (destroyed o ∷ []) (o ∷ s) t s h
              (subst (λ v. Scoped (destroyed o ∷ []) v s) (sym e) (refl, refl))

        closed_by :
            (q : Outcome A) (w' : W) (es : List Event) (t : List Object)
            → Scoped es (o ∷ s) t
            → Ends N (λ a t. t ≡ o ∷ s) (λ t. t ≡ o ∷ s) q t
            → Kept
                (λ a. s)
                s
                (o ∷ s)
                (closing api o (λ _. record { outcome = q; lib = w'; events = es }) w)
        closed_by (returned a) w' es t h e = (s, last es t h e, refl)
        closed_by (threw x) w' es t h e = (s, last es t h e.0, (refl, e.1))
        closed_by undefined w' es t h e = (t, h, e)

    pub with_object-Kept :
        (kind : ℕ → Object) (s : List Object) (new : Action W ℕ) (body : ℕ → Action W A) (w : W)
        → Kept (λ h. kind h ∷ s) s s (new w)
        → ((h : ℕ) (w' : W) → Kept (λ a. kind h ∷ s) (kind h ∷ s) (kind h ∷ s) (body h w'))
        → Kept (λ a. s) s s (with_object api kind new body w)
    with_object-Kept kind s new body w made run =
        >>=-Kept (λ h. kind h ∷ s) (λ a. s) s s new (λ h. closing api (kind h) (body h)) w made
          λ h w'. closing-Kept (kind h) s (body h) w' (run h w')
