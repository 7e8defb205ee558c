-- ===== src/Runtime/Runs.antt =====
-- packages/core/src/runtime.ts: what a chain of steps keeps of the store, and what holds of what it
-- returns.
use desired_state_protocol.Common.{ℕ, ◌≡◌, refl, subst}
use desired_state_protocol.Protocol.Errors.{Result, return, throw}
use desired_state_protocol.Store.Rows.{Store}
use desired_state_protocol.Runtime.State.{
  RuntimeState, Run, Recorded, and_then, ◌>>=◌, pure, call, read_store, write_store, audit, ask,
}

-- What holds of the result and the state of a run that returns
abbrev pub Given : {A : Type 0} → (A → RuntimeState → Type 0) → Result A → RuntimeState → Type 0
Given Q (return a) s = Q a s
Given Q (throw e) s = Unit

and_then-Given :
    {A B : Type 0} (Q : B → RuntimeState → Type 0) (r : Result A) (f : A → Run B) (s : RuntimeState)
    → ((a : A) → r ≡ return a → Given Q (f a s).0 (f a s).1)
    → Given Q (and_then r f s).0 (and_then r f s).1
unfolding and_then
and_then-Given Q (return a) f s h = h a refl
and_then-Given Q (throw e) f s h = tt

-- A run that ensures it, if it returns
pub record Gives {A : Type 0} (Q : A → RuntimeState → Type 0) (m : Run A) (s : RuntimeState)
    : Type 0 where
  pub given : Given Q (m s).0 (m s).1

pub bind-Gives :
    {A B : Type 0} {Q : B → RuntimeState → Type 0} (m : Run A) {f : A → Run B} {s : RuntimeState}
    → ((a : A) → Gives Q (f a) (m s).1)
    → Gives Q (m >>= f) s
unfolding ◌>>=◌
bind-Gives {Q} m {f} {s} h = record {
  given = and_then-Given Q (m s).0 f (m s).1 (λ a e. (h a).given);
}

-- A step, with the equation for what it returns
pub step-Gives :
    {A B : Type 0} {Q : B → RuntimeState → Type 0} (m : Run A) {f : A → Run B} {s : RuntimeState}
    → ((a : A) → (m s).0 ≡ return a → Gives Q (f a) (m s).1)
    → Gives Q (m >>= f) s
unfolding ◌>>=◌
step-Gives {Q} m {f} {s} h = record {
  given = and_then-Given Q (m s).0 f (m s).1 (λ a e. (h a e).given);
}

-- A step of which something is known
pub after-Gives :
    {A B : Type 0} {P : A → RuntimeState → Type 0} {Q : B → RuntimeState → Type 0} {m : Run A}
    {f : A → Run B} {s : RuntimeState}
    → Gives P m s
    → ((a : A) → P a (m s).1 → Gives Q (f a) (m s).1)
    → Gives Q (m >>= f) s
unfolding ◌>>=◌
after-Gives {P} {Q} {m} {f} {s} first h = record {
  given =
      and_then-Given Q (m s).0 f (m s).1
        (λ a e. (h a (subst (λ r. Given P r (m s).1) e first.given)).given);
}

weaken :
    {A : Type 0} (r : Result A) (P Q : A → RuntimeState → Type 0) (s : RuntimeState)
    → ((a : A) (s' : RuntimeState) → P a s' → Q a s')
    → Given P r s
    → Given Q r s
weaken (return a) P Q s h p = h a s p
weaken (throw e) P Q s h p = tt

pub weaken-Gives :
    {A : Type 0} {P Q : A → RuntimeState → Type 0} {m : Run A} {s : RuntimeState}
    → Gives P m s
    → ((a : A) (s' : RuntimeState) → P a s' → Q a s')
    → Gives Q m s
weaken-Gives {P} {Q} {m} {s} gives h = record { given = weaken (m s).0 P Q (m s).1 h gives.given }

known : {A : Type 0} {Q : Type 0} (r : Result A) (s : RuntimeState) → Q → Given (λ _ _. Q) r s
known (return a) s q = q
known (throw e) s q = tt

-- What is known already
pub known-Gives :
    {A : Type 0} {Q : Type 0} {m : Run A} {s : RuntimeState} → Q → Gives (λ _ _. Q) m s
known-Gives {m} {s} q = record { given = known (m s).0 (m s).1 q }

-- A step that keeps what holds of the store, whether it returns or throws
pub record Preserves (Inv : Store → Type 0) {A : Type 0} (m : Run A) : Type 0 where
  pub keeps : (s : RuntimeState) → Inv s.store → Inv (m s).1.store

both :
    {A : Type 0} (P : RuntimeState → Type 0) (Q : A → RuntimeState → Type 0) (r : Result A)
    (s : RuntimeState)
    → P s
    → Given Q r s
    → Given (λ a s'. Q a s' × P s') r s
both P Q (return a) s p q = (q, p)
both P Q (throw e) s p q = tt

nothing : {A : Type 0} (r : Result A) (s : RuntimeState) → Given (λ _ _. Unit) r s
nothing (return a) s = tt
nothing (throw e) s = tt

module _ {Inv : Store → Type 0} where
  and_then-keeps :
      {A B : Type 0} (r : Result A) (f : A → Run B) (s : RuntimeState)
      → ((a : A) → Preserves Inv (f a))
      → Inv s.store
      → Inv (and_then r f s).1.store
  unfolding and_then
  and_then-keeps (return a) f s h inv = (h a).keeps s inv
  and_then-keeps (throw e) f s h inv = inv

  pub bind-Preserves :
      {A B : Type 0} {m : Run A} {f : A → Run B}
      → Preserves Inv m
      → ((a : A) → Preserves Inv (f a))
      → Preserves Inv (m >>= f)
  unfolding ◌>>=◌
  bind-Preserves {m} {f} first then_f = record {
    keeps = λ s inv. and_then-keeps (m s).0 f (m s).1 then_f (first.keeps s inv);
  }

  pub call-Preserves : {A : Type 0} (r : Result A) → Preserves Inv (call r)
  unfolding call
  call-Preserves r = record { keeps = λ s inv. inv }

  pub read_store-Preserves : {A : Type 0} (f : Store → A) → Preserves Inv (read_store f)
  unfolding read_store
  read_store-Preserves f = record { keeps = λ s inv. inv }

  pub pure-Preserves : {A : Type 0} (a : A) → Preserves Inv (pure a)
  unfolding pure
  pure-Preserves a = record { keeps = λ s inv. inv }

  pub ask-Preserves : {A : Type 0} (q : ℕ → Result A) → Preserves Inv (ask q)
  unfolding ask
  ask-Preserves q = record { keeps = λ s inv. inv }

  pub audit-Preserves : (event : Recorded) → Preserves Inv (audit event)
  unfolding audit
  audit-Preserves event = record { keeps = λ s inv. inv }

  pub write_store-Preserves :
      (f : Store → Store)
      → ((store : Store) → Inv store → Inv (f store))
      → Preserves Inv (write_store f)
  unfolding write_store
  write_store-Preserves f h = record { keeps = λ s inv. h s.store inv }

  pub both-Gives :
      {A : Type 0} {Q : A → RuntimeState → Type 0} {m : Run A} {s : RuntimeState}
      → Preserves Inv m
      → Inv s.store
      → Gives Q m s
      → Gives (λ a s'. Q a s' × Inv s'.store) m s
  both-Gives {Q} {m} {s} kept inv gives = record {
    given = both (λ s'. Inv s'.store) Q (m s).0 (m s).1 (kept.keeps s inv) gives.given;
  }

  -- What is kept, as what a run ensures
  pub kept-Gives :
      {A : Type 0} {m : Run A} {s : RuntimeState}
      → Preserves Inv m
      → Inv s.store
      → Gives (λ _ s'. Unit × Inv s'.store) m s
  kept-Gives {m} {s} kept inv = both-Gives kept inv (record { given = nothing (m s).0 (m s).1 })
