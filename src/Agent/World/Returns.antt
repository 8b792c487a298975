-- ===== src/Agent/World/Returns.antt =====
-- Total correctness of a step: it returns, and what it returns has a property. The database is
-- taken to work, as every raise of the loop's own steps but those of the API is one of its writes.
use personal_portfolio_analy.Prelude.{
  ℕ, ◌+◌, ◌≡◌, refl, true, Option, some, [], ◌∷◌, arith, length, length-append,
}
use personal_portfolio_analy.Agent.World.{
  World, Env, Event, Row, Result, ok, Exec, pure, then_do, ◌>>=◌, emit, log_row, Summary,
  add_summary, or_raise,
}

-- Every write of the database succeeds.
abbrev pub Works : Env → Type 0
Works env = (n : ℕ) → env.persists n ≡ true

pub record Returns {A : Type 0} (m : Exec A) (w : World) (P : A → World → Type 0) : Type 0 where
  pub value : A
  pub returns : (m w).0 ≡ ok value
  pub holds : P value (m w).1

module _ {A B : Type 0} where
  then_do-ok :
      (r : Result A) (a : A) (f : A → Exec B) (w : World) → r ≡ ok a → then_do r f w ≡ f a w
  then_do-ok r a f w e = rw e

  pub Returns-bind :
      (m : Exec A) (f : A → Exec B) (w : World) (P : A → World → Type 0) (Q : B → World → Type 0)
      → Returns m w P
      → ((a : A) (w' : World) → P a w' → Returns (f a) w' Q)
      → Returns (m >>= f) w Q
  unfolding ◌>>=◌
  Returns-bind m f w P Q h k =
      let next = k h.value (m w).1 h.holds in
      let same = then_do-ok (m w).0 h.value f (m w).1 h.returns in
      record { value = next.value; returns = rw same next.returns; holds = rw same next.holds }

pub Returns-pure :
    {A : Type 0} (a : A) (w : World) (P : A → World → Type 0) → P a w → Returns (pure a) w P
unfolding ◌>>=◌
Returns-pure a w P h = record { value = a; returns = refl; holds = h }

-- A step that leaves the conversation alone, and adds so many rows and summaries.
pub record Grows (rows summaries : ℕ) (w w' : World) : Type 0 where
  pub rows_grow : length w'.rows ≡ length w.rows + rows
  pub summaries_grow : length w'.summaries ≡ length w.summaries + summaries
  pub messages_stay : w'.messages ≡ w.messages

pub emit_returns : (env : Env) (e : Event) (w : World) → Returns (emit env e) w (λ _. Grows 0 0 w)
unfolding emit
emit_returns env e w = record { value = tt; returns = refl; holds = ground arith }

pub log_row_returns :
    (env : Env) → Works env → (r : Row) (w : World) → Returns (log_row env r) w (λ _. Grows 1 0 w)
unfolding log_row
log_row_returns env works r w = record {
  value = tt;
  returns = rw (works w.writes);
  holds = rw (works w.writes) (ground (arith, length-append w.rows (r ∷ [])));
}

pub or_raise_returns :
    {A : Type 0} (o : Option A) (a : A) (w : World)
    → o ≡ some a
    → Returns (or_raise o) w (λ _. Grows 0 0 w)
unfolding ◌>>=◌
or_raise_returns o a w e = rw e (record { value = a; returns = refl; holds = ground arith })

pub add_summary_returns : (s : Summary) (w : World) → Returns (add_summary s) w (λ _. Grows 0 1 w)
unfolding ◌>>=◌
add_summary_returns s w = record {
  value = tt;
  returns = refl;
  holds = ground (arith, length-append w.summaries (s ∷ []));
}
