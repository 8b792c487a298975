-- ===== src/Agent/World/Settles.antt =====
-- Steps of the loop that are no rounds: they end, keep the iteration count and its cap, and never
-- lower the cost or the number of API calls, and never write the run's final row. One rule for each way to build a step.
use personal_portfolio_analy.Prelude.{
  ℕ, ◌≤◌, ◌≡◌, refl, ◌≢◌, Bool, true, false, Option, none, some, List, [], ◌∷◌, arith,
  if◌then◌else◌,
}
use personal_portfolio_analy.Budget.{Budget, record_usage}
use personal_portfolio_analy.Agent.Content.{Message}
use personal_portfolio_analy.Agent.World.{
  World, Env, Event, Row, Result, ok, raised, out_of_fuel, Exec, pure, then_do, ◌>>=◌, gets,
  add_summary, add_message, update_budget, Charge, usage, flat, charge, charge_all, emit, log_row,
  Summary, or_raise,
}

pub record KeepsCaps (a b : Budget) : Type 0 where
  pub iterations : b.iterations ≡ a.iterations
  pub max_iterations : b.max_iterations ≡ a.max_iterations
  pub max_cost_usd : b.max_cost_usd ≡ a.max_cost_usd
  pub cost_usd : a.cost_usd ≤ b.cost_usd

pub record Later (a b : World) : Type 0 where
  pub caps : KeepsCaps a.budget b.budget
  pub calls : a.calls ≤ b.calls
  pub finals : b.finals ≡ a.finals

pub record Settles {A : Type 0} (m : Exec A) : Type 0 where
  pub ends : (w : World) → (m w).0 ≢ out_of_fuel
  pub later : (w : World) → Later w (m w).1

KeepsCaps-charge : (c : Charge) (b : Budget) → KeepsCaps b (charge c b)
unfolding charge
KeepsCaps-charge (usage i o) b = ground arith
KeepsCaps-charge (flat usd) b = ground arith

pub KeepsCaps-charge_all : (cs : List Charge) (b : Budget) → KeepsCaps b (charge_all cs b)
KeepsCaps-charge_all [] b = ground arith
KeepsCaps-charge_all (c ∷ cs) b =
    let h = KeepsCaps-charge c b in let k = KeepsCaps-charge_all cs (charge c b) in ground arith

pub Later-refl : (w : World) → Later w w
Later-refl w = ground arith

pub Later-trans : (a b c : World) → Later a b → Later b c → Later a c
Later-trans a b c h k = ground arith

module _ {A B : Type 0} where
  then_do-ends :
      (r : Result A) (f : A → Exec B) (w : World)
      → r ≢ out_of_fuel
      → ((a : A) → Settles (f a))
      → (then_do r f w).0 ≢ out_of_fuel
  then_do-ends (ok a) f w h k = (k a).ends w
  then_do-ends raised f w h k = λ e. cc
  then_do-ends out_of_fuel f w h k = absurd (h refl)

  then_do-Later :
      (r : Result A) (f : A → Exec B) (w : World)
      → ((a : A) → Settles (f a))
      → Later w (then_do r f w).1
  then_do-Later (ok a) f w k = (k a).later w
  then_do-Later raised f w k = Later-refl w
  then_do-Later out_of_fuel f w k = Later-refl w

  pub Settles-bind :
      (m : Exec A) (f : A → Exec B) → Settles m → ((a : A) → Settles (f a)) → Settles (m >>= f)
  unfolding ◌>>=◌
  Settles-bind m f h k = record {
    ends = λ w. then_do-ends (m w).0 f (m w).1 (h.ends w) k;
    later = λ w.
        Later-trans w (m w).1 (then_do (m w).0 f (m w).1).1 (h.later w)
          (then_do-Later (m w).0 f (m w).1 k);
  }

module _ {A : Type 0} where
  pub Settles-pure : (a : A) → Settles (pure a)
  unfolding ◌>>=◌
  Settles-pure a = record { ends = λ w e. cc; later = Later-refl }

  pub Settles-gets : (f : World → A) → Settles (gets f)
  unfolding ◌>>=◌
  Settles-gets f = record { ends = λ w e. cc; later = Later-refl }

  pub Settles-if : (b : Bool) (m n : Exec A) → Settles m → Settles n → Settles (if b then m else n)
  Settles-if true m n h k = h
  Settles-if false m n h k = k

pub Settles-or_raise : {A : Type 0} (o : Option A) → Settles (or_raise o)
unfolding ◌>>=◌
Settles-or_raise none = record { ends = λ w e. cc; later = Later-refl }
Settles-or_raise (some a) = record { ends = λ w e. cc; later = Later-refl }

pub Settles-add_summary : (s : Summary) → Settles (add_summary s)
unfolding ◌>>=◌
Settles-add_summary s = record { ends = λ w e. cc; later = λ w. ground arith }

pub Settles-add_message : (m : Message) → Settles (add_message m)
unfolding ◌>>=◌
Settles-add_message m = record { ends = λ w e. cc; later = λ w. ground arith }

pub Settles-usage : (i o : ℕ) → Settles (update_budget (record_usage i o))
unfolding record_usage ◌>>=◌
Settles-usage i o = record { ends = λ w e. cc; later = λ w. ground arith }

pub Settles-emit : (env : Env) (e : Event) → Settles (emit env e)
unfolding emit
Settles-emit env e = record { ends = λ w p. cc; later = λ w. ground arith }

pub Settles-log_row : (env : Env) (r : Row) → Settles (log_row env r)
unfolding log_row
Settles-log_row env r = record { ends = λ w p. ground arith; later = λ w. ground arith }

pub ruleset settles_rules = (
  Settles-bind, Settles-pure, Settles-gets, Settles-if, Settles-add_summary, Settles-add_message,
  Settles-usage, Settles-emit, Settles-log_row, Settles-or_raise,
)
