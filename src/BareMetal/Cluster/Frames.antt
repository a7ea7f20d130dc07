-- ===== src/BareMetal/Cluster/Frames.antt =====
-- What an operation does to the state whatever its result, by one rule for each way to build it.
use machine_api_provider_nvi.Base.{Bool, true, false, Option, none, some, maybe, if◌then◌else◌}
use machine_api_provider_nvi.BareMetal.Cluster.{
  Cluster, State, M, pure, call, ◌>>=◌, now, get_state,
}

-- A relation of the states before and after that operations in sequence keep.
pub record Frame (S : Type 0) : Type 1 where
  pub rel : State S → State S → Type 0
  pub same : (s : State S) → rel s s
  pub chain : (s t u : State S) → rel s t → rel t u → rel s u

pub record Keeps {S : Type 0} (F : Frame S) {A : Type 0} (m : M S A) : Type 0 where
  pub at : (s : State S) → F.rel s (m s).1

module _ {S : Type 0} {F : Frame S} {A : Type 0} where
  pub Keeps-pure : (a : A) → Keeps F (pure a)
  unfolding pure
  Keeps-pure a = record { at = F.same }

  pub Keeps-call :
      (f : S → A × S)
      → ((s : State S) → F.rel s (record s { world = (f s.world).1 }))
      → Keeps F (call f)
  unfolding call
  Keeps-call f h = record { at = h }

  pub Keeps-bind :
      {B : Type 0} (m : M S A) (k : A → M S B)
      → Keeps F m
      → ((a : A) → Keeps F (k a))
      → Keeps F (m >>= k)
  unfolding ◌>>=◌
  Keeps-bind m k g h = record { at = λ s. F.chain s (m s).1 _ (g.at s) ((h (m s).0).at (m s).1) }

  pub Keeps-if : (b : Bool) (m n : M S A) → Keeps F m → Keeps F n → Keeps F (if b then m else n)
  Keeps-if true m n g h = g
  Keeps-if false m n g h = h

  pub Keeps-maybe :
      {B : Type 0} (o : Option B) (m : M S A) (k : B → M S A)
      → Keeps F m
      → ((b : B) → Keeps F (k b))
      → Keeps F (maybe o m k)
  Keeps-maybe none m k g h = g
  Keeps-maybe (some b) m k g h = h b

module _ {S : Type 0} {F : Frame S} where
  pub Keeps-now : (c : Cluster S) → Keeps F (now c)
  unfolding now
  Keeps-now c = record { at = F.same }

  pub Keeps-get_state : Keeps F (get_state {S = S})
  unfolding get_state
  Keeps-get_state = record { at = F.same }

pub ruleset keeps_rules =
    (Keeps-pure, Keeps-call, Keeps-bind, Keeps-if, Keeps-maybe, Keeps-now, Keeps-get_state)
