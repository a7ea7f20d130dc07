-- ===== src/Actuator/World/Results.antt =====
-- What an operation can return, by one rule for each way to build it.
use machine_api_provider_nvi.Base.{
  Bool, true, false, Option, none, some, maybe, if◌then◌else◌, subst,
}
use machine_api_provider_nvi.Actuator.World.{World}
use machine_api_provider_nvi.Actuator.World.Monad.{M, ◌>>=◌, pure}
use machine_api_provider_nvi.Actuator.World.Growth.{Answered, Returns, Returns-bind, Returns-pure}

-- Whatever `m` returns has the property.
pub record Gives {A : Type 0} (P : A → Type 0) (m : M A) : Type 0 where
  pub at : (w w' : World) (a : A) → Returns m w a w' → P a

module _ {A : Type 0} {P : A → Type 0} where
  pub Gives-Answered : {m : M A} {a : A} → Gives P m → Answered m a → P a
  Gives-Answered {a = a} k h = k.at h.before h.after a h.answer

  pub Gives-pure : (a : A) → P a → Gives P (pure a)
  Gives-pure a p = record {
    at = λ w w' b h. let (same, _) = Returns-pure a b w w' h in subst P same p;
  }

  pub Gives-if : (b : Bool) (m n : M A) → Gives P m → Gives P n → Gives P (if b then m else n)
  Gives-if true m n km kn = km
  Gives-if false m n km kn = kn

  module _ {B : Type 0} where
    pub Gives-bind : (m : M B) (f : B → M A) → ((b : B) → Gives P (f b)) → Gives P (m >>= f)
    Gives-bind m f k = record {
      at = λ w w' a h. let p = Returns-bind m f w w' a h in (k p.value).at p.state w' a p.second;
    }

    -- What the first part gives may be used for the second.
    pub Gives-after :
        {Q : B → Type 0} (m : M B) (f : B → M A)
        → Gives Q m
        → ((b : B) → Q b → Gives P (f b))
        → Gives P (m >>= f)
    Gives-after m f q k = record {
      at = λ w w' a h.
          let p = Returns-bind m f w w' a h in
          (k p.value (q.at w p.state p.value p.first)).at p.state w' a p.second;
    }

    pub Gives-maybe :
        (o : Option B) (n : M A) (s : B → M A)
        → Gives P n
        → ((b : B) → Gives P (s b))
        → Gives P (maybe o n s)
    Gives-maybe none n s kn ks = kn
    Gives-maybe (some b) n s kn ks = ks b
