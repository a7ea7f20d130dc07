-- ===== src/Actuator/Health/Laws.antt =====
-- The run that the validation check looks at.
use mathlib.Core.List.{Memᴰ}
use mathlib.Core.List.Memᴰ.{head, tail, cases_cons}
use machine_api_provider_nvi.Base.{
  ℕ, ◌≤◌, Bool, true, false, Option, none, some, List, [], ◌∷◌, ◌≡◌, refl, arith, inl, inr, All,
  if◌then◌else◌,
}
use machine_api_provider_nvi.Api.Sdk.{MachineValidationRun}
use machine_api_provider_nvi.Actuator.Health.{ends_later, latest_run}

ends_later_trans :
    (a b c : Option ℕ) → ends_later a b ≡ false → ends_later b c ≡ false → ends_later a c ≡ false
unfolding ends_later
ends_later_trans none b c h k = refl
ends_later_trans (some t) none c h k = absurd (grind (arith, h))
ends_later_trans (some t) (some u) none h k = absurd (grind (arith, k))
ends_later_trans (some t) (some u) (some v) h k = ground (arith, h, k)

ends_later_asym : (a b : Option ℕ) → ends_later a b ≡ true → ends_later b a ≡ false
unfolding ends_later
ends_later_asym none b h = absurd (grind (arith, h))
ends_later_asym (some t) none h = refl
ends_later_asym (some t) (some u) h = ground (arith, h)

-- The first end is not after the second: there is none, or both are there, in this order.
pub data NotAfter : Option ℕ → Option ℕ → Type 0 where
  no_end : {limit : Option ℕ} → NotAfter none limit
  in_order : {a b : ℕ} → a ≤ b → NotAfter (some a) (some b)

NotAfter-of : (a b : Option ℕ) → ends_later a b ≡ false → NotAfter a b
unfolding ends_later
NotAfter-of none b h = no_end
NotAfter-of (some t) none h = absurd (grind (arith, h))
NotAfter-of (some t) (some u) h = in_order (ground (arith, h))

-- `r` is one of the runs, and no run ends after it.
pub record IsLatest (r : MachineValidationRun) (runs : List MachineValidationRun) : Type 0 where
  pub member : Memᴰ r runs
  pub last : All (λ other. NotAfter other.end_time r.end_time) runs

-- The same, by the test of the loop.
record IsChosen (r : MachineValidationRun) (runs : List MachineValidationRun) : Type 0 where
  member : Memᴰ r runs
  last : All (λ other. ends_later other.end_time r.end_time ≡ false) runs

All-NotAfter :
    (t : Option ℕ) (runs : List MachineValidationRun)
    → All (λ other. ends_later other.end_time t ≡ false) runs
    → All (λ other. NotAfter other.end_time t) runs
All-NotAfter t [] h = tt
All-NotAfter t (s ∷ runs) (h, hs) = (NotAfter-of s.end_time t h, All-NotAfter t runs hs)

IsChosen-step :
    (b : Bool) (r s found : MachineValidationRun) (runs : List MachineValidationRun)
    → ends_later s.end_time r.end_time ≡ b
    → IsChosen found ((if b then s else r) ∷ runs)
    → IsChosen found (r ∷ s ∷ runs)
IsChosen-step true r s found runs e k = record {
  member = tail k.member;
  last = (
    ends_later_trans r.end_time s.end_time found.end_time (ends_later_asym s.end_time r.end_time e)
        k.last.0,
    k.last,
  );
}
IsChosen-step false r s found runs e k = record {
  member = elim (cases_cons k.member) [ inl h ↦ head h | inr m ↦ tail (tail m) ];
  last = (k.last.0, (ends_later_trans s.end_time r.end_time found.end_time e k.last.0, k.last.1));
}

not_later : (t : Option ℕ) → ends_later t t ≡ false
unfolding ends_later
not_later none = refl
not_later (some t) = ground arith

IsChosen-of :
    (runs : List MachineValidationRun) (r : MachineValidationRun)
    → IsChosen (latest_run r runs) (r ∷ runs)
unfolding latest_run
IsChosen-of [] r = record { member = head refl; last = (not_later r.end_time, tt) }
IsChosen-of (s ∷ runs) r =
    IsChosen-step (ends_later s.end_time r.end_time) r s _ runs refl (IsChosen-of runs _)

-- The run that the validation check judges is one of the answer, and no run of the answer has an
-- end that is later, or has an end where the chosen one has none.
pub latest_run-IsLatest :
    (r : MachineValidationRun) (runs : List MachineValidationRun)
    → IsLatest (latest_run r runs) (r ∷ runs)
latest_run-IsLatest r runs =
    let k = IsChosen-of runs r in
    record { member = k.member; last = All-NotAfter (latest_run r runs).end_time (r ∷ runs) k.last }
