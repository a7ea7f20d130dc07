-- ===== src/BareMetal/Sync/Starts.antt =====
-- The loop of Start: how it ends, and how often it has synchronised by then.
use machine_api_provider_nvi.Base.{
  ◌≡◌, refl, ◌∙◌, String, Bool, false, not, ◌&&◌, Option, none, some, List, [], ◌∷◌, ◌++◌, map, ltb,
  nat_eq, ◌==◌, is_some, Option-cases, Bool-cases, inl, inr, if◌then◌else◌, arith,
}
use machine_api_provider_nvi.Api.Sdk.{HttpResponse, Reply}
use machine_api_provider_nvi.Actuator.Health.{succeeded}
use machine_api_provider_nvi.BareMetal.Types.{NicoMachine}
use machine_api_provider_nvi.BareMetal.Cluster.{Cluster, State, pure, call, ◌>>=◌}
use machine_api_provider_nvi.BareMetal.Sync.{
  Line, sync, sync_listed, unlisted, await, continue, start, Wake, done, tick, returned,
}

-- Neither a response nor an error came back.
unfoldable pub is_silent : {A : Type 0} → Reply A → Bool
is_silent reply = not (is_some reply.http) && not (is_some reply.failure)

module _ {S : Type 0} (c : Cluster S) where
  is_some-unlisted :
      (http : Option HttpResponse) (failure : Option String)
      → is_some (unlisted c http failure) ≡ not (not (is_some http) && not (is_some failure))
  unfolding unlisted
  is_some-unlisted none none = refl
  is_some-unlisted none (some text) = refl
  is_some-unlisted (some r) failure = elim (Bool-cases (r.status_code == 403)) [
    | inl y ↦ rw y
    | inr n ↦ rw n
  ]

  answered :
      (reply : Reply (List NicoMachine)) (t : State S)
      → is_some
          ((if succeeded reply
              then sync_listed c reply.value
              else pure (unlisted c reply.http reply.failure))
            t).0
        ≡ not (is_silent reply)
  unfolding is_silent sync_listed ◌>>=◌ pure
  answered reply t = elim (Option-cases reply.failure) [
    | inl e ↦ elim (Option-cases reply.http) [
      | inl f ↦ rw e (rw f (is_some-unlisted none none))
      | inr (r, f) ↦ elim (Bool-cases (ltb r.status_code 300)) [
        | inl y ↦ rw e (rw f (rw y))
        | inr n ↦ rw e (rw f (rw n (is_some-unlisted (some r) none)))
      ]
    ]
    | inr (x, e) ↦ rw e (is_some-unlisted reply.http (some x))
  ]

  -- A sync panics exactly if the answer to the request for the machines has neither a response nor
  -- an error.
  pub is_some-sync :
      (s : State S)
      → is_some (sync c s).0 ≡ not (is_silent (c.get_all_machine c.org_name s.world).0)
  unfolding sync ◌>>=◌ call
  is_some-sync s = answered (c.get_all_machine c.org_name s.world).0 _

  -- The world moves, and nothing else.
  abbrev pub after : (S → S) → State S → State S
  after move s = record s { world = move s.world }

  -- A first sync, and one after each move.
  unfoldable pub syncs : List (S → S) → State S → State S
  syncs [] s = (sync c s).1
  syncs (move ∷ moves) s = syncs moves (after move (sync c s).1)

  -- No answer of GetAllMachine is without both a response and an error.
  abbrev pub Answers : Type 0
  Answers = (org : String) (w : S) → is_silent (c.get_all_machine org w).0 ≡ false

  sync-some : Answers → (s : State S) → (lines : List Line) × ((sync c s).0 ≡ some lines)
  sync-some h s = elim (Option-cases (sync c s).0) [
    | inl e ↦ absurd (ground (arith, e, is_some-sync s, h c.org_name s.world))
    | inr found ↦ found
  ]

  start-tick :
      (move : S → S) (wakes : List (Wake S)) (s : State S) (lines : List Line)
      → (sync c s).0 ≡ some lines
      → ((start c (tick move ∷ wakes) s).0.0 ≡ (start c wakes (after move (sync c s).1)).0.0)
        × ((start c (tick move ∷ wakes) s).1 ≡ (start c wakes (after move (sync c s).1)).1)
  unfolding start continue await ◌>>=◌ pure call
  start-tick move wakes s lines e = (rw e, rw e)

  -- If no answer to the request for the machines is without both a response and an error, then
  -- Start returns at the first time that it is woken by its done context, whatever comes later, in
  -- the state after one sync at first, one after each tick before, and what the world did
  -- meanwhile.
  pub start-done :
      Answers
      → (ticks : List (S → S)) (stop : S → S) (wakes : List (Wake S)) (s : State S)
      → ((start c (map tick ticks ++ done stop ∷ wakes) s).0.0 ≡ returned)
        × ((start c (map tick ticks ++ done stop ∷ wakes) s).1 ≡ after stop (syncs ticks s))
  unfolding start continue await syncs ◌>>=◌ pure call
  start-done h [] stop wakes s = let (lines, e) = sync-some h s in (rw e, rw e)
  start-done h (move ∷ ticks) stop wakes s =
      let (lines, e) = sync-some h s in
      let step = start-tick move (map tick ticks ++ done stop ∷ wakes) s lines e in
      let rest = start-done h ticks stop wakes (after move (sync c s).1) in
      (step.0 ∙ rest.0, step.1 ∙ rest.1)
