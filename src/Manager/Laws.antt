-- ===== src/Manager/Laws.antt =====
-- Which calls `main` makes before it ends, and how it ends.
use machine_api_provider_nvi.Base.{
  ◌≡◌, refl, ap, String, Bool, true, false, Option, none, some, List, [], ◌∷◌, ◌++◌, is_some,
  if◌then◌else◌, arith,
}
use machine_api_provider_nvi.Manager.{
  Flags, ServerOptions, Call, new_manager, new_actuator, setup_machine_controller, register_webhook,
  add_healthz_check, add_readyz_check, start_manager, Exit, then_exit, Stat, webhooks_on,
  manager_options, run_checks, main,
}

module _ (stat : String → Stat) (error_of : Call → Option String) where
  -- The program stopped at a call of the plan that gave an error.
  pub record StoppedIn (plan : List Call) (exit : Exit) : Type 0 where
    pub before : List Call
    pub last : Call
    pub rest : List Call
    pub text : String
    pub IsPlan : plan ≡ before ++ last ∷ rest
    pub IsMade : exit.calls ≡ before ++ last ∷ []
    pub IsError : error_of last ≡ some text
    pub IsOne : exit.code ≡ 1

  -- All calls of the plan are made, and the code is 0; or the first that gives an error is the last.
  pub data Follows (plan : List Call) (exit : Exit) : Type 0 where
    completed : exit.calls ≡ plan → exit.code ≡ 0 → Follows plan exit
    stopped : StoppedIn plan exit → Follows plan exit

  then_exit-Follows :
      (call : Call) (failure : Option String) (next : Exit) (plan : List Call)
      → ((text : String) → failure ≡ some text → error_of call ≡ some text)
      → Follows plan next
      → Follows (call ∷ plan) (then_exit call failure next)
  then_exit-Follows call (some text) next plan h f = stopped (record {
    before = [];
    last = call;
    rest = plan;
    text = text;
    IsPlan = refl;
    IsMade = refl;
    IsError = h text refl;
    IsOne = refl;
  })
  then_exit-Follows call none next plan h (completed c z) = completed (ap (λ cs. call ∷ cs) c) z
  then_exit-Follows call none next plan h (stopped s) = stopped (record {
    before = call ∷ s.before;
    last = s.last;
    rest = s.rest;
    text = s.text;
    IsPlan = ap (λ cs. call ∷ cs) s.IsPlan;
    IsMade = ap (λ cs. call ∷ cs) s.IsMade;
    IsError = s.IsError;
    IsOne = s.IsOne;
  })

  checked-Follows :
      (call : Call) (next : Exit) (plan : List Call)
      → Follows plan next
      → Follows (call ∷ plan) (then_exit call (error_of call) next)
  checked-Follows call next plan f = then_exit-Follows call _ next plan (λ text e. e) f

  unchecked-Follows :
      (call : Call) (next : Exit) (plan : List Call)
      → Follows plan next
      → Follows (call ∷ plan) (then_exit call none next)
  unchecked-Follows call next plan f =
      then_exit-Follows call none next plan (λ text e. absurd (ground (arith, e))) f

  abbrev pub checks : List Call
  checks = add_healthz_check "healthz" ∷ add_readyz_check "readyz" ∷ start_manager ∷ []

  -- The webhook is registered where the manager got a server for it.
  abbrev pub plan_of : Flags → List Call
  plan_of flags =
      let options = manager_options stat flags in
      new_manager options
      ∷ new_actuator "nico-machine-controller"
      ∷ setup_machine_controller
      ∷ (if is_some options.webhook_server
          then register_webhook "/validate-machine" ∷ checks
          else checks)

  run_checks-Follows : Follows checks (run_checks error_of)
  unfolding run_checks
  run_checks-Follows =
      checked-Follows _ _ _ (checked-Follows _ _ _ (checked-Follows _ _ _ (completed refl refl)))

  -- Whatever the flags, the state of the directory of certificates and the errors of the calls: the
  -- program either makes all of its calls in their order and ends with code 0, where the webhook is
  -- registered exactly if the manager was given a webhook server, or it ends with code 1 at a call
  -- that gives an error, after those before it.
  pub main-Follows : (flags : Flags) → Follows (plan_of flags) (main error_of stat flags)
  unfolding main manager_options
  main-Follows flags =
      checked-Follows _ _ _
        (unchecked-Follows _ _ _ (checked-Follows _ _ _ (registered (webhooks_on stat flags))))
    where
      registered :
          (on : Bool)
          → Follows
              (if is_some {A = ServerOptions} (
                  if on
                  then some
                      (record { port = flags.webhook_port; cert_dir = flags.webhook_cert_dir })
                  else none)
                then register_webhook "/validate-machine" ∷ checks
                else checks)
              (if on
                then then_exit (register_webhook "/validate-machine") none (run_checks error_of)
                else run_checks error_of)
      registered true = unchecked-Follows _ _ _ run_checks-Follows
      registered false = run_checks-Follows
