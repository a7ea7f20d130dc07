-- ===== src/BareMetal/Sync/Converges.antt =====
-- What one run of `sync` leaves in the store: the wanted hosts, and the others as they were.
use machine_api_provider_nvi.Base.{
  ◌≡◌, ◌≢◌, refl, sym, ap, ◌∙◌, ◌⊎◌, inl, inr, String, Bool, true, false, Option, none, some, List,
  [], ◌∷◌, ◌++◌, All, any, ◌==◌, string_eq, eq_refl, Option-cases, arith,
}
use machine_api_provider_nvi.Base.Dict.{Dict}
use machine_api_provider_nvi.Api.Errors.{GoError}
use machine_api_provider_nvi.Actuator.Health.{succeeded}
use machine_api_provider_nvi.BareMetal.Types.{NicoMachine, Sku}
use machine_api_provider_nvi.BareMetal.Cluster.{Cluster, State, M, call, pure, ◌>>=◌}
use machine_api_provider_nvi.BareMetal.Cluster.Frames.{Keeps, Keeps-bind, Keeps-if, Keeps-pure}
use machine_api_provider_nvi.BareMetal.Mapper.{bmh_name_from_id, bmh_name}
use machine_api_provider_nvi.BareMetal.Sync.{
  Line, machine_error, access_required, list_error, list_status, log_failure, visit, sync_machine,
  sync_machines, sync, sync_listed, get_sku_map, get_firmware_map,
}
use machine_api_provider_nvi.BareMetal.Sync.Effects.{
  visit-Keeps, get_firmware_map-Keeps, get_sku_map-Keeps,
}
use machine_api_provider_nvi.BareMetal.Sync.Machines.{
  sync_machine-unseen, IsWanted, IsWanted-along, sync_machine-IsWanted, bmh_name-some,
}
use machine_api_provider_nvi.BareMetal.Sync.Store.{
  ObjectStore, bmh_name_from_id-injective, unseen, reads_unseen,
}

-- Is the line about the machine?
abbrev pub is_about : String → Line → Bool
is_about id access_required = false
is_about id (list_error text) = false
is_about id (list_status code) = false
is_about id (machine_error i e) = i == id

module _ {S : Type 0} {c : Cluster S} (store : ObjectStore c) where
  sync_machines-unseen :
      (ms : List NicoMachine) (skus : Dict Sku) (firmware : Dict (Dict String)) (ns name : String)
      → All (λ m. (m.id ≡ none) ⊎ (bmh_name m ≢ name)) ms
      → Keeps (unseen store ns name) (sync_machines c ms skus firmware)
  unfolding sync_machines
  sync_machines-unseen [] skus firmware ns name h = Keeps-pure _
  sync_machines-unseen (m ∷ ms) skus firmware ns name h =
      visit-Keeps c (reads_unseen store ns name) m.id _ _
        (λ id e.
          sync_machine-unseen store m skus firmware ns name
            (λ n. elim h.0 [ inl o ↦ ground (arith, o, e) | inr d ↦ d n ]))
        (sync_machines-unseen ms skus firmware ns name h.1)

  -- The machine failed, and that is logged, or its host and its firmware are as they are wanted.
  abbrev pub IsSettled :
      NicoMachine → String → Dict Sku → Dict (Dict String) → List Line → State S → Type 0
  IsSettled m id skus firmware lines t =
      (any (is_about id) lines ≡ true) ⊎ IsWanted store m id skus firmware t

  visit-Settled :
      (m : NicoMachine) (id : String) (skus : Dict Sku) (firmware : Dict (Dict String))
      (o : Option String) (one : M S (Option GoError)) (rest : M S (List Line)) (s : State S)
      → o ≡ some id
      → ((one s).0 ≡ none → IsWanted store m id skus firmware (one s).1)
      → Keeps (unseen store c.namespace (bmh_name_from_id id)) rest
      → IsSettled m id skus firmware (visit c o one rest s).0 (visit c o one rest s).1
  unfolding visit ◌>>=◌ pure
  visit-Settled m id skus firmware none one rest s h g k = absurd (ground (arith, h))
  visit-Settled m id skus firmware (some i) one rest s h g k = elim (Option-cases (one s).0) [
    | inl e ↦ inr (IsWanted-along store m id skus firmware _ _ (k.at (one s).1) (g e))
    | inr (x, e) ↦ inl (ground (arith, e, h, eq_refl id))
  ]

  visit-still :
      (m : NicoMachine) (id : String) (skus : Dict Sku) (firmware : Dict (Dict String))
      (o : Option String) (one : M S (Option GoError)) (rest : M S (List Line)) (s : State S)
      → ((t : State S) → IsSettled m id skus firmware (rest t).0 (rest t).1)
      → IsSettled m id skus firmware (visit c o one rest s).0 (visit c o one rest s).1
  unfolding visit ◌>>=◌ pure
  visit-still m id skus firmware none one rest s h = h s
  visit-still m id skus firmware (some i) one rest s h = elim (h (one s).1) [
    | inl e ↦ inl (logged (one s).0 _ e)
    | inr e ↦ inr e
  ]
    where
      logged :
          (o : Option GoError) (lines : List Line)
          → any (is_about id) lines ≡ true
          → any (is_about id) (log_failure c i o lines) ≡ true
      logged none lines e = e
      logged (some x) lines e = ground (arith, e)

  other_names :
      (id : String) (ys : List NicoMachine)
      → All (λ y. y.id ≢ some id) ys
      → All (λ y. (y.id ≡ none) ⊎ (bmh_name y ≢ bmh_name_from_id id)) ys
  other_names id [] h = tt
  other_names id (y ∷ ys) h = (
    elim (Option-cases y.id) [
      | inl e ↦ inl e
      | inr (j, e) ↦ inr (λ n.
          h.0 (e ∙ ap some (bmh_name_from_id-injective j id (sym (bmh_name-some store y j e) ∙ n))))
    ],
    other_names id ys h.1,
  )

  sync_machines-Settled :
      (xs : List NicoMachine) (m : NicoMachine) (ys : List NicoMachine) (skus : Dict Sku)
      (firmware : Dict (Dict String)) (s : State S) (id : String)
      → m.id ≡ some id
      → All (λ y. y.id ≢ some id) ys
      → IsSettled m id skus firmware
          (sync_machines c (xs ++ m ∷ ys) skus firmware s).0
          (sync_machines c (xs ++ m ∷ ys) skus firmware s).1
  unfolding sync_machines
  sync_machines-Settled [] m ys skus firmware s id e h =
      visit-Settled m id skus firmware m.id (sync_machine c m skus firmware) _ s e
        (sync_machine-IsWanted store m id skus firmware s e)
        (sync_machines-unseen ys skus firmware c.namespace (bmh_name_from_id id)
          (other_names id ys h))
  sync_machines-Settled (x ∷ xs) m ys skus firmware s id e h =
      visit-still m id skus firmware x.id _ _ s
        (λ t. sync_machines-Settled xs m ys skus firmware t id e h)

  -- The state in which `sync` asks for the SKUs, and the maps that it gets.
  abbrev pub listed_state : State S → State S
  listed_state s = record s { world = (c.get_all_machine c.org_name s.world).1 }

  abbrev pub skus_used : State S → Dict Sku
  skus_used s = (get_sku_map c (listed_state s)).0

  abbrev pub firmware_used : State S → Dict (Dict String)
  firmware_used s = (get_firmware_map c (get_sku_map c (listed_state s)).1).0

  pub record SettledRun (m : NicoMachine) (id : String) (s : State S) : Type 0 where
    pub lines : List Line
    pub IsLog : (sync c s).0 ≡ some lines
    pub settled : IsSettled m id (skus_used s) (firmware_used s) lines (sync c s).1

  listed :
      (machines : List NicoMachine) (s : State S)
      → succeeded (c.get_all_machine c.org_name s.world).0 ≡ true
      → machines ≡ (c.get_all_machine c.org_name s.world).0.value
      → sync c s ≡ sync_listed c machines (listed_state s)
  unfolding sync ◌>>=◌ call
  listed machines s ok e = rw e (rw ok)

  -- If the API server stores what it is sent, nobody else writes these objects meanwhile and Create
  -- leaves the key and the components of an object in memory as they are, the machines are listed
  -- with success, and no machine listed later has the same ID, then after a sync an error about
  -- this machine is logged; or the API server has under its name a host whose labels and
  -- annotations, and whose power state, provisioning mark, BMC address and boot MAC, are those
  -- mapped from the machine and the SKU map of this sync, and, if the firmware map of this sync has
  -- versions for the machine, the firmware components that are mapped from them.
  pub sync-Settled :
      (xs : List NicoMachine) (m : NicoMachine) (ys : List NicoMachine) (id : String) (s : State S)
      → succeeded (c.get_all_machine c.org_name s.world).0 ≡ true
      → xs ++ m ∷ ys ≡ (c.get_all_machine c.org_name s.world).0.value
      → m.id ≡ some id
      → All (λ y. y.id ≢ some id) ys
      → SettledRun m id s
  unfolding sync_listed ◌>>=◌ pure
  sync-Settled xs m ys id s ok e i h =
      let t = (get_sku_map c (listed_state s)).1 in
      let u = get_firmware_map c t in
      let settled = sync_machines-Settled xs m ys (skus_used s) u.0 u.1 id i h in
      let run = listed (xs ++ m ∷ ys) s ok e in
      record {
        lines = (sync_machines c (xs ++ m ∷ ys) (skus_used s) u.0 u.1).0;
        IsLog = ap (λ r. r.0) run;
        settled = rw run settled;
      }

  sync_listed-unseen :
      (machines : List NicoMachine) (ns name : String)
      → All (λ m. (m.id ≡ none) ⊎ (bmh_name m ≢ name)) machines
      → Keeps (unseen store ns name) (sync_listed c machines)
  unfolding sync_listed
  sync_listed-unseen machines ns name h =
      Keeps-bind _ _ (get_sku_map-Keeps c (reads_unseen store ns name) (λ skus expiry s. refl))
        (λ skus. Keeps-bind _ _ (get_firmware_map-Keeps c (reads_unseen store ns name)) (λ firmware.
          Keeps-bind _ _ (sync_machines-unseen machines skus firmware ns name h)
            (λ lines. Keeps-pure _)))

  -- If the API server stores what it is sent, nobody else writes these objects meanwhile and Create
  -- leaves the key and the components of an object in memory as they are, a sync leaves the host
  -- and the firmware components that are stored under a name as they are, unless a listed machine
  -- with an ID has this name for its host. In particular the host of a machine that is no longer
  -- listed stays.
  pub sync-unseen :
      (ns name : String) (s : State S)
      → All
          (λ m. (m.id ≡ none) ⊎ (bmh_name m ≢ name))
          (c.get_all_machine c.org_name s.world).0.value
      → store.view (sync c s).1.world ns name ≡ store.view s.world ns name
  unfolding sync ◌>>=◌ call
  sync-unseen ns name s h =
      (Keeps-if (succeeded (c.get_all_machine c.org_name s.world).0) _ _
          (sync_listed-unseen _ ns name h) (Keeps-pure _)).at
        (listed_state s)
      ∙ store.view_all_machine c.org_name s.world ns name
