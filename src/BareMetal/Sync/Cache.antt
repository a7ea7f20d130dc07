-- ===== src/BareMetal/Sync/Cache.antt =====
-- The SKU cache over the runs of the controller: where its content came from, and how old it is.
use machine_api_provider_nvi.Base.{
  ◌≡◌, refl, sym, ap, ◌∙◌, inl, inr, ℕ, ◌+◌, ◌<◌, String, Bool, true, false, Option, none, some,
  List, [], ◌∷◌, Bool-cases, ltb, arith,
}
use machine_api_provider_nvi.Base.Dict.{Dict}
use machine_api_provider_nvi.Api.Sdk.{Reply}
use machine_api_provider_nvi.Actuator.Health.{succeeded}
use machine_api_provider_nvi.BareMetal.Types.{NicoMachine, Sku, Host}
use machine_api_provider_nvi.BareMetal.Cluster.{
  Got, got, absent, get_failed, Cluster, State, M, call, pure, ◌>>=◌, now, get_state, set_cache,
}
use machine_api_provider_nvi.BareMetal.Cluster.Frames.{
  Frame, Keeps, Keeps-call, Keeps-bind, Keeps-if, Keeps-pure, keeps_rules,
}
use machine_api_provider_nvi.BareMetal.Sync.Effects.{
  KeepsReads, KeepsComponents, sync_firmware-Keeps, unless_failed-Keeps, visit-Keeps,
  get_firmware_map-Keeps,
}
use machine_api_provider_nvi.BareMetal.Sync.{
  sku_cache_ttl, sku_map_of, get_sku_map, sync_machine, sync_machines, sync, set_up, write_host,
  refresh_sku_map, fetch_sku_map, cached_or, sync_listed,
}

module _ {S : Type 0} (c : Cluster S) where
  -- The map is that of a successful answer to `GetAllSku`, which was there `sku_cache_ttl` before
  -- the expiry.
  pub record IsAnswered (skus : Dict Sku) (expiry : ℕ) : Type 0 where
    pub asked : S
    pub IsSuccess : succeeded (c.get_all_sku c.org_name asked).0 ≡ true
    pub IsItsMap : skus ≡ sku_map_of (c.get_all_sku c.org_name asked).0.value []
    pub IsItsTime : expiry ≡ c.clock (c.get_all_sku c.org_name asked).1 + sku_cache_ttl

  unfoldable pub IsCacheOf : Option (Dict Sku) → ℕ → Type 0
  IsCacheOf none expiry = Unit
  IsCacheOf (some skus) expiry = IsAnswered skus expiry

  abbrev pub IsCached : State S → Type 0
  IsCached s = IsCacheOf s.sku_cache s.sku_cache_expiry

  -- The cache and its expiry stay as they are.
  abbrev kept : Frame S
  kept = record {
    rel = λ s t. (t.sku_cache ≡ s.sku_cache) × (t.sku_cache_expiry ≡ s.sku_cache_expiry);
    same = λ s. (refl, refl);
    chain = λ s t u h k. (k.0 ∙ h.0, k.1 ∙ h.1);
  }

  reads_kept : KeepsReads c kept
  reads_kept = record {
    at_all_machine = λ org s. (refl, refl);
    at_all_sku = λ org s. (refl, refl);
    at_endpoints = λ org s. (refl, refl);
    at_host = λ ns name s. (refl, refl);
    at_components = λ ns name s. (refl, refl);
  }

  components_kept : KeepsComponents c kept
  components_kept = record {
    at_create_components = λ o s. (refl, refl);
    at_update_components = λ o s. (refl, refl);
  }

  call-kept : {A : Type 0} (f : S → A × S) → Keeps kept (call f)
  call-kept f = Keeps-call f (λ s. (refl, refl))

  write_host-kept :
      (desired : Host) (existing : Got Host) → Keeps kept (write_host c desired existing)
  unfolding write_host
  write_host-kept desired absent = search (keeps_rules, call-kept)
  write_host-kept desired (get_failed text) = search keeps_rules
  write_host-kept desired (got existing) = search (keeps_rules, call-kept)

  sync_machine-kept :
      (m : NicoMachine) (skus : Dict Sku) (firmware : Dict (Dict String))
      → Keeps kept (sync_machine c m skus firmware)
  unfolding sync_machine
  sync_machine-kept m skus firmware =
      search
        (
          keeps_rules,
          call-kept,
          write_host-kept,
          unless_failed-Keeps c reads_kept,
          sync_firmware-Keeps c reads_kept components_kept,
        )
        depth 12

  sync_machines-kept :
      (ms : List NicoMachine) (skus : Dict Sku) (firmware : Dict (Dict String))
      → Keeps kept (sync_machines c ms skus firmware)
  unfolding sync_machines
  sync_machines-kept [] skus firmware = search keeps_rules
  sync_machines-kept (m ∷ ms) skus firmware =
      visit-Keeps c reads_kept m.id _ _ (λ id e. sync_machine-kept m skus firmware)
        (sync_machines-kept ms skus firmware)

  -- The frame of the cache's invariant.
  abbrev cached : Frame S
  cached = record {
    rel = λ s t. IsCached s → IsCached t;
    same = λ s h. h;
    chain = λ s t u f g h. g (f h);
  }

  transport-IsCached : (s t : State S) → kept.rel s t → IsCached s → IsCached t
  transport-IsCached s t k h = rw k.0 (rw k.1 h)

  cached-kept : {A : Type 0} (m : M S A) → Keeps kept m → Keeps cached m
  cached-kept m k = record { at = λ s h. transport-IsCached s (m s).1 (k.at s) h }

  refreshed :
      (asked : S) (s : State S) (b : Bool)
      → b ≡ succeeded (c.get_all_sku c.org_name asked).0
      → s.world ≡ (c.get_all_sku c.org_name asked).1
      → IsCached s
      → IsCached (refresh_sku_map c (c.get_all_sku c.org_name asked).0 s).1
  unfolding refresh_sku_map IsCacheOf pure ◌>>=◌ now set_cache
  refreshed asked s true e at h = rw (sym e) record {
    asked = asked;
    IsSuccess = sym e;
    IsItsMap = refl;
    IsItsTime = ap (λ w. c.clock w + sku_cache_ttl) at;
  }
  refreshed asked s false e at h = rw (sym e) h

  cached_or-cached :
      (cache : Option (Dict Sku)) (fresh : Bool) (fetch : M S (Dict Sku))
      → Keeps cached fetch
      → Keeps cached (cached_or c cache fresh fetch)
  unfolding cached_or
  cached_or-cached none fresh fetch k = k
  cached_or-cached (some skus) fresh fetch k = Keeps-if fresh (pure skus) fetch (Keeps-pure skus) k

  fetch_sku_map-cached : Keeps cached (fetch_sku_map c)
  unfolding fetch_sku_map ◌>>=◌ call
  fetch_sku_map-cached = record { at = λ s h. refreshed s.world _ _ refl refl h }

  get_sku_map-cached : Keeps cached (get_sku_map c)
  unfolding get_sku_map
  get_sku_map-cached = search (keeps_rules, cached_or-cached, fetch_sku_map-cached)

  sync_listed-cached : (machines : List NicoMachine) → Keeps cached (sync_listed c machines)
  unfolding sync_listed
  sync_listed-cached machines = Keeps-bind _ _ get_sku_map-cached (λ skus. cached-kept _ (
      Keeps-bind _ _ (get_firmware_map-Keeps c reads_kept) (λ firmware.
        Keeps-bind _ _ (sync_machines-kept machines skus firmware) (λ lines. Keeps-pure _))))

  sync-cached : Keeps cached (sync c)
  unfolding sync
  sync-cached =
      Keeps-bind _ _ (cached-kept _ (call-kept _))
        (λ reply. Keeps-if _ _ _ (sync_listed-cached reply.value) (Keeps-pure _))

  -- A run of the controller among the moves of the world.
  pub data Step : State S → State S → Type 0 where
    moved : (s : State S) (w : S) → Step s (record s { world = w })
    synced : (s : State S) → Step s (sync c s).1

  pub data Reach (s : State S) : State S → Type 0 where
    here : Reach s s
    next : {t u : State S} → Reach s t → Step t u → Reach s u

  Step-IsCached : {s t : State S} → Step s t → IsCached s → IsCached t
  Step-IsCached (moved s w) h = h
  Step-IsCached (synced s) h = sync-cached.at s h

  Reach-IsCached : {s t : State S} → IsCached s → Reach s t → IsCached t
  Reach-IsCached h here = h
  Reach-IsCached h (next r st) = Step-IsCached st (Reach-IsCached h r)

  -- A map that a sync uses: none, or that of a successful answer.
  pub data IsUsable (t : State S) (skus : Dict Sku) : Type 0 where
    unanswered : skus ≡ [] → IsUsable t skus
    asked_now :
        succeeded (c.get_all_sku c.org_name t.world).0 ≡ true
        → skus ≡ sku_map_of (c.get_all_sku c.org_name t.world).0.value []
        → IsUsable t skus
    remembered : {expiry : ℕ} → IsAnswered skus expiry → c.clock t.world < expiry → IsUsable t skus

  fetched-IsUsable :
      (t : State S) (w : S) (reply : Reply (List Sku))
      → reply ≡ (c.get_all_sku c.org_name t.world).0
      → IsUsable t (refresh_sku_map c reply (record t { world = w })).0
  unfolding refresh_sku_map pure ◌>>=◌ now set_cache
  fetched-IsUsable t w reply e = elim (Bool-cases (succeeded reply)) [
    | inl y ↦
        rw y (asked_now (ap (λ r. succeeded r) (sym e) ∙ y) (ap (λ r. sku_map_of r.value []) e))
    | inr n ↦ rw n (unanswered refl)
  ]

  cached-IsUsable :
      (t : State S) (cache : Option (Dict Sku)) (fresh : Bool)
      → IsCacheOf cache t.sku_cache_expiry
      → ltb (c.clock t.world) t.sku_cache_expiry ≡ fresh
      → IsUsable t (cached_or c cache fresh (fetch_sku_map c) t).0
  unfolding cached_or fetch_sku_map IsCacheOf pure ◌>>=◌ call
  cached-IsUsable t none fresh h e = fetched-IsUsable t _ _ refl
  cached-IsUsable t (some skus) true h e = remembered h (ground (arith, e))
  cached-IsUsable t (some skus) false h e = fetched-IsUsable t _ _ refl

  -- In every state that the controller reaches from its set-up by syncs, with any moves of the
  -- world in between, the SKU map that it uses is empty, or is made from a successful answer to its
  -- request of this moment, or is made from a successful answer at which the clock read, plus five
  -- minutes, a time later than now.
  pub get_sku_map-IsUsable :
      (w : S) (t : State S) → Reach (set_up w) t → IsUsable t (get_sku_map c t).0
  unfolding get_sku_map set_up IsCacheOf ◌>>=◌ get_state now
  get_sku_map-IsUsable w t r =
      cached-IsUsable t t.sku_cache _ (Reach-IsCached {s = set_up w} tt r) refl
