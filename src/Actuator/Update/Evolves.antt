-- ===== src/Actuator/Update/Evolves.antt =====
-- The life of a machine object between its creation and its deletion.
use machine_api_provider_nvi.Base.{String, ◌≡◌, ◌∙◌, ap}
use machine_api_provider_nvi.Actuator.World.{Env, World, History, Object}
use machine_api_provider_nvi.Actuator.World.Growth.{Returns}
use machine_api_provider_nvi.Actuator.Provider.Stored.Reads.{get_provider_status-Holds}
use machine_api_provider_nvi.Actuator.Provider.Stored.{KeepsStatus}
use machine_api_provider_nvi.Actuator.Create.Stored.{HoldsId, HoldsId-same}
use machine_api_provider_nvi.Actuator.Update.{update}
use machine_api_provider_nvi.Actuator.Update.Followed.{update-Followed}

-- From the state after a call to one after some updates that succeeded. Each starts, at any time,
-- from an object of the content that the call before it left; its metadata may be others.
pub data Evolves (env : Env) (w : World) : World → Type 0 where
  stays : Evolves env w w
  updates :
      {w₁ w₂ : World} (o : Object) (h : History) (u : Unit {0})
      → Evolves env w w₁
      → o.kind ≡ w₁.object.kind
      → Returns (update env) (record { object = o; history = h }) u w₂
      → Evolves env w w₂

module _ (env : Env) (keeps : KeepsStatus env) (id : String) where
  update-HoldsId :
      (w w' : World) (u : Unit {0})
      → HoldsId env w.object id
      → Returns (update env) w u w'
      → HoldsId env w'.object id
  update-HoldsId w w' u holds h =
      let f = update-Followed env keeps w w' u h in
      let read =
        get_provider_status-Holds env holds.status w.object f.read.before f.read.after f.old
          holds.holds f.read.answer in
      record {
        status = f.new;
        holds = f.stored;
        has_id = f.follows.id_kept ∙ ap (λ s. s.instance_id) read ∙ holds.has_id;
      }

  -- The ID stays.
  pub Evolves-HoldsId :
      (w w' : World) → Evolves env w w' → HoldsId env w.object id → HoldsId env w'.object id
  Evolves-HoldsId w w' stays holds = holds
  Evolves-HoldsId w w' (updates {w₁} o h u before same returned) holds =
      update-HoldsId (record { object = o; history = h }) w' u
        (HoldsId-same env o w₁.object id same (Evolves-HoldsId w w₁ before holds)) returned
