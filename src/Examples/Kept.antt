-- ===== src/Examples/Kept.antt =====
-- An encoding/json that reads back what it writes but for the times, and a cluster with it.
use machine_api_provider_nvi.Base.{String, none, some, ◌≡◌, refl, arith, ap, sym, ◌∙◌}
use machine_api_provider_nvi.Api.Errors.{done}
use machine_api_provider_nvi.Api.Sdk.{Instance, updating}
use machine_api_provider_nvi.Actuator.World.{Env, World, Object, typed, found, Json, nested_field}
use machine_api_provider_nvi.Actuator.Provider.Stored.{KeepsStatus, kept}
use machine_api_provider_nvi.Examples.Sample.{env, machine, start, answer, instance_of, nico, json}
use machine_api_provider_nvi.Examples.Timeout.{transition}
use machine_api_provider_nvi.Examples.Texts.{write_status, read_status, kept-read_status}

abbrev pub plain_json : Json
plain_json = record json {
  unmarshal_status = λ raw. done (read_status raw);
  marshal_status = λ s. done (write_status s);
  nested_status = λ content. nested_field (done content);
  set_nested_status = λ content status_map. done status_map;
}

-- A machine of the status with this text.
abbrev pub stored_object : String → Object
stored_object raw = record (machine 0 none) {
  kind = typed (record {
    provider_spec_value = some "spec";
    provider_status = some raw;
    provider_id = some "nico://org/uuu/uu/uuu";
    error_reason = none;
    error_message = none;
  });
}

-- The object after the creation: the ID of the instance, and InstanceProvisioned.
abbrev pub created_object : Object
created_object =
    stored_object
      "x+xuxuxu....xi.xIxnxsxtxaxnxcxexPxrxoxvxixsxixoxnxexd.xTxrxuxe.xIxnxsxtxaxnxcxexCxrxexaxtxexd.xIxnxsxtxaxnxcxex xuxuxux xcxrxexaxtxexdx xsxuxcxcxexsxsxfxuxlxlxy."

-- The object after an update, while the instance is updated: also its state, and InstanceReady.
abbrev pub updated_object : Object
updated_object =
    stored_object
      "x+xuxuxu..x+xUxpxdxaxtxixnxg..xixi.xIxnxsxtxaxnxcxexPxrxoxvxixsxixoxnxexd.xTxrxuxe.xIxnxsxtxaxnxcxexCxrxexaxtxexd.xIxnxsxtxaxnxcxex xuxuxux xcxrxexaxtxexdx xsxuxcxcxexsxsxfxuxlxlxy.xIxnxsxtxaxnxcxexRxexaxdxy.xFxaxlxsxe.xUxpxdxaxtxixnxg.xIxnxsxtxaxnxcxex xixsx xbxexixnxgx xuxpxdxaxtxexd."

-- The same, when it is being deleted.
abbrev pub deleted_object : Object
deleted_object = record updated_object { deletion_timestamp = 900 }

-- A cluster whose API creates an instance without a state, which is then being updated.
abbrev pub plain_instance : Instance
plain_instance = record (instance_of "uuu") { machine_id = none; status = none }

abbrev pub plain_env : Env
plain_env =
    let e = env (machine 0 none) in
    record e {
      json = plain_json;
      set_status_condition = transition;
      nico = λ client. record nico {
        create_instance = λ h org req. answer (some plain_instance);
        get_instance = λ h org id. answer (some (record plain_instance { status = some updating }));
      };
      kube = record e.kube { get_object = λ h. found deleted_object };
    }

pub plain_env-KeepsStatus : KeepsStatus plain_env
plain_env-KeepsStatus = record {
  read_back = λ s raw h.
      let is_text : write_status s ≡ raw = grind (arith, h) in
      (
        read_status raw,
        refl,
        ap (λ text. kept (read_status text)) (sym is_text) ∙ kept-read_status s,
      );
  nest_back = λ raw status_map content content' h h'.
      let is_map : raw ≡ status_map = grind (arith, h) in
      let is_content : status_map ≡ content' = grind (arith, h') in
      (content', refl, ap (λ r. done (read_status r)) (sym is_content ∙ sym is_map));
  nest_id = λ content id content' h.
      let same : content ≡ content' = grind (arith, h) in
      ap (λ c. nested_field (done c)) (sym same);
  status_kept = λ h o s fine holds. holds;
  object_kept = λ h o s written fine holds. holds;
}

abbrev pub new_machine : World
new_machine = start (machine 0 none)
