-- ===== src/Examples/Texts.antt =====
-- A text for a provider status, which reads back as all of it but the times and the labels.
use Prim.Native.Char.{code}
use machine_api_provider_nvi.Base.{
  String, Option, none, some, List, [], ◌∷◌, map, ◌≡◌, refl, ap, ◌∙◌, eqb, ◌==◌, string_eq,
  if◌then◌else◌,
}
use machine_api_provider_nvi.Api.Types.{
  NicoMachineProviderStatus, MachineAddress, Condition, ConditionStatus, condition_true,
  condition_false, condition_unknown,
}
use machine_api_provider_nvi.Actuator.Provider.Stored.{kept, forget_time}

-- A token is its characters, each after an "x", and then a ".".
unfoldable pub write_token : String → String → String
write_token String.[] rest = String.◌∷◌ "." rest
write_token (String.◌∷◌ c s) rest = String.◌∷◌ "x" (String.◌∷◌ c (write_token s rest))

-- The first token, and the text after it.
unfoldable pub read_token : String → String × String
read_token String.[] = ("", "")
read_token (String.◌∷◌ c String.[]) = ("", "")
read_token (String.◌∷◌ c (String.◌∷◌ d s)) =
    let rest = read_token s in
    if eqb (code c) b'.' then ("", String.◌∷◌ d s) else (String.◌∷◌ d rest.0, rest.1)

read_token-write_token : (s rest : String) → read_token (write_token s rest) ≡ (s, rest)
unfolding read_token write_token
read_token-write_token String.[] String.[] = refl
read_token-write_token String.[] (String.◌∷◌ d s) = refl
read_token-write_token (String.◌∷◌ c s) rest =
    ap (λ r. (String.◌∷◌ c r.0, r.1)) (read_token-write_token s rest)

-- A text that may be missing.
abbrev token_of : Option String → String
token_of none = ""
token_of (some s) = String.◌∷◌ "+" s

abbrev of_token : String → Option String
of_token String.[] = none
of_token (String.◌∷◌ c s) = some s

of_token-token_of : (o : Option String) → of_token (token_of o) ≡ o
of_token-token_of none = refl
of_token-token_of (some s) = refl

-- The values of one type, one after the other, with their number in unary before them.
abbrev marks : {A : Type 0} → List A → String
marks [] = ""
marks (a ∷ rest) = String.◌∷◌ "i" (marks rest)

abbrev write_items : {A : Type 0} → (A → String → String) → List A → String → String
write_items write [] rest = rest
write_items write (a ∷ items) rest = write a (write_items write items rest)

abbrev read_items : {A : Type 0} → (String → A × String) → String → String → List A × String
read_items read String.[] text = ([], text)
read_items read (String.◌∷◌ c count) text =
    let first = read text in
    let items = read_items read count first.1 in (first.0 ∷ items.0, items.1)

-- The items read back as what `f` makes of them, if each does.
read_items-write_items :
    {A : Type 0} (write : A → String → String) (read : String → A × String) (f : A → A)
    (back : (a : A) (rest : String) → read (write a rest) ≡ (f a, rest)) (items : List A)
    (rest : String)
    → read_items read (marks items) (write_items write items rest) ≡ (map f items, rest)
read_items-write_items write read f back [] rest = refl
read_items-write_items write read f back (a ∷ items) rest =
    rw (back a (write_items write items rest), read_items-write_items write read f back items rest)
      refl

abbrev write_address : MachineAddress → String → String
write_address a rest = write_token a.address_type (write_token a.address rest)

abbrev read_address : String → MachineAddress × String
read_address text =
    let (type, text₁) = read_token text in
    let (address, rest) = read_token text₁ in
    (record { address_type = type; address = address }, rest)

read_address-write_address :
    (a : MachineAddress) (rest : String) → read_address (write_address a rest) ≡ (a, rest)
read_address-write_address a rest = rw read_token-write_token (rw read_token-write_token refl)

abbrev status_token : ConditionStatus → String
status_token condition_true = "True"
status_token condition_false = "False"
status_token condition_unknown = "Unknown"

abbrev status_of_token : String → ConditionStatus
status_of_token text =
    if text == "True"
    then condition_true
    else if text == "False"
    then condition_false
    else condition_unknown

status_of_token-status_token :
    (status : ConditionStatus) → status_of_token (status_token status) ≡ status
status_of_token-status_token condition_true = refl
status_of_token-status_token condition_false = refl
status_of_token-status_token condition_unknown = refl

abbrev write_condition : Condition → String → String
write_condition c rest =
    write_token c.condition_type
      (write_token (status_token c.status) (write_token c.reason (write_token c.message rest)))

abbrev read_condition : String → Condition × String
read_condition text =
    let (type, text₁) = read_token text in
    let (status, text₂) = read_token text₁ in
    let (reason, text₃) = read_token text₂ in
    let (message, rest) = read_token text₃ in
    (
      record {
        condition_type = type;
        status = status_of_token status;
        reason = reason;
        message = message;
        last_transition_time = 0;
      },
      rest,
    )

read_condition-write_condition :
    (c : Condition) (rest : String)
    → read_condition (write_condition c rest) ≡ (forget_time c, rest)
read_condition-write_condition c rest = rw read_token-write_token (
    rw read_token-write_token (
      rw read_token-write_token
        (rw read_token-write_token (rw (status_of_token-status_token c.status) refl))))

unfoldable pub write_status : NicoMachineProviderStatus → String
write_status s = write_token (token_of s.instance_id) (
    write_token (token_of s.machine_id) (
      write_token (token_of s.instance_state) (
        write_token (marks s.addresses) (
          write_items write_address s.addresses
            (write_token (marks s.conditions) (write_items write_condition s.conditions ""))))))

unfoldable pub read_status : String → NicoMachineProviderStatus
read_status text =
    let (id, text₁) = read_token text in
    let (machine, text₂) = read_token text₁ in
    let (state, text₃) = read_token text₂ in
    let (address_count, text₄) = read_token text₃ in
    let (addresses, text₅) = read_items read_address address_count text₄ in
    let (condition_count, text₆) = read_token text₅ in
    let (conditions, _) = read_items read_condition condition_count text₆ in
    record {
      instance_id = of_token id;
      machine_id = of_token machine;
      instance_state = of_token state;
      addresses = addresses;
      conditions = conditions;
      health_labels = [];
    }

same_addresses : (items : List MachineAddress) → map (λ a. a) items ≡ items
same_addresses [] = refl
same_addresses (a ∷ items) = ap (λ rest. a ∷ rest) (same_addresses items)

pub read_status-write_status :
    (s : NicoMachineProviderStatus) → read_status (write_status s) ≡ kept s
unfolding read_status write_status
read_status-write_status s = rw read_token-write_token (
    rw read_token-write_token (
      rw read_token-write_token (
        rw read_token-write_token (
          rw (read_items-write_items write_address read_address (λ a. a) read_address-write_address)
            (rw read_token-write_token (
              rw
                (read_items-write_items write_condition read_condition forget_time
                  read_condition-write_condition)
                (rw
                  (
                    of_token-token_of s.instance_id,
                    of_token-token_of s.machine_id,
                    of_token-token_of s.instance_state,
                    same_addresses s.addresses,
                  )
                  refl)))))))

forgotten : (cs : List Condition) → map forget_time (map forget_time cs) ≡ map forget_time cs
forgotten [] = refl
forgotten (c ∷ cs) = ap (λ rest. forget_time c ∷ rest) (forgotten cs)

pub kept-read_status :
    (s : NicoMachineProviderStatus) → kept (read_status (write_status s)) ≡ kept s
kept-read_status s =
    ap kept (read_status-write_status s)
    ∙ ap (λ cs. record (kept s) { conditions = cs }) (forgotten s.conditions)
