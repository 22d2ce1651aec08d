-- ===== src/Manager/Registration.antt =====
-- registerController and deregisterController (cmd/polaris-controller/app/polaris-controller-manager.go): the
-- controller as an instance of a service of Polaris. net.Dial, which finds the local address, and the
-- registry are parameters; an error of the registry is logged only. Deregistration waits for a channel
-- that is never closed where leader election is off.
use polaris_controller.Common.{
  ℕ, String, Bool, true, ◌==◌, ◌≡◌, ◌↔◌, refl, sym, ap, ◌∙◌, Option, none, some, List, ◌∷◌,
  if◌then◌else◌, Bool-cases, inl, inr, arith, eq_iff,
}
use polaris_controller.Common.Int.{ℤ}
use polaris_controller.Common.Outcome.{ok, panic, Exec, crash, modify, gets, ◌>>=◌, ◌>>◌, when}
use polaris_controller.Util.Text.{◌⋯◌}

-- InstanceRegisterRequest of the SDK, with the fields that are set
pub record InstanceRegisterRequest : Type 0 where
  pub service : String
  pub service_token : String
  pub namespace : String
  pub host : String
  pub port : ℤ
  pub ttl : Option ℕ
  pub auto_heartbeat : Bool

-- InstanceDeRegisterRequest of the SDK, with the fields that are set
pub record InstanceDeregisterRequest : Type 0 where
  pub service : String
  pub service_token : String
  pub namespace : String
  pub host : String
  pub port : ℤ

pub data Request : Type 0 where
  register : InstanceRegisterRequest → Request
  deregister : InstanceDeregisterRequest → Request

-- The variable podIP, and the requests sent, newest first.
pub record Provider : Type 0 where
  pub pod_ip : String
  pub requests : List Request

abbrev set_ip : String → Provider → Provider
set_ip ip p = record p { pod_ip = ip }

send : Request → Exec Provider (Unit {0})
send r = modify (λ p. record p { requests = r ∷ p.requests })

-- conn.LocalAddr() after a Dial that failed is a call of nil.
dialed : Option String → Exec Provider (Unit {0})
dialed none = crash
dialed (some ip) = modify (set_ip ip)

module _ (dial : Option String) (token cluster_name : String) (port : ℤ) where
  register_request : String → InstanceRegisterRequest
  register_request host = record {
    service = "polaris-controller." ⋯ cluster_name;
    service_token = token;
    namespace = "Polaris";
    host = host;
    port = port;
    ttl = some 5;
    auto_heartbeat = true;
  }

  -- registerController
  unfoldable pub register_controller : Exec Provider (Unit {0})
  unfolding send dialed register_request
  register_controller = gets (λ p. p.pod_ip == "") >>= λ unknown.
      when unknown (dialed dial)
      >> (gets (λ p. p.pod_ip) >>= λ host. send (register (register_request host)))

  deregister_request : String → InstanceDeregisterRequest
  deregister_request host = record {
    service = "polaris-controller." ⋯ cluster_name;
    namespace = "Polaris";
    service_token = token;
    host = host;
    port = port;
  }

  -- deregisterController
  unfoldable pub deregister_controller : Exec Provider (Unit {0})
  unfolding send deregister_request
  deregister_controller =
      gets (λ p. p.pod_ip) >>= λ host. send (deregister (deregister_request host))

  -- registerController panics exactly if the pod's address is not given and Dial fails.
  pub register_controller-panics_iff :
      (p : Provider) → ((register_controller p).0 ≡ panic) ↔ ((p.pod_ip ≡ "") × (dial ≡ none))
  unfolding register_controller dialed
  register_controller-panics_iff p = ground (arith, eq_iff p.pod_ip "")

  -- The fields by which the registry finds an instance.
  abbrev pub IsSameInstance : InstanceRegisterRequest → InstanceDeregisterRequest → Type 0
  IsSameInstance r d =
      (r.service ≡ d.service)
      × (r.service_token ≡ d.service_token)
      × (r.namespace ≡ d.namespace)
      × (r.host ≡ d.host)
      × (r.port ≡ d.port)

  registered :
      (p : Provider) (ip : String)
      → (if p.pod_ip == "" then dial else some p.pod_ip) ≡ some ip
      → register_controller p
        ≡ (ok tt, record { pod_ip = ip; requests = register (register_request ip) ∷ p.requests })
  unfolding register_controller send dialed
  registered p ip h = elim (Bool-cases (p.pod_ip == "")) [
    | inl unknown ↦ let found : dial ≡ some ip = rw unknown at h in rw (unknown, found) refl
    | inr given ↦
        let same : p.pod_ip ≡ ip = cc (rw given at h) in
        rw given (λ i. (
          ok tt,
          record { pod_ip = same i; requests = register (register_request (same i)) ∷ p.requests },
        ))
  ]

  -- A controller that knows its address, or finds it by Dial, registers itself there once, with a
  -- heartbeat every five seconds that the SDK reports. A later run of deregisterController, while the
  -- variable podIP is as it was left, asks once to take off the instance of the same service, namespace,
  -- host and port, with the same token.
  pub deregister_controller-register_controller :
      (p later : Provider) (ip : String)
      → (if p.pod_ip == "" then dial else some p.pod_ip) ≡ some ip
      → later.pod_ip ≡ (register_controller p).1.pod_ip
      → (r : InstanceRegisterRequest) × (d : InstanceDeregisterRequest) × (register_controller p
          ≡ (ok tt, record { pod_ip = ip; requests = register r ∷ p.requests }))
        × (deregister_controller later
            ≡ (ok tt, record later { requests = deregister d ∷ later.requests }))
        × IsSameInstance r d
        × (r.host ≡ ip)
        × (r.ttl ≡ some 5)
        × (r.auto_heartbeat ≡ true)
  unfolding deregister_controller send deregister_request register_request
  deregister_controller-register_controller p later ip h kept =
      let start = registered p ip h in
      let at_ip : ip ≡ later.pod_ip = sym (kept ∙ ap (λ r. r.1.pod_ip) start) in
      (
        register_request ip,
        deregister_request later.pod_ip,
        start,
        refl,
        (refl, refl, refl, at_ip, refl),
        refl,
        refl,
        refl,
      )
