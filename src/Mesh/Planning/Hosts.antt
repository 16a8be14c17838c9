-- ===== src/Mesh/Planning/Hosts.antt =====
-- What `build_plan` (coolify-cli/src/wireguard/plan.rs) plans for every host: the first part of the
-- loop's body, as the list of the actions that it pushes.
use coold.Prelude.{
  ltb, leb, if◌then◌else◌, string_eq, nat_eq, ◌==◌, contains, length, any, lookup, is_empty,
  byte_length, ℕ, zero, suc, ◌-◌, String, Bool, true, false, ◌&&◌, ◌||◌, not, Option, none, some,
  List, [], ◌∷◌, ◌++◌, map,
}
use coold.Agent.Rules.{to_string}
use coold.Mesh.Intent.{
  ActionType, install_wg, gen_key_pair, write_config, enable_service, reload_service, add_peer,
  remove_peer, PlannedAction,
}
use coold.Mesh.Subnets.{NetLibrary}
use coold.Mesh.Texts.{concat, set_of, difference}
use coold.Mesh.State.{Peer, ServerState, unknown_server, MeshState, MeshRequest, listen_port_for}

-- `Display` and `PartialEq` of `Ipv4Net`, `Display` of `Ipv4Addr`, and `sha256_hex`.
pub record PlanLibrary (lib : NetLibrary) : Type 0 where
  pub show_net : lib.Net → String
  pub same_net : lib.Net → lib.Net → Bool
  pub show_ip : ℕ → String
  pub sha256_hex : String → String

abbrev pub push : String → String → ActionType → String → PlannedAction
push host ns action_type detail = record {
  host = host;
  namespace = ns;
  action_type = action_type;
  detail = detail;
}

-- A `push` under a condition.
unfoldable pub push_if : Bool → PlannedAction → List PlannedAction
push_if b a = if b then a ∷ [] else []

unfoldable pub first_chars : ℕ → String → String
first_chars zero t = ""
first_chars (suc n) String.[] = ""
first_chars (suc n) (String.◌∷◌ c t) = String.◌∷◌ c (first_chars n t)

-- For keys in ASCII, as WireGuard's are.
unfoldable pub truncate_key : String → String
unfolding byte_length first_chars concat
truncate_key k = if leb (byte_length k) 8 then k else concat (first_chars 8 k ∷ "..." ∷ [])

abbrev pub is_ip : Option ℕ → ℕ → Bool
is_ip none ip = false
is_ip (some n) ip = n == ip

module _ {Net : Type 0} where
  abbrev pub state_of : MeshState Net → String → ServerState Net
  state_of servers host = elim (lookup host servers) [ none ↦ unknown_server | some s ↦ s ]

  abbrev pub found_key : Option (ServerState Net) → List String
  found_key none = []
  found_key (some s) = if is_empty s.public_key then [] else s.public_key ∷ []

  abbrev pub key_missing : Option (ServerState Net) → Bool
  key_missing none = true
  key_missing (some s) = is_empty s.public_key

  -- The keys that are known of the other hosts.
  unfoldable pub other_keys : MeshState Net → String → List String → List String
  unfolding lookup
  other_keys servers host [] = []
  other_keys servers host (p ∷ hosts) =
      let rest = other_keys servers host hosts in
      if p == host then rest else found_key (lookup p servers) ++ rest

  unfoldable pub peer_key_pending : MeshState Net → String → List String → Bool
  unfolding lookup
  peer_key_pending servers host [] = false
  peer_key_pending servers host (p ∷ hosts) =
      (not (p == host) && key_missing (lookup p servers)) || peer_key_pending servers host hosts

  unfoldable pub current_keys : ServerState Net → List String
  unfolding set_of
  current_keys state = set_of (map (λ (p : Peer). p.public_key) state.peers)

  unfoldable pub desired_keys : MeshRequest Net → MeshState Net → String → List String
  unfolding set_of other_keys
  desired_keys r servers host = set_of (other_keys servers host r.hosts)

  unfoldable pub needs_config :
      MeshRequest Net → MeshState Net → String → ℕ → ServerState Net → Bool
  unfolding peer_key_pending desired_keys current_keys listen_port_for
  needs_config r servers host mgmt_ip state =
      let peer_drift =
        any (λ k. not (contains (current_keys state) k)) (desired_keys r servers host) in
      not (is_ip state.wireguard_mgmt_ip mgmt_ip)
      || (peer_drift
          || (peer_key_pending servers host r.hosts
              || (not state.keys_exist
                  || (not state.installed
                      || (ltb 1 (length r.hosts)
                          && not (state.listen_port == listen_port_for r host))))))

  -- `EnableService` or `ReloadService`
  unfoldable pub service_actions : MeshRequest Net → String → Bool → Bool → List PlannedAction
  unfolding push_if concat
  service_actions r host active config =
      if not active
      then push host "" enable_service
          (concat ("systemctl enable --now wg-quick@" ∷ r.interface ∷ []))
        ∷ []
      else push_if config (
          push host "" reload_service
            (concat ("systemctl reload wg-quick@" ∷ r.interface ∷ " (config changed)" ∷ [])))

  unfoldable pub wireguard_actions :
      MeshRequest Net → MeshState Net → String → ℕ → ServerState Net → List PlannedAction
  unfolding push_if current_keys desired_keys truncate_key needs_config service_actions concat
      to_string
  wireguard_actions r servers host mgmt_ip state =
      let current = current_keys state in
      let wanted = desired_keys r servers host in
      let config = needs_config r servers host mgmt_ip state in
      push_if (not state.installed) (push host "" install_wg "wireguard not installed")
      ++ (push_if (not state.keys_exist)
            (push host "" gen_key_pair "missing /etc/wireguard/privatekey")
          ++ (map (λ key. push host "" add_peer (truncate_key key)) (difference wanted current)
              ++ (map (λ key. push host "" remove_peer (truncate_key key))
                    (difference current wanted)
                  ++ (push_if config (
                        push host "" write_config (
                          concat (
                            r.interface
                            ∷ ".conf ("
                            ∷ to_string (length r.hosts - 1)
                            ∷ " peer(s))"
                            ∷ [])))
                      ++ service_actions r host state.active config))))
