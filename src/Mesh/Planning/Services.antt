-- ===== src/Mesh/Planning/Services.antt =====
-- When `build_plan` (coolify-cli/src/wireguard/plan.rs) has nothing to do on Podman, the firewall,
-- Corrosion and coold of a node.
use coold.Prelude.{
  string_eq, nat_eq, ◌==◌, ==_iff, ==_refl, is_empty, ℕ, String, ◌≡◌, refl, ◌↔◌, Bool, true, false,
  ◌||◌, not, [], arith,
}
use coold.Mesh.Subnets.{NetLibrary}
use coold.Mesh.Services.Corrosion.{coolify_schema_sql}
use coold.Mesh.State.{ServerState, MeshRequest}
use coold.Mesh.Planning.Hosts.{PlanLibrary, push_if}
use coold.Mesh.Planning.Nodes.{binary_version_drift, schema_actions, coold_drift_actions}
use coold.Mesh.Planning.Converged.{append_empty, push_if_empty}

-- A binary that is not replaced: there is one, of the wanted version, which does not move.
pub record IsPinned (want : String) (installed : Bool) (have : String) : Type 0 where
  pub present : installed ≡ true
  pub version : have ≡ want
  pub not_empty : is_empty want ≡ false
  pub not_nightly : (want == "nightly") ≡ false
  pub not_latest : (want == "latest") ≡ false

binary_version_drift-IsPinned :
    (want : String) (installed : Bool) (have : String)
    → (binary_version_drift want installed have ≡ false) ↔ IsPinned want installed have
unfolding binary_version_drift
binary_version_drift-IsPinned want installed have = (there, back)
  where
    there : binary_version_drift want installed have ≡ false → IsPinned want installed have
    there h =
        let same = (==_iff have want).0 (ground (arith, h)) in
        let full : is_empty have ≡ false = ground (arith, h) in
        record {
          present = ground (arith, h);
          version = same;
          not_empty = rw same at full;
          not_nightly = ground (arith, h);
          not_latest = ground (arith, h);
        }

    back : IsPinned want installed have → binary_version_drift want installed have ≡ false
    back v =
        rw v.version
          (ground (arith, v.present, v.not_empty, v.not_nightly, v.not_latest, ==_refl want))

not-false : (b : Bool) → not b ≡ false → b ≡ true
not-false b h = ground (arith, h)

module _ (lib : NetLibrary) (print : PlanLibrary lib) where
  open lib use {Net, network}
  open print use {show_net, same_net, show_ip, sha256_hex}

  -- Corrosion and coold run, at pinned versions, and their files are the ones that are wanted.
  pub record IsDeployed (r : MeshRequest Net) (state : ServerState Net) (cfg coold_unit : String)
      : Type 0 where
    pub corrosion :
        IsPinned r.desired.corrosion_version state.corrosion_installed state.corrosion_version
    pub coold : IsPinned r.desired.coold_version state.coold_installed state.coold_version
    pub config : state.corrosion_config_hash ≡ sha256_hex cfg
    pub schema : state.corrosion_schema_sha256 ≡ sha256_hex coolify_schema_sql
    pub schema_there : state.corrosion_schema_exists ≡ true
    pub unit : state.coold_unit_sha256 ≡ sha256_hex coold_unit
    pub corrosion_runs : state.corrosion_active ≡ true
    pub coold_runs : state.coold_active ≡ true

  -- There is nothing to do on Corrosion and coold of a node exactly if both are deployed: they run,
  -- are installed at the wanted versions, which are not moving ones, and the hashes of the
  -- configuration, the schema and the unit are those of the wanted texts.
  pub coold_drift_actions-IsDeployed :
      (r : MeshRequest Net) (host : String) (mgmt_ip : ℕ) (state : ServerState Net)
      (cfg coold_unit : String) (peers names : ℕ)
      → (coold_drift_actions lib print r host mgmt_ip state cfg coold_unit peers names ≡ [])
        ↔ IsDeployed r state cfg coold_unit
  unfolding coold_drift_actions schema_actions push_if
  coold_drift_actions-IsDeployed r host mgmt_ip state cfg coold_unit peers names = (there, back)
    where
      there :
          coold_drift_actions lib print r host mgmt_ip state cfg coold_unit peers names ≡ []
          → IsDeployed r state cfg coold_unit
      there h =
          let (a, h₁) = (append_empty _ _).0 h in
          let (b, h₂) = (append_empty _ _).0 h₁ in
          let (c, h₃) = (append_empty _ _).0 h₂ in
          let (d, h₄) = (append_empty _ _).0 h₃ in
          let (e, f) = (append_empty _ _).0 h₄ in
          let config : not (state.corrosion_config_hash == sha256_hex cfg) ≡ false =
            (push_if_empty _ _).0 c in
          let schema : not state.corrosion_schema_exists
                || not (state.corrosion_schema_sha256 == sha256_hex coolify_schema_sql)
              ≡ false =
            (push_if_empty _ _).0 d in
          let corrosion_up = (push_if_empty _ _).0 e in
          let coold_up = (push_if_empty _ _).0 f in
          let unit : (state.coold_unit_sha256 == sha256_hex coold_unit) ≡ true =
            ground (arith, coold_up) in
          record {
            corrosion = (binary_version_drift-IsPinned _ _ _).0 ((push_if_empty _ _).0 a);
            coold = (binary_version_drift-IsPinned _ _ _).0 ((push_if_empty _ _).0 b);
            config = (==_iff _ _).0 (not-false _ config);
            schema = (==_iff _ _).0 (ground (arith, schema));
            schema_there = ground (arith, schema);
            unit = (==_iff _ _).0 unit;
            corrosion_runs = ground (arith, corrosion_up);
            coold_runs = ground (arith, coold_up);
          }

      back :
          IsDeployed r state cfg coold_unit
          → coold_drift_actions lib print r host mgmt_ip state cfg coold_unit peers names ≡ []
      back v =
          let a = (binary_version_drift-IsPinned _ _ _).1 v.corrosion in
          let b = (binary_version_drift-IsPinned _ _ _).1 v.coold in
          let c = (==_iff _ _).1 v.config in
          let d = (==_iff _ _).1 v.schema in
          let e = (==_iff _ _).1 v.unit in
          rw (a, b, c, d, e, v.schema_there, v.corrosion_runs, v.coold_runs, push_if) refl
