-- ===== src/Mesh/Subnets/Laws.antt =====
-- What `allocate` (coolify-cli/src/wireguard/subnet.rs) relies on of the crate `ipnet`, for one pool
-- and one length of prefix: `PoolLaws`, and `NetLaws` where the prefix fits the pool.
use coold.Prelude.{leb, string_eq, nat_eq, ℕ, ◌+◌, ◌%◌, ◌≤◌, ◌<◌, ◌≡◌, ◌⊎◌, ◌&&◌, some}
use coold.Mesh.Addresses.{u32_max}
use coold.Mesh.Subnets.{NetLibrary, step_of}

pub record NetLaws (lib : NetLibrary) (pool : lib.Net) (prefix : ℕ) : Type 0 where
  -- the pool begins and ends on the boundary of a subnet, and has one
  pub pool_start : lib.network pool % step_of prefix ≡ 0
  pub pool_end : (lib.broadcast pool + 1) % step_of prefix ≡ 0
  pub holds_lem :
      (ip : ℕ) → lib.holds pool ip ≡ (leb (lib.network pool) ip && leb ip (lib.broadcast pool))
  -- a network of this prefix begins on a boundary and ends before the next one
  pub aligned : (net : lib.Net) → lib.prefix_len net ≡ prefix → lib.network net % step_of prefix ≡ 0
  pub last :
      (net : lib.Net)
      → lib.prefix_len net ≡ prefix
      → lib.broadcast net + 1 ≡ lib.network net + step_of prefix
  -- `new` at a boundary
  pub made :
      (n : ℕ)
      → n ≤ u32_max
      → n % step_of prefix ≡ 0
      → (net : lib.Net) × (lib.new_net n prefix ≡ some net)
        × (lib.prefix_len net ≡ prefix)
        × (lib.network net ≡ n)

-- The same for any pool and prefix: only a prefix that fits the pool has these boundaries.
pub record PoolLaws (lib : NetLibrary) (pool : lib.Net) (prefix : ℕ) : Type 0 where
  pub starts : lib.prefix_len pool ≤ prefix → prefix ≤ 32 → lib.network pool % step_of prefix ≡ 0
  pub ends :
      lib.prefix_len pool ≤ prefix → prefix ≤ 32 → (lib.broadcast pool + 1) % step_of prefix ≡ 0
  pub within :
      (ip : ℕ) → lib.holds pool ip ≡ (leb (lib.network pool) ip && leb ip (lib.broadcast pool))
  pub even : (net : lib.Net) → lib.prefix_len net ≡ prefix → lib.network net % step_of prefix ≡ 0
  pub sized :
      (net : lib.Net)
      → lib.prefix_len net ≡ prefix
      → lib.broadcast net + 1 ≡ lib.network net + step_of prefix
  pub created :
      (n : ℕ)
      → prefix ≤ 32
      → n ≤ u32_max
      → n % step_of prefix ≡ 0
      → (net : lib.Net) × (lib.new_net n prefix ≡ some net)
        × (lib.prefix_len net ≡ prefix)
        × (lib.network net ≡ n)

pub PoolLaws-NetLaws :
    (lib : NetLibrary) (pool : lib.Net) (prefix : ℕ)
    → lib.prefix_len pool ≤ prefix
    → prefix ≤ 32
    → PoolLaws lib pool prefix
    → NetLaws lib pool prefix
PoolLaws-NetLaws lib pool prefix fits small laws = record {
  pool_start = laws.starts fits small;
  pool_end = laws.ends fits small;
  holds_lem = laws.within;
  aligned = laws.even;
  last = laws.sized;
  made = λ n. laws.created n small;
}

-- Networks that have no address in common.
abbrev pub AreDisjoint : (lib : NetLibrary) → lib.Net → lib.Net → Type 0
AreDisjoint lib a b = (lib.broadcast a < lib.network b) ⊎ (lib.broadcast b < lib.network a)
