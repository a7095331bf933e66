-- ===== src/Ring/Index.antt =====
-- Indices that go round by `& size_mask`, as all ring buffers of the programs compute them: on
-- uint32_t, with a mask one below a power of two.
use Prim.Native.Nat.{bit_and}
use native.Mathlib.Nat.{add-mul-mod_self_left}
use trading_latency_benchmar.Prelude.{ℕ, ◌+◌, ◌-◌, ◌*◌, ◌%◌, ◌^◌, ◌≤◌, ◌≡◌, ◌∙◌, ap, arith}
use trading_latency_benchmar.Prelude.Words.{bit_and-mask32, pow-pos, pow_split}

-- (i + 1) & mask
abbrev pub next_index : ℕ → ℕ → ℕ
next_index mask i = bit_and ((i + 1) % 2 ^ 32) mask

-- (ahead - behind) & mask
abbrev pub index_distance : ℕ → ℕ → ℕ → ℕ
index_distance mask ahead behind = bit_and ((ahead + 2 ^ 32 - behind) % 2 ^ 32) mask

-- A mask of ones, for a size of at most 2^32.
pub record IsMask (mask : ℕ) : Type 0 where
  pub width : ℕ
  pub wide : width ≤ 32
  pub ones : mask ≡ 2 ^ width - 1

-- Such a mask is one below the size, and `& mask` is the remainder by the size.
pub mask-size : {mask : ℕ} (m : IsMask mask) → mask + 1 ≡ 2 ^ m.width
mask-size m = omega (arith, m.ones, pow-pos m.width)

pub mask-mod : {mask : ℕ} → IsMask mask → (x : ℕ) → bit_and (x % 2 ^ 32) mask ≡ x % (mask + 1)
mask-mod m x = rw (mask-size m, m.ones) (bit_and-mask32 m.width x m.wide)

pub next_index-mod : {mask : ℕ} → IsMask mask → (i : ℕ) → next_index mask i ≡ (i + 1) % (mask + 1)
next_index-mod m i = mask-mod m (i + 1)

pub index_distance-mod :
    {mask : ℕ}
    → IsMask mask
    → (a b : ℕ) → b ≤ mask
    → index_distance mask a b ≡ (a + (mask + 1) - b) % (mask + 1)
index_distance-mod {mask} m a b h =
    let n = 2 ^ m.width in
    let (c, whole) = pow_split (32 - m.width) m.width 32 (omega (arith, m.wide)) in
    let more : a + 2 ^ 32 - b ≡ (a + n - b) + n * c = omega (arith, whole, mask-size m) in
    rw (mask-size m) (
      (ap (λ k. bit_and ((a + 2 ^ 32 - b) % 2 ^ 32) k) m.ones
        ∙ bit_and-mask32 m.width (a + 2 ^ 32 - b) m.wide)
      ∙ (ap (λ k. k % n) more ∙ add-mul-mod_self_left (a + n - b) n c))
