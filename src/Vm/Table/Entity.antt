-- ===== src/Vm/Table/Entity.antt =====
-- Entity handles: chunk and index in one word, with 0 kept for no entity.
use nextnucleus.Base.{ℕ, ◌+◌, ◌-◌, ◌*◌, ◌/◌, ◌%◌, ◌^◌, ◌<◌, ◌≡◌, ◌≢◌, arith, u16_mod, u32_mod}
use nextnucleus.Base.Bits.{bit_or-eq-add}
use nextnucleus.Vm.Table.{entity_index, entity_chunk, entity_build}

-- A chunk and an index of 16 bits, other than the last index of the last chunk, are those of the
-- handle that is built from them, and the handle is not 0.
pub entity_build_lem :
    (chunk index : ℕ)
    → chunk < u16_mod
    → index < u16_mod
    → chunk * u16_mod + index + 1 < u32_mod
    → (entity_build chunk index ≢ 0)
      × (entity_chunk (entity_build chunk index) ≡ chunk)
      × (entity_index (entity_build chunk index) ≡ index)
unfolding entity_build entity_chunk entity_index
entity_build_lem chunk index hc hi h =
    let e = bit_or-eq-add 16 chunk index hi in
    (omega (arith, e), omega (arith, e), omega (arith, e))

-- Every handle of 32 bits other than 0 is built from its own chunk and index.
pub entity_build-chunk-index :
    (e : ℕ) → e ≢ 0 → e < u32_mod → entity_build (entity_chunk e) (entity_index e) ≡ e
unfolding entity_build entity_chunk entity_index
entity_build-chunk-index e nz h = omega (
  arith,
  bit_or-eq-add 16 ((e + u32_mod - 1) % u32_mod / 2 ^ 16) ((e + u32_mod - 1) % u32_mod % u16_mod)
      (omega arith),
)
